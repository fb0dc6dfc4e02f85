-- ===== src/Rde/Convert/Laws.antt =====
-- What an upgrade of an RDE keeps of the status section.
use cluster_api_provider_clo.Base.{String, Option, none, some, List, [], ◌∷◌}
use cluster_api_provider_clo.Base.{
  ◌≡◌, ◌==◌, ◌||◌, Bool, string_eq, contains, if◌then◌else◌, arith, refl,
}
use cluster_api_provider_clo.Json.{Fields, Value, get, end, get-put, as_object}
use cluster_api_provider_clo.Vcd.{DefinedEntity}
use cluster_api_provider_clo.Vcd.Env.{Env}
use cluster_api_provider_clo.Rde.Convert.{retain, retained_sections, from_100, new_status}

-- The value of the first map, and that of the second where it has none.
abbrev or_else : Option Value → Option Value → Option Value
or_else a b = elim a [ none ↦ b | some v ↦ some v ]

get-retain :
    (sections : List String) (key : String) (old new : Fields)
    → get key (retain sections old new)
      ≡ (if contains sections key then or_else (get key old) (get key new) else get key new)
unfolding retain
get-retain [] key old new = refl
get-retain (s ∷ sections) key old new = grind (arith, get-retain sections key old, get-put)

-- The status section of an entity; an empty map where there is none.
abbrev pub status_of : DefinedEntity → Fields
status_of e = elim (get "status" e.entity) [
  | none ↦ end
  | some value ↦ elim (as_object value) [ none ↦ end | some m ↦ m ]
]

retain-end :
    (sections : List String) (key : String) (m : Fields)
    → get key (retain sections m end) ≡ (if contains sections key then get key m else none)
unfolding get
retain-end sections key m = ground (arith, get-retain sections key m end)

-- The sections of a status section that is a map.
retained_status : List String → Fields → Fields
retained_status sections content = elim (get "status" content) [
  | none ↦ end
  | some value ↦ elim (as_object value) [ none ↦ end | some m ↦ retain sections m end ]
]

retained_status-get :
    (sections : List String) (e : DefinedEntity) (key : String)
    → get key (retained_status sections e.entity)
      ≡ (if contains sections key then get key (status_of e) else none)
unfolding retained_status get
retained_status-get sections e key = grind (arith, retain-end sections key)

from_100-map :
    (env : Env) (src got : DefinedEntity)
    → status_of (from_100 env src got) ≡ retained_status retained_sections got.entity
unfolding from_100 new_status retained_status
from_100-map env src got = grind (arith, get-put)

-- The keys of the sections that an upgrade keeps.
unfoldable pub is_kept : String → Bool
is_kept key =
    key == "persistentVolumes"
    || (key == "virtualIPs" || (key == "vcdKe" || (key == "cpi" || key == "csi")))

contains-is_kept : (key : String) → contains retained_sections key ≡ is_kept key
unfolding is_kept
contains-is_kept key = ground arith

-- The status section of an entity upgraded from 1.0.0 has, under persistentVolumes, virtualIPs,
-- vcdKe, cpi and csi, what the old one had there, and nothing under any other key.
pub from_100-status :
    (env : Env) (src got : DefinedEntity) (key : String)
    → get key (status_of (from_100 env src got))
      ≡ (if is_kept key then get key (status_of got) else none)
from_100-status env src got key =
    rw (from_100-map env src got, ← contains-is_kept key)
      (retained_status-get retained_sections got key)
