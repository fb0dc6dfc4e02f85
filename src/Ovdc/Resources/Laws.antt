-- ===== src/Ovdc/Resources/Laws.antt =====
-- The resource map as a map from IDs to names.
use cluster_api_provider_clo.Base.{String, List, [], ◌∷◌, Option, none, some}
use cluster_api_provider_clo.Base.{◌≡◌, refl, ◌≢◌, ◌⊎◌, ◌==◌, string_eq, if◌then◌else◌, arith}
use cluster_api_provider_clo.Api.Cluster.{VcdCluster, VcdResource}
use cluster_api_provider_clo.Ovdc.Resources.{resource_type_ovdc, upsert, remove_first}
use cluster_api_provider_clo.Ovdc.Resources.{update_vdc_resource_to_vcd_cluster}
use cluster_api_provider_clo.Ovdc.Resources.{remove_vcd_resource_from_vcd_cluster}

-- The name of the first resource with an ID.
pub name_of : String → List VcdResource → Option String
name_of resource_id [] = none
name_of resource_id (r ∷ rest) =
    if r.id == resource_id then some r.name else name_of resource_id rest

-- No two resources have one ID.
abbrev pub HasDistinctIds : List VcdResource → Type 0
HasDistinctIds [] = Unit
HasDistinctIds (r ∷ rest) = (name_of r.id rest ≡ none) × HasDistinctIds rest

pub name_of-upsert :
    (list : List VcdResource) (i n j : String)
    → name_of j (upsert list i n) ≡ (if i == j then some n else name_of j list)
unfolding name_of upsert
name_of-upsert [] i n j = refl
name_of-upsert (r ∷ rest) i n j = ground (arith, name_of-upsert rest i n j)

pub upsert-HasDistinctIds :
    (list : List VcdResource) (i n : String)
    → HasDistinctIds list
    → HasDistinctIds (upsert list i n)
unfolding upsert
upsert-HasDistinctIds [] i n u = (unfold name_of in refl, tt)
upsert-HasDistinctIds (r ∷ rest) i n (fresh, u) =
    ground (arith, upsert-HasDistinctIds rest i n u, name_of-upsert rest i n r.id)

upsert_twice :
    (list : List VcdResource) (i n : String) → upsert (upsert list i n) i n ≡ upsert list i n
unfolding upsert
upsert_twice [] i n = ground arith
upsert_twice (r ∷ rest) i n = ground (arith, upsert_twice rest i n)

-- updateVdcResourceToVcdCluster for the OVDC type returns no error. If the IDs of the map are
-- distinct they stay distinct, the ID has the new name and every other ID the one it had, and a
-- second update with the same arguments changes nothing.
pub update_vdc_resource_lem :
    (c : VcdCluster) (i n j : String)
    → HasDistinctIds c.status.vcd_resource_map.ovdcs
    → let (c', err) = update_vdc_resource_to_vcd_cluster c resource_type_ovdc i n in
      (err ≡ none)
      × (name_of j c'.status.vcd_resource_map.ovdcs
          ≡ (if i == j then some n else name_of j c.status.vcd_resource_map.ovdcs))
      × HasDistinctIds c'.status.vcd_resource_map.ovdcs
      × ((update_vdc_resource_to_vcd_cluster c' resource_type_ovdc i n).0 ≡ c')
unfolding update_vdc_resource_to_vcd_cluster
update_vdc_resource_lem c i n j u = ground (
  arith,
  name_of-upsert c.status.vcd_resource_map.ovdcs i n j,
  upsert-HasDistinctIds c.status.vcd_resource_map.ovdcs i n u,
  upsert_twice c.status.vcd_resource_map.ovdcs i n,
)

-- What a removal did to the names: an ID that was not there is refused, and otherwise exactly that
-- ID is gone.
abbrev Removed : String → String → List VcdResource → Option (List VcdResource) → Type 0
Removed i j list none = name_of i list ≡ none
Removed i j list (some list') =
    (name_of i list ≢ none)
    × (name_of j list' ≡ (if i == j then none else name_of j list))
    × HasDistinctIds list'

remove_first-Removed :
    (list : List VcdResource) (i j : String)
    → HasDistinctIds list
    → Removed i j list (remove_first list i)
unfolding remove_first name_of
remove_first-Removed [] i j u = refl
remove_first-Removed (r ∷ rest) i j (fresh, u) =
    ground (arith, remove_first-Removed rest i j u, remove_first-Removed rest i r.id u)

-- removeVcdResourceFromVcdCluster for the OVDC type, on a map with distinct IDs, fails exactly when
-- the ID is not in the map, and then the cluster is unchanged; otherwise the ID is gone and every
-- other ID keeps its name.
pub remove_vcd_resource_lem :
    (c : VcdCluster) (i j : String)
    → HasDistinctIds c.status.vcd_resource_map.ovdcs
    → let (c', err) = remove_vcd_resource_from_vcd_cluster c resource_type_ovdc i in
      let old = c.status.vcd_resource_map.ovdcs in
      ((err ≢ none) × (name_of i old ≡ none) × (c' ≡ c))
      ⊎ ((err ≡ none)
          × (name_of i old ≢ none)
          × (name_of j c'.status.vcd_resource_map.ovdcs ≡ (if i == j then none else name_of j old)))
unfolding remove_vcd_resource_from_vcd_cluster
remove_vcd_resource_lem c i j u =
    ground (arith, remove_first-Removed c.status.vcd_resource_map.ovdcs i j u)
