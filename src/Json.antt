-- ===== src/Json.antt =====
-- `map[string]interface{}` as it comes from a JSON document.
use cluster_api_provider_clo.Base.{String, ℕ, Bool, Option, none, some}
use cluster_api_provider_clo.Base.{◌==◌, string_eq, if◌then◌else◌, ◌≡◌, refl, arith}

mutual
  pub data Value : Type 0 where
    null : Value
    flag : Bool → Value
    num : ℕ → Value
    text : String → Value
    list : Items → Value
    object : Fields → Value

  pub data Items : Type 0 where
    nil : Items
    item : Value → Items → Items

  pub data Fields : Type 0 where
    end : Fields
    field : String → Value → Fields → Fields

-- `m[key]`
unfoldable pub get : String → Fields → Option Value
get key end = none
get key (field name value rest) = if name == key then some value else get key rest

-- `m[key] = value`
unfoldable pub put : String → Value → Fields → Fields
put key value end = field key value end
put key value (field name old rest) =
    if name == key then field key value rest else field name old (put key value rest)

-- `value.(map[string]interface{})`
abbrev pub as_object : Value → Option Fields
as_object (object fields) = some fields
as_object _ = none

abbrev pub as_flag : Value → Option Bool
as_flag (flag b) = some b
as_flag _ = none

pub get-put :
    (key other : String) (value : Value) (m : Fields)
    → get other (put key value m) ≡ (if key == other then some value else get other m)
unfolding get put
get-put key other value end = refl
get-put key other value (field name old rest) = ground (arith, get-put key other value rest)
