-- ===== src/Machine/CloudInit/Laws.antt =====
-- The merged cloud-init map, key by key.
use cluster_api_provider_clo.Base.{String, Bool, true, Option, none, some, ◌≡◌, arith}
use cluster_api_provider_clo.Base.{
  ◌==◌, string_eq, ◌&&◌, is_none, is_some, if◌then◌else◌, Option-cases, inl, inr,
}
use cluster_api_provider_clo.Effect.{ret}
use cluster_api_provider_clo.Json.{Value, Fields, end, field, get, put, get-put}
use cluster_api_provider_clo.Vcd.Env.{Store}
use cluster_api_provider_clo.Machine.CloudInit.{join, joined, merge_template, merge_remaining}

-- A map has no key twice.
unfoldable pub unique_keys : Fields → Bool
unique_keys end = true
unique_keys (field key value rest) = is_none (get key rest) && unique_keys rest

-- The value of a key that the template has: the template's own, or both lists.
unfoldable pub template_value : String → Value → Option Value → Option Value
template_value key value none = some value
template_value key value (some other) =
    if key == "runcmd"
    then some value
    else elim (join value other) [ joined both ↦ some both | _ ↦ none ]

-- The value of a key in the merged map, from the values in the template and in the script.
unfoldable pub merged_value : String → Option Value → Option Value → Option Value
merged_value key none other = other
merged_value key (some value) other = template_value key value other

template_step :
    (jinja : Fields) (name : String) (value : Value) (rest merged result : Fields) (s t : Store)
    → merge_template jinja (field name value rest) merged s ≡ ret (result, none) t
    → (both : Value) → template_value name value (get name jinja) ≡ some both
    → merge_template jinja rest (put name both merged) s ≡ ret (result, none) t
unfolding merge_template template_value
template_step jinja name value rest merged result s t e both v = ground arith

template_some :
    (jinja : Fields) (name : String) (value : Value) (rest merged result : Fields) (s t : Store)
    → merge_template jinja (field name value rest) merged s ≡ ret (result, none) t
    → is_some (template_value name value (get name jinja)) ≡ true
unfolding merge_template template_value
template_some jinja name value rest merged result s t e = ground arith

-- The value after the loop over the template, from the values in the script, before the loop and in
-- the template.
unfoldable from_template : String → Option Value → Option Value → Option Value → Option Value
from_template key other before none = before
from_template key other before (some value) = template_value key value other

template_get_end :
    (key : String) (jinja merged result : Fields) (s t : Store)
    → merge_template jinja end merged s ≡ ret (result, none) t
    → get key result ≡ from_template key (get key jinja) (get key merged) (get key end)
unfolding merge_template from_template get
template_get_end key jinja merged result s t e = grind arith

-- One step of the loop, for a key that the rest does not have if it is the key of the step.
template_get_step :
    (key name : String) (value both : Value) (jinja rest merged result : Fields)
    → unique_keys (field name value rest) ≡ true
    → template_value name value (get name jinja) ≡ some both
    → get key result
      ≡ from_template key (get key jinja) (get key (put name both merged)) (get key rest)
    → get key result
      ≡ from_template key (get key jinja) (get key merged) (get key (field name value rest))
unfolding from_template get unique_keys
template_get_step key name value both jinja rest merged result u found later =
    grind (arith, get-put name key both merged)

template_get :
    (key : String) (jinja vcd merged result : Fields) (s t : Store)
    → merge_template jinja vcd merged s ≡ ret (result, none) t
    → unique_keys vcd ≡ true
    → get key result ≡ from_template key (get key jinja) (get key merged) (get key vcd)
unfolding unique_keys
template_get key jinja end merged result s t e u = template_get_end key jinja merged result s t e
template_get key jinja (field name value rest) merged result s t e u =
    elim (Option-cases (template_value name value (get name jinja))) [
      | inl missing ↦
          absurd
            (let there = template_some jinja name value rest merged result s t e in ground arith)
      | inr (both, found) ↦
          let step = template_step jinja name value rest merged result s t e both found in
          template_get_step key name value both jinja rest merged result u found
            (template_get key jinja rest (put name both merged) result s t step (ground arith))
    ]

remaining_get :
    (key : String) (vcd jinja merged : Fields)
    → unique_keys jinja ≡ true
    → get key (merge_remaining vcd jinja merged)
      ≡ (if is_none (get key vcd) && is_some (get key jinja) then get key jinja else get key merged)
unfolding merge_remaining unique_keys get
remaining_get key vcd end merged u = ground arith
remaining_get key vcd (field name value rest) merged u = grind (
  arith,
  get-put name key value merged,
  remaining_get key vcd rest merged,
  remaining_get key vcd rest (put name value merged),
)

-- If the merge of the template's map with the script's map returns no error, and neither map has a
-- key twice, the merged map has each key of either map and no other: with the value of the map that
-- has it alone, with the template's value for runcmd, and with the template's list followed by the
-- script's for any other key of both.
pub merge-merged_value :
    (key : String) (jinja vcd result : Fields) (s t : Store)
    → merge_template jinja vcd end s ≡ ret (result, none) t
    → unique_keys vcd ≡ true
    → unique_keys jinja ≡ true
    → get key (merge_remaining vcd jinja result) ≡ merged_value key (get key vcd) (get key jinja)
unfolding merged_value from_template get
merge-merged_value key jinja vcd result s t e u v =
    grind
      (arith, template_get key jinja vcd end result s t e u, remaining_get key vcd jinja result v)
