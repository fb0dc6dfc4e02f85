-- ===== src/Ovdc/Resources.antt =====
-- vcdcluster.status.VcdResourceMap: updateVdcResourceToVcdCluster, removeVcdResourceFromVcdCluster
-- and the search of checkIfOvdcNameChange.
pub mod Laws
use cluster_api_provider_clo.Base.{String, Bool, List, [], ◌∷◌, ◌++◌, Option, none, some}
use cluster_api_provider_clo.Base.{◌==◌, ◌!=◌, string_eq, if◌then◌else◌}
use cluster_api_provider_clo.Api.{Err, message}
use cluster_api_provider_clo.Api.Cluster.{VcdCluster, VcdResource}

abbrev pub resource_type_ovdc : String
resource_type_ovdc = "ovdc"

abbrev pub with_ovdcs : VcdCluster → List VcdResource → VcdCluster
with_ovdcs c list = record c {
  status = record (c.status) { vcd_resource_map = record { ovdcs = list } };
}

-- The loop over the resources: the first one with the ID takes the name; if there is none, a new
-- one is appended.
unfoldable pub upsert : List VcdResource → String → String → List VcdResource
upsert [] resource_id resource_name =
    record { kind = ""; id = resource_id; name = resource_name } ∷ []
upsert (r ∷ rest) resource_id resource_name =
    if r.id == resource_id
    then (if r.name != resource_name then record r { name = resource_name } ∷ rest else r ∷ rest)
    else r ∷ upsert rest resource_id resource_name

unfoldable pub update_vdc_resource_to_vcd_cluster :
    VcdCluster → String → String → String → VcdCluster × Option Err
update_vdc_resource_to_vcd_cluster c kind resource_id resource_name =
    if kind == resource_type_ovdc
    then (with_ovdcs c (upsert c.status.vcd_resource_map.ovdcs resource_id resource_name), none)
    else (c, some (message "unsupported VCD resource type"))

-- The list without its first resource with the ID, if there is one.
unfoldable pub remove_first : List VcdResource → String → Option (List VcdResource)
remove_first [] resource_id = none
remove_first (r ∷ rest) resource_id =
    let shorter = remove_first rest resource_id in
    if r.id == resource_id
    then some rest
    else elim shorter [ none ↦ none | some list ↦ some (r ∷ list) ]

unfoldable pub remove_vcd_resource_from_vcd_cluster :
    VcdCluster → String → String → VcdCluster × Option Err
remove_vcd_resource_from_vcd_cluster c kind resource_id =
    if kind == resource_type_ovdc
    then elim (remove_first c.status.vcd_resource_map.ovdcs resource_id) [
      | none ↦ (c, some (message "resource with ID not found in VCD cluster"))
      | some list ↦ (with_ovdcs c list, none)
    ]
    else (c, some (message "unsupported VCD resource type"))

-- The ID of the last resource with the name; `found` is what earlier rounds have left.
unfoldable pub id_of_name : String → String → List VcdResource → String
id_of_name found name [] = found
id_of_name found name (r ∷ rest) = id_of_name (if r.name == name then r.id else found) name rest
