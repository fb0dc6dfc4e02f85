-- ===== src/Tests/Steps.antt =====
-- The theorems on single steps at work, and those on errors.
use cluster_api_provider_clo.Base.{
  ◌==◌, Bool, String, List, true, false, Option, none, some, [], ◌∷◌, ◌≡◌, ◌≢◌, ◌⊎◌, ◌↔◌,
}
use cluster_api_provider_clo.Base.{refl, string_eq, nat_eq, ◌≤◌, ◌+◌}
use cluster_api_provider_clo.Effect.{Result, ret, Returns, Panics}
use cluster_api_provider_clo.Api.{Err, message, Reply}
use cluster_api_provider_clo.Api.Cluster.{VcdCluster}
use cluster_api_provider_clo.Json.{get}
use cluster_api_provider_clo.Vcd.{Client}
use cluster_api_provider_clo.Vcd.Calls.{get_vdc_by_id, get_org_by_name}
use cluster_api_provider_clo.Vcd.Env.{Env, Store}
use cluster_api_provider_clo.Cluster.Common.{done}
use cluster_api_provider_clo.Cluster.Delete.{delete_infrastructure, delete_lb}
use cluster_api_provider_clo.Cluster.Delete.{reconcile_delete_vapps, reconcile_delete_single_vapp}
use cluster_api_provider_clo.Cluster.Delete.{delete_empty_vapp, reconcile_delete_rde, delete_entity}
use cluster_api_provider_clo.Cluster.Delete.Guards.{delete_port, delete_infrastructure-swallows}
use cluster_api_provider_clo.Cluster.Validate.{validate_derived_rde_properties}
use cluster_api_provider_clo.Cluster.Validate.Laws.{Admissible, validate_derived_rde_properties_lem}
use cluster_api_provider_clo.Rde.Types.{StatusPatch}
use cluster_api_provider_clo.Rde.Patch.{patch_rde}
use cluster_api_provider_clo.Rde.Patch.{set_is_management_cluster_in_rde, max_update_retries}
use cluster_api_provider_clo.Rde.Patch.Laws.{updates, Worked, patch_rde_lem}
use cluster_api_provider_clo.Rde.Patch.Laws.{set_is_management_cluster_fails}
use cluster_api_provider_clo.Rde.Convert.{from_100}
use cluster_api_provider_clo.Rde.Convert.Laws.{is_kept, status_of, from_100-status}
use cluster_api_provider_clo.Ovdc.Client.{create_vcd_client_from_secrets, update_client_with_vdc}
use cluster_api_provider_clo.Ovdc.Client.{user_credentials_for_cluster, ovdc_by_name}
use cluster_api_provider_clo.Ovdc.Client.Laws.{HasVdc, create_vcd_client-HasVdc}
use cluster_api_provider_clo.Ovdc.Client.Laws.{update_client_with_vdc_renamed}
use cluster_api_provider_clo.Ovdc.Resources.{update_vdc_resource_to_vcd_cluster, upsert, id_of_name}
use cluster_api_provider_clo.Ovdc.Resources.{
  remove_vcd_resource_from_vcd_cluster, resource_type_ovdc,
}
use cluster_api_provider_clo.Ovdc.Resources.{with_ovdcs}
use cluster_api_provider_clo.Ovdc.Resources.Laws.{HasDistinctIds, name_of, upsert-HasDistinctIds}
use cluster_api_provider_clo.Ovdc.Resources.Laws.{update_vdc_resource_lem, remove_vcd_resource_lem}
use cluster_api_provider_clo.Machine.PostCustomization.{Round, returned, check_script, wait}
use cluster_api_provider_clo.Machine.PostCustomization.{str_in_slice, remove_from_slice, last_of}
use cluster_api_provider_clo.Machine.PostCustomization.{wait_for_post_customization_phase}
use cluster_api_provider_clo.Machine.PostCustomization.Laws.{settles, invalid_status_accepted}
use cluster_api_provider_clo.Machine.PostCustomization.Laws.{
  quiet, quiet_calls, begun_after, is_invalid,
}
use cluster_api_provider_clo.Machine.PostCustomization.Laws.{
  wait_for_post_customization_phase-settles,
}
use cluster_api_provider_clo.Tests.{calm, leaving, running, objects}
use cluster_api_provider_clo.Tests.{client, fresh_client, old_entity, acme, renamed, store_of}

rde_id_set : running.cluster.status.infra_id ≢ ""
rde_id_set = λ e. cc

patch_rde_lem_example :
    Returns
      (λ r t.
        (updates t.trace ≤ updates running.trace + max_update_retries)
        × ((r.1 ≢ none) ⊎ Worked calm false running.trace t.trace))
      (patch_rde calm client [] [] (StatusPatch.phase "Provisioned" ∷ []) "rde-1" none running)
patch_rde_lem_example =
    patch_rde_lem calm client [] [] (StatusPatch.phase "Provisioned" ∷ []) "rde-1" none running

from_100-status_example :
    get "cpi" (status_of (from_100 calm old_entity old_entity)) ≡ get "cpi" (status_of old_entity)
unfolding get string_eq is_kept
from_100-status_example = from_100-status calm old_entity old_entity "cpi"

set_is_management_cluster_fails_example :
    Returns (λ r t. r ≢ none) (set_is_management_cluster_in_rde calm client "rde-1" running)
set_is_management_cluster_fails_example =
    set_is_management_cluster_fails calm client "rde-1" running rde_id_set

-- A cluster with its OVDC in the resource map.
abbrev mapped : VcdCluster
mapped = with_ovdcs running.cluster (upsert [] "vdc-1" "pool")

mapped-HasDistinctIds : HasDistinctIds (upsert [] "vdc-1" "pool")
mapped-HasDistinctIds = upsert-HasDistinctIds [] "vdc-1" "pool" tt

update_vdc_resource_lem_example :
    let (c', err) = update_vdc_resource_to_vcd_cluster mapped resource_type_ovdc "vdc-1" "pool-2" in
    (err ≡ none)
    × (name_of "vdc-1" c'.status.vcd_resource_map.ovdcs ≡ some "pool-2")
    × HasDistinctIds c'.status.vcd_resource_map.ovdcs
    × ((update_vdc_resource_to_vcd_cluster c' resource_type_ovdc "vdc-1" "pool-2").0 ≡ c')
unfolding string_eq
update_vdc_resource_lem_example =
    update_vdc_resource_lem mapped "vdc-1" "pool-2" "vdc-1" mapped-HasDistinctIds

remove_vcd_resource_lem_example :
    let (c', err) = remove_vcd_resource_from_vcd_cluster mapped resource_type_ovdc "vdc-1" in
    let old = mapped.status.vcd_resource_map.ovdcs in
    ((err ≢ none) × (name_of "vdc-1" old ≡ none) × (c' ≡ mapped))
    ⊎ ((err ≡ none)
        × (name_of "vdc-1" old ≢ none)
        × (name_of "vdc-1" c'.status.vcd_resource_map.ovdcs ≡ none))
unfolding string_eq
remove_vcd_resource_lem_example =
    remove_vcd_resource_lem mapped "vdc-1" "vdc-1" mapped-HasDistinctIds

validate_derived_rde_properties_lem_example :
    (validate_derived_rde_properties calm running.cluster "rde-1" "1.1.0" ≡ none)
    ↔ Admissible calm running.cluster "rde-1" "1.1.0"
validate_derived_rde_properties_lem_example =
    validate_derived_rde_properties_lem calm running.cluster "rde-1" "1.1.0"

abbrev connected : Result Store (Option Client × Option Err)
connected = create_vcd_client_from_secrets calm running

connected_run : connected ≡ ret (some client, none) (objects connected)
unfolding create_vcd_client_from_secrets user_credentials_for_cluster update_client_with_vdc
    ovdc_by_name
connected_run = refl

create_vcd_client-HasVdc_example : HasVdc (some client)
create_vcd_client-HasVdc_example =
    create_vcd_client-HasVdc calm (some client) running (objects connected) connected_run

-- Cloud Director refuses to delete the RDE.
abbrev refusing : Env
refusing = record calm { response_reply = λ t. (some 500, none) }

abbrev lb_done : Result Store (Option Err)
lb_done = delete_lb refusing (some client) "net" "pool" (delete_port refusing leaving) leaving

lb_run : lb_done ≡ ret none (objects lb_done)
unfolding delete_lb
lb_run = refl

abbrev vapps_done : Result Store Reply
vapps_done = reconcile_delete_vapps refusing (some client) (objects lb_done)

vapps_run : vapps_done ≡ ret (done, none) (objects vapps_done)
unfolding reconcile_delete_vapps reconcile_delete_single_vapp string_eq delete_lb delete_empty_vapp
vapps_run = refl

abbrev rde_done : Result Store (Option Err)
rde_done = reconcile_delete_rde refusing (some client) (objects vapps_done)

rde_run : rde_done ≡ ret (some (message "error deleting defined entity")) (objects rde_done)
unfolding reconcile_delete_rde string_eq reconcile_delete_vapps reconcile_delete_single_vapp
    delete_lb delete_empty_vapp nat_eq delete_entity
rde_run = refl

delete_infrastructure-swallows_example :
    Returns
      (λ r t. (r.0 ≡ done) × ((r.1 ≡ none) × (t.cluster ≡ leaving.cluster)))
      (delete_infrastructure refusing client leaving)
delete_infrastructure-swallows_example =
    delete_infrastructure-swallows refusing client leaving (objects lb_done) (objects vapps_done)
      (objects rde_done) (done, none) (message "error deleting defined entity") lb_run vapps_run
      refl rde_run

known_id : id_of_name "" "pool" (upsert [] "vdc-1" "pool") ≢ ""
unfolding id_of_name upsert string_eq
known_id = λ e. cc

mapped_full : upsert [] "vdc-1" "pool" ≡ record { kind = ""; id = "vdc-1"; name = "pool" } ∷ []
unfolding upsert
mapped_full = refl

renamed_vdc : renamed.name ≢ "pool"
renamed_vdc = λ e. cc

vdc_found :
    calm.vdc_reply (
      get_vdc_by_id (id_of_name "" "pool" (upsert [] "vdc-1" "pool")) ∷ get_org_by_name "acme" ∷ [])
    ≡ (some renamed, none)
vdc_found = refl

update_client_with_vdc_renamed_example :
    Panics (update_client_with_vdc calm fresh_client (store_of mapped))
unfolding string_eq
update_client_with_vdc_renamed_example =
    update_client_with_vdc_renamed calm fresh_client (store_of mapped)
      (record { kind = ""; id = "vdc-1"; name = "pool" }) [] renamed acme mapped_full known_id refl
      vdc_found renamed_vdc refl

-- A round without an error.
abbrev round_of : String → Round
round_of status = record {
  refresh_error = none;
  status = status;
  status_error = none;
  script_status = "";
  script_error = none;
  reason_error = none;
  timed_out = false;
}

abbrev is_zero : String → Option Bool
is_zero words = some (words == "0")

abbrev no_error : Option Err
no_error = none

abbrev customized : List Round
customized = round_of "in_progress" ∷ round_of "successful" ∷ []

customized_run : wait_for_post_customization_phase calm is_zero none customized ≡ returned none
unfolding wait_for_post_customization_phase wait check_script str_in_slice remove_from_slice last_of
    string_eq
customized_run = refl

wait_for_post_customization_phase-settles_example :
    (no_error ≡ none) × (settles false customized ≡ true)
wait_for_post_customization_phase-settles_example =
    wait_for_post_customization_phase-settles calm is_zero none customized customized_run

begun_quiet : quiet false (round_of "in_progress" ∷ []) ≡ true
unfolding quiet quiet_calls string_eq
begun_quiet = refl

lost_read : quiet_calls (round_of "") ≡ true
unfolding quiet_calls
lost_read = refl

lost_status : is_invalid (begun_after false (round_of "in_progress" ∷ [])) "" ≡ true
unfolding begun_after string_eq
lost_status = refl

invalid_status_accepted_example :
    wait_for_post_customization_phase calm is_zero none (round_of "in_progress" ∷ round_of "" ∷ [])
    ≡ returned none
invalid_status_accepted_example =
    invalid_status_accepted calm is_zero (round_of "in_progress" ∷ []) (round_of "") [] begun_quiet
      lost_read lost_status
