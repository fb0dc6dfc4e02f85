-- ===== src/Cluster/Delete.antt =====
-- deleteLB, reconcileDeleteSingleVApp, reconcileDeleteVApps, reconcileDeleteRDE, reconcileDelete.
pub mod Keeps
pub mod Laws
pub mod Finalizer
pub mod Guards
use cluster_api_provider_clo.Base.{String, ℕ, Bool, true, false, Option, none, some, List, [], ◌∷◌}
use cluster_api_provider_clo.Base.{is_some, is_none, ◌==◌, ◌!=◌, string_eq, nat_eq, not, ◌&&◌, ◌||◌}
use cluster_api_provider_clo.Base.{if◌then◌else◌, starts_with, ◌<>◌}
use cluster_api_provider_clo.Effect.{Body, Fun, ◌>>=◌, ◌>>◌, leave, pure, crash, call, run}
use cluster_api_provider_clo.Effect.{if_nil, if_empty, when, exit, next, panic, ret, panicked}
use cluster_api_provider_clo.Api.{Err, message, CtrlResult, Reply}
use cluster_api_provider_clo.Api.Cluster.{VcdCluster}
use cluster_api_provider_clo.Vcd.{Client, VApp}
use cluster_api_provider_clo.Vcd.Calls.{new_gateway_manager, delete_load_balancer, new_vdc_manager}
use cluster_api_provider_clo.Vcd.Calls.{get_vapp_by_name, get_metadata_by_key, delete_vapp}
use cluster_api_provider_clo.Vcd.Calls.{
  remove_from_vcd_resource_set, get_org_by_name, new_patch_helper,
}
use cluster_api_provider_clo.Vcd.Calls.{get_defined_entities, resolve_defined_entity}
use cluster_api_provider_clo.Vcd.Calls.{delete_defined_entity}
use cluster_api_provider_clo.Vcd.Env.{Env, Store, ask, the_cluster, update_cluster}
use cluster_api_provider_clo.Ovdc.Client.{is_entity_not_found, create_vcd_client_from_secrets}
use cluster_api_provider_clo.Ovdc.Resources.{update_vdc_resource_to_vcd_cluster, resource_type_ovdc}
use cluster_api_provider_clo.Rde.Sets.{report_error, report_event, clear_error}
use cluster_api_provider_clo.Rde.Sets.{virtual_service_name_prefix}
use cluster_api_provider_clo.Cluster.Common.{done, tcp_port, status_ok, no_rde_prefix}
use cluster_api_provider_clo.Cluster.Common.{cluster_finalizer, load_balancer_available_condition}
use cluster_api_provider_clo.Cluster.Common.{with_conditions, with_finalizers}
use cluster_api_provider_clo.Cluster.Common.{patch_vcd_cluster}

module _ (env : Env) where
  unfoldable pub delete_lb : Option Client → String → String → ℕ → Fun Store (Option Err)
  delete_lb vcd_client ovdc_network_name ovdc_name control_plane_port = run do
    when (is_none vcd_client) (leave (some (message "vcdClient is nil")))
    c ← the_cluster
    let subnet = c.spec.load_balancer_config_spec.vip_subnet
    err ← ask (new_gateway_manager ovdc_network_name subnet ovdc_name) env.error_reply
    when (is_some err) do
      report_error env "VCDClusterError" "" c.meta.name
      leave (env.wrapf err "failed to create gateway manager")
    _ ← clear_error env "VCDClusterError" "" ""
    let virtual_service_prefix = virtual_service_name_prefix c.meta.name c.status.infra_id
    let lb_pool_prefix = virtual_service_name_prefix c.meta.name c.status.infra_id
    let one_arm = c.spec.load_balancer_config_spec.use_one_arm
    failed ←
        ask (delete_load_balancer virtual_service_prefix lb_pool_prefix control_plane_port one_arm)
          env.error_reply
    when (is_some failed) do
      report_error env "LoadBalancerError" "" virtual_service_prefix
      leave (env.wrapf failed "unable to delete the load balancer")
    report_event env "LoadbalancerDeleted" virtual_service_prefix "" true
    _ ← clear_error env "LoadBalancerError" "" ""
    _ ← clear_error env "VCDClusterError" "" c.meta.name
    pure none

  -- The part of reconcileDeleteSingleVApp below the checks: a vApp without VMs is deleted, and the
  -- RDE is told.
  unfoldable pub delete_empty_vapp : VApp → String → Fun Store Reply
  delete_empty_vapp vapp vapp_name = run do
    c ← the_cluster
    when (is_some (vapp.children)) do
      report_error env "VCDClusterVAppDeleteError" "" c.meta.name
      leave (done, some (message "VMs detected in the vApp"))
    err ← ask (delete_vapp vapp_name) env.error_reply
    when (is_some err) do
      report_error env "VCDClusterVAppDeleteError" "" vapp_name
      leave (done, env.wrapf err "failed to delete vApp")
    e ← ask (remove_from_vcd_resource_set "VApp" c.meta.name) env.error_reply
    when (is_some e) (report_error env "RdeError" "" c.meta.name)
    _ ← clear_error env "RdeError" "" c.meta.name
    report_event env "vAppDeleted" "" "" true
    _ ← clear_error env "VCDClusterVAppDeleteError" "" ""
    pure (done, none)

  unfoldable pub reconcile_delete_single_vapp : String → String → Option Client → Fun Store Reply
  reconcile_delete_single_vapp ovdc_name vapp_name vcd_client = run do
    c ← the_cluster
    if_nil vcd_client (leave (done, some (message "vcdClient is nil"))) λ client. do
      (vdc, err) ← ask (new_vdc_manager client.cluster_org_name ovdc_name) env.vdc_reply
      when (is_some err) do
        report_error env "VCDClusterError" "" c.meta.name
        leave (done, env.wrapf err "Error creating vdc manager")
      when (is_none vdc) crash
      (vapp, e) ← ask (get_vapp_by_name vapp_name) env.vapp_reply
      when (is_some e && not (is_entity_not_found e))
          (leave (done, env.wrapf e "Error occurred during vApp deletion"))
      when (is_some e) (leave (done, none))
      if_nil vapp (leave (done, none)) λ found. do
        (infra_id, failed) ← ask (get_metadata_by_key found.id "CapvcdInfraId") env.text_reply
        when (is_some failed) do
          report_error env "VCDClusterError" "" vapp_name
          leave (done, some (message "Error occurred during fetching metadata in vApp"))
        when (infra_id != c.status.infra_id) do
          report_error env "VCDClusterError" "" vapp_name
          leave (done, some (message "failed to delete vApp"))
        _ ← clear_error env "VCDClusterError" "" ""
        call (delete_empty_vapp found vapp_name)

  unfoldable pub reconcile_delete_vapps : Option Client → Fun Store Reply
  reconcile_delete_vapps vcd_client = run do
    when (is_none vcd_client) (leave (done, some (message "vcdClient is nil")))
    c ← the_cluster
    (result, err) ← call (reconcile_delete_single_vapp c.spec.ovdc c.meta.name vcd_client)
    when (is_some err) (leave (result, env.wrapf err "unable to get delete single vApp"))
    pure (done, none)

  -- The entity is resolved and then deleted; a status code other than 200 of the resolution is
  -- logged only. A response that is nil where its status is read panics.
  unfoldable pub delete_entity : String → String → Fun Store (Option Err)
  delete_entity infra_id org_id = run do
    resolved ← ask (resolve_defined_entity infra_id) env.resolve_reply
    when (is_some (resolved.error)) do
      report_error env "RdeError" "" ""
      leave (env.wrapf (resolved.error) "error occurred while resolving defined entity")
    when (is_none (resolved.status_code)) crash
    (code, err) ← ask (delete_defined_entity infra_id) env.response_reply
    when (is_some err) do
      report_error env "RdeError" "" ""
      leave (env.wrapf err "failed to execute delete defined entity call")
    if_nil code crash λ status. do
      when (status != 204) do
        report_error env "RdeError" "" ""
        leave (some (message "error deleting defined entity"))
      pure none

  unfoldable pub reconcile_delete_rde : Option Client → Fun Store (Option Err)
  reconcile_delete_rde vcd_client = run do
    c ← the_cluster
    let infra_id = c.status.infra_id
    if_nil vcd_client (leave (some (message "vcdClient is nil"))) λ client. do
      when (infra_id == "" || starts_with infra_id no_rde_prefix) (leave none)
      (org, err) ← ask (get_org_by_name client.cluster_org_name) env.org_reply
      when (is_some err) (leave (env.wrapf (some (message "failed to get org by name")) ""))
      if_nil org (leave (env.wrapf (some (message "invalid org ref obtained")) "")) λ o. do
        entities ← ask (get_defined_entities ("id==" <> infra_id)) env.entities_reply
        when (is_some (entities.error)) do
          report_error env "RdeError" "" ""
          leave (env.wrapf (entities.error) "failed to fetch defined entities")
        let bad : Bool = elim (entities.status_code) [
          | none ↦ false
          | some code ↦ code != status_ok
        ]
        when bad do
          report_error env "RdeError" "" ""
          leave (some (message "error while fetching defined entities"))
        if_empty (entities.values) (pure none) (call (delete_entity infra_id o.id))

  -- The part of reconcileDelete below the client. The last step hands `failed` on, which is nil
  -- there, in place of the error of reconcileDeleteRDE.
  unfoldable pub delete_infrastructure : Client → Fun Store Reply
  delete_infrastructure client = run do
    c ← the_cluster
    let port = c.spec.control_plane_endpoint.port
    let control_plane_port = if port == 0 then tcp_port else port
    lb ← call (delete_lb (some client) c.spec.ovdc_network c.spec.ovdc control_plane_port)
    when (is_some lb) (leave (done, env.wrapf lb "unable to delete LB"))
    (result, failed) ← call (reconcile_delete_vapps (some client))
    when (is_some failed) (leave (result, env.wrapf failed "failed to delete vApp"))
    delete_err ← call (reconcile_delete_rde (some client))
    when (is_some delete_err) (leave (done, env.wrapf failed "error occurred during deleting RDE"))
    update_cluster λ d. with_finalizers (env.remove_finalizer d.meta.finalizers cluster_finalizer) d
    pure (done, none)

  unfoldable pub reconcile_delete : Fun Store Reply
  reconcile_delete = run do
    helper ← ask new_patch_helper env.error_reply
    when (is_some helper) (leave (done, helper))
    update_cluster λ c.
        let marked =
          env.mark_false c.status.conditions load_balancer_available_condition "Deleting" "Info" in
        record c {
          status = record (c.status) { conditions = marked; vapp_metadata_updated = true };
        }
    patched ← call (patch_vcd_cluster env)
    when (is_some patched) (leave (done, env.wrapf patched "failed to patch VCDCluster"))
    (client, err) ← call (create_vcd_client_from_secrets env)
    when (is_some err) (leave (done, env.wrapf err "Error creating VCD client"))
    if_nil client crash λ found.
        if_nil (found.vdc)
          (leave (done, env.wrapf none "failed to get the Organization VDC (OVDC)"))
          λ vdc. do
            before ← the_cluster
            let updated =
                update_vdc_resource_to_vcd_cluster before resource_type_ovdc vdc.id vdc.name
            update_cluster
                λ d. (update_vdc_resource_to_vcd_cluster d resource_type_ovdc vdc.id vdc.name).0
            when (is_some updated.1)
                (leave (done, env.wrapf updated.1 "Error updating vcdResource"))
            call (delete_infrastructure found)
