-- ===== src/Cluster/Normal.antt =====
-- reconcileNormal and Reconcile.
pub mod Laws
pub mod InfraId
pub mod Finalizer
use cluster_api_provider_clo.Base.{String, ℕ, Bool, true, false, Option, none, some}
use cluster_api_provider_clo.Base.{is_some, is_none, ◌==◌, ◌!=◌, string_eq, nat_eq, not, ◌&&◌, ◌||◌}
use cluster_api_provider_clo.Base.{if◌then◌else◌}
use cluster_api_provider_clo.Effect.{Body, Fun, ◌>>=◌, ◌>>◌, leave, pure, crash, call, run, Result}
use cluster_api_provider_clo.Effect.{if_nil, when, exit, next, panic, ret, panicked}
use cluster_api_provider_clo.Api.{Err, not_found, CtrlResult, Reply}
use cluster_api_provider_clo.Api.Cluster.{VcdCluster, OwnerCluster}
use cluster_api_provider_clo.Vcd.{Client}
use cluster_api_provider_clo.Vcd.Calls.{get_vcd_cluster, get_owner_cluster, new_patch_helper}
use cluster_api_provider_clo.Vcd.Env.{Env, Store, ask, the_cluster, update_cluster}
use cluster_api_provider_clo.Rde.Sets.{report_error, report_event}
use cluster_api_provider_clo.Ovdc.Client.{create_vcd_client_from_secrets}
use cluster_api_provider_clo.Ovdc.Resources.{update_vdc_resource_to_vcd_cluster, resource_type_ovdc}
use cluster_api_provider_clo.Cluster.Common.{
  done, cluster_finalizer, load_balancer_available_condition,
}
use cluster_api_provider_clo.Cluster.Common.{with_finalizers, patch_vcd_cluster}
use cluster_api_provider_clo.Entity.Reconcile.{RdeReads, reconcile_rde}
use cluster_api_provider_clo.Cluster.InfraId.{reconcile_infra_id}
use cluster_api_provider_clo.Cluster.LoadBalancer.{reconcile_load_balancer}
use cluster_api_provider_clo.Cluster.Delete.{reconcile_delete}

-- The copy of the spec into the status, once the infra ID is set.
unfoldable pub copy_spec : VcdCluster → VcdCluster
copy_spec c = record c {
  status = record (c.status) {
    site = c.spec.site;
    org = c.spec.org;
    ovdc = c.spec.ovdc;
    ovdc_network = c.spec.ovdc_network;
    use_as_management_cluster = c.spec.use_as_management_cluster;
    parent_uid = c.spec.parent_uid;
    proxy_config = c.spec.proxy_config_spec;
    load_balancer_config = c.spec.load_balancer_config_spec;
  };
}

-- A cluster that is gone needs no work.
unfoldable pub unless_not_found : Err → Option Err
unless_not_found not_found = none
unless_not_found e = some e

-- The owner is a `*clusterv1.Cluster` that is not nil.
module _ (env : Env) (reads : RdeReads) (skip_rde : Bool) where
  abbrev mark_ready : VcdCluster → VcdCluster
  mark_ready c = record c {
    status = record (c.status) {
      ready = true;
      conditions = env.mark_true c.status.conditions load_balancer_available_condition;
    };
  }

  -- The part below the load balancer: an error of the RDE is logged only.
  unfoldable pub finish : OwnerCluster → Client → Bool → Fun Store Reply
  finish owner client skip_rde_event_updates = run do
    _ ← call (reconcile_rde env reads owner (some client) none)
    update_cluster mark_ready
    c ← the_cluster
    when (owner.control_plane_ready)
        (report_event env "ControlplaneReady" c.status.infra_id "" skip_rde_event_updates)
    pure (done, none)

  -- The OVDC of the client, recorded in the cluster.
  unfoldable pub record_ovdc : Client → Fun Store (Option Err)
  record_ovdc client = run do
    if_nil (client.vdc) (pure none) λ vdc. do
      before ← the_cluster
      let updated = update_vdc_resource_to_vcd_cluster before resource_type_ovdc vdc.id vdc.name
      update_cluster
          λ d. (update_vdc_resource_to_vcd_cluster d resource_type_ovdc vdc.id vdc.name).0
      pure updated.1

  unfoldable pub reconcile_normal : OwnerCluster → Fun Store Reply
  reconcile_normal owner = run do
    let skip_rde_event_updates = owner.phase == "Provisioned"
    (client, err) ← call (create_vcd_client_from_secrets env)
    when (is_some err)
        (leave (done, env.wrapf err "Error creating VCD client to reconcile Cluster"))
    if_nil client crash λ found. do
      recorded ← call (record_ovdc found)
      when (is_some recorded)
          (leave (done, env.wrapf recorded "Error updating vcdResource into vcdcluster.status"))
      failed ← call (reconcile_infra_id env reads skip_rde owner (some found))
      when (is_some failed)
          (leave (done, env.wrapf failed "Unable to reconcile Infra ID for cluster"))
      update_cluster copy_spec
      (result, e) ← call (reconcile_load_balancer env (some found) skip_rde_event_updates)
      when (is_some e) (leave (result, env.wrapf e "Unable to reconcile Load Balancer for cluster"))
      when (result.requeue || not (result.requeue_after == 0)) (leave (result, none))
      call (finish owner found skip_rde_event_updates)

  -- Reconcile between the patch helper and the deferred patch.
  unfoldable pub dispatch : Option OwnerCluster → Fun Store Reply
  dispatch owner = run do
    c ← the_cluster
    when (not (env.contains_finalizer c.meta.finalizers cluster_finalizer)) do
      update_cluster (with_finalizers (env.add_finalizer c.meta.finalizers cluster_finalizer))
      leave (done, none)
    when (c.meta.deleting) do reply ← call (reconcile_delete env); leave reply
    if_nil owner crash λ found. call (reconcile_normal found)

  -- The deferred patch: its error is returned where there is no other.
  unfoldable pub patch_after : Reply → Fun Store Reply
  patch_after reply = run do
    err ← call (patch_vcd_cluster env)
    pure (reply.0, if is_none (reply.1) then err else reply.1)

  -- The deferred patch runs after a panic too, which goes on.
  unfoldable pub with_patch : Result Store Reply → Result Store Reply
  with_patch (ret reply t) = patch_after reply t
  with_patch (panicked t) = elim (patch_vcd_cluster env t) [
    | ret _ u ↦ panicked u
    | panicked u ↦ panicked u
  ]

  -- `Get` reads the cluster of the store, whatever was assigned to the empty object before.
  unfoldable pub reconcile : String → Fun Store Reply
  reconcile name = run do
    err ← ask (get_vcd_cluster name) env.error_reply
    if_nil err (pure tt) λ e. leave (done, unless_not_found e)
    (owner, failed) ← ask get_owner_cluster env.owner_reply
    when (is_some failed) (leave (done, failed))
    c ← the_cluster
    when (is_none owner && not c.meta.deleting) (leave (done, none))
    helper ← ask new_patch_helper env.error_reply
    when (is_some helper) (leave (done, helper))
    call λ s. with_patch (dispatch owner s)
