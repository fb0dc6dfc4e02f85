-- ===== src/Machine/Reconcile.antt =====
-- Reconcile of the machine controller.
pub mod Laws
use cluster_api_provider_clo.Base.{String, ℕ, Bool, true, false, Option, none, some, []}
use cluster_api_provider_clo.Base.{is_some, is_none, not, ◌&&◌, if◌then◌else◌}
use cluster_api_provider_clo.Effect.{Body, Fun, Result, ◌>>=◌, ◌>>◌, leave, pure, crash, call, run}
use cluster_api_provider_clo.Effect.{if_nil, when, exit, next, panic, ret, panicked}
use cluster_api_provider_clo.Api.{Err, CtrlResult, Reply}
use cluster_api_provider_clo.Api.Cluster.{VcdCluster, OwnerCluster}
use cluster_api_provider_clo.Api.Machine.{VcdMachine, OwnerMachine}
use cluster_api_provider_clo.Vcd.Calls.{get_vcd_machine, get_owner_machine, get_vcd_cluster}
use cluster_api_provider_clo.Vcd.Calls.{get_cluster_from_metadata, new_patch_helper}
use cluster_api_provider_clo.Vcd.Env.{Env, Store, ask, the_machine}
use cluster_api_provider_clo.Vcd.Env.{update_cluster, update_machine}
use cluster_api_provider_clo.Cluster.Common.{done}
use cluster_api_provider_clo.Cluster.Normal.{unless_not_found}
use cluster_api_provider_clo.Machine.Common.{machine_finalizer, machine_finalizers}
use cluster_api_provider_clo.Machine.Common.{container_provisioned_condition, mark_machine_false}
use cluster_api_provider_clo.Machine.Common.{machine_conditions, patch_vcd_machine}
use cluster_api_provider_clo.Machine.Delete.{reconcile_delete_machine}
use cluster_api_provider_clo.Machine.Normal.{reconcile_machine_normal}
use cluster_api_provider_clo.Machine.Bootstrap.{Guest}
use cluster_api_provider_clo.Machine.CloudInit.{Yaml}

-- &infrav1beta3.VCDCluster{}
abbrev pub empty_cluster : VcdCluster
empty_cluster = record {
  meta = record { name = ""; namespace = ""; deleting = false; finalizers = [] };
  spec = record {
    control_plane_endpoint = record { host = ""; port = 0 };
    site = "";
    org = "";
    ovdc = "";
    ovdc_network = "";
    user_credentials_context = record {
      username = "";
      password = "";
      refresh_token = "";
      secret_ref = none;
    };
    rde_id = "";
    parent_uid = "";
    use_as_management_cluster = false;
    proxy_config_spec = record { http_proxy = ""; https_proxy = ""; no_proxy = "" };
    load_balancer_config_spec = record { use_one_arm = false; vip_subnet = "" };
  };
  status = record {
    ready = false;
    rde_version_in_use = "";
    vapp_metadata_updated = false;
    conditions = [];
    site = "";
    vcd_resource_map = record { ovdcs = [] };
    org = "";
    ovdc = "";
    ovdc_network = "";
    infra_id = "";
    parent_uid = "";
    use_as_management_cluster = false;
    proxy_config = record { http_proxy = ""; https_proxy = ""; no_proxy = "" };
    load_balancer_config = record { use_one_arm = false; vip_subnet = "" };
  };
}

module _ (env : Env) (yaml : Yaml) (guest : Guest) where
  -- Reconcile between the patch helper and the deferred patch.
  unfoldable pub dispatch_machine : OwnerMachine → OwnerCluster → Fun Store Reply
  dispatch_machine owner cluster = run do
    m ← the_machine
    when (not (env.contains_finalizer m.meta.finalizers machine_finalizer)) do
      update_machine (machine_finalizers (env.add_finalizer m.meta.finalizers machine_finalizer))
      leave (done, none)
    when (not m.meta.deleting && not cluster.infrastructure_ready) do
      mark_machine_false env container_provisioned_condition "WaitingForClusterInfrastructure"
      leave (done, none)
    when (m.meta.deleting) do reply ← call (reconcile_delete_machine env owner); leave reply
    call (reconcile_machine_normal env yaml guest owner cluster)

  -- The deferred patch: its error is returned where there is no other.
  unfoldable pub patch_machine_after : Reply → Fun Store Reply
  patch_machine_after reply = run do
    err ← call (patch_vcd_machine env)
    pure (reply.0, if is_none (reply.1) then err else reply.1)

  -- The deferred patch runs after a panic too, which goes on.
  unfoldable pub with_machine_patch : Result Store Reply → Result Store Reply
  with_machine_patch (ret reply t) = patch_machine_after reply t
  with_machine_patch (panicked t) = elim (patch_vcd_machine env t) [
    | ret _ u ↦ panicked u
    | panicked u ↦ panicked u
  ]

  -- The part from the VCDCluster on. `Get` reads the cluster of the store; where it fails, whatever
  -- the error, the object stays empty.
  unfoldable pub reconcile_with_cluster : OwnerMachine → OwnerCluster → Fun Store Reply
  reconcile_with_cluster owner cluster = run do
    m ← the_machine
    err ← ask (get_vcd_cluster cluster.infrastructure_name) env.error_reply
    when (is_some err)
        do update_cluster (λ c. empty_cluster); when (not m.meta.deleting) (leave (done, none))
    helper ← ask new_patch_helper env.error_reply
    when (is_some helper) (leave (done, helper))
    call λ s. with_machine_patch (dispatch_machine owner cluster s)

  unfoldable pub reconcile_machine : String → Fun Store Reply
  reconcile_machine name = run do
    err ← ask (get_vcd_machine name) env.error_reply
    if_nil err (pure tt) λ e. leave (done, unless_not_found e)
    (owner, failed) ← ask get_owner_machine env.owner_machine_reply
    when (is_some failed) (leave (done, failed))
    if_nil owner (leave (done, none)) λ machine. do
      (cluster, e) ← ask get_cluster_from_metadata env.owner_reply
      when (is_some e) (leave (done, e))
      if_nil cluster (leave (done, none)) λ found. do
        m ← the_machine
        when (env.is_paused found m) (leave (done, none))
        call (reconcile_with_cluster machine found)
