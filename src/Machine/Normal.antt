-- ===== src/Machine/Normal.antt =====
-- reconcileNormal of the machine controller.
pub mod Keeps
pub mod Laws
use cluster_api_provider_clo.Base.{String, ℕ, Bool, true, false, Option, none, some}
use cluster_api_provider_clo.Base.{is_some, is_none, ◌==◌, string_eq, nat_eq, not, ◌&&◌, ◌||◌, ◌<>◌}
use cluster_api_provider_clo.Base.{if◌then◌else◌}
use cluster_api_provider_clo.Effect.{Body, Fun, ◌>>=◌, ◌>>◌, leave, pure, crash, call, run}
use cluster_api_provider_clo.Effect.{if_nil, when, exit, next, panic, ret, panicked}
use cluster_api_provider_clo.Api.{Err, CtrlResult, Reply}
use cluster_api_provider_clo.Api.Cluster.{VcdCluster, OwnerCluster}
use cluster_api_provider_clo.Api.Machine.{VcdMachine, OwnerMachine}
use cluster_api_provider_clo.Vcd.{Client, VApp, Vm}
use cluster_api_provider_clo.Vcd.Calls.{new_patch_helper, new_vdc_manager, get_vapp_by_name}
use cluster_api_provider_clo.Vcd.Calls.{new_gateway_manager}
use cluster_api_provider_clo.Vcd.Env.{Env, Store, ask, the_cluster, the_machine}
use cluster_api_provider_clo.Vcd.Env.{update_cluster, update_machine}
use cluster_api_provider_clo.Ovdc.Client.{create_vcd_client_from_secrets}
use cluster_api_provider_clo.Ovdc.Resources.{update_vdc_resource_to_vcd_cluster, resource_type_ovdc}
use cluster_api_provider_clo.Rde.Sets.{report_error, report_event, clear_error}
use cluster_api_provider_clo.Cluster.Common.{done}
use cluster_api_provider_clo.Machine.Common.{container_provisioned_condition, machine_conditions}
use cluster_api_provider_clo.Machine.Common.{bootstrap_exec_succeeded_condition, vcd_provider_id}
use cluster_api_provider_clo.Machine.Common.{mark_machine_false, mark_machine_true}
use cluster_api_provider_clo.Machine.Common.{patch_vcd_machine, vm_name_of, vm_id_from_provider_id}
use cluster_api_provider_clo.Machine.Common.{check_if_machine_node_is_unhealthy}
use cluster_api_provider_clo.Machine.Pool.{reconcile_lb_pool}
use cluster_api_provider_clo.Machine.Vm.{VmReply, reconcile_vm, reconcile_vapp_creation}
use cluster_api_provider_clo.Machine.Vm.{create_full_vapp_name, ovdc_details_for_machine}
use cluster_api_provider_clo.Machine.Bootstrap.{Guest, reconcile_vm_bootstrap}
use cluster_api_provider_clo.Machine.CloudInit.{Yaml}
use cluster_api_provider_clo.Machine.Script.{ScriptReply, reconcile_cloud_init_script}

-- The assignments for a machine that is bootstrapped, but for the conditions.
unfoldable pub provisioned : String → VcdMachine → VcdMachine
provisioned vm_id m =
    let provider_id = some (vcd_provider_id <> "://" <> vm_id) in
    record m {
      spec = record (m.spec) { bootstrapped = true; provider_id = provider_id };
      status = record (m.status) {
        ready = true;
        template = m.spec.template;
        provider_id = provider_id;
        sizing_policy = m.spec.sizing_policy;
        placement_policy = m.spec.placement_policy;
        nvidia_gpu_enabled = m.spec.enable_nvidia_gpu;
      };
    }

abbrev pub ready_machine : VcdMachine → VcdMachine
ready_machine m = record m { status = record (m.status) { ready = true } }

module _ (env : Env) (yaml : Yaml) (guest : Guest) (owner : OwnerMachine)
    (cluster : OwnerCluster) where
  -- `*owner.Status.BootstrapReady`: events are for machines that are being created.
  abbrev skip_updates : Bool
  skip_updates = owner.bootstrap_ready

  -- The last part: bootstrap, pool and status. The VM's ID is read through its pointer.
  unfoldable pub boot_machine : Client → Option VApp → VmReply → ScriptReply → Fun Store Reply
  boot_machine client vapp vm script = run do
    when (script.initial) do
      err ← call (reconcile_lb_pool env owner vm.address)
      when (is_some err) (leave (done, env.wrapf err "unable to add machine address into LB Pool"))
    booted ← call (
        reconcile_vm_bootstrap env guest owner client vapp vm.vm script.script script.initial
          skip_updates)
    when (is_some booted) (leave (done, env.wrapf booted "failed to bootstrap VM"))
    when (script.resized) do
      e ← call (reconcile_lb_pool env owner vm.address)
      when (is_some e) (leave (done, env.wrapf e "unable to add machine address into LB Pool"))
    if_nil (vm.vm) crash λ there. do
      update_machine (provisioned there.id)
      mark_machine_true env bootstrap_exec_succeeded_condition
      mark_machine_true env container_provisioned_condition
      pure (done, none)

  -- The part from the bootstrap data on. The error of reconcileCloudInitScript is overwritten by that
  -- of the gateway manager.
  unfoldable pub bootstrap_machine : Client → Option VApp → VmReply → String → Fun Store Reply
  bootstrap_machine client vapp vm vm_name = run do
    c ← the_cluster
    when (is_none (owner.data_secret_name)) do
      when
          (not owner.control_plane
            && not (env.is_true cluster.conditions "ControlPlaneInitialized"))
          (do
            mark_machine_false env container_provisioned_condition "WaitingForControlPlaneAvailable"
            leave (done, none))
      mark_machine_false env container_provisioned_condition "WaitingForBootstrapData"
      leave (done, none)
    mark_machine_true env container_provisioned_condition
    script ← call (reconcile_cloud_init_script env yaml owner cluster vm_name skip_updates)
    let subnet = c.spec.load_balancer_config_spec.vip_subnet
    err ← ask (new_gateway_manager c.spec.ovdc_network subnet c.spec.ovdc) env.error_reply
    when (is_some err) do
      report_error env "VCDMachineCreationError" "" owner.name
      leave (done, env.wrapf err "failed to create gateway manager object")
    call (boot_machine client vapp vm script)

  -- The part from the vApp on.
  unfoldable pub provision_vm : Client → Fun Store Reply
  provision_vm client = run do
    c ← the_cluster
    (vapp, err) ← ask (get_vapp_by_name (create_full_vapp_name c)) env.vapp_reply
    when (is_some err) do
      report_error env "VCDClusterVappCreationError" "" owner.name
      leave (done, env.wrapf err "Error provisioning infrastructure VApp for the machine")
    _ ← clear_error env "VCDClusterVappCreationError" "" ""
    m ← the_machine
    let named = vm_name_of env owner m
    when (is_some (named.1)) (leave (done, env.wrapf named.1 "unable to get VM by name"))
    vm ← call (reconcile_vm env owner vapp named.0 (ovdc_details_for_machine c).1)
    when (is_some (vm.error)) do
      report_error env "VCDMachineError" "" owner.name
      leave (vm.result, env.wrapf vm.error "unable to provision infrastructure for VM")
    when (vm.result.requeue || not (vm.result.requeue_after == 0)) (leave (vm.result, none))
    call (bootstrap_machine client vapp vm named.0)

  -- The part from the VDC manager on: vApp and VM.
  unfoldable pub provision_machine : Client → Fun Store Reply
  provision_machine client = run do
    (vdc, err) ←
        ask (new_vdc_manager client.cluster_org_name client.cluster_ovdc_name) env.vdc_reply
    when (is_some err) do
      report_error env "VCDMachineError" "" owner.name
      leave (done, env.wrapf err "failed to create a vdc manager object")
    _ ← clear_error env "VCDMachineError" "" owner.name
    c ← the_cluster
    let network = (ovdc_details_for_machine c).1
    (result, e) ← call (reconcile_vapp_creation env client (create_full_vapp_name c) network)
    when (is_some e) (leave (result, env.wrapf e "unable to reconcile vApp for cluster"))
    when (is_none vdc) crash
    call (provision_vm client)

  -- The first condition of a machine without one, which is patched at once.
  unfoldable pub mark_bootstrapping : Fun Store (Option Err)
  mark_bootstrapping = run do
    m ← the_machine
    when (env.has_condition m.status.conditions bootstrap_exec_succeeded_condition) (leave none)
    mark_machine_false env bootstrap_exec_succeeded_condition "Bootstrapping"
    call (patch_vcd_machine env)

  -- The part from the health of the node on.
  unfoldable pub reconcile_machine_with : Client → Fun Store Reply
  reconcile_machine_with client = run do
    m ← the_machine
    let vm_id = vm_id_from_provider_id m.status.provider_id
    when (env.is_false owner.conditions "HealthCheckSucceeded")
        (report_event env "NodeHealthCheckFailed" vm_id owner.name false)
    when (check_if_machine_node_is_unhealthy env owner)
        (report_event env "NodeUnhealthy" vm_id owner.name false)
    when (is_some (m.spec.provider_id) && is_some (m.status.provider_id)) do
      update_machine ready_machine
      mark_machine_true env container_provisioned_condition
      report_event env "InfraVmBootstrapped" "" owner.name skip_updates
      leave (done, none)
    err ← ask new_patch_helper env.error_reply
    when (is_some err) do
      report_error env "CAPVCDObjectPatchError" "" owner.name
      leave (done, env.wrapf err "Error patching VCDMachine")
    e ← call mark_bootstrapping
    when (is_some e) do
      report_error env "CAPVCDObjectPatchError" "" owner.name
      leave (done, env.wrapf e "Error patching VCDMachine")
    _ ← clear_error env "CAPVCDObjectPatchError" "" owner.name
    call (provision_machine client)

  unfoldable pub reconcile_machine_normal : Fun Store Reply
  reconcile_machine_normal = run do
    (client, err) ← call (create_vcd_client_from_secrets env)
    when (is_some err) (leave (done, env.wrapf err "Error creating VCD client"))
    if_nil client crash λ found.
        if_nil (found.vdc) (leave (done, env.wrapf err "failed to get the Organization VDC (OVDC)"))
          λ vdc. do
            before ← the_cluster
            let updated =
                update_vdc_resource_to_vcd_cluster before resource_type_ovdc vdc.id vdc.name
            update_cluster
                λ d. (update_vdc_resource_to_vcd_cluster d resource_type_ovdc vdc.id vdc.name).0
            when (is_some updated.1)
                (leave (done, env.wrapf updated.1 "Error updating vcdResource"))
            call (reconcile_machine_with found)
