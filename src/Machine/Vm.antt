-- ===== src/Machine/Vm.antt =====
-- reconcileVM and reconcileVAppCreation, with CreateFullVAppName and getOVDCDetailsForMachine.
pub mod Laws
use cluster_api_provider_clo.Base.{String, ℕ, Bool, true, false, Option, none, some, List, [], ◌∷◌}
use cluster_api_provider_clo.Base.{is_some, is_none, ◌==◌, string_eq, nat_eq, not, ◌&&◌}
use cluster_api_provider_clo.Base.{if◌then◌else◌}
use cluster_api_provider_clo.Effect.{Body, Fun, ◌>>=◌, ◌>>◌, leave, pure, crash, call, run}
use cluster_api_provider_clo.Effect.{if_nil, if_empty, when, exit, next, panic, ret, panicked}
use cluster_api_provider_clo.Api.{Err, message, CtrlResult, Reply}
use cluster_api_provider_clo.Api.Cluster.{VcdCluster}
use cluster_api_provider_clo.Api.Machine.{VcdMachine, OwnerMachine, MachineAddress}
use cluster_api_provider_clo.Vcd.{Client, VApp, Vm, NetworkConnection}
use cluster_api_provider_clo.Vcd.Calls.{get_vm_by_name, add_new_tkg_vm, new_vdc_manager}
use cluster_api_provider_clo.Vcd.Calls.{get_vapp_by_name, get_or_create_vapp}
use cluster_api_provider_clo.Vcd.Calls.{add_metadata_to_vapp, add_to_vcd_resource_set}
use cluster_api_provider_clo.Vcd.Env.{Env, Store, ask, the_cluster, the_machine}
use cluster_api_provider_clo.Vcd.Env.{update_cluster, update_machine}
use cluster_api_provider_clo.Ovdc.Client.{is_entity_not_found}
use cluster_api_provider_clo.Rde.Sets.{report_error, report_event, clear_error}
use cluster_api_provider_clo.Cluster.Common.{done}
use cluster_api_provider_clo.Machine.Networks.{primary_network, reconcile_vm_networks}
use cluster_api_provider_clo.Machine.Disk.{resize_disk}

abbrev pub create_full_vapp_name : VcdCluster → String
create_full_vapp_name c = c.meta.name

-- The names of the OVDC and of its network; the error of the code is nil.
abbrev pub ovdc_details_for_machine : VcdCluster → String × String
ovdc_details_for_machine c = (c.spec.ovdc, c.spec.ovdc_network)

-- ctrl.Result{RequeueAfter: 5 * time.Second}
abbrev pub requeue_machine : CtrlResult
requeue_machine = record { requeue = false; requeue_after = 5 }

-- The result, the VM, its address and the error of reconcileVM.
pub record VmReply : Type 0 where
  pub result : CtrlResult
  pub vm : Option Vm
  pub address : String
  pub error : Option Err

abbrev pub vm_failed : Option Err → VmReply
vm_failed err = record { result = done; vm = none; address = ""; error = err }

abbrev pub vm_requeued : VmReply
vm_requeued = record { result = requeue_machine; vm = none; address = ""; error = none }

-- The address that the VM has in its primary network, or no text where the code requeues.
unfoldable pub vm_address : Vm → String
vm_address vm = elim (vm.network_section) [
  | none ↦ ""
  | some section ↦ elim (primary_network section) [ none ↦ "" | some c ↦ c.ip_address ]
]

abbrev pub addresses_of : Vm → String → List MachineAddress
addresses_of vm address =
    record { kind = "Hostname"; address = vm.name }
    ∷ record { kind = "InternalIP"; address = address }
    ∷ record { kind = "ExternalIP"; address = address }
    ∷ []

abbrev pub with_addresses : List MachineAddress → VcdMachine → VcdMachine
with_addresses addresses m = record m { status = record (m.status) { addresses = addresses } }

module _ (env : Env) (owner : OwnerMachine) where
  -- The VM that is created where there is none. Its name is read for the error of the second query,
  -- where the pointer is nil, and the error that is wrapped for a nil VM is nil.
  unfoldable pub create_vm : VApp → String → Fun Store (Option Vm × Option Err)
  create_vm vapp vm_name = run do
    m ← the_machine
    err ←
        ask
          (add_new_tkg_vm vm_name vapp.name m.spec.catalog m.spec.template m.spec.placement_policy
            m.spec.sizing_policy m.spec.storage_profile)
          env.error_reply
    when (is_some err) do
      report_error env "VCDMachineCreationError" "" owner.name
      leave (none, env.wrapf err "unable to create VM in vApp")
    (vm, e) ← ask (get_vm_by_name vm_name) env.vm_reply
    when (is_some e) do
      report_error env "VCDMachineCreationError" "" owner.name
      when (is_none vm) crash
      leave (none, env.wrapf e "unable to find newly created VM in vApp")
    when (is_none vm) do
      report_error env "VCDMachineCreationError" "" owner.name
      leave (none, env.wrapf e "Obtained nil VM after creating VM")
    pure (vm, none)

  -- The part of reconcileVM below the query: networks, address and disk.
  unfoldable pub configure_vm : VApp → Vm → String → Fun Store VmReply
  configure_vm vapp vm network = run do
    m ← the_machine
    (attached, err) ←
        call (reconcile_vm_networks env vapp vm (network ∷ m.spec.extra_ovdc_networks))
    when (is_some err) (leave vm_requeued)
    let address = vm_address attached
    when (address == "") (leave vm_requeued)
    update_machine (with_addresses (addresses_of attached address))
    (resized_vm, e) ← call (resize_disk env owner attached)
    when (is_some e) (leave (vm_failed e))
    pure (record { result = done; vm = some resized_vm; address = address; error = none })

  unfoldable pub reconcile_vm : Option VApp → String → String → Fun Store VmReply
  reconcile_vm vapp vm_name network = run do
    if_nil vapp (leave (vm_failed (some (message "reconcileVM is called with nil vApp")))) λ found.
        do
          (vm, err) ← ask (get_vm_by_name vm_name) env.vm_reply
          when (is_some err && not (is_entity_not_found err)) do
            report_error env "VCDMachineCreationError" "" owner.name
            leave (vm_failed (env.wrapf err "unable to query for VM in vApp"))
          when (is_none err) (
              if_nil vm crash
                λ existing. do reply ← call (configure_vm found existing network); leave reply)
          (created, e) ← call (create_vm found vm_name)
          if_nil created (pure (vm_failed e)) λ fresh. call (configure_vm found fresh network)

module _ (env : Env) where
  abbrev with_metadata_updated : Bool → VcdCluster → VcdCluster
  with_metadata_updated b c = record c { status = record (c.status) { vapp_metadata_updated = b } }

  -- The part of reconcileVAppCreation below the creation.
  unfoldable pub record_vapp : VApp → String → Fun Store Reply
  record_vapp vapp vapp_name = run do
    c ← the_cluster
    when (not c.status.vapp_metadata_updated) do
      err ← ask (add_metadata_to_vapp vapp_name "CapvcdInfraId" c.status.infra_id) env.error_reply
      when (is_some err) do
        report_error env "VCDClusterError" "" vapp_name
        leave (done, some (message "unable to add metadata to vApp"))
      update_cluster (with_metadata_updated true)
    e ← ask (add_to_vcd_resource_set "VApp" vapp_name vapp.id none) env.error_reply
    when (is_some e) do
      report_error env "RdeError" "" vapp_name
      leave (done, env.wrapf e "failed to add resource to VCDResourceSet of RDE")
    report_event env "InfraVappAvailable" vapp.id "" false
    _ ← clear_error env "VCDClusterVappCreationError" vapp.id vapp_name
    pure (done, none)

  -- The error that is wrapped for a vApp that is nil is nil.
  unfoldable pub reconcile_vapp_creation : Client → String → String → Fun Store Reply
  reconcile_vapp_creation client vapp_name network = run do
    c ← the_cluster
    (vdc, err) ←
        ask (new_vdc_manager client.cluster_org_name client.cluster_ovdc_name) env.vdc_reply
    when (is_some err) do
      report_error env "VCDClusterError" "" c.meta.name
      leave (done, env.wrapf err "Error creating vdc manager")
    when (is_none vdc) do
      report_error env "VCDClusterError" "" c.meta.name
      leave (done, some (message "no Vdc created with vdc manager name"))
    _ ← clear_error env "VCDClusterError" "" ""
    (_, e) ← ask (get_vapp_by_name vapp_name) env.vapp_reply
    when (is_entity_not_found e) (update_cluster (with_metadata_updated false))
    (vapp, failed) ← ask (get_or_create_vapp vapp_name network) env.vapp_reply
    when (is_some failed) do
      report_error env "VCDClusterVappCreationError" "" vapp_name
      leave (done, env.wrapf failed "Error creating Infra vApp for the cluster")
    if_nil vapp
        (do
          report_error env "VCDClusterVappCreationError" "" c.meta.name
          leave (done, env.wrapf failed "found nil value for VApp"))
        λ found. call (record_vapp found vapp_name)
