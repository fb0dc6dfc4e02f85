-- ===== src/Machine/Delete.antt =====
-- reconcileDelete of the machine controller.
pub mod Guards
pub mod Keeps
pub mod Laws
use cluster_api_provider_clo.Base.{String, ℕ, Bool, true, false, Option, none, some, List, [], ◌∷◌}
use cluster_api_provider_clo.Base.{is_some, is_none, ◌==◌, ◌!=◌, string_eq, nat_eq, not, ◌&&◌, ◌||◌}
use cluster_api_provider_clo.Base.{if◌then◌else◌}
use cluster_api_provider_clo.Effect.{Body, Fun, ◌>>=◌, ◌>>◌, leave, pure, crash, call, run}
use cluster_api_provider_clo.Effect.{if_nil, when, exit, next, panic, ret, panicked}
use cluster_api_provider_clo.Api.{Err, message, Reply}
use cluster_api_provider_clo.Api.Machine.{OwnerMachine}
use cluster_api_provider_clo.Vcd.{Client, VApp, Vm, DiskSettings}
use cluster_api_provider_clo.Vcd.Calls.{new_gateway_manager, new_vdc_manager, new_patch_helper}
use cluster_api_provider_clo.Vcd.Calls.{get_vapp_by_name, get_metadata_by_key, get_vm_by_name}
use cluster_api_provider_clo.Vcd.Calls.{get_vm_status, power_off, wait_task_completion, delete_vm}
use cluster_api_provider_clo.Vcd.Calls.{remove_from_vcd_resource_set}
use cluster_api_provider_clo.Vcd.Env.{Env, Store, ask, the_cluster, the_machine}
use cluster_api_provider_clo.Vcd.Env.{update_cluster, update_machine}
use cluster_api_provider_clo.Ovdc.Client.{is_entity_not_found, create_vcd_client_from_secrets}
use cluster_api_provider_clo.Ovdc.Resources.{update_vdc_resource_to_vcd_cluster, resource_type_ovdc}
use cluster_api_provider_clo.Rde.Sets.{report_error, report_event, clear_error}
use cluster_api_provider_clo.Cluster.Common.{done}
use cluster_api_provider_clo.Machine.Common.{machine_finalizer, container_provisioned_condition}
use cluster_api_provider_clo.Machine.Common.{machine_finalizers, machine_conditions}
use cluster_api_provider_clo.Machine.Common.{mark_machine_false, patch_vcd_machine, vm_name_of}
use cluster_api_provider_clo.Machine.Pool.{remove_from_pool}

-- The name of the first named disk among the disks.
unfoldable pub first_disk : List DiskSettings → Option String
first_disk [] = none
first_disk (d ∷ rest) = elim (d.disk) [ some name ↦ some name | none ↦ first_disk rest ]

unfoldable pub named_disk : Vm → Option String
named_disk vm = elim (vm.disk_settings) [ none ↦ none | some disks ↦ first_disk disks ]

module _ (env : Env) (owner : OwnerMachine) where
  -- Only an error of the wait for the task is returned.
  unfoldable pub power_off_vm : Vm → Fun Store (Option Err)
  power_off_vm vm = run do
    (_, err) ← ask (get_vm_status vm.id) env.text_reply
    when (is_some err) (leave none)
    failed ← ask (power_off vm.id) env.error_reply
    when (is_some failed) (leave none)
    e ← ask (wait_task_completion vm.id) env.error_reply
    when (is_some e) do
      report_error env "VCDMachineDeletionError" "" owner.name
      leave (some (message "error waiting for task completion after reconfiguring vm"))
    pure none

  unfoldable pub delete_found_vm : Vm → Fun Store (Option Err)
  delete_found_vm vm = run do
    when (is_some (named_disk vm)) do
      report_error env "VCDMachineDeletionError" "" owner.name
      leave (some (message "error deleting VM since named disk is attached to VM (by CSI)"))
    off ← call (power_off_vm vm)
    when (is_some off) (leave off)
    err ← ask (delete_vm vm.id) env.error_reply
    when (is_some err) do
      report_error env "VCDMachineDeletionError" "" owner.name
      leave (env.wrapf err "error deleting the machine")
    pure none

  -- The VM of the machine in the vApp of the cluster.
  unfoldable pub delete_in_vapp : VApp → Fun Store (Option Err)
  delete_in_vapp vapp = run do
    m ← the_machine
    _ ← clear_error env "VCDClusterVappCreationError" "" ""
    _ ← clear_error env "VCDMachineError" "" ""
    let named = vm_name_of env owner m
    when (is_some (named.1)) (leave named.1)
    (vm, err) ← ask (get_vm_by_name named.0) env.vm_reply
    when (is_some err && not (is_entity_not_found err)) do
      report_error env "VCDMachineDeletionError" "" owner.name
      leave (env.wrapf err "unable to check if vm exists in vapp")
    if_nil vm (pure tt)
        λ found. do failed ← call (delete_found_vm found); when (is_some failed) (leave failed)
    report_event env "InfraVmDeleted" "" owner.name true
    _ ← clear_error env "VCDMachineDeletionError" "" owner.name
    pure none

  -- The metadata of the vApp is compared with the infra ID; the error that is wrapped where they
  -- differ is nil. `none` goes on, `some` is returned.
  unfoldable pub delete_from_vapp : VApp → Fun Store (Option (Option Err))
  delete_from_vapp vapp = run do
    c ← the_cluster
    (infra_id, err) ← ask (get_metadata_by_key vapp.id "CapvcdInfraId") env.text_reply
    when (is_some err) do
      report_error env "VCDMachineError" "" owner.name
      leave (some (some (message "Error occurred during fetching metadata in vApp")))
    when (infra_id != c.status.infra_id) do
      report_error env "VCDMachineError" "" owner.name
      leave (some (env.wrapf err "Error occurred during the machine deletion"))
    failed ← call (delete_in_vapp vapp)
    when (is_some failed) (leave (some failed))
    pure none

  -- The RDE is told that the VM is gone, and the finalizer goes.
  unfoldable pub release_machine : Fun Store Reply
  release_machine = run do
    err ← ask (remove_from_vcd_resource_set "virtual-machine" owner.name) env.error_reply
    when (is_some err) (report_error env "RdeError" "" owner.name)
    _ ← clear_error env "RdeError" "" owner.name
    update_machine
        (λ m. machine_finalizers (env.remove_finalizer m.meta.finalizers machine_finalizer) m)
    pure (done, none)

  -- The part of reconcileDelete from the VDC manager on.
  unfoldable pub delete_machine_vm : Client → Fun Store Reply
  delete_machine_vm client = run do
    c ← the_cluster
    (vdc, err) ←
        ask (new_vdc_manager client.cluster_org_name client.cluster_ovdc_name) env.vdc_reply
    when (is_some err) do
      report_error env "VCDMachineError" "" owner.name
      leave (done, env.wrapf err "failed to create a vdc manager object")
    _ ← clear_error env "VCDMachineError" "" owner.name
    when (is_none vdc) crash
    (vapp, e) ← ask (get_vapp_by_name c.meta.name) env.vapp_reply
    when (is_some e && not (is_entity_not_found e)) do
      report_error env "VCDClusterVappCreationError" "" owner.name
      leave (done, env.wrapf e "failed to find vapp by name")
    if_nil vapp (pure tt) λ found. do
      stopped ← call (delete_from_vapp found)
      if_nil stopped (pure tt) λ reply. leave (done, reply)
    call release_machine

  -- The part from the gateway manager on.
  unfoldable pub delete_machine_infrastructure : Client → Fun Store Reply
  delete_machine_infrastructure client = run do
    c ← the_cluster
    let subnet = c.spec.load_balancer_config_spec.vip_subnet
    err ← ask (new_gateway_manager c.spec.ovdc_network subnet c.spec.ovdc) env.error_reply
    when (is_some err) do
      report_error env "VCDMachineCreationError" "" owner.name
      leave (done, env.wrapf err "failed to create gateway manager object")
    when (owner.control_plane)
        do failed ← call (remove_from_pool env owner); when (is_some failed) (leave (done, failed))
    call (delete_machine_vm client)

  unfoldable pub reconcile_delete_machine : Fun Store Reply
  reconcile_delete_machine = run do
    helper ← ask new_patch_helper env.error_reply
    when (is_some helper) (leave (done, helper))
    mark_machine_false env container_provisioned_condition "Deleting"
    patched ← call (patch_vcd_machine env)
    when (is_some patched) (leave (done, env.wrapf patched "Failed to patch VCDMachine"))
    c ← the_cluster
    when (c.spec.site == "") do
      update_machine
          (λ m. machine_finalizers (env.remove_finalizer m.meta.finalizers machine_finalizer) m)
      leave (done, none)
    (client, err) ← call (create_vcd_client_from_secrets env)
    when (is_some err) (leave (done, env.wrapf err "Error creating VCD client"))
    if_nil client crash λ found.
        if_nil (found.vdc) (leave (done, env.wrapf err "failed to get the Organization VDC (OVDC)"))
          λ vdc. do
            before ← the_cluster
            let updated =
                update_vdc_resource_to_vcd_cluster before resource_type_ovdc vdc.id vdc.name
            update_cluster
                λ d. (update_vdc_resource_to_vcd_cluster d resource_type_ovdc vdc.id vdc.name).0
            when (is_some updated.1)
                (leave (done, env.wrapf updated.1 "Error updating vcdResource"))
            call (delete_machine_infrastructure found)
