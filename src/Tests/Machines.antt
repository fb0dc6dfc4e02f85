-- ===== src/Tests/Machines.antt =====
-- The theorems on machines at work, in a Cloud Director with one VM.
use cluster_api_provider_clo.Ovdc.Client.{
  check_if_ovdc_name_change, create_vcd_client_from_secrets, org_by_name, ovdc_by_id, ovdc_by_name,
  update_client_with_vdc, user_credentials_for_cluster,
}
use cluster_api_provider_clo.Ovdc.Resources.{
  id_of_name, remove_first, remove_vcd_resource_from_vcd_cluster,
  update_vdc_resource_to_vcd_cluster, upsert,
}
use cluster_api_provider_clo.Machine.Delete.{
  delete_found_vm, delete_from_vapp, delete_in_vapp, delete_machine_infrastructure, first_disk,
  named_disk, power_off_vm, release_machine,
}
use cluster_api_provider_clo.Machine.Pool.{
  address_to_be_deleted, but_last, remove_address, shifted, sweep,
}
use cluster_api_provider_clo.Base.{String, Bool, true, false, none, some, List, [], ◌∷◌}
use cluster_api_provider_clo.Base.{◌≡◌, ◌⊎◌, refl, string_eq, nat_eq}
use cluster_api_provider_clo.Effect.{Result, ret}
use cluster_api_provider_clo.Api.{Reply}
use cluster_api_provider_clo.Api.Machine.{VcdMachine, OwnerMachine}
use cluster_api_provider_clo.Vcd.{VApp, Vm, NetworkConnection}
use cluster_api_provider_clo.Vcd.Env.{Env, Store}
use cluster_api_provider_clo.Cluster.Common.{done}
use cluster_api_provider_clo.Machine.Common.{machine_finalizer, patch_vcd_machine, vm_name_of}
use cluster_api_provider_clo.Machine.Pool.{remove_from_pool}
use cluster_api_provider_clo.Machine.Delete.{reconcile_delete_machine, delete_machine_vm}
use cluster_api_provider_clo.Machine.Delete.Laws.{
  GoneMachine, marked, reconcile_delete_machine-finalizer,
}
use cluster_api_provider_clo.Machine.Delete.Guards.{vm_guarded, delete_machine_vm-guarded}
use cluster_api_provider_clo.Tests.{calm, machine, leaving, running, objects, value, worker, client}
use cluster_api_provider_clo.Tests.{has, remove}

abbrev pub nic : NetworkConnection
nic = record {
  network = "net";
  index = 0;
  ip_address = "10.0.0.7";
  needs_customization = false;
  is_connected = true;
  allocation_mode = "POOL";
  adapter_type = "VMXNET3";
  details = "";
}

abbrev pub vm_1 : Vm
vm_1 = record {
  id = "vm-1";
  name = "m1";
  network_section = some (record { primary = 0; connections = nic ∷ [] });
  disk_settings = some (record { size_mb = 10; disk = none } ∷ []);
}

abbrev pub vapp_1 : VApp
vapp_1 = record { id = "vapp-1"; name = "c1"; children = none }

-- Cloud Director with the VM.
abbrev pub one_vm : Env
one_vm = record calm {
  vm_reply = λ t. (some vm_1, none);
  section_reply = λ t. (record { primary = 0; connections = nic ∷ [] }, none);
  texts_reply = λ t. ("net" ∷ "10.0.0.7" ∷ [], none);
}

abbrev pub machine_with : List String → Bool → VcdMachine
machine_with finalizers deleting = record machine {
  meta = record { name = "m1"; namespace = "ns"; deleting = deleting; finalizers = finalizers };
}

abbrev pub control_plane : OwnerMachine
control_plane = record worker { control_plane = true }

-- A machine that is being deleted, and one that is being created.
abbrev pub going : Store
going = record leaving { machine = machine_with (machine_finalizer ∷ []) true }

abbrev pub coming : Store
coming = record running { machine = machine_with (machine_finalizer ∷ []) false }

abbrev gone : Result Store Reply
gone = reconcile_delete_machine one_vm control_plane going

gone_run : gone ≡ ret (value (done, none) gone) (objects gone)
unfolding reconcile_delete_machine patch_vcd_machine string_eq create_vcd_client_from_secrets
    user_credentials_for_cluster update_client_with_vdc ovdc_by_name
    update_vdc_resource_to_vcd_cluster delete_machine_infrastructure remove_from_pool
    delete_machine_vm delete_from_vapp delete_in_vapp vm_name_of delete_found_vm named_disk
    first_disk power_off_vm release_machine address_to_be_deleted but_last remove_address shifted
    sweep check_if_ovdc_name_change org_by_name ovdc_by_id id_of_name remove_first
    remove_vcd_resource_from_vcd_cluster upsert
gone_run = refl

going_has : has going.machine.meta.finalizers machine_finalizer ≡ true
unfolding has string_eq
going_has = refl

gone-has : has (objects gone).machine.meta.finalizers machine_finalizer ≡ false
unfolding has reconcile_delete_machine patch_vcd_machine string_eq create_vcd_client_from_secrets
    user_credentials_for_cluster update_client_with_vdc ovdc_by_name
    update_vdc_resource_to_vcd_cluster delete_machine_infrastructure remove_from_pool
    delete_machine_vm delete_from_vapp delete_in_vapp vm_name_of delete_found_vm named_disk
    first_disk power_off_vm release_machine address_to_be_deleted but_last remove_address shifted
    sweep check_if_ovdc_name_change org_by_name ovdc_by_id id_of_name remove_first
    remove_vcd_resource_from_vcd_cluster upsert remove
gone-has = refl

reconcile_delete_machine-finalizer_example :
    ((value (done, none) gone).1 ≡ none)
    × ((going.cluster.spec.site ≡ "")
        ⊎ GoneMachine one_vm control_plane going.cluster
            (marked one_vm control_plane going.machine)
            (objects gone).trace)
reconcile_delete_machine-finalizer_example =
    reconcile_delete_machine-finalizer one_vm control_plane going (objects gone)
      (value (done, none) gone) gone_run going_has gone-has

abbrev vm_deleted : Result Store Reply
vm_deleted = delete_machine_vm one_vm worker client going

vm_deleted_run : vm_deleted ≡ ret (value (done, none) vm_deleted) (objects vm_deleted)
unfolding delete_machine_vm delete_from_vapp string_eq delete_in_vapp vm_name_of delete_found_vm
    named_disk first_disk power_off_vm release_machine
vm_deleted_run = refl

m1_named : (vm_name_of one_vm worker going.machine).0 ≡ "m1"
unfolding vm_name_of string_eq
m1_named = refl

no_call_guarded : vm_guarded one_vm "c1" "m1" "rde-1" [] ≡ true
unfolding vm_guarded
no_call_guarded = refl

delete_machine_vm-guarded_example :
    vm_guarded one_vm "c1" "m1" "rde-1" (objects vm_deleted).trace ≡ true
delete_machine_vm-guarded_example =
    delete_machine_vm-guarded one_vm "c1" "m1" "rde-1" worker client going (objects vm_deleted)
      (value (done, none) vm_deleted) vm_deleted_run refl m1_named refl no_call_guarded
