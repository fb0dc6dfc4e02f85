-- ===== src/Machine/Delete/Guards.antt =====
-- What is checked before a VM is deleted.
use cluster_api_provider_clo.Base.{String, Bool, true, false, Option, none, some, [], ◌∷◌}
use cluster_api_provider_clo.Base.{◌≡◌, is_none, ◌==◌, string_eq, arith, ◌&&◌}
use cluster_api_provider_clo.Effect.{ret}
use cluster_api_provider_clo.Api.{Err, Reply}
use cluster_api_provider_clo.Api.Machine.{OwnerMachine}
use cluster_api_provider_clo.Vcd.{Client, VApp, Vm}
use cluster_api_provider_clo.Vcd.Calls.{Trace, get_metadata_by_key, get_vm_by_name, delete_vm}
use cluster_api_provider_clo.Vcd.Calls.{get_vapp_by_name}
use cluster_api_provider_clo.Vcd.Env.{Env, Store}
use cluster_api_provider_clo.Vcd.History.{happened}
use cluster_api_provider_clo.Machine.Common.{vm_name_of}
use cluster_api_provider_clo.Machine.Delete.{named_disk, delete_found_vm, power_off_vm}
use cluster_api_provider_clo.Machine.Delete.{delete_in_vapp, delete_from_vapp}
use cluster_api_provider_clo.Machine.Delete.{release_machine, delete_machine_vm}

module _ (env : Env) (vapp_name vm_name infra_id : String) where
  -- The vApp of this name was read, and its metadata have the infra ID under the key of CAPVCD.
  pub metadata_matches : Trace → Bool
  metadata_matches (get_metadata_by_key id key ∷ get_vapp_by_name n ∷ before) =
      let meta = env.text_reply (get_metadata_by_key id key ∷ get_vapp_by_name n ∷ before) in
      n == vapp_name
      && (key == "CapvcdInfraId"
          && (is_none (meta.1)
              && (meta.0 == infra_id && elim ((env.vapp_reply (get_vapp_by_name n ∷ before)).0) [
                | none ↦ false
                | some v ↦ v.id == id
              ])))
  metadata_matches _ = false

  -- The VM of this name was read with the ID, and no named disk is attached to it.
  pub vm_free : String → Trace → Bool
  vm_free id (get_vm_by_name n ∷ before) =
      n == vm_name && elim ((env.vm_reply (get_vm_by_name n ∷ before)).0) [
        | none ↦ false
        | some vm ↦ vm.id == id && is_none (named_disk vm)
      ]
  vm_free id _ = false

  -- Every deletion of a VM came after both.
  unfoldable pub vm_guarded : Trace → Bool
  vm_guarded [] = true
  vm_guarded (delete_vm id ∷ before) =
      happened metadata_matches before && (happened (vm_free id) before && vm_guarded before)
  vm_guarded (_ ∷ before) = vm_guarded before

  module _ (owner : OwnerMachine) where
    delete_found_vm-guarded :
        (vm : Vm) (s t : Store) (r : Option Err)
        → delete_found_vm env owner vm s ≡ ret r t
        → vm_guarded s.trace ≡ true
        → happened metadata_matches s.trace ≡ true
        → ((named_disk vm ≡ none) → happened (vm_free vm.id) s.trace ≡ true)
        → vm_guarded t.trace ≡ true
    unfolding delete_found_vm power_off_vm vm_guarded vm_free metadata_matches
    delete_found_vm-guarded vm s t r e h k free = grind arith

    delete_in_vapp-guarded :
        (vapp : VApp) (s t : Store) (r : Option Err)
        → delete_in_vapp env owner vapp s ≡ ret r t
        → (vm_name_of env owner s.machine).0 ≡ vm_name
        → vm_guarded s.trace ≡ true
        → happened metadata_matches s.trace ≡ true
        → vm_guarded t.trace ≡ true
    unfolding delete_in_vapp vm_guarded vm_free metadata_matches
    delete_in_vapp-guarded vapp s t r e name h k = grind (arith, delete_found_vm-guarded)

    delete_from_vapp-guarded :
        (vapp : VApp) (s t : Store) (r : Option (Option Err)) (before : Trace)
        → delete_from_vapp env owner vapp s ≡ ret r t
        → s.trace ≡ get_vapp_by_name vapp_name ∷ before
        → (env.vapp_reply (get_vapp_by_name vapp_name ∷ before)).0 ≡ some vapp
        → s.cluster.status.infra_id ≡ infra_id
        → (vm_name_of env owner s.machine).0 ≡ vm_name
        → vm_guarded s.trace ≡ true
        → vm_guarded t.trace ≡ true
    unfolding delete_from_vapp vm_guarded metadata_matches
    delete_from_vapp-guarded vapp s t r before e last read same name h =
        grind (arith, delete_in_vapp-guarded)

    release-guarded :
        (s t : Store) (r : Reply)
        → release_machine env owner s ≡ ret r t
        → vm_guarded t.trace ≡ vm_guarded s.trace
    unfolding release_machine vm_guarded
    release-guarded s t r e = grind arith

    pub delete_machine_vm-guarded :
        (client : Client) (s t : Store) (r : Reply)
        → delete_machine_vm env owner client s ≡ ret r t
        → s.cluster.meta.name ≡ vapp_name
        → (vm_name_of env owner s.machine).0 ≡ vm_name
        → s.cluster.status.infra_id ≡ infra_id
        → vm_guarded s.trace ≡ true
        → vm_guarded t.trace ≡ true
    unfolding delete_machine_vm vm_guarded
    delete_machine_vm-guarded client s t r e vapp_same vm_same same h =
        grind (arith, delete_from_vapp-guarded, release-guarded)
