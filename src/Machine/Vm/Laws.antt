-- ===== src/Machine/Vm/Laws.antt =====
-- What reconcileVM and reconcileVAppCreation have done when they return without an error.
use cluster_api_provider_clo.Base.{String, Bool, true, false, Option, none, some, List, [], ◌∷◌}
use cluster_api_provider_clo.Base.{◌≡◌, ◌⊎◌, refl, arith, is_none, ◌==◌, string_eq, nat_eq}
use cluster_api_provider_clo.Base.{◌&&◌, ◌||◌, not}
use cluster_api_provider_clo.Effect.{ret}
use cluster_api_provider_clo.Effect.Keeps.{KeepsFun}
use cluster_api_provider_clo.Api.{Err, Reply}
use cluster_api_provider_clo.Api.Machine.{VcdMachine, OwnerMachine}
use cluster_api_provider_clo.Vcd.{Client, VApp, Vm, NetworkConnection}
use cluster_api_provider_clo.Vcd.Calls.{Trace, get_or_create_vapp, add_metadata_to_vapp}
use cluster_api_provider_clo.Vcd.Calls.{add_to_vcd_resource_set, get_vapp_by_name, remove_error}
use cluster_api_provider_clo.Vcd.Calls.{new_vdc_manager, get_vm_by_name}
use cluster_api_provider_clo.Ovdc.Client.{is_entity_not_found}
use cluster_api_provider_clo.Vcd.Env.{Env, Store}
use cluster_api_provider_clo.Vcd.History.{happened}
use cluster_api_provider_clo.Vcd.Objects.{OnMachine, on_machine_rules, on_machine_after}
use cluster_api_provider_clo.Machine.Networks.{desired_connections, reconcile_vm_networks}
use cluster_api_provider_clo.Machine.Networks.{ensure_network_is_attached_to_vapp}
use cluster_api_provider_clo.Machine.Disk.{resize_disk}
use cluster_api_provider_clo.Machine.Vm.{VmReply, addresses_of, create_vm, configure_vm}
use cluster_api_provider_clo.Machine.Vm.{requeue_machine}
use cluster_api_provider_clo.Machine.Vm.{reconcile_vm, record_vapp, reconcile_vapp_creation}

module _ (env : Env) (P : VcdMachine → Type 0) where
  desired_connections-OnMachine :
      (vapp : VApp) (existing : List NetworkConnection) (networks : List String)
      → (heap : List NetworkConnection)
      → KeepsFun (OnMachine P) (desired_connections env vapp existing networks heap)
  unfolding desired_connections ensure_network_is_attached_to_vapp
  desired_connections-OnMachine vapp existing [] heap = search on_machine_rules depth 60
  desired_connections-OnMachine vapp existing (n ∷ networks) heap =
      search (on_machine_rules, desired_connections-OnMachine vapp existing networks) depth 60

  pub networks-OnMachine :
      (vapp : VApp) (vm : Vm) (networks : List String)
      → KeepsFun (OnMachine P) (reconcile_vm_networks env vapp vm networks)
  unfolding reconcile_vm_networks
  networks-OnMachine vapp vm networks =
      search (on_machine_rules, desired_connections-OnMachine) depth 60

  pub resize-OnMachine :
      (owner : OwnerMachine) (vm : Vm) → KeepsFun (OnMachine P) (resize_disk env owner vm)
  unfolding resize_disk
  resize-OnMachine owner vm = search on_machine_rules depth 60

module _ (env : Env) (owner : OwnerMachine) where
  resize-machine :
      (vm : Vm) (s t : Store) (r : Vm × Option Err)
      → resize_disk env owner vm s ≡ ret r t
      → t.machine ≡ s.machine
  resize-machine vm s t r e =
      on_machine_after (resize-OnMachine env (λ m. m ≡ s.machine) owner vm) s t r e refl

  resize-name :
      (vm : Vm) (s t : Store) (r : Vm × Option Err)
      → resize_disk env owner vm s ≡ ret r t
      → r.0.name ≡ vm.name
  unfolding resize_disk
  resize-name vm s t r e = ground arith

  -- The machine has the name of the VM and its address, which is not empty.
  pub record Provisioned (vm : Vm) (address : String) (m : VcdMachine) : Type 0 where
    pub known : (address == "") ≡ false
    pub addresses : m.status.addresses ≡ addresses_of vm address

  -- The VM of this name was read as nil, without an error.
  pub vm_nil : String → Trace → Bool
  vm_nil vm_name (get_vm_by_name n ∷ before) =
      let (vm, err) = env.vm_reply (get_vm_by_name n ∷ before) in
      n == vm_name && (is_none vm && is_none err)
  vm_nil vm_name _ = false

  -- Without an error, the reply has a VM whose address the machine has, or it has none and asks for
  -- another reconcile after 5 seconds, or the VM was read as nil.
  abbrev pub VmOutcome : String → VmReply → Store → Type 0
  VmOutcome vm_name reply t = elim (reply.vm) [
    | none ↦ (reply.result ≡ requeue_machine) ⊎ (happened (vm_nil vm_name) t.trace ≡ true)
    | some vm ↦ Provisioned vm reply.address t.machine
  ]

  configure_vm_lem :
      (vapp : VApp) (vm : Vm) (network : String) (s t : Store) (reply : VmReply)
      → configure_vm env owner vapp vm network s ≡ ret reply t
      → reply.error ≡ none
      → (vm_name : String) → VmOutcome vm_name reply t
  unfolding configure_vm
  configure_vm_lem vapp vm network s t reply e ok vm_name =
      grind (arith, resize-machine, resize-name)

  create_vm-nil :
      (vapp : VApp) (vm_name : String) (s t : Store) (r : Option Vm × Option Err)
      → create_vm env owner vapp vm_name s ≡ ret r t
      → r.0 ≡ none
      → r.1 ≡ none
      → happened (vm_nil vm_name) t.trace ≡ true
  unfolding create_vm vm_nil
  create_vm-nil vapp vm_name s t r e h ok = grind (arith, env.is_some-wrapf)

  pub reconcile_vm-Provisioned :
      (vapp : Option VApp) (vm_name network : String) (s t : Store) (reply : VmReply)
      → reconcile_vm env owner vapp vm_name network s ≡ ret reply t
      → reply.error ≡ none
      → VmOutcome vm_name reply t
  unfolding reconcile_vm
  reconcile_vm-Provisioned vapp vm_name network s t reply e ok = grind (
    arith,
    env.is_some-wrapf,
    create_vm-nil,
    λ (found : VApp). λ (vm : Vm). λ (u : Store).
        λ (x : configure_vm env owner found vm network u ≡ ret reply t).
          configure_vm_lem found vm network u t reply x ok vm_name,
  )

module _ (env : Env) where
  -- The infra ID was written to the metadata of the vApp of this name without an error; that vApp was
  -- recorded in the RDE without an error; the answer to its creation was a nil vApp.
  pub metadata_written : String → String → Trace → Bool
  metadata_written vapp_name infra_id (add_metadata_to_vapp name key value ∷ before) =
      name == vapp_name
      && (key == "CapvcdInfraId"
          && (value == infra_id
              && is_none (env.error_reply (add_metadata_to_vapp name key value ∷ before))))
  metadata_written vapp_name infra_id _ = false

  pub vapp_recorded : String → Trace → Bool
  vapp_recorded vapp_name (add_to_vcd_resource_set kind name id address ∷ before) =
      kind == "VApp"
      && (name == vapp_name
          && is_none (env.error_reply (add_to_vcd_resource_set kind name id address ∷ before)))
  vapp_recorded vapp_name _ = false

  pub vapp_nil : String → Trace → Bool
  vapp_nil vapp_name (get_or_create_vapp name network ∷ before) =
      name == vapp_name && is_none ((env.vapp_reply (get_or_create_vapp name network ∷ before)).0)
  vapp_nil vapp_name _ = false

  -- Whether the first read of the vApp says that it is not there.
  abbrev pub not_there : Client → String → Store → Bool
  not_there client vapp_name s = is_entity_not_found (
      (env.vapp_reply (
        get_vapp_by_name vapp_name
        ∷ remove_error "VCDClusterError" "" ""
        ∷ new_vdc_manager client.cluster_org_name client.cluster_ovdc_name
        ∷ s.trace)).1)

  -- `marked` says that the metadata need not be written.
  pub record VappReady (vapp_name : String) (marked : Bool) (infra_id : String) (t : Store)
      : Type 0 where
    pub updated : t.cluster.status.vapp_metadata_updated ≡ true
    pub recorded : happened (vapp_recorded vapp_name) t.trace ≡ true
    pub written : (marked || happened (metadata_written vapp_name infra_id) t.trace) ≡ true

  record_vapp_lem :
      (vapp : VApp) (name : String) (s t : Store) (r : Reply)
      → record_vapp env vapp name s ≡ ret r t
      → r.1 ≡ none
      → VappReady name s.cluster.status.vapp_metadata_updated s.cluster.status.infra_id t
  unfolding record_vapp vapp_recorded metadata_written
  record_vapp_lem vapp name s t r e ok = grind (arith, env.is_some-wrapf)

  pub reconcile_vapp_creation-ready :
      (client : Client) (name network : String) (s t : Store) (r : Reply)
      → reconcile_vapp_creation env client name network s ≡ ret r t
      → r.1 ≡ none
      → (happened (vapp_nil name) t.trace ≡ true)
        ⊎ VappReady name
            (s.cluster.status.vapp_metadata_updated && not (not_there client name s))
            s.cluster.status.infra_id
            t
  unfolding reconcile_vapp_creation vapp_nil
  reconcile_vapp_creation-ready client name network s t r e ok =
      grind (arith, env.is_some-wrapf, record_vapp_lem)
