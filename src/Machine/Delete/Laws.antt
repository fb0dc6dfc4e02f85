-- ===== src/Machine/Delete/Laws.antt =====
-- When the finalizer of a machine goes.
use cluster_api_provider_clo.Base.{
  String, ℕ, Bool, true, false, Option, none, some, List, [], ◌∷◌, ◌<>◌, ◌==◌, ◌≤◌, refl,
}
use cluster_api_provider_clo.Base.{if◌then◌else◌, is_some, ltb, Bool-cases, inl, inr}
use cluster_api_provider_clo.Base.{◌≡◌, ◌⊎◌, is_none, string_eq, nat_eq, arith}
use cluster_api_provider_clo.Base.{◌&&◌, ◌||◌, not}
use cluster_api_provider_clo.Effect.{ret}
use cluster_api_provider_clo.Api.{Err, Reply}
use cluster_api_provider_clo.Api.Machine.{VcdMachine, OwnerMachine, MachineAddress}
use cluster_api_provider_clo.Api.Cluster.{VcdCluster}
use cluster_api_provider_clo.Vcd.{Client, VApp, Vm}
use cluster_api_provider_clo.Vcd.Calls.{Trace, get_vapp_by_name, get_vm_by_name, delete_vm}
use cluster_api_provider_clo.Vcd.Calls.{get_load_balancer_pool, update_load_balancer}
use cluster_api_provider_clo.Vcd.Calls.{get_load_balancer_pool_member_ips}
use cluster_api_provider_clo.Vcd.Env.{Env, Store}
use cluster_api_provider_clo.Vcd.History.{happened}
use cluster_api_provider_clo.Ovdc.Client.{is_entity_not_found}
use cluster_api_provider_clo.Machine.Common.{machine_finalizer, patch_vcd_machine, vm_name_of}
use cluster_api_provider_clo.Machine.Common.{machine_conditions, container_provisioned_condition}
use cluster_api_provider_clo.Machine.Common.{bootstrap_exec_succeeded_condition}
use cluster_api_provider_clo.Machine.Pool.{remove_from_pool, address_to_be_deleted, remove_address}
use cluster_api_provider_clo.Machine.Pool.Laws.{count, without, remove_address-without}
use cluster_api_provider_clo.Cluster.Delete.Finalizer.{client-meta, update-meta}
use cluster_api_provider_clo.Machine.Delete.{delete_found_vm, delete_in_vapp, delete_from_vapp}
use cluster_api_provider_clo.Machine.Delete.{power_off_vm}
use cluster_api_provider_clo.Machine.Delete.{release_machine, delete_machine_vm}
use cluster_api_provider_clo.Machine.Delete.{delete_machine_infrastructure}
use cluster_api_provider_clo.Machine.Delete.{reconcile_delete_machine}
use cluster_api_provider_clo.Machine.Delete.Keeps.{pool-machine, vapp-machine, client-machine}
use cluster_api_provider_clo.Machine.Delete.Keeps.{pool-cluster}
use cluster_api_provider_clo.Machine.Delete.Keeps.{release-past, vm-past}

-- The address of the machine inside the cluster: the last one of that kind.
unfoldable pub internal_ip : List MachineAddress → Option String
internal_ip [] = none
internal_ip (a ∷ rest) = elim (internal_ip rest) [
  | some ip ↦ some ip
  | none ↦ if a.kind == "InternalIP" then some (a.address) else none
]

abbrev ip_or : String → Option String → String
ip_or other o = elim o [ none ↦ other | some ip ↦ ip ]

address_to_be_deleted-internal_ip :
    (found : String) (addresses : List MachineAddress)
    → address_to_be_deleted found addresses ≡ ip_or found (internal_ip addresses)
unfolding address_to_be_deleted internal_ip
address_to_be_deleted-internal_ip found [] = refl
address_to_be_deleted-internal_ip found (a ∷ rest) =
    grind (arith, λ (x : String). address_to_be_deleted-internal_ip x rest)

-- Two lists with the same items in the same order.
unfoldable pub same_items : List String → List String → Bool
same_items [] [] = true
same_items (x ∷ xs) (y ∷ ys) = x == y && same_items xs ys
same_items xs ys = false

same_items_self : (xs : List String) → same_items xs xs ≡ true
unfolding same_items
same_items_self [] = refl
same_items_self (x ∷ xs) = grind (arith, same_items_self xs)

-- The second list is the first one without the address, if that stands in it once at most.
pub is_taken_out : String → List String → List String → Bool
is_taken_out address members left =
    ltb 1 (count address members) || same_items left (without address members)

ltb-le : (n : ℕ) → ltb 1 n ≡ false → n ≤ 1
ltb-le n h = ground arith

remove_address-is_taken_out :
    (address : String) (members : List String)
    → is_taken_out address members (remove_address address members) ≡ true
unfolding is_taken_out
remove_address-is_taken_out address members = elim (Bool-cases (ltb 1 (count address members))) [
  | inl often ↦ rw often refl
  | inr once ↦
      let removed = remove_address-without address members (ltb-le _ once) in
      rw (once, removed) (same_items_self (without address members))
]

module _ (env : Env) where
  -- The VM of this name was read with the ID.
  pub vm_read : String → String → Trace → Bool
  vm_read name id (get_vm_by_name n ∷ before) =
      n == name
      && elim ((env.vm_reply (get_vm_by_name n ∷ before)).0) [ none ↦ false | some v ↦ v.id == id ]
  vm_read name id _ = false

  -- The vApp or the VM of these names was not there, or the VM was deleted without an error.
  pub vm_gone : String → String → Trace → Bool
  vm_gone vapp_name vm_name (get_vapp_by_name n ∷ before) =
      let (vapp, err) = env.vapp_reply (get_vapp_by_name n ∷ before) in
      n == vapp_name && (is_none vapp && (is_none err || is_entity_not_found err))
  vm_gone vapp_name vm_name (get_vm_by_name n ∷ before) =
      let (vm, err) = env.vm_reply (get_vm_by_name n ∷ before) in
      n == vm_name && (is_none vm && (is_none err || is_entity_not_found err))
  vm_gone vapp_name vm_name (delete_vm id ∷ before) =
      is_none (env.error_reply (delete_vm id ∷ before)) && happened (vm_read vm_name id) before
  vm_gone vapp_name vm_name _ = false

  -- The pool of this name was not found, or its members, read just before, were set without an
  -- error to what they are without the address.
  pub pool_updated : String → String → Trace → Bool
  pool_updated name address (get_load_balancer_pool n ∷ before) =
      n == name && is_entity_not_found ((env.text_reply (get_load_balancer_pool n ∷ before)).1)
  pool_updated name address
        (update_load_balancer p v ips port one shared
          ∷ get_load_balancer_pool_member_ips pool
          ∷ get_load_balancer_pool n
          ∷ before) =
      let found = env.text_reply (get_load_balancer_pool n ∷ before) in
      let read = get_load_balancer_pool_member_ips pool ∷ get_load_balancer_pool n ∷ before in
      let members = (env.texts_reply read).0 in
      p == name
      && (n == name
          && (pool == found.0
              && (is_none (env.error_reply (update_load_balancer p v ips port one shared ∷ read))
                  && is_taken_out address members ips)))
  pool_updated name address _ = false

module _ (env : Env) (owner : OwnerMachine) where
  delete_found_vm-gone :
      (vapp_name vm_name : String) (vm : Vm) (s t : Store)
      → delete_found_vm env owner vm s ≡ ret none t
      → happened (vm_read env vm_name vm.id) s.trace ≡ true
      → happened (vm_gone env vapp_name vm_name) t.trace ≡ true
  unfolding delete_found_vm power_off_vm vm_gone vm_read
  delete_found_vm-gone vapp_name vm_name vm s t e h = grind (arith, env.is_some-wrapf)

  delete_in_vapp-gone :
      (vapp_name vm_name : String) (vapp : VApp) (s t : Store)
      → delete_in_vapp env owner vapp s ≡ ret none t
      → (vm_name_of env owner s.machine).0 ≡ vm_name
      → happened (vm_gone env vapp_name vm_name) t.trace ≡ true
  unfolding delete_in_vapp vm_gone vm_read
  delete_in_vapp-gone vapp_name vm_name vapp s t e named =
      grind (arith, env.is_some-wrapf, delete_found_vm-gone vapp_name vm_name)

  delete_from_vapp-gone :
      (vapp_name vm_name : String) (vapp : VApp) (s t : Store)
      → delete_from_vapp env owner vapp s ≡ ret none t
      → (vm_name_of env owner s.machine).0 ≡ vm_name
      → happened (vm_gone env vapp_name vm_name) t.trace ≡ true
  unfolding delete_from_vapp
  delete_from_vapp-gone vapp_name vm_name vapp s t e named =
      grind (arith, delete_in_vapp-gone vapp_name vm_name)

  release-succeeds : (s t : Store) (r : Reply) → release_machine env owner s ≡ ret r t → r.1 ≡ none
  unfolding release_machine
  release-succeeds s t r e = ground arith

  -- The name of the load balancer's pool of a cluster, and the address of a machine, if it has one.
  pub pool_name : VcdCluster → String
  pool_name c = (c.meta.name <> "-" <> c.status.infra_id) <> "-" <> "tcp"

  pub machine_ip : VcdMachine → String
  machine_ip m = ip_or "" (internal_ip m.status.addresses)

  remove_from_pool-updated :
      (s t : Store)
      → remove_from_pool env owner s ≡ ret none t
      → happened (pool_updated env (pool_name s.cluster) (machine_ip s.machine)) t.trace ≡ true
  unfolding remove_from_pool pool_updated pool_name machine_ip
  remove_from_pool-updated s t e =
      let address = address_to_be_deleted-internal_ip "" s.machine.status.addresses in
      grind (arith, env.is_some-wrapf, address, remove_address-is_taken_out)

  -- The VM of the machine in the vApp of the cluster is gone.
  abbrev pub gone_vm : Store → Trace → Bool
  gone_vm s = vm_gone env s.cluster.meta.name (vm_name_of env owner s.machine).0

  delete_machine_vm_lem :
      (client : Client) (s t : Store) (r : Reply)
      → delete_machine_vm env owner client s ≡ ret r t
      → (t.machine ≡ s.machine) ⊎ ((r.1 ≡ none) × (happened (gone_vm s) t.trace ≡ true))
  unfolding delete_machine_vm vm_gone
  delete_machine_vm_lem client s t r e = grind (
    arith,
    vapp-machine env owner,
    release-past env owner (gone_vm s),
    release-succeeds,
    delete_from_vapp-gone s.cluster.meta.name (vm_name_of env owner s.machine).0,
  )

  -- What has happened when the finalizer goes.
  pub record MachineGone (vapp_name vm_name name address : String) (trace : Trace) : Type 0 where
    pub vm : happened (vm_gone env vapp_name vm_name) trace ≡ true
    pub pool : (not owner.control_plane || happened (pool_updated env name address) trace) ≡ true

  abbrev pub GoneMachine : VcdCluster → VcdMachine → Trace → Type 0
  GoneMachine c m = MachineGone c.meta.name (vm_name_of env owner m).0 (pool_name c) (machine_ip m)

  pool-then-vm :
      (client : Client) (s u t : Store) (x : Option Err) (r : Reply)
      → remove_from_pool env owner s ≡ ret x u
      → is_some x ≡ false
      → delete_machine_vm env owner client u ≡ ret r t
      → happened (pool_updated env (pool_name s.cluster) (machine_ip s.machine)) t.trace ≡ true
  pool-then-vm client s u t (some x) r e fine later = absurd (cc)
  pool-then-vm client s u t none r e fine later =
      vm-past env owner (pool_updated env (pool_name s.cluster) (machine_ip s.machine)) client u t r
        later (remove_from_pool-updated s u e)

  delete_infrastructure_lem :
      (client : Client) (s t : Store) (r : Reply)
      → delete_machine_infrastructure env owner client s ≡ ret r t
      → (t.machine ≡ s.machine) ⊎ ((r.1 ≡ none) × GoneMachine s.cluster s.machine t.trace)
  unfolding delete_machine_infrastructure
  delete_infrastructure_lem client s t r e = grind (
    arith,
    pool-machine env owner,
    pool-cluster env owner,
    pool-then-vm client,
    delete_machine_vm_lem,
  )

  pool_name-same :
      (c d : VcdCluster)
      → c.meta ≡ d.meta
      → c.status.infra_id ≡ d.status.infra_id
      → pool_name c ≡ pool_name d
  unfolding pool_name
  pool_name-same c d e f = rw (e, f) refl

  -- The same of a cluster and a machine that agree with those in memory.
  delete_infrastructure-from :
      (c : VcdCluster) (m : VcdMachine) (client : Client) (s t : Store) (r : Reply)
      → delete_machine_infrastructure env owner client s ≡ ret r t
      → s.cluster.meta ≡ c.meta
      → s.cluster.status.infra_id ≡ c.status.infra_id
      → s.machine ≡ m
      → (t.machine ≡ m) ⊎ ((r.1 ≡ none) × GoneMachine c m t.trace)
  delete_infrastructure-from c m client s t r e meta id machine =
      let name = pool_name-same s.cluster c meta id in
      rw (machine, name, meta) at (delete_infrastructure_lem client s t r e)

  -- The machine with the condition that it is being deleted, and with its summary, as it is patched.
  abbrev pub marked : VcdMachine → VcdMachine
  marked m =
      let conditions =
        env.mark_false m.status.conditions container_provisioned_condition "Deleting" "Info" in
      let kinds = container_provisioned_condition ∷ bootstrap_exec_succeeded_condition ∷ [] in
      machine_conditions (env.set_summary conditions kinds (not m.meta.deleting)) m

  -- If the machine has its finalizer before reconcileDelete and does not have it after, no error is
  -- returned, and either the cluster has no site, or both of these hold. The vApp with the name of
  -- the cluster, or the VM with the name of the machine, which getVMName makes from the machine as it
  -- is patched, was not there, or the VM that was read under that name was deleted without an error.
  -- And for a control plane machine the load balancer's pool of the cluster was not found, or its
  -- members were set, without an error, to those read before without the internal address of the
  -- machine, if the pool had that once at most.
  pub reconcile_delete_machine-finalizer :
      (s t : Store) (r : Reply)
      → reconcile_delete_machine env owner s ≡ ret r t
      → env.contains_finalizer s.machine.meta.finalizers machine_finalizer ≡ true
      → env.contains_finalizer t.machine.meta.finalizers machine_finalizer ≡ false
      → (r.1 ≡ none)
        × ((s.cluster.spec.site ≡ "") ⊎ GoneMachine s.cluster (marked s.machine) t.trace)
  unfolding reconcile_delete_machine patch_vcd_machine
  reconcile_delete_machine-finalizer s t r e before after = grind (
    arith,
    client-machine env owner,
    client-meta env,
    update-meta env,
    delete_infrastructure-from s.cluster (marked s.machine),
  )
