-- ===== src/Machine/Normal/Keeps.antt =====
-- The parts of reconcileNormal before the last leave alone whether the machine is ready.
use cluster_api_provider_clo.Base.{String, Bool, Option, ◌≡◌, refl, arith, true}
use cluster_api_provider_clo.Effect.{ret}
use cluster_api_provider_clo.Effect.Keeps.{KeepsFun}
use cluster_api_provider_clo.Api.{Err, Reply, Condition}
use cluster_api_provider_clo.Base.{List}
use cluster_api_provider_clo.Api.Cluster.{OwnerCluster}
use cluster_api_provider_clo.Api.Machine.{VcdMachine, OwnerMachine, MachineAddress}
use cluster_api_provider_clo.Vcd.{Client, VApp, Vm}
use cluster_api_provider_clo.Vcd.Calls.{Trace}
use cluster_api_provider_clo.Vcd.Env.{Env, Store}
use cluster_api_provider_clo.Vcd.History.{Past, past_rules, happened, happened_after}
use cluster_api_provider_clo.Vcd.Objects.{OnMachine, on_machine_rules, on_machine_after}
use cluster_api_provider_clo.Ovdc.Client.{create_vcd_client_from_secrets}
use cluster_api_provider_clo.Ovdc.Client.Keeps.{create_vcd_client-OnMachine}
use cluster_api_provider_clo.Machine.Common.{patch_vcd_machine, machine_conditions}
use cluster_api_provider_clo.Machine.Pool.{reconcile_lb_pool}
use cluster_api_provider_clo.Machine.Vm.{VmReply, reconcile_vm, reconcile_vapp_creation}
use cluster_api_provider_clo.Machine.Vm.{create_vm, configure_vm, record_vapp, with_addresses}
use cluster_api_provider_clo.Machine.Vm.Laws.{networks-OnMachine, resize-OnMachine}
use cluster_api_provider_clo.Machine.CloudInit.{Yaml, CloudInitScriptInput, merge_template}
use cluster_api_provider_clo.Machine.CloudInit.{merge_jinja_to_cloud_init_script}
use cluster_api_provider_clo.Json.{Fields, end, field}
use cluster_api_provider_clo.Machine.Script.{ScriptReply, reconcile_cloud_init_script}
use cluster_api_provider_clo.Machine.Script.{bootstrap_data}
use cluster_api_provider_clo.Machine.Bootstrap.{Guest}
use cluster_api_provider_clo.Machine.Normal.{mark_bootstrapping}

-- Readiness and provider IDs are those of the first machine.
pub record SameReady (o m : VcdMachine) : Type 0 where
  pub ready : m.status.ready ≡ o.status.ready
  pub spec_id : m.spec.provider_id ≡ o.spec.provider_id
  pub status_id : m.status.provider_id ≡ o.status.provider_id

pub SameReady-self : (o : VcdMachine) → SameReady o o
SameReady-self o = record { ready = refl; spec_id = refl; status_id = refl }

module _ (env : Env) (o : VcdMachine) where
  SameReady-conditions :
      (conditions : List Condition) (m : VcdMachine)
      → SameReady o m
      → SameReady o (machine_conditions conditions m)
  SameReady-conditions conditions m h = record {
    ready = h.ready;
    spec_id = h.spec_id;
    status_id = h.status_id;
  }

  SameReady-addresses :
      (addresses : List MachineAddress) (m : VcdMachine)
      → SameReady o m
      → SameReady o (with_addresses addresses m)
  SameReady-addresses addresses m h = record {
    ready = h.ready;
    spec_id = h.spec_id;
    status_id = h.status_id;
  }

  patch-SameReady : KeepsFun (OnMachine (SameReady o)) (patch_vcd_machine env)
  unfolding patch_vcd_machine
  patch-SameReady = search (on_machine_rules, SameReady-conditions) depth 60

  module _ (owner : OwnerMachine) where
    create_vm-SameReady :
        (vapp : VApp) (name : String)
        → KeepsFun (OnMachine (SameReady o)) (create_vm env owner vapp name)
    unfolding create_vm
    create_vm-SameReady vapp name = search on_machine_rules depth 60

    configure_vm-SameReady :
        (vapp : VApp) (vm : Vm) (network : String)
        → KeepsFun (OnMachine (SameReady o)) (configure_vm env owner vapp vm network)
    unfolding configure_vm
    configure_vm-SameReady vapp vm network =
        let networks = networks-OnMachine env (SameReady o) in
        let resize = resize-OnMachine env (SameReady o) owner in
        search (on_machine_rules, SameReady-addresses, networks, resize) depth 60

    reconcile_vm-SameReady :
        (vapp : Option VApp) (name network : String)
        → KeepsFun (OnMachine (SameReady o)) (reconcile_vm env owner vapp name network)
    unfolding reconcile_vm
    reconcile_vm-SameReady vapp name network =
        search (on_machine_rules, create_vm-SameReady, configure_vm-SameReady) depth 60

  vapp_creation-SameReady :
      (client : Client) (name network : String)
      → KeepsFun (OnMachine (SameReady o)) (reconcile_vapp_creation env client name network)
  unfolding reconcile_vapp_creation record_vapp
  vapp_creation-SameReady client name network = search on_machine_rules depth 60

module _ (env : Env) where
  pub vm-ready :
      (owner : OwnerMachine) (vapp : Option VApp) (name network : String) (s t : Store)
      → (r : VmReply) → reconcile_vm env owner vapp name network s ≡ ret r t
      → SameReady s.machine t.machine
  vm-ready owner vapp name network s t r e =
      on_machine_after (reconcile_vm-SameReady env s.machine owner vapp name network) s t r e
        (SameReady-self s.machine)

  pub vapp-ready :
      (client : Client) (name network : String) (s t : Store) (r : Reply)
      → reconcile_vapp_creation env client name network s ≡ ret r t
      → SameReady s.machine t.machine
  vapp-ready client name network s t r e =
      on_machine_after (vapp_creation-SameReady env s.machine client name network) s t r e
        (SameReady-self s.machine)

  pub client-ready :
      (s t : Store) (r : Option Client × Option Err)
      → create_vcd_client_from_secrets env s ≡ ret r t
      → t.machine ≡ s.machine
  client-ready s t r e =
      on_machine_after (create_vcd_client-OnMachine env (λ m. m ≡ s.machine)) s t r e refl

  pub pool-Past :
      (owner : OwnerMachine) (test : Trace → Bool) (address : String)
      → KeepsFun (Past test) (reconcile_lb_pool env owner address)
  unfolding reconcile_lb_pool
  pool-Past owner test address = search past_rules depth 60

  pub pool-past :
      (owner : OwnerMachine) (test : Trace → Bool) (address : String) (s t : Store)
      → (r : Option Err) → reconcile_lb_pool env owner address s ≡ ret r t
      → happened test s.trace ≡ true
      → happened test t.trace ≡ true
  pool-past owner test address s t r = happened_after (pool-Past owner test address) s t r

  pool-OnMachine :
      (owner : OwnerMachine) (P : VcdMachine → Type 0) (address : String)
      → KeepsFun (OnMachine P) (reconcile_lb_pool env owner address)
  unfolding reconcile_lb_pool
  pool-OnMachine owner P address = search on_machine_rules depth 60

  pub pool-ready :
      (owner : OwnerMachine) (address : String) (s t : Store) (r : Option Err)
      → reconcile_lb_pool env owner address s ≡ ret r t
      → t.machine ≡ s.machine
  pool-ready owner address s t r e =
      on_machine_after (pool-OnMachine owner (λ m. m ≡ s.machine) address) s t r e refl

merge_template-store :
    (jinja vcd merged : Fields) (s t : Store) (r : Fields × Option Err)
    → merge_template jinja vcd merged s ≡ ret r t
    → t ≡ s
unfolding merge_template
merge_template-store jinja end merged s t r e = ground arith
merge_template-store jinja (field key value rest) merged s t r e = grind (
  arith,
  λ (m : Fields).
      λ (u v : Store). λ (x : Fields × Option Err). merge_template-store jinja rest m u v x,
)

module _ (env : Env) (yaml : Yaml) where
  merge_jinja-store :
      (input : CloudInitScriptInput) (jinja : String) (s t : Store) (r : String × Option Err)
      → merge_jinja_to_cloud_init_script env yaml input jinja s ≡ ret r t
      → t ≡ s
  unfolding merge_jinja_to_cloud_init_script
  merge_jinja-store input jinja s t r e = grind (arith, merge_template-store)

  pub script-ready :
      (owner : OwnerMachine) (cluster : OwnerCluster) (name : String) (skip : Bool) (s t : Store)
      → (r : ScriptReply) → reconcile_cloud_init_script env yaml owner cluster name skip s ≡ ret r t
      → t.machine ≡ s.machine
  unfolding reconcile_cloud_init_script bootstrap_data
  script-ready owner cluster name skip s t r e = grind (arith, merge_jinja-store)

module _ (env : Env) (yaml : Yaml) (guest : Guest) (owner : OwnerMachine)
    (cluster : OwnerCluster) where
  mark-SameReady :
      (o : VcdMachine)
      → KeepsFun (OnMachine (SameReady o)) (mark_bootstrapping env yaml guest owner cluster)
  unfolding mark_bootstrapping
  mark-SameReady o =
      let patch = patch-SameReady env o in
      search (on_machine_rules, SameReady-conditions, patch) depth 60

  pub mark-ready :
      (s t : Store) (r : Option Err)
      → mark_bootstrapping env yaml guest owner cluster s ≡ ret r t
      → SameReady s.machine t.machine
  mark-ready s t r e =
      on_machine_after (mark-SameReady s.machine) s t r e (SameReady-self s.machine)
