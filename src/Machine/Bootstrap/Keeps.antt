-- ===== src/Machine/Bootstrap/Keeps.antt =====
-- A bootstrap leaves the machine in memory as it is, and does each thing after what came before it.
use cluster_api_provider_clo.Base.{String, Bool, Option, List, [], ◌∷◌, ◌≡◌, refl}
use cluster_api_provider_clo.Effect.{ret}
use cluster_api_provider_clo.Effect.Keeps.{Keeps, KeepsFun}
use cluster_api_provider_clo.Api.{Err}
use cluster_api_provider_clo.Api.Machine.{VcdMachine, OwnerMachine}
use cluster_api_provider_clo.Vcd.{Client, VApp, Vm}
use cluster_api_provider_clo.Vcd.Env.{Env, Store}
use cluster_api_provider_clo.Vcd.Objects.{OnMachine, on_machine_rules, on_machine_after}
use cluster_api_provider_clo.Machine.PostCustomization.{Wait, returned, sleeping}
use cluster_api_provider_clo.Machine.Bootstrap.{Guest, reconcile_vm_bootstrap, bootstrap_vm}
use cluster_api_provider_clo.Machine.Bootstrap.{power_on_vm, set_extra_config, wait_for_phases}
use cluster_api_provider_clo.Machine.Bootstrap.{wait_for_phase, finish_bootstrap, end_of}
use cluster_api_provider_clo.Machine.Bootstrap.{has_cloud_init_execution_failed_before}

module _ (env : Env) (guest : Guest) (owner : OwnerMachine) (client : Client) where
  module _ (P : VcdMachine → Type 0) where
    end_of-OnMachine : (w : Wait) → Keeps (OnMachine P) (end_of w)
    unfolding end_of
    end_of-OnMachine (returned e) = search on_machine_rules
    end_of-OnMachine sleeping = search on_machine_rules

    wait_for_phase-OnMachine :
        (vm : Vm) (phase : String)
        → KeepsFun (OnMachine P) (wait_for_phase env guest owner client vm phase)
    unfolding wait_for_phase
    wait_for_phase-OnMachine vm phase = search (on_machine_rules, end_of-OnMachine) depth 60

    wait_for_phases-OnMachine :
        (vapp : VApp) (vm : Vm) (phases : List String)
        → KeepsFun (OnMachine P) (wait_for_phases env guest owner client vapp vm phases)
    unfolding wait_for_phases
    wait_for_phases-OnMachine vapp vm [] = search on_machine_rules depth 60
    wait_for_phases-OnMachine vapp vm (p ∷ phases) =
        let first = wait_for_phase-OnMachine vm p in
        let later = wait_for_phases-OnMachine vapp vm phases in
        search (on_machine_rules, first, later) depth 60

    set_extra_config-OnMachine :
        (vapp : VApp) (vm : Vm) (script : String) (keys : List String)
        → KeepsFun (OnMachine P) (set_extra_config env guest owner client vapp vm script keys)
    unfolding set_extra_config
    set_extra_config-OnMachine vapp vm script [] = search on_machine_rules depth 60
    set_extra_config-OnMachine vapp vm script (k ∷ keys) =
        search (on_machine_rules, set_extra_config-OnMachine vapp vm script keys) depth 60

    power_on_vm-OnMachine :
        (vapp : VApp) (vm : Vm) (script : String)
        → KeepsFun (OnMachine P) (power_on_vm env guest owner client vapp vm script)
    unfolding power_on_vm
    power_on_vm-OnMachine vapp vm script =
        search (on_machine_rules, set_extra_config-OnMachine) depth 60

    check-OnMachine :
        (vm : Vm)
        → KeepsFun (OnMachine P) (has_cloud_init_execution_failed_before env guest owner client vm)
    unfolding has_cloud_init_execution_failed_before
    check-OnMachine vm = search on_machine_rules depth 60

    finish-OnMachine :
        (vapp : VApp) (vm : Vm) (skip : Bool)
        → KeepsFun (OnMachine P) (finish_bootstrap env guest owner client vapp vm skip)
    unfolding finish_bootstrap
    finish-OnMachine vapp vm skip = search on_machine_rules depth 60

    bootstrap_vm-OnMachine :
        (vapp : VApp) (vm : Vm) (script : String) (initial skip : Bool)
        → KeepsFun (OnMachine P) (bootstrap_vm env guest owner client vapp vm script initial skip)
    unfolding bootstrap_vm
    bootstrap_vm-OnMachine vapp vm script initial skip =
        search
          (
            on_machine_rules, power_on_vm-OnMachine, check-OnMachine, wait_for_phases-OnMachine,
            finish-OnMachine,
          )
          depth 60

    pub bootstrap-OnMachine :
        (vapp : Option VApp) (vm : Option Vm) (script : String) (initial skip : Bool)
        → KeepsFun
            (OnMachine P)
            (reconcile_vm_bootstrap env guest owner client vapp vm script initial skip)
    unfolding reconcile_vm_bootstrap
    bootstrap-OnMachine vapp vm script initial skip =
        search (on_machine_rules, bootstrap_vm-OnMachine) depth 60

  pub bootstrap-machine :
      (vapp : Option VApp) (vm : Option Vm) (script : String) (initial skip : Bool) (s t : Store)
      → (r : Option Err)
      → reconcile_vm_bootstrap env guest owner client vapp vm script initial skip s ≡ ret r t
      → t.machine ≡ s.machine
  bootstrap-machine vapp vm script initial skip s t r e =
      on_machine_after (bootstrap-OnMachine (λ m. m ≡ s.machine) vapp vm script initial skip) s t r
        e refl
