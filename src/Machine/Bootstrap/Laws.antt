-- ===== src/Machine/Bootstrap/Laws.antt =====
-- The phases of a bootstrap: every wait ends, and a bootstrap without an error has waited for each.
use cluster_api_provider_clo.Base.{String, Bool, true, false, Option, none, some, List, [], ◌∷◌}
use cluster_api_provider_clo.Base.{
  ◌≡◌, refl, arith, contains, is_some, is_none, ◌==◌, string_eq, nat_eq, ◌++◌,
}
use cluster_api_provider_clo.Base.{◌&&◌, ◌||◌, not, if◌then◌else◌}
use cluster_api_provider_clo.Machine.PostCustomization.{remove_from_slice}
use cluster_api_provider_clo.Machine.Bootstrap.{network_configuration, metering_configuration}
use cluster_api_provider_clo.Machine.Bootstrap.{proxy_configuration, kubeadm_init}
use cluster_api_provider_clo.Machine.Bootstrap.{kubeadm_node_join}
use cluster_api_provider_clo.Effect.{ret, Returns}
use cluster_api_provider_clo.Effect.Keeps.{Keeps, KeepsFun}
use cluster_api_provider_clo.Api.{Err}
use cluster_api_provider_clo.Api.Machine.{OwnerMachine}
use cluster_api_provider_clo.Vcd.{Client, VApp, Vm}
use cluster_api_provider_clo.Vcd.Calls.{Trace, post_customization, power_on, get_vm_status}
use cluster_api_provider_clo.Vcd.Env.{Env, Store}
use cluster_api_provider_clo.Vcd.History.{happened, Past, past_rules, happened_after}
use cluster_api_provider_clo.Machine.PostCustomization.{Round, Wait, returned, sleeping, wait}
use cluster_api_provider_clo.Machine.PostCustomization.{check_script, possible_statuses}
use cluster_api_provider_clo.Machine.PostCustomization.{wait_for_post_customization_phase}
use cluster_api_provider_clo.Machine.PostCustomization.Laws.{settles}
use cluster_api_provider_clo.Machine.PostCustomization.Laws.{
  wait_for_post_customization_phase-settles,
}
use cluster_api_provider_clo.Machine.Bootstrap.{
  Guest, end_of, rounds_of, wait_for_phase, wait_for_phases,
}
use cluster_api_provider_clo.Machine.Bootstrap.{power_on_vm, finish_bootstrap}
use cluster_api_provider_clo.Machine.Bootstrap.{bootstrap_vm, reconcile_vm_bootstrap, phases_of}
use cluster_api_provider_clo.Machine.Bootstrap.{has_cloud_init_execution_failed_before}

is_returned : Wait → Bool
is_returned (returned e) = true
is_returned sleeping = false

module _ (env : Env) (is_zero : String → Option Bool) (late : Round) where
  check_script-late : late.timed_out ≡ true → is_some (check_script env is_zero late) ≡ true
  unfolding check_script
  check_script-late h = grind arith

  wait-returns :
      (possible : List String) (current : String) (rounds : List Round)
      → late.timed_out ≡ true
      → is_returned (wait env is_zero possible current (rounds ++ late ∷ [])) ≡ true
  unfolding wait is_returned
  wait-returns possible current [] h = grind (arith, check_script-late h)
  wait-returns possible current (r ∷ rounds) h =
      grind (arith, λ (p : List String). λ (c : String). wait-returns p c rounds h)

  phase-returns :
      (manager_error : Option Err) (rounds : List Round)
      → late.timed_out ≡ true
      → is_returned
          (wait_for_post_customization_phase env is_zero manager_error (rounds ++ late ∷ []))
        ≡ true
  unfolding wait_for_post_customization_phase is_returned
  phase-returns manager_error rounds h = grind (arith, wait-returns possible_statuses "" rounds h)

module _ (env : Env) where
  -- The VM with the ID was read as powered on, or it was powered on without an error.
  pub powered : String → Trace → Bool
  powered vm_id (get_vm_status id ∷ before) =
      id == vm_id && (env.text_reply (get_vm_status id ∷ before)).0 == "POWERED_ON"
  powered vm_id (power_on id ∷ before) =
      id == vm_id && is_none (env.error_reply (power_on id ∷ before))
  powered vm_id _ = false

module _ (env : Env) (guest : Guest) (owner : OwnerMachine) (client : Client) where
  rounds_returned :
      (t : Trace)
      → is_returned (wait_for_post_customization_phase env guest.is_zero none (rounds_of guest t))
        ≡ true
  rounds_returned t =
      phase-returns env guest.is_zero (record (guest.late t) { timed_out = true }) none
        (guest.early t) refl

  rounds_refused :
      (e : Err)
      → is_returned (wait_for_post_customization_phase env guest.is_zero (some e) []) ≡ true
  unfolding wait_for_post_customization_phase is_returned
  rounds_refused e = refl

  -- The wait for a phase never panics and never runs out of rounds: it returns, whatever the guest
  -- answers before 600 seconds have passed.
  pub wait_for_phase-Returns :
      (vm : Vm) (phase : String) (s : Store)
      → Returns (λ r t. t.machine ≡ s.machine) (wait_for_phase env guest owner client vm phase s)
  unfolding wait_for_phase is_returned end_of
  wait_for_phase-Returns vm phase s = grind (arith, rounds_returned, rounds_refused)

  -- The answers of the VM with the ID in a phase settle it.
  pub phase_settled : String → String → Trace → Bool
  phase_settled vm_id phase (post_customization id p ∷ before) =
      id == vm_id
      && (p == phase && settles false (rounds_of guest (post_customization id p ∷ before)))
  phase_settled vm_id phase _ = false

  wait_for_phase-settled :
      (vm : Vm) (phase : String) (s t : Store)
      → wait_for_phase env guest owner client vm phase s ≡ ret none t
      → happened (phase_settled vm.id phase) t.trace ≡ true
  unfolding wait_for_phase phase_settled end_of
  wait_for_phase-settled vm phase s t e =
      grind (arith, wait_for_post_customization_phase-settles env guest.is_zero)

  end_of-Past : (test : Trace → Bool) (w : Wait) → Keeps (Past test) (end_of w)
  unfolding end_of
  end_of-Past test (returned e) = search past_rules
  end_of-Past test sleeping = search past_rules

  wait_for_phase-Past :
      (test : Trace → Bool) (vm : Vm) (phase : String)
      → KeepsFun (Past test) (wait_for_phase env guest owner client vm phase)
  unfolding wait_for_phase
  wait_for_phase-Past test vm phase = search (past_rules, end_of-Past) depth 60

  wait_for_phases-Past :
      (test : Trace → Bool) (vapp : VApp) (vm : Vm) (phases : List String)
      → KeepsFun (Past test) (wait_for_phases env guest owner client vapp vm phases)
  unfolding wait_for_phases
  wait_for_phases-Past test vapp vm [] = search past_rules depth 60
  wait_for_phases-Past test vapp vm (p ∷ phases) =
      let first = wait_for_phase-Past test vm p in
      let later = wait_for_phases-Past test vapp vm phases in
      search (past_rules, first, later) depth 60

  check-Past :
      (test : Trace → Bool) (vm : Vm)
      → KeepsFun (Past test) (has_cloud_init_execution_failed_before env guest owner client vm)
  unfolding has_cloud_init_execution_failed_before
  check-Past test vm = search past_rules depth 60

  phases-past :
      (test : Trace → Bool) (vapp : VApp) (vm : Vm) (phases : List String) (s t : Store)
      → (r : Option Err) → wait_for_phases env guest owner client vapp vm phases s ≡ ret r t
      → happened test s.trace ≡ true
      → happened test t.trace ≡ true
  phases-past test vapp vm phases s t r =
      happened_after (wait_for_phases-Past test vapp vm phases) s t r

  finish-Past :
      (test : Trace → Bool) (vapp : VApp) (vm : Vm) (skip : Bool)
      → KeepsFun (Past test) (finish_bootstrap env guest owner client vapp vm skip)
  unfolding finish_bootstrap
  finish-Past test vapp vm skip = search past_rules depth 60

  finish-past :
      (test : Trace → Bool) (vapp : VApp) (vm : Vm) (skip : Bool) (s t : Store) (r : Option Err)
      → finish_bootstrap env guest owner client vapp vm skip s ≡ ret r t
      → happened test s.trace ≡ true
      → happened test t.trace ≡ true
  finish-past test vapp vm skip s t r = happened_after (finish-Past test vapp vm skip) s t r

  -- A phase of the list is settled.
  wait_for_phases-settled :
      (phase : String) (vapp : VApp) (vm : Vm) (phases : List String) (s t : Store)
      → wait_for_phases env guest owner client vapp vm phases s ≡ ret none t
      → contains phases phase ≡ true
      → happened (phase_settled vm.id phase) t.trace ≡ true
  unfolding wait_for_phases
  wait_for_phases-settled phase vapp vm [] s t e here = absurd (ground arith)
  wait_for_phases-settled phase vapp vm (p ∷ phases) s t e here = grind (
    arith,
    env.is_some-wrapf,
    wait_for_phase-settled vm p,
    phases-past (phase_settled vm.id phase) vapp vm phases,
    wait_for_phases-settled phase vapp vm phases,
  )

  power_on_vm-powered :
      (vapp : VApp) (vm : Vm) (script : String) (s t : Store)
      → power_on_vm env guest owner client vapp vm script s ≡ ret none t
      → happened (powered env vm.id) t.trace ≡ true
  unfolding power_on_vm powered
  power_on_vm-powered vapp vm script s t e = grind (arith, env.is_some-wrapf)

  check-past :
      (test : Trace → Bool) (vm : Vm) (s t : Store) (r : Bool × Option Err)
      → has_cloud_init_execution_failed_before env guest owner client vm s ≡ ret r t
      → happened test s.trace ≡ true
      → happened test t.trace ≡ true
  check-past test vm s t r = happened_after (check-Past test vm) s t r

  -- The phases for a cluster with or without a proxy.
  abbrev pub phases_for : Bool → Store → List String
  phases_for initial s =
      let proxy = s.cluster.spec.proxy_config_spec in
      phases_of initial (not (proxy.https_proxy == "" && proxy.http_proxy == ""))

  bootstrap_vm-on :
      (vapp : VApp) (vm : Vm) (script : String) (initial skip : Bool) (s t : Store)
      → bootstrap_vm env guest owner client vapp vm script initial skip s ≡ ret none t
      → happened (powered env vm.id) t.trace ≡ true
  unfolding bootstrap_vm powered
  bootstrap_vm-on vapp vm script initial skip s t e =
      let later = phases-past (powered env vm.id) vapp vm in
      grind (
        arith,
        env.is_some-wrapf,
        power_on_vm-powered,
        check-past (powered env vm.id),
        later,
        finish-past (powered env vm.id),
      )

  -- Where the check says that the script has failed, it has an error.
  check-error :
      (vm : Vm) (s t : Store) (r : Bool × Option Err)
      → has_cloud_init_execution_failed_before env guest owner client vm s ≡ ret r t
      → r.0 ≡ true
      → is_some r.1 ≡ true
  unfolding has_cloud_init_execution_failed_before
  check-error vm s t r e h = grind (arith, env.is_some-wrapf)

  bootstrap_vm-settled :
      (phase : String) (vapp : VApp) (vm : Vm) (script : String) (initial skip : Bool)
      → (s t : Store)
      → bootstrap_vm env guest owner client vapp vm script initial skip s ≡ ret none t
      → contains (phases_for initial s) phase ≡ true
      → happened (phase_settled vm.id phase) t.trace ≡ true
  unfolding bootstrap_vm
  bootstrap_vm-settled phase vapp vm script initial skip s t e here = grind (
    arith,
    env.is_some-wrapf,
    check-error,
    wait_for_phases-settled phase,
    finish-past (phase_settled vm.id phase),
  )

  -- The ID of the VM, which is not nil where a bootstrap returns.
  abbrev pub vm_id_of : Option Vm → String
  vm_id_of vm = elim vm [ none ↦ "" | some there ↦ there.id ]

  pub reconcile_vm_bootstrap-on :
      (vapp : Option VApp) (vm : Option Vm) (script : String) (initial skip : Bool) (s t : Store)
      → reconcile_vm_bootstrap env guest owner client vapp vm script initial skip s ≡ ret none t
      → happened (powered env (vm_id_of vm)) t.trace ≡ true
  unfolding reconcile_vm_bootstrap
  reconcile_vm_bootstrap-on vapp vm script initial skip s t e = grind (arith, bootstrap_vm-on)

  -- The cluster has a proxy.
  abbrev pub has_proxy : Store → Bool
  has_proxy s =
      let proxy = s.cluster.spec.proxy_config_spec in
      not (proxy.https_proxy == "") || not (proxy.http_proxy == "")

  -- The phases that a bootstrap has to wait for.
  abbrev pub is_awaited : Bool → Bool → String → Bool
  is_awaited initial proxied phase =
      phase == network_configuration
      || (phase == metering_configuration
          || ((proxied && phase == proxy_configuration)
              || phase == (if initial then kubeadm_init else kubeadm_node_join)))

  phases_of-awaited :
      (initial proxied : Bool) (phase : String)
      → is_awaited initial proxied phase ≡ true
      → contains (phases_of initial proxied) phase ≡ true
  unfolding phases_of remove_from_slice string_eq
  phases_of-awaited true true phase h = ground arith
  phases_of-awaited true false phase h = ground arith
  phases_of-awaited false true phase h = ground arith
  phases_of-awaited false false phase h = ground arith

  has_proxy-same :
      (s : Store)
      → not (
          s.cluster.spec.proxy_config_spec.https_proxy == ""
          && s.cluster.spec.proxy_config_spec.http_proxy == "")
        ≡ has_proxy s
  has_proxy-same s = ground arith

  phases_for-awaited :
      (initial : Bool) (s : Store) (phase : String)
      → is_awaited initial (has_proxy s) phase ≡ true
      → contains (phases_for initial s) phase ≡ true
  phases_for-awaited initial s phase h =
      rw (has_proxy-same s) (phases_of-awaited initial (has_proxy s) phase h)

  booted :
      (vapp : Option VApp) (vm : Option Vm) (script : String) (initial skip : Bool) (s t : Store)
      → reconcile_vm_bootstrap env guest owner client vapp vm script initial skip s ≡ ret none t
      → (phase : String) → contains (phases_for initial s) phase ≡ true
      → happened (phase_settled (vm_id_of vm) phase) t.trace ≡ true
  unfolding reconcile_vm_bootstrap
  booted vapp vm script initial skip s t e phase here = grind (arith, bootstrap_vm-settled phase)

  -- If reconcileVMBoostrap returns no error, the VM was read as powered on or was powered on without
  -- an error, and each of these phases has answers of the VM that end the wait for it: network,
  -- metering, kubeadm init for the first control plane machine and kubeadm join for the others, and
  -- the proxy if the cluster has one.
  pub reconcile_vm_bootstrap-booted :
      (vapp : Option VApp) (vm : Option Vm) (script : String) (initial skip : Bool) (s t : Store)
      → reconcile_vm_bootstrap env guest owner client vapp vm script initial skip s ≡ ret none t
      → (phase : String) → is_awaited initial (has_proxy s) phase ≡ true
      → (happened (powered env (vm_id_of vm)) t.trace ≡ true)
        × (happened (phase_settled (vm_id_of vm) phase) t.trace ≡ true)
  reconcile_vm_bootstrap-booted vapp vm script initial skip s t e phase awaited = (
    reconcile_vm_bootstrap-on vapp vm script initial skip s t e,
    booted vapp vm script initial skip s t e phase (phases_for-awaited initial s phase awaited),
  )
