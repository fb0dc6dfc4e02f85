-- ===== src/Machine/Normal/Laws.antt =====
-- When a machine becomes ready.
use cluster_api_provider_clo.Base.{String, true, Option, none, some, List, [], ◌<>◌}
use cluster_api_provider_clo.Base.{◌≡◌, ◌⊎◌, arith, is_some, string_eq, nat_eq}
use cluster_api_provider_clo.Base.{◌&&◌, inl, inr, ◌∙◌, sym, ap}
use cluster_api_provider_clo.Effect.{ret}
use cluster_api_provider_clo.Api.{Err, Reply, Condition}
use cluster_api_provider_clo.Api.Cluster.{OwnerCluster}
use cluster_api_provider_clo.Api.Machine.{VcdMachine, OwnerMachine}
use cluster_api_provider_clo.Vcd.{Client, VApp}
use cluster_api_provider_clo.Vcd.Env.{Env, Store}
use cluster_api_provider_clo.Vcd.History.{happened}
use cluster_api_provider_clo.Machine.Common.{machine_conditions, container_provisioned_condition}
use cluster_api_provider_clo.Machine.Vm.{VmReply, reconcile_vm, reconcile_vapp_creation}
use cluster_api_provider_clo.Machine.Bootstrap.{Guest}
use cluster_api_provider_clo.Machine.Bootstrap.Laws.{reconcile_vm_bootstrap-on, powered, vm_id_of}
use cluster_api_provider_clo.Machine.Bootstrap.Keeps.{bootstrap-machine}
use cluster_api_provider_clo.Machine.Normal.Keeps.{SameReady, mark-ready, vm-ready}
use cluster_api_provider_clo.Machine.Normal.Keeps.{vapp-ready, client-ready, pool-past, pool-ready}
use cluster_api_provider_clo.Machine.Normal.Keeps.{script-ready}
use cluster_api_provider_clo.Machine.CloudInit.{Yaml}
use cluster_api_provider_clo.Machine.Script.{ScriptReply}
use cluster_api_provider_clo.Machine.Normal.{ready_machine}
use cluster_api_provider_clo.Machine.Normal.{provisioned, boot_machine, bootstrap_machine}
use cluster_api_provider_clo.Machine.Normal.{provision_machine, provision_vm, mark_bootstrapping}
use cluster_api_provider_clo.Machine.Normal.{reconcile_machine_with}
use cluster_api_provider_clo.Machine.Normal.{reconcile_machine_normal}

module _ (env : Env) (yaml : Yaml) (guest : Guest) (owner : OwnerMachine)
    (cluster : OwnerCluster) where
  -- The machine is ready, with the provider IDs of the VM with this ID, which was powered on.
  pub record IsBootstrapped (vm_id : String) (t : Store) : Type 0 where
    pub ready : t.machine.status.ready ≡ true
    pub spec_id : t.machine.spec.provider_id ≡ some ("vmware-cloud-director" <> "://" <> vm_id)
    pub status_id : t.machine.status.provider_id ≡ some ("vmware-cloud-director" <> "://" <> vm_id)
    pub bootstrapped : t.machine.spec.bootstrapped ≡ true
    pub on : happened (powered env vm_id) t.trace ≡ true

  abbrev pub Bootstrapped : Store → Type 0
  Bootstrapped t = (vm_id : String) × IsBootstrapped vm_id t

  -- The machine was made ready, or it is as ready as before.
  pub MachineStep : Store → Reply → Store → Type 0
  MachineStep s r t = SameReady s.machine t.machine ⊎ ((r.1 ≡ none) × Bootstrapped t)

  boot_machine_on :
      (client : Client) (vapp : Option VApp) (vm : VmReply) (script : ScriptReply)
      → (s t : Store) (r : Reply)
      → boot_machine env yaml guest owner cluster client vapp vm script s ≡ ret r t
      → (t.machine ≡ s.machine)
        ⊎ ((r.1 ≡ none) × IsBootstrapped (vm_id_of env guest owner client vm.vm) t)
  unfolding boot_machine provisioned
  boot_machine_on client vapp vm script s t r e = grind (
    arith,
    env.is_some-wrapf,
    pool-ready env,
    pool-past env owner (powered env (vm_id_of env guest owner client vm.vm)),
    bootstrap-machine env guest owner,
    reconcile_vm_bootstrap-on env guest owner,
  )

  boot_machine_lem :
      (client : Client) (vapp : Option VApp) (vm : VmReply) (script : ScriptReply)
      → (s t : Store) (r : Reply)
      → boot_machine env yaml guest owner cluster client vapp vm script s ≡ ret r t
      → (t.machine ≡ s.machine) ⊎ ((r.1 ≡ none) × Bootstrapped t)
  boot_machine_lem client vapp vm script s t r e =
      elim (boot_machine_on client vapp vm script s t r e) [
        | inl same ↦ inl same
        | inr (ok, booted) ↦ inr (ok, (vm_id_of env guest owner client vm.vm, booted))
      ]

  marked-step :
      (s t : Store) (r : Reply) (conditions : List Condition)
      → t.machine ≡ machine_conditions conditions s.machine
      → MachineStep s r t
  unfolding MachineStep
  marked-step s t r conditions e =
      inl (record { ready = ground arith; spec_id = ground arith; status_id = ground arith })

  booted-step : (s t : Store) (r : Reply) → (r.1 ≡ none) × Bootstrapped t → MachineStep s r t
  unfolding MachineStep
  booted-step s t r h = inr h

  same-step : (s t : Store) (r : Reply) → t.machine ≡ s.machine → MachineStep s r t
  unfolding MachineStep
  same-step s t r e =
      inl (record { ready = ground arith; spec_id = ground arith; status_id = ground arith })

  after-step :
      (s u t : Store) (r : Reply)
      → SameReady s.machine u.machine
      → MachineStep u r t
      → MachineStep s r t
  unfolding MachineStep
  after-step s u t r h (inl same) = inl (record {
    ready = same.ready ∙ h.ready;
    spec_id = same.spec_id ∙ h.spec_id;
    status_id = same.status_id ∙ h.status_id;
  })
  after-step s u t r h (inr done) = inr done

  boot-step :
      (client : Client) (vapp : Option VApp) (vm : VmReply) (script : ScriptReply)
      → (s u t : Store) (r : Reply) (conditions : List Condition)
      → u.machine ≡ machine_conditions conditions s.machine
      → boot_machine env yaml guest owner cluster client vapp vm script u ≡ ret r t
      → MachineStep s r t
  boot-step client vapp vm script s u t r conditions m e =
      elim (boot_machine_lem client vapp vm script u t r e) [
        | inl same ↦ marked-step s t r conditions (same ∙ m)
        | inr booted ↦ booted-step s t r booted
      ]

  bootstrap_machine_lem :
      (client : Client) (vapp : Option VApp) (vm : VmReply) (name : String)
      → (s t : Store) (r : Reply)
      → bootstrap_machine env yaml guest owner cluster client vapp vm name s ≡ ret r t
      → MachineStep s r t
  unfolding bootstrap_machine
  bootstrap_machine_lem client vapp vm name s t r e =
      let conditions = s.machine.status.conditions in
      let kind = container_provisioned_condition in
      let provisioned_now = env.mark_true conditions kind in
      let boots = λ (script : ScriptReply).
        λ (u : Store). boot-step client vapp vm script s u t r provisioned_now in
      grind (
        arith,
        script-ready env yaml owner cluster,
        boots,
        marked-step s t r provisioned_now,
        marked-step s t r (env.mark_false conditions kind "WaitingForControlPlaneAvailable" "Info"),
        marked-step s t r (env.mark_false conditions kind "WaitingForBootstrapData" "Info"),
      )

  vm-returns :
      (vapp : Option VApp) (name network : String) (x : VmReply) (s u v t : Store) (r : Reply)
      → reconcile_vm env owner vapp name network u ≡ ret x v
      → u.machine ≡ s.machine
      → t.machine ≡ v.machine
      → MachineStep s r t
  vm-returns vapp name network x s u v t r e m n =
      let same = vm-ready env owner vapp name network u v x e in
      after-step s v t r (rw m at same) (same-step v t r n)

  vm-boots :
      (client : Client) (vapp : Option VApp) (name network : String) (x : VmReply)
      → (s u v t : Store) (r : Reply) → reconcile_vm env owner vapp name network u ≡ ret x v
      → u.machine ≡ s.machine
      → bootstrap_machine env yaml guest owner cluster client vapp x name v ≡ ret r t
      → MachineStep s r t
  vm-boots client vapp name network x s u v t r e m b =
      let same = vm-ready env owner vapp name network u v x e in
      after-step s v t r (rw m at same) (bootstrap_machine_lem client vapp x name v t r b)

  provision_vm_lem :
      (client : Client) (s t : Store) (r : Reply)
      → provision_vm env yaml guest owner cluster client s ≡ ret r t
      → MachineStep s r t
  unfolding provision_vm
  provision_vm_lem client s t r e =
      let boots = λ (vapp : Option VApp). λ (name network : String).
        λ (x : VmReply). λ (u v : Store). vm-boots client vapp name network x s u v t r in
      let returns = λ (vapp : Option VApp). λ (name network : String).
        λ (x : VmReply). λ (u v : Store). vm-returns vapp name network x s u v t r in
      grind (arith, same-step s t r, boots, returns)

  vapp-returns :
      (client : Client) (name network : String) (x : Reply) (s u v t : Store) (r : Reply)
      → reconcile_vapp_creation env client name network u ≡ ret x v
      → u.machine ≡ s.machine
      → t.machine ≡ v.machine
      → MachineStep s r t
  vapp-returns client name network x s u v t r e m n =
      let same = vapp-ready env client name network u v x e in
      after-step s v t r (rw m at same) (same-step v t r n)

  vapp-goes_on :
      (client : Client) (name network : String) (x : Reply) (s u v t : Store) (r : Reply)
      → reconcile_vapp_creation env client name network u ≡ ret x v
      → u.machine ≡ s.machine
      → provision_vm env yaml guest owner cluster client v ≡ ret r t
      → MachineStep s r t
  vapp-goes_on client name network x s u v t r e m b =
      let same = vapp-ready env client name network u v x e in
      after-step s v t r (rw m at same) (provision_vm_lem client v t r b)

  provision_machine_lem :
      (client : Client) (s t : Store) (r : Reply)
      → provision_machine env yaml guest owner cluster client s ≡ ret r t
      → MachineStep s r t
  unfolding provision_machine
  provision_machine_lem client s t r e =
      let goes_on = λ (name network : String).
        λ (x : Reply). λ (u v : Store). vapp-goes_on client name network x s u v t r in
      let returns = λ (name network : String).
        λ (x : Reply). λ (u v : Store). vapp-returns client name network x s u v t r in
      grind (arith, same-step s t r, goes_on, returns)

  -- A machine that had both provider IDs is made ready; but for the conditions, all else stays.
  pub record MadeReady (o m : VcdMachine) : Type 0 where
    pub ids : (is_some o.spec.provider_id && is_some o.status.provider_id) ≡ true
    pub rest :
        machine_conditions [] m
        ≡ record o { status = record (o.status) { ready = true; conditions = [] } }

  pub ReadyStep : Store → Reply → Store → Type 0
  ReadyStep s r t = MachineStep s r t ⊎ ((r.1 ≡ none) × MadeReady s.machine t.machine)

  new_step : (s t : Store) (r : Reply) → MachineStep s r t → ReadyStep s r t
  unfolding ReadyStep
  new_step s t r h = inl h

  old_step :
      (s t : Store) (r : Reply)
      → r.1 ≡ none
      → (is_some s.machine.spec.provider_id && is_some s.machine.status.provider_id) ≡ true
      → t.machine
        ≡ machine_conditions
            (env.mark_true s.machine.status.conditions container_provisioned_condition)
            (ready_machine s.machine)
      → ReadyStep s r t
  unfolding ReadyStep
  old_step s t r h k e =
      inr (h, record { ids = k; rest = ap (λ (m : VcdMachine). machine_conditions [] m) e })

  mark-returns :
      (x : Option Err) (s u v t : Store) (r : Reply)
      → mark_bootstrapping env yaml guest owner cluster u ≡ ret x v
      → u.machine ≡ s.machine
      → t.machine ≡ v.machine
      → ReadyStep s r t
  mark-returns x s u v t r e m n =
      let same = mark-ready env yaml guest owner cluster u v x e in
      new_step s t r (after-step s v t r (rw m at same) (same-step v t r n))

  mark-goes_on :
      (client : Client) (x : Option Err) (s u v w t : Store) (r : Reply)
      → mark_bootstrapping env yaml guest owner cluster u ≡ ret x v
      → u.machine ≡ s.machine
      → w.machine ≡ v.machine
      → provision_machine env yaml guest owner cluster client w ≡ ret r t
      → ReadyStep s r t
  mark-goes_on client x s u v w t r e m n b =
      let same = mark-ready env yaml guest owner cluster u v x e in
      let from_start : SameReady s.machine v.machine = rw m at same in
      let back = sym n in
      let to_end : SameReady s.machine w.machine = rw back at from_start in
      new_step s t r (after-step s w t r to_end (provision_machine_lem client w t r b))

  same-ready : (s t : Store) (r : Reply) → t.machine ≡ s.machine → ReadyStep s r t
  same-ready s t r e = new_step s t r (same-step s t r e)

  reconcile_machine_with_lem :
      (client : Client) (s t : Store) (r : Reply)
      → reconcile_machine_with env yaml guest owner cluster client s ≡ ret r t
      → ReadyStep s r t
  unfolding reconcile_machine_with
  reconcile_machine_with_lem client s t r e =
      let goes_on = λ (x : Option Err). λ (u v w : Store). mark-goes_on client x s u v w t r in
      let returns = λ (x : Option Err). λ (u v : Store). mark-returns x s u v t r in
      grind (arith, same-ready s t r, old_step s t r, goes_on, returns)

  -- Where reconcileNormal starts, only the machine counts.
  ready-from :
      (s u t : Store) (r : Reply) → u.machine ≡ s.machine → ReadyStep u r t → ReadyStep s r t
  unfolding ReadyStep
  ready-from s u t r e (inl step) =
      let same : SameReady s.machine u.machine = record {
        ready = ap (λ m. m.status.ready) e;
        spec_id = ap (λ m. m.spec.provider_id) e;
        status_id = ap (λ m. m.status.provider_id) e;
      } in
      inl (after-step s u t r same step)
  ready-from s u t r e (inr (ok, made)) = inr (ok, rw e at made)

  pub reconcile_machine_normal-ReadyStep :
      (s t : Store) (r : Reply)
      → reconcile_machine_normal env yaml guest owner cluster s ≡ ret r t
      → ReadyStep s r t
  unfolding reconcile_machine_normal
  reconcile_machine_normal-ReadyStep s t r e =
      let goes_on = λ (client : Client). λ (u : Store). λ (m : u.machine ≡ s.machine).
        λ (x : reconcile_machine_with env yaml guest owner cluster client u ≡ ret r t).
          ready-from s u t r m (reconcile_machine_with_lem client u t r x) in
      grind (arith, client-ready env, same-ready s t r, goes_on)
