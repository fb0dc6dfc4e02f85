-- ===== src/Machine/Reconcile/Laws.antt =====
-- A machine whose VCDCluster cannot be read, and the first reconcile of a machine.
use cluster_api_provider_clo.Base.{String, Bool, true, false, ◌≡◌, [], ◌∷◌}
use cluster_api_provider_clo.Base.{arith, ◌&&◌, ◌⊎◌, is_some, string_eq, none, not}
use cluster_api_provider_clo.Effect.{Returns}
use cluster_api_provider_clo.Api.Cluster.{OwnerCluster}
use cluster_api_provider_clo.Api.{Reply}
use cluster_api_provider_clo.Cluster.Common.{done}
use cluster_api_provider_clo.Api.Machine.{VcdMachine, OwnerMachine}
use cluster_api_provider_clo.Vcd.Calls
use cluster_api_provider_clo.Vcd.Calls.{Call, Trace}
use cluster_api_provider_clo.Vcd.Env.{Env, Store}
use cluster_api_provider_clo.Machine.Common.{machine_finalizer, patch_vcd_machine}
use cluster_api_provider_clo.Machine.Delete.{reconcile_delete_machine}
use cluster_api_provider_clo.Machine.Bootstrap.{Guest}
use cluster_api_provider_clo.Machine.CloudInit.{Yaml}
use cluster_api_provider_clo.Machine.Reconcile.{dispatch_machine, patch_machine_after}
use cluster_api_provider_clo.Machine.Reconcile.{with_machine_patch, reconcile_with_cluster}
use cluster_api_provider_clo.Machine.Reconcile.{reconcile_machine}

-- A call of the Kubernetes API server.
pub is_kubernetes_call : Call → Bool
is_kubernetes_call (Calls.get_vcd_machine _) = true
is_kubernetes_call Calls.get_owner_machine = true
is_kubernetes_call Calls.get_cluster_from_metadata = true
is_kubernetes_call (Calls.get_vcd_cluster _) = true
is_kubernetes_call Calls.new_patch_helper = true
is_kubernetes_call (Calls.patch_machine _) = true
is_kubernetes_call _ = false

unfoldable pub no_cloud_call : Trace → Bool
no_cloud_call [] = true
no_cloud_call (c ∷ before) = is_kubernetes_call c && no_cloud_call before

module _ (env : Env) (yaml : Yaml) (guest : Guest) where
  -- What becomes of a machine whose VCDCluster cannot be read: nothing where it is not being deleted.
  -- Otherwise an error is returned, or the finalizer is added where it was missing, or the finalizer
  -- is gone where it was there.
  abbrev pub Abandoned : VcdMachine → Reply → VcdMachine → Type 0
  Abandoned m r m' =
      ((m.meta.deleting ≡ false) × ((r ≡ (done, none)) × (m' ≡ m)))
      ⊎ ((m.meta.deleting ≡ true)
          × ((is_some r.1 ≡ true)
              ⊎ (env.contains_finalizer m'.meta.finalizers machine_finalizer
                  ≡ not (env.contains_finalizer m.meta.finalizers machine_finalizer))))

  -- If the read of the VCDCluster fails, with whatever error, the rest of Reconcile returns and makes
  -- no call of Cloud Director. A machine that is not being deleted is unchanged, without an error and
  -- without a requeue. For one that is being deleted an error is returned; or it gets the finalizer
  -- where it had none; or it loses the finalizer that it had, whatever became of its VM.
  pub reconcile_with_cluster-unread :
      (owner : OwnerMachine) (cluster : OwnerCluster) (s : Store)
      → no_cloud_call s.trace ≡ true
      → is_some (env.error_reply (Calls.get_vcd_cluster cluster.infrastructure_name ∷ s.trace))
        ≡ true
      → Returns
          (λ r t. (no_cloud_call t.trace ≡ true) × Abandoned s.machine r t.machine)
          (reconcile_with_cluster env yaml guest owner cluster s)
  unfolding reconcile_with_cluster with_machine_patch patch_machine_after dispatch_machine
      reconcile_delete_machine patch_vcd_machine no_cloud_call is_kubernetes_call
  reconcile_with_cluster-unread owner cluster s fresh failed =
      grind (arith, env.is_some-wrapf, env.contains-remove, env.contains-add)

  -- The first reconcile of a machine without its finalizer returns and makes no call of Cloud
  -- Director, and either the machine in memory is unchanged or it has the finalizer.
  pub reconcile_machine-adds_finalizer :
      (name : String) (s : Store)
      → s.trace ≡ []
      → env.contains_finalizer s.machine.meta.finalizers machine_finalizer ≡ false
      → Returns
          (λ r t.
            (no_cloud_call t.trace ≡ true)
            × ((t.machine ≡ s.machine)
                ⊎ (env.contains_finalizer t.machine.meta.finalizers machine_finalizer ≡ true)))
          (reconcile_machine env yaml guest name s)
  unfolding reconcile_machine reconcile_with_cluster with_machine_patch patch_machine_after
      dispatch_machine patch_vcd_machine no_cloud_call is_kubernetes_call
  reconcile_machine-adds_finalizer name s fresh h = grind (arith, env.contains-add)
