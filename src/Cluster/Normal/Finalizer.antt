-- ===== src/Cluster/Normal/Finalizer.antt =====
-- The finalizer comes first.
use cluster_api_provider_clo.Base.{String, Bool, true, false, ◌≡◌, [], ◌∷◌}
use cluster_api_provider_clo.Base.{arith, ◌&&◌, ◌⊎◌}
use cluster_api_provider_clo.Effect.{Returns}
use cluster_api_provider_clo.Vcd.Calls
use cluster_api_provider_clo.Vcd.Calls.{Call, Trace}
use cluster_api_provider_clo.Vcd.Env.{Env, Store}
use cluster_api_provider_clo.Cluster.Common.{cluster_finalizer, patch_vcd_cluster}
use cluster_api_provider_clo.Entity.Reconcile.{RdeReads}
use cluster_api_provider_clo.Cluster.Normal.{dispatch, patch_after, with_patch, reconcile}

-- A call of the Kubernetes API server.
pub is_kubernetes : Call → Bool
is_kubernetes (Calls.get_vcd_cluster _) = true
is_kubernetes Calls.get_owner_cluster = true
is_kubernetes Calls.new_patch_helper = true
is_kubernetes (Calls.patch_cluster _) = true
is_kubernetes _ = false

pub only_kubernetes : Trace → Bool
only_kubernetes [] = true
only_kubernetes (c ∷ before) = is_kubernetes c && only_kubernetes before

module _ (env : Env) (reads : RdeReads) (skip_rde : Bool) where
  -- The first reconcile of a cluster without the finalizer returns and makes no call but calls of
  -- the Kubernetes API server, and either the cluster in memory is unchanged or it has the
  -- finalizer.
  pub reconcile-adds_finalizer :
      (name : String) (s : Store)
      → s.trace ≡ []
      → env.contains_finalizer s.cluster.meta.finalizers cluster_finalizer ≡ false
      → Returns
          (λ r t.
            (only_kubernetes t.trace ≡ true)
            × ((t.cluster ≡ s.cluster)
                ⊎ (env.contains_finalizer t.cluster.meta.finalizers cluster_finalizer ≡ true)))
          (reconcile env reads skip_rde name s)
  unfolding reconcile dispatch with_patch patch_after patch_vcd_cluster only_kubernetes
      is_kubernetes
  reconcile-adds_finalizer name s fresh h = grind (arith, env.contains-add)
