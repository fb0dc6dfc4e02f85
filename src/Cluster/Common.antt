-- ===== src/Cluster/Common.antt =====
-- Constants of the cluster controller, and patchVCDCluster.
use cluster_api_provider_clo.Base.{
  String, ℕ, Bool, false, Option, List, [], ◌∷◌, not, ◌||◌, starts_with,
}
use cluster_api_provider_clo.Effect.{Fun, ◌>>=◌, ◌>>◌, run}
use cluster_api_provider_clo.Api.{Err, CtrlResult, Condition}
use cluster_api_provider_clo.Api.Cluster.{VcdCluster}
use cluster_api_provider_clo.Vcd.Calls.{patch_cluster}
use cluster_api_provider_clo.Vcd.Env.{Env, Store, ask, the_cluster, update_cluster}

abbrev pub cluster_finalizer : String
cluster_finalizer = "vcdcluster.infrastructure.cluster.x-k8s.io"

abbrev pub load_balancer_available_condition : String
load_balancer_available_condition = "LoadBalancerAvailable"

abbrev pub no_rde_prefix : String
no_rde_prefix = "NO_RDE_"

abbrev pub tcp_port : ℕ
tcp_port = 6443

abbrev pub status_ok : ℕ
status_ok = 200

-- strings.Contains
unfoldable pub text_contains : String → String → Bool
text_contains String.[] pattern = starts_with "" pattern
text_contains (String.◌∷◌ c rest) pattern =
    starts_with (String.◌∷◌ c rest) pattern || text_contains rest pattern

-- ctrl.Result{}
abbrev pub done : CtrlResult
done = record { requeue = false; requeue_after = 0 }

abbrev pub with_conditions : List Condition → VcdCluster → VcdCluster
with_conditions conditions c = record c { status = record (c.status) { conditions = conditions } }

abbrev pub with_finalizers : List String → VcdCluster → VcdCluster
with_finalizers finalizers c = record c { meta = record (c.meta) { finalizers = finalizers } }

module _ (env : Env) where
  unfoldable pub patch_vcd_cluster : Fun Store (Option Err)
  patch_vcd_cluster = run do
    c ← the_cluster
    let summary =
        env.set_summary c.status.conditions (load_balancer_available_condition ∷ [])
          (not c.meta.deleting)
    update_cluster (with_conditions summary)
    ask (patch_cluster (with_conditions summary c)) env.error_reply
