-- ===== src/Cluster/Delete/Keeps.antt =====
-- The deletion functions make calls and leave the cluster in memory as it is.
use cluster_api_provider_clo.Base.{String, ℕ, Bool, Option}
use cluster_api_provider_clo.Effect.Keeps.{KeepsFun}
use cluster_api_provider_clo.Api.Cluster.{VcdCluster}
use cluster_api_provider_clo.Vcd.{Client}
use cluster_api_provider_clo.Vcd.Calls.{Trace}
use cluster_api_provider_clo.Vcd.Env.{Env}
use cluster_api_provider_clo.Vcd.History.{Past, past_rules}
use cluster_api_provider_clo.Vcd.Objects.{OnCluster, on_cluster_rules}
use cluster_api_provider_clo.Cluster.Delete.{delete_lb, delete_empty_vapp}
use cluster_api_provider_clo.Cluster.Delete.{reconcile_delete_single_vapp, reconcile_delete_vapps}
use cluster_api_provider_clo.Cluster.Delete.{delete_entity, reconcile_delete_rde}

module _ (env : Env) (test : Trace → Bool) where
  pub reconcile_delete_single_vapp-Past :
      (ovdc vapp : String) (client : Option Client)
      → KeepsFun (Past test) (reconcile_delete_single_vapp env ovdc vapp client)
  unfolding reconcile_delete_single_vapp delete_empty_vapp
  reconcile_delete_single_vapp-Past ovdc vapp client = search past_rules depth 60

  pub reconcile_delete_vapps-Past :
      (client : Option Client) → KeepsFun (Past test) (reconcile_delete_vapps env client)
  unfolding reconcile_delete_vapps
  reconcile_delete_vapps-Past client =
      search (past_rules, reconcile_delete_single_vapp-Past) depth 60

  pub reconcile_delete_rde-Past :
      (client : Option Client) → KeepsFun (Past test) (reconcile_delete_rde env client)
  unfolding reconcile_delete_rde delete_entity
  reconcile_delete_rde-Past client = search past_rules depth 60

module _ (env : Env) (P : VcdCluster → Type 0) where
  pub delete_lb-OnCluster :
      (client : Option Client) (network ovdc : String) (port : ℕ)
      → KeepsFun (OnCluster P) (delete_lb env client network ovdc port)
  unfolding delete_lb
  delete_lb-OnCluster client network ovdc port = search on_cluster_rules depth 60

  reconcile_delete_single_vapp-OnCluster :
      (ovdc vapp : String) (client : Option Client)
      → KeepsFun (OnCluster P) (reconcile_delete_single_vapp env ovdc vapp client)
  unfolding reconcile_delete_single_vapp delete_empty_vapp
  reconcile_delete_single_vapp-OnCluster ovdc vapp client = search on_cluster_rules depth 60

  pub reconcile_delete_vapps-OnCluster :
      (client : Option Client) → KeepsFun (OnCluster P) (reconcile_delete_vapps env client)
  unfolding reconcile_delete_vapps
  reconcile_delete_vapps-OnCluster client =
      search (on_cluster_rules, reconcile_delete_single_vapp-OnCluster) depth 60

  pub reconcile_delete_rde-OnCluster :
      (client : Option Client) → KeepsFun (OnCluster P) (reconcile_delete_rde env client)
  unfolding reconcile_delete_rde delete_entity
  reconcile_delete_rde-OnCluster client = search on_cluster_rules depth 60
