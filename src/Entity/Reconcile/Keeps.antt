-- ===== src/Entity/Reconcile/Keeps.antt =====
-- reconcileRDE makes calls and leaves the cluster in memory as it is.
use cluster_api_provider_clo.Base.{String, Bool, Option, List, [], ◌∷◌, ◌≡◌, refl}
use cluster_api_provider_clo.Effect.{ret}
use cluster_api_provider_clo.Effect.Keeps.{KeepsFun}
use cluster_api_provider_clo.Api.{Err}
use cluster_api_provider_clo.Api.Cluster.{VcdCluster, OwnerCluster}
use cluster_api_provider_clo.Vcd.{Client, DefinedEntity, Org}
use cluster_api_provider_clo.Vcd.Env.{Env, Store}
use cluster_api_provider_clo.Vcd.Objects.{OnCluster, on_cluster_rules, on_cluster_after}
use cluster_api_provider_clo.Rde.Types.{CapvcdEntity, SpecPatch, Upgrade}
use cluster_api_provider_clo.Rde.Keeps.{patch_rde-OnCluster}
use cluster_api_provider_clo.Entity.Nodes.{NodeOwner, Listing, all_kubeadm_control_planes}
use cluster_api_provider_clo.Entity.Nodes.{all_machine_deployments, node_pools, node_pool_list}
use cluster_api_provider_clo.Entity.Nodes.{has_cluster_reconciled_to_desired_k8_version}
use cluster_api_provider_clo.Entity.Create.Laws.{machines-OnCluster, some_behind-OnCluster}
use cluster_api_provider_clo.Entity.Reconcile.{RdeReads, ResourceSetBinding, get_capvcd_entity}
use cluster_api_provider_clo.Entity.Reconcile.{resolve_rde, spec_patches, send_patches}
use cluster_api_provider_clo.Entity.Reconcile.{patch_entity, reconcile_rde}

module _ (env : Env) (listing : Listing) (P : VcdCluster → Type 0) where
  node_pools-OnCluster :
      (is_kcp : Bool) (cluster_name : String) (owners : List NodeOwner)
      → KeepsFun (OnCluster P) (node_pools env listing is_kcp cluster_name owners)
  unfolding node_pools
  node_pools-OnCluster is_kcp cluster_name [] = search on_cluster_rules depth 60
  node_pools-OnCluster is_kcp cluster_name (owner ∷ owners) =
      let first = machines-OnCluster env listing P is_kcp cluster_name owner in
      let later = node_pools-OnCluster is_kcp cluster_name owners in
      search (on_cluster_rules, first, later) depth 60

  node_pool_list-OnCluster :
      (cluster_name : String) → KeepsFun (OnCluster P) (node_pool_list env listing cluster_name)
  unfolding node_pool_list all_machine_deployments all_kubeadm_control_planes
  node_pool_list-OnCluster cluster_name = search (on_cluster_rules, node_pools-OnCluster) depth 60

  has_reconciled-OnCluster :
      (cluster_name expected : String) (kcps mds : List NodeOwner)
      → KeepsFun
          (OnCluster P)
          (has_cluster_reconciled_to_desired_k8_version env listing cluster_name kcps mds expected)
  unfolding has_cluster_reconciled_to_desired_k8_version
  has_reconciled-OnCluster cluster_name expected kcps mds =
      search (on_cluster_rules, some_behind-OnCluster) depth 60

module _ (env : Env) (reads : RdeReads) (P : VcdCluster → Type 0) where
  get_capvcd_entity-OnCluster :
      (client : Client) (id : String)
      → KeepsFun (OnCluster P) (get_capvcd_entity env reads client id)
  unfolding get_capvcd_entity
  get_capvcd_entity-OnCluster client id = search on_cluster_rules depth 60

  resolve_rde-OnCluster :
      (updated : DefinedEntity) → KeepsFun (OnCluster P) (resolve_rde env reads updated)
  unfolding resolve_rde
  resolve_rde-OnCluster updated = search on_cluster_rules depth 60

  module _ (owner : OwnerCluster) where
    spec_patches-OnCluster :
        (old : CapvcdEntity) → KeepsFun (OnCluster P) (spec_patches env reads owner old)
    unfolding spec_patches
    spec_patches-OnCluster old = search on_cluster_rules depth 60

    send_patches-OnCluster :
        (client : Client) (org : Org) (old : CapvcdEntity) (upgrade : Upgrade) (version : String)
        (specs : List SpecPatch) (crs : List (List ResourceSetBinding) × Option Err)
        (external_id : Option String)
        → KeepsFun
            (OnCluster P)
            (send_patches env reads owner client org old upgrade version specs crs external_id)
    unfolding send_patches
    send_patches-OnCluster client org old upgrade version specs crs external_id =
        search
          (on_cluster_rules, node_pool_list-OnCluster, patch_rde-OnCluster, resolve_rde-OnCluster)
          depth 100

    patch_entity-OnCluster :
        (client : Client) (org : Org) (old : CapvcdEntity) (external_id : Option String)
        → KeepsFun (OnCluster P) (patch_entity env reads owner client org old external_id)
    unfolding patch_entity all_machine_deployments all_kubeadm_control_planes
    patch_entity-OnCluster client org old external_id =
        search
          (
            on_cluster_rules, spec_patches-OnCluster, has_reconciled-OnCluster,
            send_patches-OnCluster,
          )
          depth 100

    pub reconcile_rde-OnCluster :
        (client : Option Client) (external_id : Option String)
        → KeepsFun (OnCluster P) (reconcile_rde env reads owner client external_id)
    unfolding reconcile_rde
    reconcile_rde-OnCluster client external_id =
        search (on_cluster_rules, get_capvcd_entity-OnCluster, patch_entity-OnCluster) depth 100

-- The cluster after reconcileRDE is the one before.
pub reconcile_rde-cluster :
    (env : Env) (reads : RdeReads) (owner : OwnerCluster) (client : Option Client)
    → (external_id : Option String) (s t : Store) (r : Option Err)
    → reconcile_rde env reads owner client external_id s ≡ ret r t
    → t.cluster ≡ s.cluster
reconcile_rde-cluster env reads owner client external_id s t r e =
    on_cluster_after
      (reconcile_rde-OnCluster env reads (λ c. c ≡ s.cluster) owner client external_id) s t r e refl
