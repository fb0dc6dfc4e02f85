-- ===== src/Cluster/Normal/InfraId.antt =====
-- The infra ID of a cluster across a reconcile.
use cluster_api_provider_clo.Base.{String, Bool, Option, ◌≡◌, ◌≢◌, ◌⊎◌, arith}
use cluster_api_provider_clo.Base.{nat_eq, string_eq}
use cluster_api_provider_clo.Effect.{ret}
use cluster_api_provider_clo.Api.{Err, Reply}
use cluster_api_provider_clo.Api.Cluster.{VcdCluster, OwnerCluster}
use cluster_api_provider_clo.Vcd.{Client}
use cluster_api_provider_clo.Vcd.Env.{Env, Store}
use cluster_api_provider_clo.Cluster.Common.{patch_vcd_cluster}
use cluster_api_provider_clo.Entity.Reconcile.{RdeReads}
use cluster_api_provider_clo.Cluster.InfraId.{reconcile_infra_id}
use cluster_api_provider_clo.Cluster.InfraId.Laws.{Moved, reconcile_infra_id-Moved}
use cluster_api_provider_clo.Cluster.LoadBalancer.{reconcile_load_balancer}
use cluster_api_provider_clo.Cluster.LoadBalancer.Laws.{
  EndpointStep, reconcile_load_balancer-EndpointStep,
}
use cluster_api_provider_clo.Cluster.Delete.{reconcile_delete, delete_infrastructure}
use cluster_api_provider_clo.Cluster.Delete.Finalizer.{lb-cluster, vapps-cluster, rde-cluster}
use cluster_api_provider_clo.Cluster.Delete.Finalizer.{client-meta, update-meta}
use cluster_api_provider_clo.Cluster.Normal.{copy_spec, finish, reconcile_normal, dispatch}
use cluster_api_provider_clo.Cluster.Normal.{patch_after, with_patch, reconcile}
use cluster_api_provider_clo.Cluster.Normal.Laws.{client-Same, record_ovdc-Same}
use cluster_api_provider_clo.Entity.Reconcile.Keeps.{reconcile_rde-cluster}

-- An infra ID that is set stays.
abbrev Stays : VcdCluster → VcdCluster → Type 0
Stays c d = (c.status.infra_id ≡ "") ⊎ (d.status.infra_id ≡ c.status.infra_id)

module _ (env : Env) (reads : RdeReads) (skip_rde : Bool) where
  infra-Stays :
      (owner : OwnerCluster) (client : Option Client) (s t : Store) (r : Option Err)
      → reconcile_infra_id env reads skip_rde owner client s ≡ ret r t
      → Stays s.cluster t.cluster
  unfolding Moved
  infra-Stays owner client s t r e =
      grind (arith, reconcile_infra_id-Moved env reads skip_rde owner)

  lb-infra_id :
      (client : Option Client) (skip : Bool) (s t : Store) (r : Reply)
      → reconcile_load_balancer env client skip s ≡ ret r t
      → t.cluster.status.infra_id ≡ s.cluster.status.infra_id
  unfolding EndpointStep
  lb-infra_id client skip s t r e = grind (arith, reconcile_load_balancer-EndpointStep env)

  finish-infra_id :
      (owner : OwnerCluster) (client : Client) (skip : Bool) (s t : Store) (r : Reply)
      → finish env reads skip_rde owner client skip s ≡ ret r t
      → t.cluster.status.infra_id ≡ s.cluster.status.infra_id
  unfolding finish
  finish-infra_id owner client skip s t r e = grind (arith, reconcile_rde-cluster env reads owner)

  normal-Stays :
      (owner : OwnerCluster) (s t : Store) (r : Reply)
      → reconcile_normal env reads skip_rde owner s ≡ ret r t
      → Stays s.cluster t.cluster
  unfolding reconcile_normal copy_spec
  normal-Stays owner s t r e = grind (
    arith,
    client-Same env reads skip_rde,
    record_ovdc-Same env reads skip_rde s.cluster,
    infra-Stays owner,
    lb-infra_id,
    finish-infra_id,
  )

  infrastructure-infra_id :
      (client : Client) (s t : Store) (r : Reply)
      → delete_infrastructure env client s ≡ ret r t
      → t.cluster.status.infra_id ≡ s.cluster.status.infra_id
  unfolding delete_infrastructure
  infrastructure-infra_id client s t r e =
      grind (arith, lb-cluster env, vapps-cluster env, rde-cluster env)

  delete-infra_id :
      (s t : Store) (r : Reply)
      → reconcile_delete env s ≡ ret r t
      → t.cluster.status.infra_id ≡ s.cluster.status.infra_id
  unfolding reconcile_delete patch_vcd_cluster
  delete-infra_id s t r e = grind (arith, client-meta env, update-meta env, infrastructure-infra_id)

  dispatch-Stays :
      (owner : Option OwnerCluster) (s t : Store) (r : Reply)
      → dispatch env reads skip_rde owner s ≡ ret r t
      → Stays s.cluster t.cluster
  unfolding dispatch
  dispatch-Stays owner s t r e = grind (arith, normal-Stays, delete-infra_id)

  -- If Reconcile returns, the infra ID of a cluster that had one is what it was, on every path:
  -- deletion, errors, RDE upgrades and the deferred patch included, where the API server answers
  -- Status().Patch with the infra ID that was sent.
  pub reconcile-infra_id_stays :
      (name : String) (s t : Store) (r : Reply)
      → reconcile env reads skip_rde name s ≡ ret r t
      → s.cluster.status.infra_id ≢ ""
      → t.cluster.status.infra_id ≡ s.cluster.status.infra_id
  unfolding reconcile with_patch patch_after patch_vcd_cluster
  reconcile-infra_id_stays name s t r e h = grind (arith, dispatch-Stays)
