-- ===== src/Cluster/Normal/Laws.antt =====
-- The order of the steps of a reconcile.
use cluster_api_provider_clo.Base.{Bool, true, false, Option, none, ◌≡◌, ◌≢◌}
use cluster_api_provider_clo.Base.{arith, string_eq, nat_eq}
use cluster_api_provider_clo.Effect.{ret}
use cluster_api_provider_clo.Effect.Keeps.{KeepsFun}
use cluster_api_provider_clo.Api.{Err, Reply}
use cluster_api_provider_clo.Api.Cluster.{VcdCluster, OwnerCluster}
use cluster_api_provider_clo.Vcd.{Client}
use cluster_api_provider_clo.Vcd.Env.{Env, Store}
use cluster_api_provider_clo.Vcd.Objects.{OnCluster, on_cluster_rules, on_cluster_after}
use cluster_api_provider_clo.Ovdc.Client.{create_vcd_client_from_secrets}
use cluster_api_provider_clo.Ovdc.Client.Keeps.{
  SameIdentity, SameIdentity-self, SameIdentity-update,
}
use cluster_api_provider_clo.Ovdc.Client.Keeps.{create_vcd_client-SameIdentity}
use cluster_api_provider_clo.Cluster.Common.{done}
use cluster_api_provider_clo.Entity.Reconcile.{RdeReads}
use cluster_api_provider_clo.Entity.Reconcile.Keeps.{reconcile_rde-cluster}
use cluster_api_provider_clo.Cluster.InfraId.{reconcile_infra_id}
use cluster_api_provider_clo.Cluster.InfraId.Laws.{
  Moved, reconcile_infra_id-Moved, reconcile_infra_id-ready,
}
use cluster_api_provider_clo.Cluster.LoadBalancer.{reconcile_load_balancer}
use cluster_api_provider_clo.Cluster.LoadBalancer.Laws.{
  EndpointStep, reconcile_load_balancer-EndpointStep,
}
use cluster_api_provider_clo.Cluster.Normal.{copy_spec, finish, record_ovdc, reconcile_normal}

module _ (env : Env) (reads : RdeReads) (skip_rde : Bool) where
  pub client-Same :
      (s t : Store) (r : Option Client × Option Err)
      → create_vcd_client_from_secrets env s ≡ ret r t
      → SameIdentity s.cluster t.cluster
  client-Same s t r e =
      on_cluster_after (create_vcd_client-SameIdentity s.cluster env) s t r e
        (SameIdentity-self s.cluster)

  record_ovdc-OnCluster :
      (o : VcdCluster) (client : Client)
      → KeepsFun (OnCluster (SameIdentity o)) (record_ovdc env reads skip_rde client)
  unfolding record_ovdc
  record_ovdc-OnCluster o client = search (on_cluster_rules, SameIdentity-update o) depth 60

  pub record_ovdc-Same :
      (o : VcdCluster) (client : Client) (s t : Store) (r : Option Err)
      → record_ovdc env reads skip_rde client s ≡ ret r t
      → SameIdentity o s.cluster
      → SameIdentity o t.cluster
  record_ovdc-Same o client s t r e h = on_cluster_after (record_ovdc-OnCluster o client) s t r e h

  -- The infra ID is the one of the RDE ID of the spec.
  pub Identified : VcdCluster → Type 0
  Identified c = (c.status.infra_id ≢ "") × (c.spec.rde_id ≡ c.status.infra_id)

  infra-Identified :
      (owner : OwnerCluster) (client : Option Client) (s t : Store)
      → reconcile_infra_id env reads skip_rde owner client s ≡ ret none t
      → Identified t.cluster
  unfolding Moved Identified
  infra-Identified owner client s t e =
      grind (arith, reconcile_infra_id-Moved env reads skip_rde owner)

  lb-Identified :
      (client : Option Client) (skip : Bool) (s t : Store) (r : Reply)
      → reconcile_load_balancer env client skip s ≡ ret r t
      → Identified s.cluster
      → Identified t.cluster × (t.cluster.status.ready ≡ s.cluster.status.ready)
  unfolding EndpointStep Identified
  lb-Identified client skip s t r e h = grind (arith, reconcile_load_balancer-EndpointStep env)

  finish-done :
      (owner : OwnerCluster) (client : Client) (skip : Bool) (s t : Store) (r : Reply)
      → finish env reads skip_rde owner client skip s ≡ ret r t
      → Identified s.cluster
      → Identified t.cluster × (r ≡ (done, none))
  unfolding finish Identified
  finish-done owner client skip s t r e h = grind (arith, reconcile_rde-cluster env reads owner)

  -- If reconcileNormal returns and has made a cluster ready that was not, it returns no error and no
  -- requeue, and the cluster has an infra ID that is not empty and equals the RDE ID of its spec,
  -- where the API server answers Status().Patch with the status that was sent.
  pub reconcile_normal-ready :
      (owner : OwnerCluster) (s t : Store) (r : Reply)
      → reconcile_normal env reads skip_rde owner s ≡ ret r t
      → s.cluster.status.ready ≡ false
      → t.cluster.status.ready ≡ true
      → (r ≡ (done, none)) × Identified t.cluster
  unfolding reconcile_normal copy_spec Identified
  reconcile_normal-ready owner s t r e before after = grind (
    arith,
    client-Same,
    record_ovdc-Same s.cluster,
    infra-Identified owner,
    reconcile_infra_id-ready env reads skip_rde owner,
    lb-Identified,
    finish-done,
  )
