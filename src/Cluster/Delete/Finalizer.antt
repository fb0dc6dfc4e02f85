-- ===== src/Cluster/Delete/Finalizer.antt =====
-- When the finalizer of a cluster goes.
use cluster_api_provider_clo.Base.{
  Bool, true, false, Option, none, ◌≡◌, ◌⊎◌, refl, arith, ◌||◌, String, ℕ, ◌<>◌, ◌==◌, nat_eq,
  if◌then◌else◌,
}
use cluster_api_provider_clo.Effect.{ret}
use cluster_api_provider_clo.Api.{Err, Reply}
use cluster_api_provider_clo.Vcd.{Client}
use cluster_api_provider_clo.Api.Cluster.{VcdCluster}
use cluster_api_provider_clo.Vcd.Calls.{Trace}
use cluster_api_provider_clo.Vcd.Env.{Env, Store}
use cluster_api_provider_clo.Vcd.History.{happened, happened_after}
use cluster_api_provider_clo.Vcd.Objects.{on_cluster_after}
use cluster_api_provider_clo.Ovdc.Client.Keeps.{SameIdentity-self, SameIdentity-update}
use cluster_api_provider_clo.Ovdc.Client.{create_vcd_client_from_secrets}
use cluster_api_provider_clo.Ovdc.Resources.{update_vdc_resource_to_vcd_cluster}
use cluster_api_provider_clo.Ovdc.Client.Keeps.{create_vcd_client-SameIdentity}
use cluster_api_provider_clo.Cluster.Common.{cluster_finalizer, patch_vcd_cluster}
use cluster_api_provider_clo.Cluster.Delete.{
  delete_lb, reconcile_delete_vapps, reconcile_delete_rde,
}
use cluster_api_provider_clo.Cluster.Delete.{delete_infrastructure, reconcile_delete}
use cluster_api_provider_clo.Cluster.Delete.Keeps.{reconcile_delete_vapps-Past}
use cluster_api_provider_clo.Cluster.Delete.Keeps.{reconcile_delete_rde-Past, delete_lb-OnCluster}
use cluster_api_provider_clo.Cluster.Delete.Keeps.{reconcile_delete_vapps-OnCluster}
use cluster_api_provider_clo.Cluster.Delete.Keeps.{reconcile_delete_rde-OnCluster}
use cluster_api_provider_clo.Cluster.Delete.Laws.{lb_deleted, vapp_gone, rde_gone, has_no_rde}
use cluster_api_provider_clo.Cluster.Delete.Laws.{
  delete_lb-deleted, delete_vapps-gone, delete_rde-gone,
}

module _ (env : Env) where
  pub lb-cluster :
      (client : Option Client) (network ovdc : String) (port : ℕ) (s t : Store) (r : Option Err)
      → delete_lb env client network ovdc port s ≡ ret r t
      → t.cluster ≡ s.cluster
  lb-cluster client network ovdc port s t r e =
      on_cluster_after (delete_lb-OnCluster env (λ c. c ≡ s.cluster) client network ovdc port) s t r
        e refl

  pub vapps-cluster :
      (client : Option Client) (s t : Store) (r : Reply)
      → reconcile_delete_vapps env client s ≡ ret r t
      → t.cluster ≡ s.cluster
  vapps-cluster client s t r e =
      on_cluster_after (reconcile_delete_vapps-OnCluster env (λ c. c ≡ s.cluster) client) s t r e
        refl

  pub rde-cluster :
      (client : Option Client) (s t : Store) (r : Option Err)
      → reconcile_delete_rde env client s ≡ ret r t
      → t.cluster ≡ s.cluster
  rde-cluster client s t r e =
      on_cluster_after (reconcile_delete_rde-OnCluster env (λ c. c ≡ s.cluster) client) s t r e refl

  vapps-past :
      (test : Trace → Bool) (client : Option Client) (s t : Store) (r : Reply)
      → reconcile_delete_vapps env client s ≡ ret r t
      → happened test s.trace ≡ true
      → happened test t.trace ≡ true
  vapps-past test client s t r = happened_after (reconcile_delete_vapps-Past env test client) s t r

  rde-past :
      (test : Trace → Bool) (client : Option Client) (s t : Store) (r : Option Err)
      → reconcile_delete_rde env client s ≡ ret r t
      → happened test s.trace ≡ true
      → happened test t.trace ≡ true
  rde-past test client s t r = happened_after (reconcile_delete_rde-Past env test client) s t r

  -- The infrastructure of the cluster of this name and infra ID is gone: the load balancer at this
  -- port, the vApp and the RDE.
  pub record Gone (name infra_id : String) (port : ℕ) (one_arm : Bool) (trace : Trace)
      : Type 0 where
    pub lb : happened (lb_deleted env (name <> "-" <> infra_id) port one_arm) trace ≡ true
    pub vapp : happened (vapp_gone env name) trace ≡ true
    pub rde : (has_no_rde infra_id || happened (rde_gone env infra_id) trace) ≡ true

  -- The port of the endpoint of the control plane, or 6443 where there is none.
  abbrev pub lb_port : VcdCluster → ℕ
  lb_port c = let port = c.spec.control_plane_endpoint.port in if port == 0 then 6443 else port

  -- What the deletion of a cluster takes away.
  abbrev pub GoneOf : VcdCluster → Trace → Type 0
  GoneOf c trace =
      Gone c.meta.name c.status.infra_id (lb_port c) c.spec.load_balancer_config_spec.use_one_arm
        trace

  delete_infrastructure_lem :
      (client : Client) (s t : Store) (r : Reply)
      → delete_infrastructure env client s ≡ ret r t
      → (t.cluster.meta ≡ s.cluster.meta) ⊎ ((r.1 ≡ none) × GoneOf s.cluster t.trace)
  unfolding delete_infrastructure
  delete_infrastructure_lem client s t r e =
      let c = s.cluster in
      let lb =
        lb_deleted env (c.meta.name <> "-" <> c.status.infra_id) (lb_port c)
          c.spec.load_balancer_config_spec.use_one_arm in
      grind (
        arith,
        lb-cluster,
        vapps-cluster,
        rde-cluster,
        vapps-past lb,
        rde-past lb,
        rde-past (vapp_gone env s.cluster.meta.name),
        delete_lb-deleted env,
        delete_vapps-gone env,
        delete_rde-gone env,
      )

  pub client-meta :
      (s t : Store) (r : Option Client × Option Err)
      → create_vcd_client_from_secrets env s ≡ ret r t
      → (t.cluster.meta ≡ s.cluster.meta)
        × ((t.cluster.status.infra_id ≡ s.cluster.status.infra_id)
            × ((t.cluster.spec.control_plane_endpoint ≡ s.cluster.spec.control_plane_endpoint)
                × (t.cluster.spec.load_balancer_config_spec
                    ≡ s.cluster.spec.load_balancer_config_spec)))
  client-meta s t r e =
      let same =
        on_cluster_after (create_vcd_client-SameIdentity s.cluster env) s t r e
          (SameIdentity-self s.cluster) in
      (same.meta, (same.infra_id, (same.endpoint, same.load_balancer)))

  pub update-meta :
      (c : VcdCluster) (kind i n : String)
      → ((update_vdc_resource_to_vcd_cluster c kind i n).0.meta ≡ c.meta)
        × (((update_vdc_resource_to_vcd_cluster c kind i n).0.status.infra_id ≡ c.status.infra_id)
            × (((update_vdc_resource_to_vcd_cluster c kind i n).0.spec.control_plane_endpoint
                  ≡ c.spec.control_plane_endpoint)
                × ((update_vdc_resource_to_vcd_cluster c kind i n).0.spec.load_balancer_config_spec
                    ≡ c.spec.load_balancer_config_spec)))
  update-meta c kind i n =
      let same = SameIdentity-update c kind i n c (SameIdentity-self c) in
      (same.meta, (same.infra_id, (same.endpoint, same.load_balancer)))

  -- If reconcileDelete takes the finalizer off, it returns no error, and these are gone: the load
  -- balancer with the name and the infra ID of the cluster in its prefix, at the port of the
  -- endpoint or at 6443, the vApp with the name of the cluster, and its RDE if it has one.
  pub reconcile_delete-finalizer :
      (s t : Store) (r : Reply)
      → reconcile_delete env s ≡ ret r t
      → env.contains_finalizer s.cluster.meta.finalizers cluster_finalizer ≡ true
      → env.contains_finalizer t.cluster.meta.finalizers cluster_finalizer ≡ false
      → (r.1 ≡ none) × GoneOf s.cluster t.trace
  unfolding reconcile_delete patch_vcd_cluster
  reconcile_delete-finalizer s t r e before after =
      grind (arith, client-meta, update-meta, delete_infrastructure_lem)
