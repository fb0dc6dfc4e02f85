-- ===== src/Cluster/LoadBalancer/Laws.antt =====
-- Where the control plane endpoint of a cluster comes from.
use cluster_api_provider_clo.Base.{
  String, ℕ, Bool, true, false, Option, none, some, ◌≡◌, ◌⊎◌, refl, List, [], ◌∷◌,
}
use cluster_api_provider_clo.Base.{
  arith, ◌==◌, ◌!=◌, string_eq, nat_eq, ◌&&◌, is_none, is_some, inr,
}
use cluster_api_provider_clo.Effect.{ret}
use cluster_api_provider_clo.Effect.Keeps.{KeepsFun}
use cluster_api_provider_clo.Api.{Err, Reply}
use cluster_api_provider_clo.Api.Cluster.{VcdCluster}
use cluster_api_provider_clo.Vcd.{Client, EntityReference}
use cluster_api_provider_clo.Vcd.Calls.{Trace, get_load_balancer, create_load_balancer}
use cluster_api_provider_clo.Vcd.Env.{Env, Store, LoadBalancerReply}
use cluster_api_provider_clo.Vcd.History.{happened, Past, past_rules, happened_after}
use cluster_api_provider_clo.Vcd.Objects.{OnCluster, on_cluster_rules, on_cluster_after}
use cluster_api_provider_clo.Cluster.Common.{done}
use cluster_api_provider_clo.Cluster.LoadBalancer.{add_resources, add_kinds, lb_resource_kinds}
use cluster_api_provider_clo.Cluster.LoadBalancer.{add_lb_resources_to_vcd_resource_set}
use cluster_api_provider_clo.Cluster.LoadBalancer.{
  record_resources, create_missing, publish_endpoint,
}
use cluster_api_provider_clo.Cluster.LoadBalancer.{reconcile_load_balancer, with_endpoint}

module _ (env : Env) (P : VcdCluster → Type 0) where
  add_resources-OnCluster :
      (kind ip : String) (values : List EntityReference)
      → KeepsFun (OnCluster P) (add_resources env kind ip values)
  unfolding add_resources
  add_resources-OnCluster kind ip [] = search on_cluster_rules depth 60
  add_resources-OnCluster kind ip (v ∷ values) =
      search (on_cluster_rules, add_resources-OnCluster kind ip values) depth 60

  add_kinds-OnCluster :
      (kinds : List String) (allocated : String → List EntityReference) (ip : String)
      → KeepsFun (OnCluster P) (add_kinds env kinds allocated ip)
  unfolding add_kinds
  add_kinds-OnCluster [] allocated ip = search on_cluster_rules depth 60
  add_kinds-OnCluster (k ∷ kinds) allocated ip =
      search (on_cluster_rules, add_resources-OnCluster, add_kinds-OnCluster kinds) depth 60

  add_lb_resources-OnCluster :
      (allocated : String → List EntityReference) (ip : String)
      → KeepsFun (OnCluster P) (add_lb_resources_to_vcd_resource_set env allocated ip)
  unfolding add_lb_resources_to_vcd_resource_set
  add_lb_resources-OnCluster allocated ip = add_kinds-OnCluster lb_resource_kinds allocated ip

  record_resources-OnCluster :
      (allocated : String → List EntityReference) (ip : String)
      → KeepsFun (OnCluster P) (record_resources env allocated ip)
  unfolding record_resources
  record_resources-OnCluster allocated ip =
      search (on_cluster_rules, add_lb_resources-OnCluster) depth 60

  create_missing-OnCluster : (port : ℕ) → KeepsFun (OnCluster P) (create_missing env port)
  unfolding create_missing
  create_missing-OnCluster port = search (on_cluster_rules, record_resources-OnCluster) depth 60

module _ (env : Env) (test : Trace → Bool) where
  add_resources-Past :
      (kind ip : String) (values : List EntityReference)
      → KeepsFun (Past test) (add_resources env kind ip values)
  unfolding add_resources
  add_resources-Past kind ip [] = search past_rules depth 60
  add_resources-Past kind ip (v ∷ values) =
      search (past_rules, add_resources-Past kind ip values) depth 60

  add_kinds-Past :
      (kinds : List String) (allocated : String → List EntityReference) (ip : String)
      → KeepsFun (Past test) (add_kinds env kinds allocated ip)
  unfolding add_kinds
  add_kinds-Past [] allocated ip = search past_rules depth 60
  add_kinds-Past (k ∷ kinds) allocated ip =
      search (past_rules, add_resources-Past, add_kinds-Past kinds) depth 60

  record_resources-Past :
      (allocated : String → List EntityReference) (ip : String)
      → KeepsFun (Past test) (record_resources env allocated ip)
  unfolding record_resources add_lb_resources_to_vcd_resource_set
  record_resources-Past allocated ip = search (past_rules, add_kinds-Past) depth 60

  publish_endpoint-Past :
      (lb : LoadBalancerReply) (port : ℕ) (skip : Bool)
      → KeepsFun (Past test) (publish_endpoint env lb port skip)
  unfolding publish_endpoint
  publish_endpoint-Past lb port skip = search (past_rules, record_resources-Past) depth 60

module _ (env : Env) where
  -- The call answered with this address and no error: the load balancer that was found, or one that
  -- was created for this port.
  pub serves : String → ℕ → Trace → Bool
  serves host port [] = false
  serves host port (get_load_balancer v p o ∷ before) =
      let reply = env.load_balancer_reply (get_load_balancer v p o ∷ before) in
      is_none (reply.error) && (host == reply.ip && host != "")
  serves host port (create_load_balancer v p n o shared h ∷ before) =
      let reply = env.load_balancer_reply (create_load_balancer v p n o shared h ∷ before) in
      is_none (reply.error) && (host == reply.ip && port == n)
  serves host port (_ ∷ before) = false

  record_resources-cluster :
      (allocated : String → List EntityReference) (ip : String) (s t : Store) (r : Option Err)
      → record_resources env allocated ip s ≡ ret r t
      → t.cluster ≡ s.cluster
  record_resources-cluster allocated ip s t r e =
      on_cluster_after (record_resources-OnCluster env (λ c. c ≡ s.cluster) allocated ip) s t r e
        refl

  create_missing-cluster :
      (port : ℕ) (s t : Store) (r : Reply × Option LoadBalancerReply)
      → create_missing env port s ≡ ret r t
      → t.cluster ≡ s.cluster
  create_missing-cluster port s t r e =
      on_cluster_after (create_missing-OnCluster env (λ c. c ≡ s.cluster) port) s t r e refl

  publish_endpoint-cluster :
      (lb : LoadBalancerReply) (port : ℕ) (skip : Bool) (s t : Store) (r : Reply)
      → publish_endpoint env lb port skip s ≡ ret r t
      → (t.cluster ≡ with_endpoint lb.ip port s.cluster) × (r ≡ (done, none))
  unfolding publish_endpoint
  publish_endpoint-cluster lb port skip s t r e = grind (arith, record_resources-cluster)

  create_missing-serves :
      (port : ℕ) (s t : Store) (r : Reply × Option LoadBalancerReply) (lb : LoadBalancerReply)
      → create_missing env port s ≡ ret r t
      → r.1 ≡ some lb
      → happened (serves lb.ip port) t.trace ≡ true
  unfolding create_missing serves
  create_missing-serves port s t r lb e h =
      let past = record_resources-Past env (serves lb.ip port) in grind (arith, happened_after)

  publish_endpoint-past :
      (test : Trace → Bool) (lb : LoadBalancerReply) (port : ℕ) (skip : Bool) (s t : Store)
      (r : Reply)
      → publish_endpoint env lb port skip s ≡ ret r t
      → happened test s.trace ≡ true
      → happened test t.trace ≡ true
  publish_endpoint-past test lb port skip =
      happened_after (publish_endpoint-Past env test lb port skip)

  -- The cluster as it was, or with an endpoint at which a load balancer serves.
  unfoldable pub EndpointStep : VcdCluster → Store → Reply → Type 0
  EndpointStep c t r =
      let endpoint = t.cluster.spec.control_plane_endpoint in
      (t.cluster ≡ c)
      ⊎ ((r ≡ (done, none))
          × ((t.cluster ≡ with_endpoint endpoint.host endpoint.port c)
              × (happened (serves endpoint.host endpoint.port) t.trace ≡ true)))

  publish_endpoint-EndpointStep :
      (c : VcdCluster) (lb : LoadBalancerReply) (port : ℕ) (skip : Bool) (s t : Store) (r : Reply)
      → s.cluster ≡ c
      → publish_endpoint env lb port skip s ≡ ret r t
      → happened (serves lb.ip port) s.trace ≡ true
      → EndpointStep c t r
  unfolding EndpointStep
  publish_endpoint-EndpointStep c lb port skip s t r same e h =
      let past = publish_endpoint-past (serves lb.ip port) lb port skip s t r e h in
      let result = publish_endpoint-cluster lb port skip s t r e in
      let cluster : t.cluster ≡ with_endpoint lb.ip port c = rw same at result.0 in
      inr (result.1, (rw cluster refl, rw cluster past))

  found-serves :
      (v p : String) (o : Bool) (port : ℕ) (before : Trace)
      → is_some ((env.load_balancer_reply (get_load_balancer v p o ∷ before)).error) ≡ false
      → (env.load_balancer_reply (get_load_balancer v p o ∷ before)).ip == "" ≡ false
      → happened
          (serves (env.load_balancer_reply (get_load_balancer v p o ∷ before)).ip port)
          (get_load_balancer v p o ∷ before)
        ≡ true
  unfolding serves
  found-serves v p o port before h k = ground arith

  -- If reconcileLoadBalancer returns, either the cluster is unchanged, or nothing but its control
  -- plane endpoint changed, it returns no error and no requeue, and Cloud Director answered, without
  -- an error, that a load balancer serves at the host of the endpoint: one that was found there, or
  -- one that was created for the port of the endpoint.
  pub reconcile_load_balancer-EndpointStep :
      (client : Option Client) (skip : Bool) (s t : Store) (r : Reply)
      → reconcile_load_balancer env client skip s ≡ ret r t
      → EndpointStep s.cluster t r
  unfolding reconcile_load_balancer EndpointStep
  reconcile_load_balancer-EndpointStep client skip s t r e = grind (
    arith,
    create_missing-cluster,
    create_missing-serves,
    found-serves,
    publish_endpoint-EndpointStep s.cluster,
  )
