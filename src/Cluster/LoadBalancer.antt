-- ===== src/Cluster/LoadBalancer.antt =====
-- addLBResourcesToVCDResourceSet and reconcileLoadBalancer.
pub mod Laws
use cluster_api_provider_clo.Base.{String, ℕ, Bool, true, false, Option, none, some, List, [], ◌∷◌}
use cluster_api_provider_clo.Base.{is_some, is_none, ◌==◌, ◌!=◌, string_eq, nat_eq, not, ◌&&◌, ◌||◌}
use cluster_api_provider_clo.Base.{if◌then◌else◌, ◌<>◌}
use cluster_api_provider_clo.Effect.{Body, Fun, ◌>>=◌, ◌>>◌, leave, pure, crash, call, run}
use cluster_api_provider_clo.Effect.{if_nil, when, exit, next, panic, ret, panicked}
use cluster_api_provider_clo.Api.{Err, message, virtual_service_pending, CtrlResult, Reply}
use cluster_api_provider_clo.Api.Cluster.{VcdCluster, ApiEndpoint}
use cluster_api_provider_clo.Vcd.{Client, EntityReference}
use cluster_api_provider_clo.Vcd.Calls.{
  new_gateway_manager, get_load_balancer, create_load_balancer,
}
use cluster_api_provider_clo.Vcd.Calls.{add_to_vcd_resource_set}
use cluster_api_provider_clo.Vcd.Env.{
  Env, Store, LoadBalancerReply, ask, the_cluster, update_cluster,
}
use cluster_api_provider_clo.Rde.Sets.{report_error, report_event, clear_error}
use cluster_api_provider_clo.Rde.Sets.{virtual_service_name_prefix, load_balancer_pool_name_prefix}
use cluster_api_provider_clo.Cluster.Common.{done, tcp_port}

-- The kinds of the resources of a load balancer, in the order of the loop.
abbrev pub lb_resource_kinds : List String
lb_resource_kinds = "dnat-rule" ∷ "virtual-service" ∷ "lb-pool" ∷ "app-port-profile" ∷ []

-- ctrl.Result{RequeueAfter: 5 * time.Second}
abbrev pub after_five_seconds : CtrlResult
after_five_seconds = record { requeue = false; requeue_after = 5 }

-- `err.(*vcdsdk.VirtualServicePendingError)`
unfoldable pub is_pending : Option Err → Bool
is_pending (some (virtual_service_pending name)) = true
is_pending (some _) = false
is_pending none = false

abbrev pub with_endpoint : String → ℕ → VcdCluster → VcdCluster
with_endpoint host port c = record c {
  spec = record (c.spec) { control_plane_endpoint = record { host = host; port = port } };
}

module _ (env : Env) where
  -- The resources of one kind; a virtual service is recorded with the address.
  unfoldable pub add_resources : String → String → List EntityReference → Fun Store (Option Err)
  add_resources kind external_ip [] = run (pure none)
  add_resources kind external_ip (value ∷ values) = run do
    let virtual_ip : Option String = if kind == "virtual-service" then some external_ip else none
    err ← ask (add_to_vcd_resource_set kind value.name value.id virtual_ip) env.error_reply
    when (is_some err) (leave (some (message "failed to add resource to VCDResourceSet of RDE")))
    call (add_resources kind external_ip values)

  unfoldable pub add_kinds :
      List String → (String → List EntityReference) → String → Fun Store (Option Err)
  add_kinds [] allocated external_ip = run (pure none)
  add_kinds (kind ∷ kinds) allocated external_ip = run do
    err ← call (add_resources kind external_ip (allocated kind))
    when (is_some err) (leave err)
    call (add_kinds kinds allocated external_ip)

  unfoldable pub add_lb_resources_to_vcd_resource_set :
      (String → List EntityReference) → String → Fun Store (Option Err)
  add_lb_resources_to_vcd_resource_set allocated external_ip =
      add_kinds lb_resource_kinds allocated external_ip

  -- Recording the resources in the RDE, which stands twice in reconcileLoadBalancer: what is
  -- returned is the error of the last call only.
  unfoldable pub record_resources :
      (String → List EntityReference) → String → Fun Store (Option Err)
  record_resources allocated external_ip = run do
    c ← the_cluster
    err ← call (add_lb_resources_to_vcd_resource_set allocated external_ip)
    when (is_some err) (report_error env "RdeError" "" c.meta.name)
    clear_error env "RdeError" "" ""

  -- The id of the first virtual service that was allocated.
  abbrev virtual_service_href : (String → List EntityReference) → String
  virtual_service_href allocated = elim (allocated "virtual-service") [
    | [] ↦ ""
    | value ∷ _ ↦ value.id
  ]

  -- The creation, up to the end of the branch: a reply for the caller, or the address and resources.
  unfoldable pub create_missing : ℕ → Fun Store (Reply × Option LoadBalancerReply)
  create_missing port = run do
    c ← the_cluster
    let config = c.spec.load_balancer_config_spec
    let host = c.spec.control_plane_endpoint.host
    let prefix = virtual_service_name_prefix c.meta.name c.status.infra_id
    let pool_prefix = load_balancer_pool_name_prefix c.meta.name c.status.infra_id
    created ←
        ask
          (create_load_balancer prefix pool_prefix port config.use_one_arm (not config.use_one_arm)
            host)
          env.load_balancer_reply
    when (is_some (created.error)) do
      report_error env "LoadBalancerError" "" ""
      leave ((done, some (message "failed to create load balancer for the cluster")), none)
    err ← call (record_resources created.allocated created.ip)
    when (is_pending err) do
      report_error env "LoadBalancerPending" (virtual_service_href created.allocated) ""
      leave ((after_five_seconds, none), none)
    when (is_some err) do
      removal ← clear_error env "LoadBalancerError" "" ""
      leave ((done, env.wrapf removal "Error creating create load balancer"), none)
    pure ((done, none), some created)

  -- The end: the resources are recorded, and the endpoint is set.
  unfoldable pub publish_endpoint : LoadBalancerReply → ℕ → Bool → Fun Store Reply
  publish_endpoint found port skip_rde_event_updates = run do
    _ ← call (record_resources found.allocated found.ip)
    update_cluster (with_endpoint found.ip port)
    report_event env "LoadBalancerAvailable" (virtual_service_href found.allocated) ""
        skip_rde_event_updates
    _ ← clear_error env "LoadBalancerPending" "" ""
    pure (done, none)

  unfoldable pub reconcile_load_balancer : Option Client → Bool → Fun Store Reply
  reconcile_load_balancer vcd_client skip_rde_event_updates = run do
    when (is_none vcd_client) (leave (done, some (message "vcdClient is nil")))
    c ← the_cluster
    let config = c.spec.load_balancer_config_spec
    let prefix = virtual_service_name_prefix c.meta.name c.status.infra_id
    let pool_prefix = load_balancer_pool_name_prefix c.meta.name c.status.infra_id
    err ←
        ask (new_gateway_manager c.spec.ovdc_network config.vip_subnet c.spec.ovdc) env.error_reply
    when (is_some err) do
      report_error env "VCDClusterError" "" c.meta.name
      leave (done, some (message "failed to create gateway manager using the workload client"))
    found ←
        ask (get_load_balancer (prefix <> "-tcp") (pool_prefix <> "-tcp") config.use_one_arm)
          env.load_balancer_reply
    let endpoint = c.spec.control_plane_endpoint
    let port = if endpoint.port == 0 then tcp_port else endpoint.port
    when (not (is_some (found.error) || found.ip == ""))
        do reply ← call (publish_endpoint found port skip_rde_event_updates); leave reply
    when (is_pending (found.error)) (leave (after_five_seconds, none))
    let new_port = if endpoint.host == "" then port else endpoint.port
    (reply, created) ← call (create_missing new_port)
    if_nil created (leave reply) λ lb. call (publish_endpoint lb new_port skip_rde_event_updates)
