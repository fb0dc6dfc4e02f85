-- ===== src/Machine/Pool.antt =====
-- The members of the load balancer's pool: reconcileLBPool, and the part of reconcileDelete that
-- takes the address of a control plane machine out of the pool.
pub mod Laws
pub mod Joined
use cluster_api_provider_clo.Base.{
  String, ℕ, zero, suc, Bool, true, false, Option, none, some, List, [], ◌∷◌,
}
use cluster_api_provider_clo.Base.{
  is_some, ◌==◌, string_eq, not, ◌&&◌, ◌<>◌, if◌then◌else◌, ◌++◌, length,
}
use cluster_api_provider_clo.Effect.{Body, Fun, ◌>>=◌, ◌>>◌, leave, pure, run, when, call}
use cluster_api_provider_clo.Api.{Err, message, Reply}
use cluster_api_provider_clo.Api.Cluster.{VcdCluster}
use cluster_api_provider_clo.Api.Machine.{MachineAddress, OwnerMachine}
use cluster_api_provider_clo.Vcd.Calls.{get_load_balancer_pool, get_load_balancer_pool_member_ips}
use cluster_api_provider_clo.Vcd.Calls.{update_load_balancer}
use cluster_api_provider_clo.Vcd.Env.{Env, Store, ask, the_cluster, the_machine}
use cluster_api_provider_clo.Ovdc.Client.{is_entity_not_found}
use cluster_api_provider_clo.Rde.Sets.{report_error, clear_error}
use cluster_api_provider_clo.Rde.Sets.{virtual_service_name_prefix, load_balancer_pool_name_prefix}
use cluster_api_provider_clo.Rde.Sets.{virtual_service_name_using_prefix}
use cluster_api_provider_clo.Rde.Sets.{load_balancer_pool_name_using_prefix}
use cluster_api_provider_clo.Cluster.Common.{done}

abbrev pub lb_pool_name : VcdCluster → String
lb_pool_name c =
    load_balancer_pool_name_using_prefix
      (load_balancer_pool_name_prefix c.meta.name c.status.infra_id) "tcp"

abbrev pub virtual_service_name : VcdCluster → String
virtual_service_name c =
    virtual_service_name_using_prefix (virtual_service_name_prefix c.meta.name c.status.infra_id)
      "tcp"

-- The last internal address of the machine, or no text.
unfoldable pub address_to_be_deleted : String → List MachineAddress → String
address_to_be_deleted found [] = found
address_to_be_deleted found (a ∷ rest) =
    address_to_be_deleted (if a.kind == "InternalIP" then a.address else found) rest

-- What is left of an array from an index on after `append(a[:i], a[i+1:]...)`: the items move one
-- place to the left, and the last place keeps its item.
unfoldable pub shifted : String → List String → List String
shifted x [] = x ∷ []
shifted x (y ∷ rest) = y ∷ shifted y rest

-- The array after the loop over its places, of which `n` are left: the loop writes to the array that
-- it reads, and goes on behind the place where it removed an item. And whether it removed one.
unfoldable pub sweep : String → ℕ → List String → List String × Bool
sweep address zero ips = (ips, false)
sweep address (suc n) [] = ([], false)
sweep address (suc n) (ip ∷ rest) =
    let kept = sweep address n rest in
    elim (ip == address) [
      | false ↦ (ip ∷ kept.0, kept.1)
      | true ↦ elim (shifted ip rest) [
        | [] ↦ ([], true)
        | next_ip ∷ later ↦ (next_ip ∷ (sweep address n later).0, true)
      ]
    ]

unfoldable pub but_last : List String → List String
but_last [] = []
but_last (ip ∷ rest) = elim rest [ [] ↦ [] | _ ↦ ip ∷ but_last rest ]

unfoldable pub remove_address : String → List String → List String
remove_address address ips =
    let swept = sweep address (length ips) ips in if swept.1 then but_last swept.0 else ips

module _ (env : Env) where
  -- UpdateLoadBalancer with the members, the same internal and external port, over TCP, and no
  -- external address.
  abbrev update_pool : {R : Type 0} → VcdCluster → List String → Body Store R (Option Err)
  update_pool c ips =
      let one_arm = c.spec.load_balancer_config_spec.use_one_arm in
      ask
        (update_load_balancer (lb_pool_name c) (virtual_service_name c) ips
          c.spec.control_plane_endpoint.port one_arm (not one_arm))
        env.error_reply

  -- The part of reconcileDelete for a control plane machine.
  unfoldable pub remove_from_pool : OwnerMachine → Fun Store (Option Err)
  remove_from_pool owner = run do
    c ← the_cluster
    m ← the_machine
    (pool, err) ← ask (get_load_balancer_pool (lb_pool_name c)) env.text_reply
    when (is_some err && not (is_entity_not_found err)) do
      report_error env "LoadBalancerError" "" owner.name
      leave (env.wrapf err "failed to get load balancer pool")
    when (not (is_entity_not_found err)) do
      (ips, e) ← ask (get_load_balancer_pool_member_ips pool) env.texts_reply
      when (is_some e) do
        report_error env "LoadBalancerError" "" owner.name
        leave (env.wrapf e "failed to retrieve members from the load balancer pool")
      let address = address_to_be_deleted "" m.status.addresses
      failed ← update_pool c (remove_address address ips)
      when (is_some failed) do
        report_error env "LoadBalancerError" "" owner.name
        leave (env.wrapf failed "error deleting the control plane from the load balancer pool")
    _ ← clear_error env "LoadBalancerError" "" ""
    pure none

  unfoldable pub reconcile_lb_pool : OwnerMachine → String → Fun Store (Option Err)
  reconcile_lb_pool owner machine_address = run do
    c ← the_cluster
    (pool, err) ← ask (get_load_balancer_pool (lb_pool_name c)) env.text_reply
    when (is_some err) do
      report_error env "LoadBalancerError" "" owner.name
      leave (some (message "unable to retrieve/update load balancer pool"))
    (ips, e) ← ask (get_load_balancer_pool_member_ips pool) env.texts_reply
    when (is_some e) do
      report_error env "LoadBalancerError" "" owner.name
      leave (some (message "unable to retrieve/update load balancer pool members"))
    _ ← clear_error env "LoadBalancerError" "" ""
    failed ← update_pool c (env.unique (ips ++ machine_address ∷ []))
    when (is_some failed) do
      report_error env "VCDMachineCreationError" "" owner.name
      leave (some (message "unable to update LB pool"))
    pure none
