-- ===== src/Rde/Sets.antt =====
-- AddToErrorSet and AddToEventSet of CapvcdRdeManager, the removal of errors, and the names of the
-- load balancer's parts. Time stamps, detail texts and the manager's cluster ID are left out.
use cluster_api_provider_clo.Base.{String, Bool, Option, ◌<>◌}
use cluster_api_provider_clo.Effect.{Body, ◌>>=◌, pure}
use cluster_api_provider_clo.Api.{Err}
use cluster_api_provider_clo.Vcd.Calls.{add_to_error_set, add_to_event_set, remove_error}
use cluster_api_provider_clo.Vcd.Env.{Env, Store, ask}

module _ (env : Env) where
  -- The error of the remote call is logged, and nothing else comes of it.
  abbrev pub report_error : {R : Type 0} → String → String → String → Body Store R (Unit {0})
  report_error error_name resource_id resource_name = do
    _ ← ask (add_to_error_set error_name resource_id resource_name) env.error_reply
    pure tt

  -- `skip_rde_event_updates` is logged; the event is added whatever its value.
  abbrev pub report_event : {R : Type 0} → String → String → String → Bool → Body Store R (Unit {0})
  report_event event_name resource_id resource_name skip_rde_event_updates = do
    _ ← ask (add_to_event_set event_name resource_id resource_name) env.error_reply
    pure tt

  -- RemoveErrorByNameOrIdFromErrorSet, which returns an error.
  abbrev pub clear_error : {R : Type 0} → String → String → String → Body Store R (Option Err)
  clear_error error_name resource_id resource_name =
      ask (remove_error error_name resource_id resource_name) env.error_reply

abbrev pub virtual_service_name_prefix : String → String → String
virtual_service_name_prefix cluster_name cluster_id = cluster_name <> "-" <> cluster_id

abbrev pub load_balancer_pool_name_prefix : String → String → String
load_balancer_pool_name_prefix cluster_name cluster_id = cluster_name <> "-" <> cluster_id

abbrev pub virtual_service_name_using_prefix : String → String → String
virtual_service_name_using_prefix prefix port_suffix = prefix <> "-" <> port_suffix

abbrev pub load_balancer_pool_name_using_prefix : String → String → String
load_balancer_pool_name_using_prefix prefix port_suffix = prefix <> "-" <> port_suffix
