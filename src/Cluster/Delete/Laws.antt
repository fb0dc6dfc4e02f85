-- ===== src/Cluster/Delete/Laws.antt =====
-- What the deletion functions have done when they return without an error.
use cluster_api_provider_clo.Base.{Bool, true, false, Option, none, some, String, ℕ, [], ◌∷◌}
use cluster_api_provider_clo.Base.{◌≡◌, is_none, ◌==◌, string_eq, nat_eq, arith, ◌&&◌}
use cluster_api_provider_clo.Base.{starts_with, ◌||◌, ◌<>◌, if◌then◌else◌, not}
use cluster_api_provider_clo.Effect.{ret}
use cluster_api_provider_clo.Api.{Reply}
use cluster_api_provider_clo.Vcd.{Client, VApp}
use cluster_api_provider_clo.Vcd.Calls.{Trace, delete_load_balancer, get_vapp_by_name, delete_vapp}
use cluster_api_provider_clo.Vcd.Calls.{get_defined_entities, delete_defined_entity}
use cluster_api_provider_clo.Vcd.Env.{Env, Store}
use cluster_api_provider_clo.Vcd.History.{happened}
use cluster_api_provider_clo.Ovdc.Client.{is_entity_not_found}
use cluster_api_provider_clo.Cluster.Common.{no_rde_prefix}
use cluster_api_provider_clo.Cluster.Delete.{delete_lb, delete_empty_vapp}
use cluster_api_provider_clo.Cluster.Delete.{reconcile_delete_single_vapp, reconcile_delete_vapps}
use cluster_api_provider_clo.Cluster.Delete.{delete_entity, reconcile_delete_rde}

-- A cluster without an RDE has no ID of one, or an ID with the prefix.
pub has_no_rde : String → Bool
has_no_rde infra_id = infra_id == "" || starts_with infra_id no_rde_prefix

module _ (env : Env) where
  -- The load balancer with this prefix of the names of its virtual services and pools, this port
  -- and this mode was deleted without an error.
  pub lb_deleted : String → ℕ → Bool → Trace → Bool
  lb_deleted prefix port one_arm [] = false
  lb_deleted prefix port one_arm (delete_load_balancer v p n o ∷ before) =
      v == prefix
      && (p == prefix
          && (n == port
              && ((if o then one_arm else not one_arm)
                  && is_none (env.error_reply (delete_load_balancer v p n o ∷ before)))))
  lb_deleted prefix port one_arm (_ ∷ before) = false

  -- The vApp of this name was not found, or it was deleted without an error.
  pub vapp_gone : String → Trace → Bool
  vapp_gone name [] = false
  vapp_gone name (get_vapp_by_name n ∷ before) =
      let (vapp, err) = env.vapp_reply (get_vapp_by_name n ∷ before) in
      n == name && (is_entity_not_found err || (is_none err && is_none vapp))
  vapp_gone name (delete_vapp n ∷ before) =
      n == name && is_none (env.error_reply (delete_vapp n ∷ before))
  vapp_gone name (_ ∷ before) = false

  -- No entity has the ID, or it was deleted and the response says 204.
  pub rde_gone : String → Trace → Bool
  rde_gone id [] = false
  rde_gone id (get_defined_entities filter ∷ before) =
      let reply = env.entities_reply (get_defined_entities filter ∷ before) in
      filter == "id==" <> id
      && (is_none (reply.error) && elim (reply.values) [ [] ↦ true | _ ↦ false ])
  rde_gone id (delete_defined_entity i ∷ before) =
      let (code, err) = env.response_reply (delete_defined_entity i ∷ before) in
      i == id && (is_none err && elim code [ none ↦ false | some status ↦ status == 204 ])
  rde_gone id (_ ∷ before) = false

  pub delete_lb-deleted :
      (client : Option Client) (network ovdc : String) (port : ℕ) (s t : Store)
      → delete_lb env client network ovdc port s ≡ ret none t
      → happened
          (lb_deleted
            (s.cluster.meta.name <> "-" <> s.cluster.status.infra_id)
            port
            s.cluster.spec.load_balancer_config_spec.use_one_arm)
          t.trace
        ≡ true
  unfolding delete_lb lb_deleted
  delete_lb-deleted client network ovdc port s t h = grind (arith, env.is_some-wrapf)

  delete_empty_vapp-gone :
      (vapp : VApp) (name : String) (s t : Store) (r : Reply)
      → delete_empty_vapp env vapp name s ≡ ret r t
      → r.1 ≡ none
      → happened (vapp_gone name) t.trace ≡ true
  unfolding delete_empty_vapp vapp_gone
  delete_empty_vapp-gone vapp name s t r h ok = grind (arith, env.is_some-wrapf)

  pub single_vapp-gone :
      (ovdc vapp : String) (client : Option Client) (s t : Store) (r : Reply)
      → reconcile_delete_single_vapp env ovdc vapp client s ≡ ret r t
      → r.1 ≡ none
      → happened (vapp_gone vapp) t.trace ≡ true
  unfolding reconcile_delete_single_vapp vapp_gone
  single_vapp-gone ovdc vapp client s t r h ok =
      grind (arith, env.is_some-wrapf, delete_empty_vapp-gone)

  pub delete_vapps-gone :
      (client : Option Client) (s t : Store) (r : Reply)
      → reconcile_delete_vapps env client s ≡ ret r t
      → r.1 ≡ none
      → happened (vapp_gone s.cluster.meta.name) t.trace ≡ true
  unfolding reconcile_delete_vapps
  delete_vapps-gone client s t r h ok = grind (arith, env.is_some-wrapf, single_vapp-gone)

  delete_entity-gone :
      (id org : String) (s t : Store)
      → delete_entity env id org s ≡ ret none t
      → happened (rde_gone id) t.trace ≡ true
  unfolding delete_entity rde_gone
  delete_entity-gone id org s t h = grind (arith, env.is_some-wrapf)

  pub delete_rde-gone :
      (client : Option Client) (s t : Store)
      → reconcile_delete_rde env client s ≡ ret none t
      → (has_no_rde s.cluster.status.infra_id
          || happened (rde_gone s.cluster.status.infra_id) t.trace)
        ≡ true
  unfolding reconcile_delete_rde rde_gone has_no_rde
  delete_rde-gone client s t h = grind (arith, env.is_some-wrapf, delete_entity-gone)
