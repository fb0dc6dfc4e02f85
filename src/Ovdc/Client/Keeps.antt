-- ===== src/Ovdc/Client/Keeps.antt =====
-- Creating the client makes calls, and touches only the OVDC of the cluster and its resource map.
use cluster_api_provider_clo.Base.{String, Bool, ◌≡◌, refl, arith}
use cluster_api_provider_clo.Effect.Keeps.{KeepsFun}
use cluster_api_provider_clo.Api.Cluster.{VcdCluster, UserCredentialsContext}
use cluster_api_provider_clo.Vcd.{Client}
use cluster_api_provider_clo.Vcd.Calls.{Trace}
use cluster_api_provider_clo.Vcd.Env.{Env}
use cluster_api_provider_clo.Vcd.History.{Past, past_rules}
use cluster_api_provider_clo.Api.Machine.{VcdMachine}
use cluster_api_provider_clo.Vcd.Objects.{OnMachine, on_machine_rules, OnCluster, on_cluster_rules}
use cluster_api_provider_clo.Ovdc.Resources.{update_vdc_resource_to_vcd_cluster}
use cluster_api_provider_clo.Ovdc.Resources.{remove_vcd_resource_from_vcd_cluster}
use cluster_api_provider_clo.Ovdc.Client.{ovdc_by_id, ovdc_by_name}
use cluster_api_provider_clo.Ovdc.Client.{check_if_ovdc_name_change}
use cluster_api_provider_clo.Ovdc.Client.{update_client_with_vdc, user_credentials_for_cluster}
use cluster_api_provider_clo.Ovdc.Client.{create_vcd_client_from_secrets}

-- What identifies a cluster and its RDE, and the fields that another step decides.
pub record SameIdentity (o c : VcdCluster) : Type 0 where
  pub meta : c.meta ≡ o.meta
  pub infra_id : c.status.infra_id ≡ o.status.infra_id
  pub rde_version : c.status.rde_version_in_use ≡ o.status.rde_version_in_use
  pub rde_id : c.spec.rde_id ≡ o.spec.rde_id
  pub endpoint : c.spec.control_plane_endpoint ≡ o.spec.control_plane_endpoint
  pub ready : c.status.ready ≡ o.status.ready
  pub load_balancer : c.spec.load_balancer_config_spec ≡ o.spec.load_balancer_config_spec

pub SameIdentity-self : (c : VcdCluster) → SameIdentity c c
SameIdentity-self c = record {
  meta = refl;
  infra_id = refl;
  rde_version = refl;
  rde_id = refl;
  endpoint = refl;
  ready = refl;
  load_balancer = refl;
}

module _ (o : VcdCluster) where
  pub SameIdentity-update :
      (kind i n : String) (c : VcdCluster)
      → SameIdentity o c
      → SameIdentity o (update_vdc_resource_to_vcd_cluster c kind i n).0
  unfolding update_vdc_resource_to_vcd_cluster
  SameIdentity-update kind i n c h = ground arith

  SameIdentity-remove :
      (kind i : String) (c : VcdCluster)
      → SameIdentity o c
      → SameIdentity o (remove_vcd_resource_from_vcd_cluster c kind i).0
  unfolding remove_vcd_resource_from_vcd_cluster
  SameIdentity-remove kind i c h = ground arith

  SameIdentity-rename :
      (name : String) (c : VcdCluster)
      → SameIdentity o c
      → SameIdentity o (record c { spec = record (c.spec) { ovdc = name } })
  SameIdentity-rename name c h = ground arith

  module _ (env : Env) where
    check_if_ovdc_name_change-SameIdentity :
        KeepsFun (OnCluster (SameIdentity o)) (check_if_ovdc_name_change env)
    unfolding check_if_ovdc_name_change ovdc_by_id ovdc_by_name
    check_if_ovdc_name_change-SameIdentity = search (on_cluster_rules, SameIdentity-remove) depth 60

    update_client-SameIdentity :
        (client : Client)
        → KeepsFun (OnCluster (SameIdentity o)) (update_client_with_vdc env client)
    unfolding update_client_with_vdc ovdc_by_name
    update_client-SameIdentity client =
        search (on_cluster_rules, SameIdentity-rename, check_if_ovdc_name_change-SameIdentity) depth
          60

    user_credentials-SameIdentity :
        (u : UserCredentialsContext)
        → KeepsFun (OnCluster (SameIdentity o)) (user_credentials_for_cluster env u)
    unfolding user_credentials_for_cluster
    user_credentials-SameIdentity u = search on_cluster_rules depth 60

    pub create_vcd_client-SameIdentity :
        KeepsFun (OnCluster (SameIdentity o)) (create_vcd_client_from_secrets env)
    unfolding create_vcd_client_from_secrets
    create_vcd_client-SameIdentity =
        search (on_cluster_rules, update_client-SameIdentity, user_credentials-SameIdentity) depth
          60

module _ (env : Env) (test : Trace → Bool) where
  check_if_ovdc_name_change-Past : KeepsFun (Past test) (check_if_ovdc_name_change env)
  unfolding check_if_ovdc_name_change ovdc_by_id ovdc_by_name
  check_if_ovdc_name_change-Past = search past_rules depth 60

  update_client-Past : (client : Client) → KeepsFun (Past test) (update_client_with_vdc env client)
  unfolding update_client_with_vdc ovdc_by_name
  update_client-Past client = search (past_rules, check_if_ovdc_name_change-Past) depth 60

  user_credentials-Past :
      (u : UserCredentialsContext) → KeepsFun (Past test) (user_credentials_for_cluster env u)
  unfolding user_credentials_for_cluster
  user_credentials-Past u = search past_rules depth 60

  pub create_vcd_client-Past : KeepsFun (Past test) (create_vcd_client_from_secrets env)
  unfolding create_vcd_client_from_secrets
  create_vcd_client-Past = search (past_rules, update_client-Past, user_credentials-Past) depth 60

module _ (env : Env) (P : VcdMachine → Type 0) where
  check_if_ovdc_name_change-OnMachine : KeepsFun (OnMachine P) (check_if_ovdc_name_change env)
  unfolding check_if_ovdc_name_change ovdc_by_id ovdc_by_name
  check_if_ovdc_name_change-OnMachine = search on_machine_rules depth 60

  update_client-OnMachine :
      (client : Client) → KeepsFun (OnMachine P) (update_client_with_vdc env client)
  unfolding update_client_with_vdc ovdc_by_name
  update_client-OnMachine client =
      search (on_machine_rules, check_if_ovdc_name_change-OnMachine) depth 60

  user_credentials-OnMachine :
      (u : UserCredentialsContext) → KeepsFun (OnMachine P) (user_credentials_for_cluster env u)
  unfolding user_credentials_for_cluster
  user_credentials-OnMachine u = search on_machine_rules depth 60

  pub create_vcd_client-OnMachine : KeepsFun (OnMachine P) (create_vcd_client_from_secrets env)
  unfolding create_vcd_client_from_secrets
  create_vcd_client-OnMachine =
      search (on_machine_rules, update_client-OnMachine, user_credentials-OnMachine) depth 60
