-- ===== src/Ovdc/Client.antt =====
-- getOrgByName to checkIfOvdcNameChange, getUserCredentialsForCluster, updateClientWithVDC and
-- createVCDClientFromSecrets.
pub mod Laws
pub mod Keeps
use cluster_api_provider_clo.Base.{String, Bool, true, false, Option, none, some, is_some, is_none}
use cluster_api_provider_clo.Base.{List, [], ◌==◌, ◌!=◌, string_eq, if◌then◌else◌, not, ◌&&◌}
use cluster_api_provider_clo.Effect.{Body, Fun, ◌>>=◌, ◌>>◌, leave, pure, crash, call, run}
use cluster_api_provider_clo.Effect.{
  if_nil, if_empty, when, modify, exit, next, panic, ret, panicked,
}
use cluster_api_provider_clo.Api.{Err, message, entity_not_found}
use cluster_api_provider_clo.Api.Cluster.{VcdCluster, UserCredentialsContext, VcdResource}
use cluster_api_provider_clo.Vcd.{Org, Vdc, Client, Secret}
use cluster_api_provider_clo.Vcd.Calls.{get_org_by_name, get_vdc_by_id, get_vdc_by_name, get_secret}
use cluster_api_provider_clo.Vcd.Calls.{new_vcd_client}
use cluster_api_provider_clo.Vcd.Env.{Env, Store, ask, the_cluster, update_cluster}
use cluster_api_provider_clo.Ovdc.Resources.{id_of_name, remove_vcd_resource_from_vcd_cluster}
use cluster_api_provider_clo.Ovdc.Resources.{resource_type_ovdc}

-- `err == govcd.ErrorEntityNotFound`
abbrev pub is_entity_not_found : Option Err → Bool
is_entity_not_found (some entity_not_found) = true
is_entity_not_found _ = false

-- strings.TrimRight(value, "\n")
trim_newlines : String → String
trim_newlines String.[] = String.[]
trim_newlines (String.◌∷◌ c rest) =
    let trimmed = trim_newlines rest in
    if trimmed == "" && String.◌∷◌ c "" == "\n" then "" else String.◌∷◌ c trimmed

-- The value of a key of the secret, without trailing newlines, in place of the defined one.
abbrev from_secret : Secret → String → String → String
from_secret secret key defined = elim (secret.entry key) [
  | none ↦ defined
  | some value ↦ trim_newlines value
]

module _ (env : Env) where
  unfoldable pub org_by_name : String → Fun Store (Option Org × Option Err)
  org_by_name org_name = run do
    (org, err) ← ask (get_org_by_name org_name) env.org_reply
    when (is_some err) (leave (none, some (message "failed to get org by name")))
    when (is_none org) (leave (none, some (message "found nil org when getting org by name")))
    pure (org, none)

  unfoldable pub ovdc_by_id : String → String → Fun Store (Option Vdc × Option Err)
  unfolding org_by_name
  ovdc_by_id org_name ovdc_id = run do
    (org, err) ← call (org_by_name org_name)
    when (is_some err) (leave (none, some (message "error occurred when getting ovdc by ID")))
    (ovdc, e) ← ask (get_vdc_by_id ovdc_id) env.vdc_reply
    when (is_some e)
        (leave (none, if is_entity_not_found e then e else some (message "fail to get ovdc by ID")))
    when (is_none ovdc) (leave (none, some (message "found nil ovdc when getting org by ID")))
    pure (ovdc, none)

  unfoldable pub ovdc_by_name : String → String → Fun Store (Option Vdc × Option Err)
  unfolding org_by_name
  ovdc_by_name org_name ovdc_name = run do
    (org, err) ← call (org_by_name org_name)
    when (is_some err) (leave (none, some (message "error occurred when getting ovdc by Name")))
    (ovdc, e) ← ask (get_vdc_by_name ovdc_name) env.vdc_reply
    when (is_some e) (
        leave
          (none, if is_entity_not_found e then e else some (message "fail to get ovdc by Name")))
    when (is_none ovdc) (leave (none, some (message "found nil ovdc when getting org by Name")))
    pure (ovdc, none)

  -- The OVDC with the ID; one that is gone is taken out of the resource map.
  check_by_id : String → String → String → Fun Store (Bool × Option Vdc × Option Err)
  check_by_id org_name spec_name ovdc_id = run do
    (ovdc, err) ← call (ovdc_by_id org_name ovdc_id)
    c ← the_cluster
    when (is_some err && is_entity_not_found err) do
      let removed = remove_vcd_resource_from_vcd_cluster c resource_type_ovdc ovdc_id
      when (is_some removed.1)
          (leave (false, none, some (message "error occurred while removing resource")))
      update_cluster λ d. (remove_vcd_resource_from_vcd_cluster d resource_type_ovdc ovdc_id).0
      leave (false, none, some (message "failed to get ovdc by ID"))
    when (is_some err) (
        leave (false, none, some (message "error occurred while checking if ovdcSpecName changed")))
    if_nil ovdc crash λ vdc. pure (vdc.name != spec_name, some vdc, none)

  unfoldable pub check_if_ovdc_name_change : Fun Store (Bool × Option Vdc × Option Err)
  unfolding check_by_id
  check_if_ovdc_name_change = run do
    c ← the_cluster
    let status_name = if c.status.ovdc == "" then c.spec.ovdc else c.status.ovdc
    let ovdc_id = id_of_name "" status_name c.status.vcd_resource_map.ovdcs
    when (ovdc_id == "") do
      (ovdc, err) ← call (ovdc_by_name c.spec.org status_name)
      when (is_some err) (leave (false, none, some (message "failed to get ovdc by Name")))
      leave (true, ovdc, none)
    call (check_by_id c.spec.org c.spec.ovdc ovdc_id)

  -- The branch of updateClientWithVDC for a resource map that is not empty: the name to look up.
  -- A changed name is logged beside the VDC that the client already has.
  renamed_ovdc : Client → Body Store (Client × Option Err) String
  renamed_ovdc client = do
    (name_changed, new_ovdc, err) ← call check_if_ovdc_name_change
    c ← the_cluster
    when (is_some err)
        (leave (client, some (message "error occurred while updating the client with VDC")))
    if_nil new_ovdc (leave (client, some (message "the new ovdc is empty"))) λ vdc. do
      when name_changed do
        update_cluster (λ d. record d { spec = record (d.spec) { ovdc = vdc.name } })
        when (is_none client.vdc) crash
      pure (if name_changed then vdc.name else c.spec.ovdc)

  unfoldable pub update_client_with_vdc : Client → Fun Store (Client × Option Err)
  unfolding renamed_ovdc
  update_client_with_vdc client = run do
    c ← the_cluster
    ovdc_name ←
        if_empty (c.status.vcd_resource_map.ovdcs) (pure (c.spec.ovdc)) (renamed_ovdc client)
    (new_ovdc, err) ← call (ovdc_by_name c.spec.org ovdc_name)
    when (is_some err) (leave (client, some (message "failed to get the ovdc by the name")))
    if_nil new_ovdc crash
        λ vdc. pure (record client { vdc = some vdc; cluster_ovdc_name = vdc.name }, none)

  unfoldable pub user_credentials_for_cluster :
      UserCredentialsContext → Fun Store (UserCredentialsContext × Option Err)
  unfolding trim_newlines
  user_credentials_for_cluster defined = run do
    if_nil (defined.secret_ref) (pure (record defined { secret_ref = none }, none)) λ ref. do
      (secret, err) ← ask (get_secret ref.name ref.namespace) env.secret_reply
      when (is_some err) do
        leave (
          record { username = ""; password = ""; refresh_token = ""; secret_ref = none },
          env.wrapf err "error getting secret",
        )
      let username = from_secret secret "username" defined.username
      let password = from_secret secret "password" defined.password
      let refresh_token = from_secret secret "refreshToken" defined.refresh_token
      pure (
        record {
          username = username;
          password = password;
          refresh_token = refresh_token;
          secret_ref = none;
        },
        none,
      )

  unfoldable pub create_vcd_client_from_secrets : Fun Store (Option Client × Option Err)
  create_vcd_client_from_secrets = run do
    c ← the_cluster
    (creds, err) ← call (user_credentials_for_cluster c.spec.user_credentials_context)
    when (is_some err)
        (leave (none, some (message "error getting client credentials to reconcile Cluster")))
    (client, e) ←
        ask
          (new_vcd_client c.spec.site c.spec.org c.spec.ovdc creds.username creds.password
            creds.refresh_token)
          env.client_reply
    when (is_some e) (leave (none, some (message "error creating VCD client from secrets")))
    if_nil client crash λ fresh. do
      (updated, failed) ← call (update_client_with_vdc fresh)
      when (is_some failed) (leave (none, some (message "error updating VCD client with VDC")))
      pure (some updated, none)
