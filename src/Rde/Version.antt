-- ===== src/Rde/Version.antt =====
-- The version of an RDE: CheckIfClusterRdeNeedsUpgrade, IsCapvcdEntityTypeRegistered,
-- GetRDEVersion, IsVCDKECluster and CheckForEmptyRDEAndUpdateCreatedByVersions.
use cluster_api_provider_clo.Base.{String, Bool, true, false, Option, none, some, [], ◌∷◌}
use cluster_api_provider_clo.Base.{is_some, is_none, ◌==◌, ◌!=◌, string_eq, nat_eq, if◌then◌else◌}
use cluster_api_provider_clo.Base.{◌<>◌}
use cluster_api_provider_clo.Effect.{Fun, ◌>>=◌, ◌>>◌, leave, pure, crash, call, run, when}
use cluster_api_provider_clo.Effect.{if_nil}
use cluster_api_provider_clo.Json.{Fields, end, field, get, as_object, as_flag}
use cluster_api_provider_clo.Api.{Err, message}
use cluster_api_provider_clo.Vcd.{Client, DefinedEntity}
use cluster_api_provider_clo.Vcd.Calls.{get_org_by_name, get_defined_entity, build_endpoint}
use cluster_api_provider_clo.Vcd.Calls.{get_entity_type}
use cluster_api_provider_clo.Vcd.Env.{Env, Store, ask}
use cluster_api_provider_clo.Rde.Types.{StatusPatch}
use cluster_api_provider_clo.Rde.Patch.{patch_rde}

-- rdeType.CapvcdRDETypeVersion and its predecessor
abbrev pub capvcd_rde_type_version : String
capvcd_rde_type_version = "1.1.0"

abbrev pub rde_type_version_1_0_0 : String
rde_type_version_1_0_0 = "1.0.0"

abbrev pub capvcd_entity_type_prefix : String
capvcd_entity_type_prefix = "urn:vcloud:type:vmware:capvcdCluster"

-- The text behind the last colon; `segment` begins behind the last one that was met.
last_segment_from : String → String → String
last_segment_from segment String.[] = segment
last_segment_from segment (String.◌∷◌ c rest) =
    last_segment_from (if String.◌∷◌ c "" == ":" then rest else segment) rest

-- The last item of strings.Split(text, ":")
unfoldable pub last_segment : String → String
unfolding last_segment_from
last_segment entity_type = last_segment_from entity_type entity_type

module _ (env : Env) where
  unfoldable pub check_if_cluster_rde_needs_upgrade : String → String → Bool
  check_if_cluster_rde_needs_upgrade src tgt = elim (env.semver_new src) [
    | none ↦ false
    | some a ↦ elim (env.semver_new tgt) [ none ↦ false | some b ↦ env.semver_lt a b ]
  ]

  unfoldable pub is_capvcd_entity_type_registered : String → Fun Store Bool
  is_capvcd_entity_type_registered version = run do
    let id = capvcd_entity_type_prefix <> ":" <> version
    err ← ask (build_endpoint ("1.0.0/entityTypes/" <> id)) env.error_reply
    when (is_some err) (leave false)
    e ← ask (get_entity_type id) env.error_reply
    when (is_some e) (leave false)
    pure true

  unfoldable pub get_rde_version :
      Client → String → Fun Store (Option DefinedEntity × String × Option Err)
  get_rde_version client rde_id = run do
    (org, err) ← ask (get_org_by_name client.cluster_org_name) env.org_reply
    when (is_some err) (leave (none, "", some (message "error getting org by name")))
    when (is_none org) (leave (none, "", some (message "obtained nil org")))
    got ← ask (get_defined_entity rde_id) env.entity_reply
    when (is_some (got.error)) (leave (none, "", some (message "failed to get RDE type version")))
    let nil_response = leave (none, "", some (message "obtained nil response"))
    if_nil (got.status_code) nil_response λ code. do
      when (code != 200) (leave (none, "", some (message "unexpected response status code")))
      pure (some got.entity, last_segment got.entity.entity_type, none)

  -- The flag of the content, which is false where anything on the way is missing.
  unfoldable pub vcdke_flag : Fields → Bool
  vcdke_flag content = elim (get "spec" content) [
    | none ↦ false
    | some spec ↦ elim (as_object spec) [
      | none ↦ false
      | some spec_map ↦ elim (get "vcdKe" spec_map) [
        | none ↦ false
        | some vcdke ↦ elim (as_object vcdke) [
          | none ↦ false
          | some vcdke_map ↦ elim (get "isVCDKECluster" vcdke_map) [
            | none ↦ false
            | some value ↦ elim (as_flag value) [ none ↦ false | some b ↦ b ]
          ]
        ]
      ]
    ]
  ]

  unfoldable pub is_vcdke_cluster : Client → String → Fun Store Bool
  is_vcdke_cluster client rde_id = run do
    (org, err) ← ask (get_org_by_name client.cluster_org_name) env.org_reply
    when (is_some err) (leave false)
    when (is_none org) (leave false)
    got ← ask (get_defined_entity rde_id) env.entity_reply
    when (is_some (got.error)) (leave false)
    if_nil (got.status_code) crash
        λ code. do when (code != 200) (leave false); pure (vcdke_flag got.entity.entity)

  -- The status of the component is there and is a map that is not empty.
  abbrev has_capvcd_status : Fields → Bool
  has_capvcd_status status_map = elim (get "capvcd" status_map) [
    | none ↦ false
    | some value ↦ elim (as_object value) [
      | none ↦ false
      | some m ↦ elim m [ end ↦ false | field k v r ↦ true ]
    ]
  ]

  -- A response that is nil is passed over.
  unfoldable pub check_for_empty_rde_and_update_created_by_versions :
      Client → String → Fun Store (Option Err)
  check_for_empty_rde_and_update_created_by_versions client infra_id = run do
    (org, err) ← ask (get_org_by_name client.cluster_org_name) env.org_reply
    when (is_some err) (leave (some (message "error getting org by name")))
    when (is_none org) (leave (some (message "obtained nil org")))
    got ← ask (get_defined_entity infra_id) env.entity_reply
    when (is_some (got.error)) (leave (some (message "failed to call get defined entity")))
    let bad : Bool = elim (got.status_code) [ none ↦ false | some code ↦ code != 200 ]
    when bad (leave (some (message "error getting the defined entity")))
    if_nil (get "status" got.entity.entity) (leave (some (message "RDE is missing status")))
        λ value.
          if_nil (as_object value) (leave (some (message "status of RDE is invalid"))) λ status_map.
            do
              when (has_capvcd_status status_map) (leave none)
              (_, e) ← call (
                  patch_rde env client [] []
                    (StatusPatch.created_by_version env.release_version ∷ []) infra_id none)
              when (is_some e) (leave (some (message "failed to update CAPVCD status")))
              pure none
