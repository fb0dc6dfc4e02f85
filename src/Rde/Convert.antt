-- ===== src/Rde/Convert.antt =====
-- convertFrom100Format, convertFrom110Format and ConvertToLatestRDEVersionFormat.
pub mod Laws
use cluster_api_provider_clo.Base.{String, ℕ, zero, suc, Bool, true, false, Option, none, some}
use cluster_api_provider_clo.Base.{List, [], ◌∷◌, is_some, is_none, ◌==◌, ◌!=◌, string_eq, nat_eq}
use cluster_api_provider_clo.Base.{if◌then◌else◌, ◌<>◌, not}
use cluster_api_provider_clo.Effect.{Body, Fun, ◌>>=◌, ◌>>◌, leave, pure, crash, call, run, when}
use cluster_api_provider_clo.Effect.{if_nil, exit, next, panic, ret, panicked}
use cluster_api_provider_clo.Json.{Fields, end, Value, null, object, as_object, get, put}
use cluster_api_provider_clo.Api.{Err, message}
use cluster_api_provider_clo.Vcd.{Client, DefinedEntity, Org}
use cluster_api_provider_clo.Vcd.Calls.{get_org_by_name, get_defined_entity, update_defined_entity}
use cluster_api_provider_clo.Vcd.Env.{Env, Store, ask}
use cluster_api_provider_clo.Rde.Types.{CapvcdEntity, CapvcdStatus, Metadata, ClusterApiStatus}
use cluster_api_provider_clo.Rde.Types.{VcdProperties, Upgrade}
use cluster_api_provider_clo.Rde.Patch.{max_update_retries}
use cluster_api_provider_clo.Rde.Version.{capvcd_rde_type_version, rde_type_version_1_0_0}
use cluster_api_provider_clo.Rde.Version.{capvcd_entity_type_prefix, get_rde_version}
use cluster_api_provider_clo.Rde.Version.{is_capvcd_entity_type_registered}

-- The zero value of CAPVCDStatus.
blank_status : CapvcdStatus
blank_status = record {
  phase = "";
  kubernetes = "";
  uid = "";
  cluster_api_status = record { phase = ""; api_endpoints = [] };
  node_pool = [];
  capvcd_version = "";
  use_as_management_cluster = false;
  pods = [];
  services = [];
  parent_uid = "";
  vcd_properties = record { site = ""; ovdc = []; org = [] };
  kube_config = "";
  capi_status_yaml = "";
  cluster_resource_set_bindings = [];
  created_by_version = "";
  upgrade = record { current = none; previous = none; ready = false };
  others = end;
}

-- dstEmptyCapvcdEntity
unfoldable pub empty_entity : CapvcdEntity
unfolding blank_status
empty_entity = record {
  metadata = record { name = ""; org = ""; vdc = ""; site = "" };
  capi_yaml = "";
  api_version = "capvcd.vmware.com/v1.1";
  status = blank_status;
  kind = "CAPVCDCluster";
}

-- sectionsInStatusRetainedDuringRDEUpgrade
abbrev pub retained_sections : List String
retained_sections = "persistentVolumes" ∷ "virtualIPs" ∷ "vcdKe" ∷ "cpi" ∷ "csi" ∷ []

-- The loop over the sections, which copies those that are there.
unfoldable pub retain : List String → Fields → Fields → Fields
retain [] status_map new = new
retain (s ∷ sections) status_map new =
    retain sections status_map (elim (get s status_map) [ none ↦ new | some old ↦ put s old new ])

-- The status section of the upgraded entity: a nil map where the old one is no map.
unfoldable pub new_status : Fields → Value
unfolding retain
new_status content = elim (get "status" content) [
  | none ↦ null
  | some value ↦ elim (as_object value) [
    | none ↦ null
    | some status_map ↦ object (retain retained_sections status_map end)
  ]
]

-- convertFrom110Format: `none` is a status that cannot be read as one.
unfoldable pub rewrite_status : Env → Fields → Option Fields
rewrite_status env content = elim (get "status" content) [
  | none ↦ some content
  | some value ↦ elim (as_object value) [
    | none ↦ some content
    | some status_map ↦ elim (get "capvcd" status_map) [
      | none ↦ some content
      | some capvcd ↦ elim (as_object capvcd) [
        | none ↦ some content
        | some capvcd_map ↦ elim (env.decode_status capvcd_map) [
          | none ↦ none
          | some status ↦ some (
              put "status" (object (put "capvcd" (object (env.encode_status status)) status_map))
                content)
        ]
      ]
    ]
  ]
]

module _ (env : Env) where
  abbrev pub latest_entity_type : String
  latest_entity_type = capvcd_entity_type_prefix <> ":" <> capvcd_rde_type_version

  abbrev ConvertReply : Type 0
  ConvertReply = Option DefinedEntity × Option Err

  -- The update of one round: `none` is another round. Only a status code is tried again.
  unfoldable pub send_upgrade :
      DefinedEntity → String → Fun Store (Option (Option DefinedEntity × Option Err))
  send_upgrade new etag = run do
    sent ← ask (update_defined_entity new etag) env.entity_reply
    when (is_some (sent.error))
        (leave (some (none, some (message "error when upgrading defined entity"))))
    let nil_response = leave (some (none, some (message "obtained nil response")))
    if_nil (sent.status_code) nil_response
        λ status. do when (status != 200) (leave none); pure (some (some sent.entity, none))

  -- One round of either conversion: `build` makes the new entity from the one that was read.
  unfoldable pub convert_attempt :
      (DefinedEntity → Option DefinedEntity)
      → String
      → Fun Store (Option (Option DefinedEntity × Option Err))
  convert_attempt build id = run do
    got ← ask (get_defined_entity id) env.entity_reply
    when (is_some (got.error))
        (leave (some (none, some (message "failed to get the defined entity"))))
    let nil_response = leave (some (none, some (message "obtained nil response")))
    if_nil (got.status_code) nil_response λ code. do
      when (code != 200) (leave (some (none, some (message "unexpected response status code"))))
      let failed = leave (some (none, some (message "failed to convert CAPVCD status")))
      if_nil (build (got.entity)) failed λ new. call (send_upgrade new got.etag)

  unfoldable pub convert_rounds :
      ℕ
      → (DefinedEntity → Option DefinedEntity)
      → String
      → Fun Store (Option DefinedEntity × Option Err)
  convert_rounds zero build id = run (pure (none, some (message "failed to upgrade RDE")))
  convert_rounds (suc left) build id = run do
    reply ← call (convert_attempt build id)
    if_nil reply (call (convert_rounds left build id)) pure

  -- A 1.0.0 entity keeps its name, its external ID and the retained sections of its status.
  unfoldable pub from_100 : DefinedEntity → DefinedEntity → DefinedEntity
  unfolding new_status
  from_100 src got = record {
    id = "";
    name = src.name;
    entity_type = latest_entity_type;
    external_id = src.external_id;
    state = "";
    entity = put "status" (new_status got.entity) (env.encode_entity empty_entity);
  }

  unfoldable pub from_110 : DefinedEntity → Option DefinedEntity
  from_110 got = elim (rewrite_status env got.entity) [
    | none ↦ none
    | some content ↦ some (record got { entity = content; entity_type = latest_entity_type })
  ]

  unfoldable pub convert_from_100_format :
      Client → DefinedEntity → String → Fun Store (Option DefinedEntity × Option Err)
  convert_from_100_format client src version = run do
    when (version == capvcd_rde_type_version) (leave (some src, none))
    (org, err) ← ask (get_org_by_name client.cluster_org_name) env.org_reply
    when (is_some err) (leave (none, some (message "error getting org by name")))
    when (is_none org) (leave (none, some (message "obtained nil org")))
    call (convert_rounds max_update_retries (λ got. some (from_100 src got)) src.id)

  unfoldable pub convert_from_110_format :
      Client → DefinedEntity → String → Fun Store (Option DefinedEntity × Option Err)
  convert_from_110_format client src version = run do
    when (version == capvcd_rde_type_version) (leave (some src, none))
    (org, err) ← ask (get_org_by_name client.cluster_org_name) env.org_reply
    when (is_some err) (leave (none, some (message "failed to get the org while upgrading RDE")))
    when (is_none org) (leave (none, some (message "obtained nil org while upgrading RDE")))
    call (convert_rounds max_update_retries from_110 src.id)

  unfoldable pub convert_to_latest_rde_version_format :
      Client → String → Fun Store (Option DefinedEntity × Option Err)
  convert_to_latest_rde_version_format client rde_id = run do
    registered ← call (is_capvcd_entity_type_registered env capvcd_rde_type_version)
    when (not registered) (leave (none, some (message "CAPVCD entity type not registered")))
    (found, version, err) ← call (get_rde_version env client rde_id)
    when (is_some err) (leave (none, some (message "failed to fetch RDE type version")))
    let unparsed = leave (none, some (message "error parsing entityType version"))
    if_nil (env.semver_new version) unparsed λ parsed. do
      when (parsed.major != 1) (leave (none, some (message "invalid source RDE version")))
      if_nil found crash λ src. do
        (dst, e) ←
            if version == rde_type_version_1_0_0
            then call (convert_from_100_format client src version)
            else (if version == capvcd_rde_type_version
                then call (convert_from_110_format client src version)
                else pure (none, none))
        when (is_some e) (leave (none, some (message "failed to convert RDE")))
        pure (dst, none)
