-- ===== src/Rde/Patch.antt =====
-- patchObject, PatchRDE and SetIsManagementClusterInRDE. A patch map is a list of assignments, one
-- for each key; the keys of a map are distinct, and the assignments touch distinct fields.
pub mod Laws
use cluster_api_provider_clo.Base.{String, ℕ, zero, suc, Bool, true, false, Option, none, some}
use cluster_api_provider_clo.Base.{List, [], ◌∷◌, is_some, is_none, ◌==◌, ◌!=◌, string_eq, nat_eq}
use cluster_api_provider_clo.Base.{if◌then◌else◌, ◌&&◌}
use cluster_api_provider_clo.Effect.{Body, Fun, ◌>>=◌, ◌>>◌, leave, pure, crash, call, run, when}
use cluster_api_provider_clo.Effect.{if_nil, exit, next, panic, ret, panicked}
use cluster_api_provider_clo.Json.{Fields, object, as_object, get, put}
use cluster_api_provider_clo.Api.{Err, message}
use cluster_api_provider_clo.Vcd.{Client, DefinedEntity}
use cluster_api_provider_clo.Vcd.Calls.{get_org_by_name, get_defined_entity, update_defined_entity}
use cluster_api_provider_clo.Vcd.Env.{Env, Store, ask}
use cluster_api_provider_clo.Rde.Types
use cluster_api_provider_clo.Rde.Types.{CapvcdEntity, CapvcdStatus, Metadata, MetadataPatch}
use cluster_api_provider_clo.Rde.Types.{SpecPatch, StatusPatch}

abbrev pub max_update_retries : ℕ
max_update_retries = 10

abbrev assign_metadata : MetadataPatch → Metadata → Metadata
assign_metadata (MetadataPatch.org x) m = record m { org = x }
assign_metadata (MetadataPatch.vdc x) m = record m { vdc = x }
assign_metadata (MetadataPatch.site x) m = record m { site = x }

-- `none` is a panic: `Set` of a field that does not exist.
abbrev pub assign_status : StatusPatch → CapvcdStatus → Option CapvcdStatus
assign_status (StatusPatch.phase x) m = some (record m { phase = x })
assign_status (StatusPatch.kubernetes x) m = some (record m { kubernetes = x })
assign_status (StatusPatch.uid x) m = some (record m { uid = x })
assign_status (StatusPatch.cluster_api_status x) m = some (record m { cluster_api_status = x })
assign_status (StatusPatch.node_pool x) m = some (record m { node_pool = x })
assign_status (StatusPatch.capvcd_version x) m = some (record m { capvcd_version = x })
assign_status (StatusPatch.use_as_management_cluster x) m =
    some (record m { use_as_management_cluster = x })
assign_status (StatusPatch.pods x) m = some (record m { pods = x })
assign_status (StatusPatch.services x) m = some (record m { services = x })
assign_status (StatusPatch.parent_uid x) m = some (record m { parent_uid = x })
assign_status (StatusPatch.vcd_properties x) m = some (record m { vcd_properties = x })
assign_status (StatusPatch.kube_config x) m = some (record m { kube_config = x })
assign_status (StatusPatch.capi_status_yaml x) m = some (record m { capi_status_yaml = x })
assign_status (StatusPatch.cluster_resource_set_bindings x) m =
    some (record m { cluster_resource_set_bindings = x })
assign_status (StatusPatch.created_by_version x) m = some (record m { created_by_version = x })
assign_status (StatusPatch.upgrade x) m = some (record m { upgrade = x })
assign_status (StatusPatch.no_such_field key) m = none

unfoldable pub patch_metadata : List MetadataPatch → Metadata → Metadata
patch_metadata [] m = m
patch_metadata (p ∷ rest) m = patch_metadata rest (assign_metadata p m)

unfoldable pub patch_spec : List SpecPatch → String → String
patch_spec [] yaml = yaml
patch_spec (SpecPatch.capi_yaml x ∷ rest) yaml = patch_spec rest x

unfoldable pub patch_status : List StatusPatch → CapvcdStatus → Option CapvcdStatus
patch_status [] m = some m
patch_status (p ∷ rest) m = elim (assign_status p m) [
  | none ↦ none
  | some m' ↦ patch_status rest m'
]

abbrev is_empty : {A : Type 0} → List A → Bool
is_empty [] = true
is_empty (_ ∷ _) = false

-- Errors are the two of the Go code; a panic is recovered by the caller.
pub data Patched : Type 0 where
  patched : Fields → Patched
  refused : Patched
  panics : Patched

-- The content of the entity after the patches that are not empty.
patch_content :
    Env → List SpecPatch → List MetadataPatch → List StatusPatch → CapvcdEntity → Fields → Patched
patch_content env specs metadatas statuses e m =
    let with_spec =
      if is_empty specs
      then m
      else put "spec" (object (env.encode_spec (patch_spec specs e.capi_yaml))) m in
    let with_metadata =
      if is_empty metadatas
      then with_spec
      else put "metadata" (object (env.encode_metadata (patch_metadata metadatas e.metadata)))
          with_spec in
    if is_empty statuses then patched with_metadata else elim (get "status" with_metadata) [
      | none ↦ refused
      | some value ↦ elim (as_object value) [
        | none ↦ refused
        | some status_map ↦ elim (patch_status statuses e.status) [
          | none ↦ panics
          | some new ↦ patched (
              put "status" (object (put "capvcd" (object (env.encode_status new)) status_map))
                with_metadata)
        ]
      ]
    ]

-- `defer recover()`: a panic becomes an error.
abbrev pub recovered : {R : Type 0} → R → Fun Store R → Fun Store R
recovered r f s = elim (f s) [ ret a t ↦ ret a t | panicked t ↦ ret r t ]

module _ (env : Env) where
  abbrev PatchReply : Type 0
  PatchReply = Option DefinedEntity × Option Err

  -- What to send, or why not.
  abbrev pub checked_content : Patched → Body Store (Option PatchReply) Fields
  checked_content (patched m) = pure m
  checked_content refused =
      leave (some (none, some (message "error parsing status section of CAPVCD entity")))
  checked_content panics = crash

  -- The end of a round: the update, which is tried again unless the answer is 200.
  unfoldable pub send_update :
      DefinedEntity → String → Fun Store (Option (Option DefinedEntity × Option Err))
  send_update new etag = run do
    sent ← ask (update_defined_entity new etag) env.entity_reply
    when (is_some (sent.error)) (leave none)
    if_nil (sent.status_code) crash
        λ status. do when (status != 200) (leave none); pure (some (some sent.entity, none))

  -- One round of the loop of PatchRDE: what it returns, or `none` where it goes on.
  unfoldable pub patch_attempt :
      List SpecPatch
      → List MetadataPatch
      → List StatusPatch
      → String
      → Option String
      → Fun Store (Option (Option DefinedEntity × Option Err))
  unfolding patch_content
  patch_attempt specs metadatas statuses rde_id external_id = run do
    got ← ask (get_defined_entity rde_id) env.entity_reply
    when (is_some (got.error))
        (leave (some (none, some (message "failed to call get defined entity"))))
    when (is_empty specs && (is_empty metadatas && is_empty statuses))
        (leave (some (some got.entity, none)))
    if_nil (got.status_code) crash λ code. do
      when (code != 200) (leave (some (none, some (message "error getting the defined entity"))))
      let refusal = leave (some (none, some (message "failed to convert map to CAPVCD entity")))
      if_nil (env.decode_entity got.entity.entity) refusal λ e. do
        content ← checked_content (patch_content env specs metadatas statuses e got.entity.entity)
        let old_id = got.entity.external_id
        let new_id : String = elim external_id [ none ↦ old_id | some id ↦ id ]
        let new = record (got.entity) { entity = content; external_id = new_id }
        call (send_update new got.etag)

  -- The loop of PatchRDE, with the number of rounds left.
  unfoldable pub patch_rounds :
      ℕ
      → List SpecPatch
      → List MetadataPatch
      → List StatusPatch
      → String
      → Option String
      → Fun Store (Option DefinedEntity × Option Err)
  patch_rounds zero specs metadatas statuses rde_id external_id =
      run (pure (none, some (message "failed to update defined entity")))
  patch_rounds (suc left) specs metadatas statuses rde_id external_id = run do
    reply ← call (patch_attempt specs metadatas statuses rde_id external_id)
    if_nil reply (call (patch_rounds left specs metadatas statuses rde_id external_id)) pure

  -- PatchRDE below its deferred function.
  unfoldable pub patch_unguarded :
      Client
      → List SpecPatch
      → List MetadataPatch
      → List StatusPatch
      → String
      → Option String
      → Fun Store (Option DefinedEntity × Option Err)
  patch_unguarded client specs metadatas statuses rde_id external_id = run do
    (org, err) ← ask (get_org_by_name client.cluster_org_name) env.org_reply
    when (is_some err) (leave (none, some (message "error getting org by name")))
    when (is_none org) (leave (none, some (message "obtained nil org")))
    call (patch_rounds max_update_retries specs metadatas statuses rde_id external_id)

  -- `external_id` is given where `updateExternalID` is set.
  unfoldable pub patch_rde :
      Client
      → List SpecPatch
      → List MetadataPatch
      → List StatusPatch
      → String
      → Option String
      → Fun Store (Option DefinedEntity × Option Err)
  patch_rde client specs metadatas statuses rde_id external_id =
      recovered (none, some (message "recovered panic during updating entity"))
        (patch_unguarded client specs metadatas statuses rde_id external_id)

  -- The key "UsedAsManagementCluster" names no field: the field is UseAsManagementCluster.
  unfoldable pub set_is_management_cluster_in_rde : Client → String → Fun Store (Option Err)
  set_is_management_cluster_in_rde client rde_id = run do
    when (rde_id == "") (leave none)
    (_, err) ← call (
        patch_rde client [] [] (StatusPatch.no_such_field "UsedAsManagementCluster" ∷ []) rde_id
          none)
    when (is_some err) (leave (some (message "failed to set isManagementCluster flag")))
    pure none
