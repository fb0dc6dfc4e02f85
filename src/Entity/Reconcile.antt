-- ===== src/Entity/Reconcile.antt =====
-- GetCAPVCDEntity and reconcileRDE, with its reads and calls in their order. The YAML documents of the
-- objects of a cluster are answers, as the objects are.
pub mod Keeps
use cluster_api_provider_clo.Base.{String, ℕ, Bool, true, false, Option, none, some, List, [], ◌∷◌}
use cluster_api_provider_clo.Base.{is_some, is_none, ◌==◌, ◌!=◌, string_eq, nat_eq, ◌++◌, ◌%◌}
use cluster_api_provider_clo.Base.{if◌then◌else◌, starts_with}
use cluster_api_provider_clo.Effect.{Body, Fun, ◌>>=◌, ◌>>◌, leave, pure, crash, call, run, when}
use cluster_api_provider_clo.Effect.{if_nil}
use cluster_api_provider_clo.Api.{Err, message}
use cluster_api_provider_clo.Api.Cluster.{VcdCluster, OwnerCluster}
use cluster_api_provider_clo.Vcd.{Client, Org, Vdc, DefinedEntity}
use cluster_api_provider_clo.Vcd.Calls.{Trace, get_org_by_name, get_defined_entity, list_bindings}
use cluster_api_provider_clo.Vcd.Calls.{build_capi_yaml, get_kube_config, resolve_defined_entity}
use cluster_api_provider_clo.Vcd.Calls.{build_capi_status_yaml}
use cluster_api_provider_clo.Vcd.Env.{Env, Store, ask, the_cluster}
use cluster_api_provider_clo.Rde.Types.{CapvcdEntity, CapvcdStatus, ClusterResourceSetBinding}
use cluster_api_provider_clo.Rde.Types.{ClusterApiStatus, VcdProperties, NodePool, Upgrade}
use cluster_api_provider_clo.Rde.Types.{SpecPatch}
use cluster_api_provider_clo.Rde.Patch.{patch_rde}
use cluster_api_provider_clo.Cluster.Common.{no_rde_prefix, status_ok, tcp_port}
use cluster_api_provider_clo.Machine.Script.{tkg_version_of}
use cluster_api_provider_clo.Entity.Nodes.{NodeOwner, Listing, all_kubeadm_control_planes}
use cluster_api_provider_clo.Entity.Nodes.{all_machine_deployments, node_pool_list}
use cluster_api_provider_clo.Entity.Nodes.{has_cluster_reconciled_to_desired_k8_version}
use cluster_api_provider_clo.Entity.Create.{Creation}
use cluster_api_provider_clo.Entity.Upgrade.{first_of, upgrade_section}
use cluster_api_provider_clo.Entity.Patches.{DeepEqual, Desired, status_patches, metadata_patches}

-- addonsv1.ResourceBinding and addonsv1.ResourceSetBinding; a time that is nil is `none`
pub record ResourceBinding : Type 0 where
  pub kind : String
  pub name : String
  pub applied : Bool
  pub last_applied_time : Option String

pub record ResourceSetBinding : Type 0 where
  pub cluster_resource_set_name : String
  pub resources : List ResourceBinding

-- What is read besides `Env`; a ClusterResourceSetBinding is the list of its bindings.
pub record RdeReads : Type 0 where
  pub listing : Listing
  pub creation : Creation
  pub deep_equal : DeepEqual
  pub bindings : Trace → List (List ResourceSetBinding) × Option Err

-- The innermost loop over the bindings, in front of what the rest yields; `none` is a panic.
unfoldable pub rows_of :
    String
    → List ResourceBinding
    → Option (List ClusterResourceSetBinding)
    → Option (List ClusterResourceSetBinding)
rows_of set [] rest = rest
rows_of set (r ∷ resources) rest =
    let later = rows_of set resources rest in
    elim (r.last_applied_time) [
      | none ↦ none
      | some time ↦ elim later [
        | none ↦ none
        | some rows ↦ some (
            record {
              cluster_resource_set_name = set;
              kind = r.kind;
              name = r.name;
              applied = r.applied;
              last_applied_time = time;
            }
            ∷ rows)
      ]
    ]

unfoldable pub set_rows :
    List ResourceSetBinding
    → Option (List ClusterResourceSetBinding)
    → Option (List ClusterResourceSetBinding)
set_rows [] rest = rest
set_rows (b ∷ bindings) rest =
    rows_of b.cluster_resource_set_name b.resources (set_rows bindings rest)

unfoldable pub binding_rows :
    List (List ResourceSetBinding) → Option (List ClusterResourceSetBinding)
binding_rows [] = some []
binding_rows (b ∷ rest) = set_rows b (binding_rows rest)

-- The bindings where they could be listed.
unfoldable pub listed_rows :
    List (List ResourceSetBinding) × Option Err → Option (Option (List ClusterResourceSetBinding))
listed_rows (crs, some e) = some none
listed_rows (crs, none) = elim (binding_rows crs) [ none ↦ none | some rows ↦ some (some rows) ]

-- int32(port), its sign bit read as a bit of the number
unfoldable pub api_status_of : OwnerCluster → VcdCluster → ClusterApiStatus
api_status_of owner c =
    let endpoint = c.spec.control_plane_endpoint in
    let port = if endpoint.port == 0 then tcp_port else endpoint.port in
    record {
      phase = if owner.control_plane_ready then "Ready" else "Not Ready";
      api_endpoints = record { host = endpoint.host; port = port % 4294967296 } ∷ [];
    }

-- The ID of the OVDC is its name.
unfoldable pub vcd_resources_of : VcdCluster → Org → Vdc → VcdProperties
vcd_resources_of c org vdc = record {
  site = c.spec.site;
  org = record { name = org.name; id = org.id } ∷ [];
  ovdc = record { name = vdc.name; id = vdc.name; ovdc_network = c.spec.ovdc_network } ∷ [];
}

unfoldable pub first_version : List NodeOwner → String
first_version kcps = elim (first_of kcps) [ none ↦ "" | some kcp ↦ kcp.version ]

-- The kubeconfig where its secret could be read.
unfoldable pub read_text : String × Option Err → Option String
read_text (words, some e) = none
read_text (words, none) = some words

module _ (env : Env) (reads : RdeReads) where
  unfoldable pub get_capvcd_entity : Client → String → Fun Store (Option CapvcdEntity × Option Err)
  get_capvcd_entity client rde_id = run do
    (org, err) ← ask (get_org_by_name client.cluster_org_name) env.org_reply
    when (is_some err) (leave (none, some (message "error getting org by name")))
    when (is_none org) (leave (none, some (message "obtained nil org")))
    got ← ask (get_defined_entity rde_id) env.entity_reply
    when (is_some (got.error)) (leave (none, some (message "failed to get defined entity")))
    if_nil (got.status_code) crash λ code. do
      when (code != status_ok) (leave (none, some (message "error getting defined entity")))
      let refusal = leave (none, some (message "failed to convert CAPVCD entity map"))
      if_nil (env.decode_entity got.entity.entity) refusal λ e. pure (some e, none)

  -- The end of reconcileRDE: an entity that is not resolved is asked to be.
  unfoldable pub resolve_rde : DefinedEntity → Fun Store (Option Err)
  resolve_rde updated = run do
    when (updated.state == "RESOLVED") (leave none)
    resolved ← ask (resolve_defined_entity updated.id) env.resolve_reply
    when (is_some (resolved.error)) (leave (some (message "failed to resolve defined entity")))
    let bad : Bool = elim (resolved.status_code) [ none ↦ false | some code ↦ code != status_ok ]
    when bad (leave (some (message "error while resolving defined entity")))
    when (resolved.state != "RESOLVED") (leave (some (message "defined entity resolution failed")))
    pure none

  module _ (owner : OwnerCluster) where
    -- The patch of the spec: the YAML of the objects, where the RDE has none.
    unfoldable pub spec_patches : CapvcdEntity → Fun Store (List SpecPatch)
    spec_patches old = run do
      when (old.capi_yaml != "") (leave [])
      (yaml, err) ← ask build_capi_yaml env.text_reply
      when (is_some err) (leave [])
      pure (SpecPatch.capi_yaml yaml ∷ [])

    -- The part from the YAML of the status on: the rest of what is desired, and the patch.
    unfoldable pub send_patches :
        Client
        → Org
        → CapvcdEntity
        → Upgrade
        → String
        → List SpecPatch
        → List (List ResourceSetBinding) × Option Err
        → Option String
        → Fun Store (Option Err)
    send_patches client org old upgrade version specs crs external_id = run do
      c ← the_cluster
      (status_yaml, _) ← ask build_capi_status_yaml env.text_reply
      if_nil (reads.creation.network) crash λ network. do
        if_nil (network.pods) crash λ pods. do
          if_nil (listed_rows crs) crash λ bindings. do
            if_nil (network.services) crash λ services. do
              (node_pools, _) ← call (node_pool_list env reads.listing owner.name)
              if_nil (client.vdc) crash λ vdc. do
                config ← ask get_kube_config env.text_reply
                let desired : Desired = record {
                  phase = owner.phase;
                  upgrade = upgrade;
                  kubernetes = version;
                  uid = c.status.infra_id;
                  parent_uid = c.status.parent_uid;
                  use_as_management_cluster = c.status.use_as_management_cluster;
                  capi_status_yaml = status_yaml;
                  pods = pods;
                  bindings = bindings;
                  services = services;
                  api_status = api_status_of owner c;
                  node_pools = node_pools;
                  properties = vcd_resources_of c org vdc;
                  kube_config = read_text config;
                  capvcd_version = env.release_version;
                }
                (updated, err) ← call (
                    patch_rde env client specs
                      (metadata_patches org.name c.spec.ovdc c.spec.site old.metadata)
                      (status_patches reads.deep_equal desired old.status) c.status.infra_id
                      external_id)
                when (is_some err) (leave (some (message "failed to update defined entity")))
                if_nil updated crash λ entity. call (resolve_rde entity)

    -- The part from the entity on.
    unfoldable pub patch_entity :
        Client → Org → CapvcdEntity → Option String → Fun Store (Option Err)
    patch_entity client org old external_id = run do
      c ← the_cluster
      (kcps, err) ← call (all_kubeadm_control_planes env reads.listing)
      when (is_some err) (leave (some (message "error getting all KubeadmControlPlane objects")))
      (mds, e) ← call (all_machine_deployments env reads.listing)
      when (is_some e) (leave (some (message "error getting all MachineDeployment objects")))
      let version = first_version kcps
      crs ← ask list_bindings reads.bindings
      specs ← call (spec_patches old)
      (ready, failed) ← call (
          has_cluster_reconciled_to_desired_k8_version env reads.listing c.meta.name kcps mds
            version)
      when (is_some failed)
          (leave (some (message "failed to determine the value for ready flag for upgrades")))
      let upgrade = upgrade_section kcps (tkg_version_of owner) ready old.status.upgrade
      call (send_patches client org old upgrade version specs crs external_id)

    -- `external_id` is the vApp's ID where `updateExternalID` is set.
    unfoldable pub reconcile_rde : Option Client → Option String → Fun Store (Option Err)
    reconcile_rde vcd_client external_id = run do
      if_nil vcd_client (leave (some (message "vcdClient is nil"))) λ client. do
        c ← the_cluster
        when (starts_with c.status.infra_id no_rde_prefix) (leave none)
        (org, err) ← ask (get_org_by_name c.spec.org) env.org_reply
        when (is_some err) (leave (some (message "failed to get org by name")))
        if_nil org (leave (some (message "found nil org when getting org by name"))) λ o. do
          (entity, e) ← call (get_capvcd_entity client c.status.infra_id)
          when (is_some e) (leave (some (message "failed to get RDE")))
          if_nil entity crash λ old. call (patch_entity client o old external_id)
