-- ===== src/Entity/Create.antt =====
-- constructCapvcdRDE and constructAndCreateRDEFromCluster. The client and its organisation are not
-- nil where they are called.
pub mod Laws
use cluster_api_provider_clo.Base.{String, ℕ, Bool, true, false, Option, none, some, List, [], ◌∷◌}
use cluster_api_provider_clo.Base.{is_some, is_none, ◌!=◌, nat_eq}
use cluster_api_provider_clo.Effect.{Body, Fun, ◌>>=◌, ◌>>◌, leave, pure, crash, call, run, when}
use cluster_api_provider_clo.Effect.{if_nil, gets}
use cluster_api_provider_clo.Json.{end}
use cluster_api_provider_clo.Api.{Err, message}
use cluster_api_provider_clo.Api.Cluster.{VcdCluster, OwnerCluster}
use cluster_api_provider_clo.Vcd.{Client, DefinedEntity, Org, Vdc}
use cluster_api_provider_clo.Vcd.Calls.{Trace, create_defined_entity, refresh_task}
use cluster_api_provider_clo.Vcd.Env.{Env, Store, ask, the_cluster}
use cluster_api_provider_clo.Rde.Types.{CapvcdEntity}
use cluster_api_provider_clo.Ovdc.Client.{org_by_name}
use cluster_api_provider_clo.Machine.Script.{tkg_version_of}
use cluster_api_provider_clo.Entity.Nodes.{NodeOwner, Listing, all_kubeadm_control_planes}
use cluster_api_provider_clo.Entity.Nodes.{all_machine_deployments}
use cluster_api_provider_clo.Entity.Nodes.{has_cluster_reconciled_to_desired_k8_version}

abbrev pub capvcd_entity_type_id : String
capvcd_entity_type_id = "urn:vcloud:type:vmware:capvcdCluster:1.1.0"

-- clusterv1.ClusterNetwork, whose fields are pointers to lists of CIDR blocks
pub record ClusterNetwork : Type 0 where
  pub pods : Option (List String)
  pub services : Option (List String)

-- What is read besides `Env`: the network of the cluster, the location that the answer to a creation
-- names, and the owner of a task.
pub record Creation : Type 0 where
  pub network : Option ClusterNetwork
  pub location : Trace → String
  pub task_owner : Trace → Option String × Option Err

-- The version of the last control plane.
unfoldable pub kubernetes_version : List NodeOwner → String → String
kubernetes_version [] version = version
kubernetes_version (kcp ∷ kcps) version = kubernetes_version kcps kcp.version

-- The content of the new RDE.
unfoldable pub new_capvcd_entity :
    String
    → String
    → Bool
    → List String
    → List String
    → OwnerCluster
    → VcdCluster
    → Vdc
    → Org
    → CapvcdEntity
new_capvcd_entity release version ready pods services owner c vdc org = record {
  metadata = record { name = c.meta.name; org = org.name; vdc = vdc.name; site = c.spec.site };
  capi_yaml = "";
  api_version = "capvcd.vmware.com/v1.1";
  kind = "CAPVCDCluster";
  status = record {
    phase = "Not Ready";
    kubernetes = version;
    uid = "";
    cluster_api_status = record { phase = ""; api_endpoints = [] };
    node_pool = [];
    capvcd_version = release;
    use_as_management_cluster = c.spec.use_as_management_cluster;
    pods = pods;
    services = services;
    parent_uid = c.spec.parent_uid;
    vcd_properties = record {
      site = c.spec.site;
      ovdc = (record { name = vdc.name; id = vdc.id; ovdc_network = c.spec.ovdc_network }) ∷ [];
      org = (record { name = org.name; id = org.id }) ∷ [];
    };
    kube_config = "";
    capi_status_yaml = "";
    cluster_resource_set_bindings = [];
    created_by_version = release;
    upgrade = record {
      current = some (record { tkg_version = tkg_version_of owner; k8s_version = version });
      previous = none;
      ready = ready;
    };
    others = end;
  };
}

module _ (env : Env) (listing : Listing) (creation : Creation) (owner : OwnerCluster) where
  unfoldable pub construct_capvcd_rde :
      Option Vdc → Option Org → Fun Store (Option DefinedEntity × Option Err)
  construct_capvcd_rde no_vdc no_org = run do
    if_nil no_vdc (leave (none, some (message "VDC cannot be nil"))) λ vdc. do
      if_nil no_org (leave (none, some (message "org cannot be nil"))) λ org. do
        (kcps, err) ← call (all_kubeadm_control_planes env listing)
        when (is_some err)
            (leave (none, some (message "error getting KubeadmControlPlane objects")))
        let version = kubernetes_version kcps ""
        (mds, e) ← call (all_machine_deployments env listing)
        when (is_some e)
            (leave (none, some (message "error getting all machine deployment objects")))
        c ← the_cluster
        (ready, failed) ←
            call (
              has_cluster_reconciled_to_desired_k8_version env listing c.meta.name kcps mds version)
        when (is_some failed)
            (leave (none, some (message "error while determining the value for the ready flag")))
        if_nil (creation.network) crash λ network. do
          if_nil (network.pods) crash λ pods. do
            if_nil (network.services) crash λ services. do
              let content =
                  new_capvcd_entity env.release_version version ready pods services owner c vdc org
              pure (
                some (record {
                  id = "";
                  name = c.meta.name;
                  entity_type = capvcd_entity_type_id;
                  external_id = "";
                  state = "";
                  entity = env.encode_entity content;
                }),
                none,
              )

  unfoldable pub construct_and_create_rde_from_cluster : Client → Fun Store (String × Option Err)
  construct_and_create_rde_from_cluster client = run do
    when (is_none client.vdc) (leave ("", some (message "VDC client in vcdClient object is nil")))
    c ← the_cluster
    (org, err) ← call (org_by_name env c.spec.org)
    when (is_some err) (leave ("", some (message "error occurred while constructing RDE")))
    when (is_none org) (leave ("", some (message "unable to get the org by name")))
    (made, e) ← call (construct_capvcd_rde client.vdc org)
    when (is_some e) (leave ("", some (message "error occurred while constructing RDE payload")))
    if_nil made crash λ rde. do
      (status, failed) ← ask (create_defined_entity rde) env.response_reply
      when (is_some failed) (leave ("", some (message "error occurred during RDE creation")))
      at ← gets (λ s. creation.location s.trace)
      if_nil status crash λ code. do
        when (code != 202) (leave ("", some (message "error occurred during RDE creation")))
        (task_owner, last) ← ask (refresh_task at) creation.task_owner
        when (is_some last) (leave ("", some (message "error refreshing task")))
        if_nil task_owner crash λ id. pure (id, none)
