-- ===== src/Tests/Entities.antt =====
-- The theorems on node pools and upgrades at a cluster with one control plane and one pool.
use native.Mathlib.Decide.{ℕ_discrete}
use cluster_api_provider_clo.Entity.Nodes.{all_kubeadm_control_planes, all_machine_deployments}
use cluster_api_provider_clo.Ovdc.Client.{org_by_name}
use cluster_api_provider_clo.Base.{nat_eq}
use cluster_api_provider_clo.Entity.Create.{new_capvcd_entity}
use cluster_api_provider_clo.Machine.Script.{tkg_version_of}
use cluster_api_provider_clo.Entity.Nodes.{
  all_machines_in_kcp, all_machines_in_machine_deployment, any_behind, is_behind, is_owned,
  machines_for, machines_of, some_behind,
}
use cluster_api_provider_clo.Base.{string_eq}
use cluster_api_provider_clo.Base.{true, false, Option, none, some, [], ◌∷◌, ◌≡◌, refl}
use cluster_api_provider_clo.Effect.{ret}
use cluster_api_provider_clo.Api.{Err}
use cluster_api_provider_clo.Vcd.Calls.{list_machines, get_machine_template}
use cluster_api_provider_clo.Vcd.Env.{Store}
use cluster_api_provider_clo.Entity.Nodes.{NodeOwner, ListedMachine, Listing, node_pools}
use cluster_api_provider_clo.Entity.Nodes.{node_pool_of, TemplateSpec}
use cluster_api_provider_clo.Entity.Nodes.{has_cluster_reconciled_to_desired_k8_version}
use cluster_api_provider_clo.Entity.Nodes.Laws.{has_cluster_reconciled-current, all_current}
use cluster_api_provider_clo.Entity.Nodes.Laws.{node_pools-names, pool_names, owner_names}
use cluster_api_provider_clo.Base.{◌⊎◌}
use cluster_api_provider_clo.Json.{end}
use cluster_api_provider_clo.Vcd.{DefinedEntity}
use cluster_api_provider_clo.Vcd.Env.{Env}
use cluster_api_provider_clo.Vcd.History.{happened}
use cluster_api_provider_clo.Vcd.Calls.{list_control_planes, list_machine_deployments, refresh_task}
use cluster_api_provider_clo.Vcd.Calls.{create_defined_entity, get_org_by_name, Trace}
use cluster_api_provider_clo.Rde.Types.{K8sInfo, Upgrade}
use cluster_api_provider_clo.Entity.Upgrade.{previous_of}
use cluster_api_provider_clo.Entity.Upgrade.{upgrade_section, upgrade_section_lem, k8s_version_of}
use cluster_api_provider_clo.Entity.Create.{ClusterNetwork, Creation, capvcd_entity_type_id}
use cluster_api_provider_clo.Entity.Create.{construct_capvcd_rde, kubernetes_version}
use cluster_api_provider_clo.Entity.Create.{construct_and_create_rde_from_cluster}
use cluster_api_provider_clo.Entity.Create.Laws.{construct_capvcd_rde-ready, HasContent, kcps_at}
use cluster_api_provider_clo.Entity.Create.Laws.{AllCurrent, last_version}
use cluster_api_provider_clo.Entity.Create.Laws.{construct_and_create-created, is_created}
use cluster_api_provider_clo.Base.{String, List, Bool, ◌&&◌, ◌==◌, string_eq, arith}
use cluster_api_provider_clo.Rde.Types.{CapvcdStatus, Metadata}
use cluster_api_provider_clo.Rde.Patch.{patch_status, patch_metadata}
use cluster_api_provider_clo.Entity.Create.{new_capvcd_entity}
use cluster_api_provider_clo.Entity.Patches.{DeepEqual, Desired, status_patches, metadata_patches}
use cluster_api_provider_clo.Entity.Patches.Laws.{status_patches-brought, brought}
use cluster_api_provider_clo.Entity.Patches.Laws.{metadata_patches_keep_vdc}
use cluster_api_provider_clo.Tests.{provisioning, pool, acme, client}
use cluster_api_provider_clo.Tests.{calm, running}

abbrev no_error : Option Err
no_error = none

abbrev planes : NodeOwner
planes = record {
  name = "kcp";
  version = "v1.28.0";
  replicas = some 1;
  ready_replicas = 1;
  template = "large";
}

abbrev workers : NodeOwner
workers = record {
  name = "md-0";
  version = "";
  replicas = none;
  ready_replicas = 0;
  template = "small";
}

abbrev plane_machine : ListedMachine
plane_machine = record {
  name = "kcp-1";
  phase = "Running";
  version = some "v1.28.0";
  owners = (record { kind = "KubeadmControlPlane"; name = "kcp" }) ∷ [];
}

-- A machine without a version is not behind.
abbrev worker_machine : ListedMachine
worker_machine = record {
  name = "md-0-a";
  phase = "Provisioning";
  version = none;
  owners = (record { kind = "MachineSet"; name = "md-0-x" }) ∷ [];
}

abbrev small : TemplateSpec
small = record {
  sizing_policy = "2core";
  placement_policy = "";
  enable_nvidia_gpu = false;
  storage_profile = "*";
  disk_size = 20971520;
}

abbrev listing : Listing
listing = record {
  owners = λ t. (workers ∷ [], none);
  machines = λ t. (plane_machine ∷ worker_machine ∷ [], none);
  template = λ t. (small, none);
}

-- The control plane runs the expected version, and so does the pool, as none of its machines has
-- another one.
abbrev upgraded : Store
upgraded = record {
  cluster = running.cluster;
  machine = running.machine;
  trace = list_machines "md-0" ∷ list_machines "c1" ∷ running.trace;
}

upgraded_run :
    has_cluster_reconciled_to_desired_k8_version calm listing "c1"
      (planes ∷ [])
      (workers ∷ [])
      "v1.28.0"
      running
    ≡ ret (true, none) upgraded
unfolding has_cluster_reconciled_to_desired_k8_version some_behind machines_for all_machines_in_kcp
    any_behind machines_of is_owned string_eq is_behind all_machines_in_machine_deployment
upgraded_run = refl

has_cluster_reconciled-current_example :
    (no_error ≡ none)
    × ((all_current calm listing true "c1" "v1.28.0" (planes ∷ []) upgraded.trace ≡ true)
        × (all_current calm listing false "c1" "v1.28.0" (workers ∷ []) upgraded.trace ≡ true))
has_cluster_reconciled-current_example =
    has_cluster_reconciled-current calm listing "c1" "v1.28.0" (planes ∷ []) (workers ∷ []) running
      upgraded none upgraded_run

abbrev pooled : Store
pooled = record {
  cluster = running.cluster;
  machine = running.machine;
  trace = list_machines "md-0" ∷ get_machine_template "small" ∷ running.trace;
}

pools_run :
    node_pools calm listing false "c1" (workers ∷ []) running
    ≡ ret (node_pool_of workers small (plane_machine ∷ worker_machine ∷ []) ∷ [], none) pooled
unfolding node_pools machines_for all_machines_in_machine_deployment node_pool_of
pools_run = refl

node_pools-names_example :
    pool_names (node_pool_of workers small (plane_machine ∷ worker_machine ∷ []) ∷ [])
    ≡ owner_names (workers ∷ [])
node_pools-names_example =
    node_pools-names calm listing false "c1" (workers ∷ [])
      (node_pool_of workers small (plane_machine ∷ worker_machine ∷ []) ∷ []) running pooled
      pools_run

-- The creation is accepted, and its task belongs to the new entity.
abbrev accepting : Env
accepting = record calm { response_reply = λ t. (some 202, none) }

abbrev blocks : ClusterNetwork
blocks = record { pods = some ("100.96.0.0/11" ∷ []); services = some ("100.64.0.0/13" ∷ []) }

abbrev creation : Creation
creation = record {
  network = some blocks;
  location = λ t. "task-1";
  task_owner = λ t. (some "rde-9", none);
}

abbrev new_rde : DefinedEntity
new_rde = record {
  id = "";
  name = "c1";
  entity_type = capvcd_entity_type_id;
  external_id = "";
  state = "";
  entity = end;
}

-- Control planes and machine deployments are listed alike, so both lists have the control plane.
abbrev pool_planes : Listing
pool_planes = record {
  owners = λ t. (planes ∷ [], none);
  machines = λ t. (plane_machine ∷ worker_machine ∷ [], none);
  template = λ t. (small, none);
}

abbrev after_construction : Trace → Trace
after_construction before =
    list_machines "kcp"
    ∷ list_machines "c1"
    ∷ list_machine_deployments
    ∷ list_control_planes
    ∷ before

abbrev constructed : Store
constructed = record {
  cluster = running.cluster;
  machine = running.machine;
  trace = after_construction running.trace;
}

construct_run :
    construct_capvcd_rde accepting pool_planes creation provisioning (some pool) (some acme) running
    ≡ ret (some new_rde, none) constructed
unfolding construct_capvcd_rde all_kubeadm_control_planes all_machine_deployments
    has_cluster_reconciled_to_desired_k8_version some_behind machines_for all_machines_in_kcp
    any_behind machines_of is_owned string_eq is_behind kubernetes_version
    all_machines_in_machine_deployment
construct_run = refl

construct_capvcd_rde-ready_example :
    (HasContent accepting pool_planes creation provisioning true
        ("100.96.0.0/11" ∷ [])
        ("100.64.0.0/13" ∷ [])
        pool
        acme
        running
        new_rde
      × AllCurrent accepting pool_planes creation provisioning
          (last_version accepting pool_planes creation provisioning
            (kcps_at accepting pool_planes creation provisioning running))
          running
          constructed)
    ⊎ HasContent accepting pool_planes creation provisioning false
        ("100.96.0.0/11" ∷ [])
        ("100.64.0.0/13" ∷ [])
        pool
        acme
        running
        new_rde
construct_capvcd_rde-ready_example =
    construct_capvcd_rde-ready accepting pool_planes creation provisioning blocks
      ("100.96.0.0/11" ∷ []) ("100.64.0.0/13" ∷ []) refl refl refl pool acme running constructed
      new_rde construct_run

abbrev created_store : Store
created_store = record {
  cluster = running.cluster;
  machine = running.machine;
  trace =
      refresh_task "task-1"
      ∷ create_defined_entity new_rde
      ∷ after_construction (get_org_by_name running.cluster.spec.org ∷ running.trace);
}

create_run :
    construct_and_create_rde_from_cluster accepting pool_planes creation provisioning client running
    ≡ ret ("rde-9", none) created_store
unfolding construct_and_create_rde_from_cluster org_by_name construct_capvcd_rde
    all_kubeadm_control_planes all_machine_deployments has_cluster_reconciled_to_desired_k8_version
    some_behind machines_for all_machines_in_kcp any_behind machines_of is_owned string_eq is_behind
    kubernetes_version all_machines_in_machine_deployment nat_eq new_capvcd_entity tkg_version_of
    ℕ_discrete
create_run = refl

construct_and_create-created_example :
    (happened
        (is_created accepting pool_planes creation provisioning running.cluster.meta.name)
        created_store.trace
      ≡ true)
    × (created_store.cluster ≡ running.cluster)
construct_and_create-created_example =
    construct_and_create-created accepting pool_planes creation provisioning client running
      created_store "rde-9" create_run

-- An upgrade from 1.27 to 1.28.
abbrev old_info : K8sInfo
old_info = record { tkg_version = "v2.3"; k8s_version = "v1.27.5" }

abbrev old_section : Upgrade
old_section = record { current = some old_info; previous = none; ready = true }

upgrade_section_lem_example :
    (k8s_version_of (upgrade_section (planes ∷ []) "v2.4" false old_section) ≡ some "v1.28.0")
    × (((upgrade_section (planes ∷ []) "v2.4" false old_section).ready ≡ false)
        × (((upgrade_section (planes ∷ []) "v2.4" false old_section).previous
              ≡ previous_of planes old_section)
            × (upgrade_section
                  (planes ∷ [])
                  "v2.4"
                  false
                  (upgrade_section (planes ∷ []) "v2.4" false old_section)
                ≡ upgrade_section (planes ∷ []) "v2.4" false old_section)))
upgrade_section_lem_example = upgrade_section_lem planes [] "v2.4" false old_section

-- Lists of CIDR blocks are compared; all else is taken to differ, and so is assigned.
unfoldable same_blocks : List String → List String → Bool
same_blocks [] [] = true
same_blocks (a ∷ x) (b ∷ y) = a == b && same_blocks x y
same_blocks _ _ = false

same_blocks-equal : (x y : List String) → same_blocks x y ≡ true → y ≡ x
unfolding same_blocks
same_blocks-equal [] [] h = refl
same_blocks-equal [] (b ∷ y) h = ground arith
same_blocks-equal (a ∷ x) [] h = ground arith
same_blocks-equal (a ∷ x) (b ∷ y) h = grind (arith, same_blocks-equal x y)

never : {A : Type 0} (x y : A) → false ≡ true → y ≡ x
never x y h = ground arith

abbrev comparison : DeepEqual
comparison = record {
  upgrades = λ x y. false;
  blocks = same_blocks;
  bindings = λ x y. false;
  api_statuses = λ x y. false;
  node_pools = λ x y. false;
  properties = λ x y. false;
  upgrades-same = never;
  blocks-same = same_blocks-equal;
  bindings-same = never;
  api_statuses-same = never;
  node_pools-same = never;
  properties-same = never;
}

abbrev old_status : CapvcdStatus
old_status =
    (new_capvcd_entity "1.3.0" "v1.27.5" true ("100.96.0.0/11" ∷ []) [] provisioning running.cluster
      pool acme).status

abbrev desired : Desired
desired = record {
  phase = "Provisioned";
  upgrade = old_section;
  kubernetes = "v1.28.0";
  uid = "rde-9";
  parent_uid = "";
  use_as_management_cluster = true;
  capi_status_yaml = "";
  pods = "100.96.0.0/11" ∷ [];
  bindings = none;
  services = "100.64.0.0/13" ∷ [];
  api_status = record { phase = "Ready"; api_endpoints = [] };
  node_pools = [];
  properties = old_status.vcd_properties;
  kube_config = some "kubeconfig";
  capvcd_version = "1.3.0";
}

status_patches-brought_example :
    patch_status (status_patches comparison desired old_status) old_status
    ≡ some (brought desired old_status)
status_patches-brought_example = status_patches-brought comparison desired old_status

abbrev old_metadata : Metadata
old_metadata = record { name = "c1"; org = "acme"; vdc = "pool"; site = "https://old" }

metadata_patches_keep_vdc_example :
    patch_metadata (metadata_patches "acme" "pool-2" "https://new" old_metadata) old_metadata
    ≡ record old_metadata { org = "acme"; site = "https://new" }
metadata_patches_keep_vdc_example =
    metadata_patches_keep_vdc "acme" "pool-2" "https://new" old_metadata
