-- ===== src/Rde/Types.antt =====
-- pkg/vcdtypes/rde_type_1_1_0: the content of an RDE as Go structs.
use cluster_api_provider_clo.Base.{String, ℕ, Bool, List, Option}
use cluster_api_provider_clo.Json.{Fields}

pub record Metadata : Type 0 where
  pub name : String
  pub org : String
  pub vdc : String
  pub site : String

pub record OvdcEntry : Type 0 where
  pub name : String
  pub id : String
  pub ovdc_network : String

pub record OrgEntry : Type 0 where
  pub name : String
  pub id : String

pub record VcdProperties : Type 0 where
  pub site : String
  pub ovdc : List OvdcEntry
  pub org : List OrgEntry

pub record ApiEndpoints : Type 0 where
  pub host : String
  pub port : ℕ

pub record ClusterApiStatus : Type 0 where
  pub phase : String
  pub api_endpoints : List ApiEndpoints

pub record NodePool : Type 0 where
  pub name : String
  pub sizing_policy : String
  pub placement_policy : String
  pub disk_size_mb : ℕ
  pub nvidia_gpu_enabled : Bool
  pub storage_profile : String
  pub desired_replicas : ℕ
  pub available_replicas : ℕ
  pub node_status : List (String × String)

pub record ClusterResourceSetBinding : Type 0 where
  pub cluster_resource_set_name : String
  pub kind : String
  pub name : String
  pub applied : Bool
  pub last_applied_time : String

pub record K8sInfo : Type 0 where
  pub tkg_version : String
  pub k8s_version : String

pub record Upgrade : Type 0 where
  pub current : Option K8sInfo
  pub previous : Option K8sInfo
  pub ready : Bool

-- `K8sNetwork.Pods` and `K8sNetwork.Services` are lists of CIDR blocks, `Private` holds one field.
-- `others` stands for the sets of errors, events and resources, which vcdsdk maintains.
pub record CapvcdStatus : Type 0 where
  pub phase : String
  pub kubernetes : String
  pub uid : String
  pub cluster_api_status : ClusterApiStatus
  pub node_pool : List NodePool
  pub capvcd_version : String
  pub use_as_management_cluster : Bool
  pub pods : List String
  pub services : List String
  pub parent_uid : String
  pub vcd_properties : VcdProperties
  pub kube_config : String
  pub capi_status_yaml : String
  pub cluster_resource_set_bindings : List ClusterResourceSetBinding
  pub created_by_version : String
  pub upgrade : Upgrade
  pub others : Fields

pub record CapvcdEntity : Type 0 where
  pub metadata : Metadata
  pub capi_yaml : String  -- Spec.CapiYaml
  pub api_version : String
  pub status : CapvcdStatus
  pub kind : String

-- One entry of a patch map of PatchRDE, by the path of the field that it assigns.
pub data MetadataPatch : Type 0 where
  org : String → MetadataPatch
  vdc : String → MetadataPatch
  site : String → MetadataPatch

pub data SpecPatch : Type 0 where
  capi_yaml : String → SpecPatch

pub data StatusPatch : Type 0 where
  phase : String → StatusPatch
  kubernetes : String → StatusPatch
  uid : String → StatusPatch
  cluster_api_status : ClusterApiStatus → StatusPatch
  node_pool : List NodePool → StatusPatch
  capvcd_version : String → StatusPatch
  use_as_management_cluster : Bool → StatusPatch
  pods : List String → StatusPatch
  services : List String → StatusPatch
  parent_uid : String → StatusPatch
  vcd_properties : VcdProperties → StatusPatch
  kube_config : String → StatusPatch
  capi_status_yaml : String → StatusPatch
  cluster_resource_set_bindings : List ClusterResourceSetBinding → StatusPatch
  created_by_version : String → StatusPatch
  upgrade : Upgrade → StatusPatch
  no_such_field : String → StatusPatch  -- a key that names no field of the struct
