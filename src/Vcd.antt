-- ===== src/Vcd.antt =====
-- What the controllers call and this repository does not implement: the Kubernetes API server,
-- VMware Cloud Director through vcdsdk, govcd and the swagger client, and the helper libraries.
-- A call is an entry of the trace, newest first, and the answer is a function of the trace that
-- ends with it: an answer depends on the arguments and on all that was called before.
pub mod Calls
pub mod Env
pub mod History
pub mod Objects
use cluster_api_provider_clo.Base.{String, ℕ, Bool, List, Option}
use cluster_api_provider_clo.Json.{Fields}

-- types.Org and types.Vdc
pub record Org : Type 0 where
  pub id : String
  pub name : String

pub record Vdc : Type 0 where
  pub id : String
  pub name : String

-- vcdsdk.Client. A nil VDC, or one with a nil inner object, is `none`.
pub record Client : Type 0 where
  pub cluster_org_name : String
  pub cluster_ovdc_name : String
  pub vdc : Option Vdc

-- swagger.EntityReference
pub record EntityReference : Type 0 where
  pub id : String
  pub name : String

-- swagger.DefinedEntity
pub record DefinedEntity : Type 0 where
  pub id : String
  pub name : String
  pub entity_type : String
  pub external_id : String
  pub state : String
  pub entity : Fields

-- govcd.VApp; `children` counts the VMs of a children section that is not nil
pub record VApp : Type 0 where
  pub id : String
  pub name : String
  pub children : Option ℕ

-- types.DiskSettings; `disk` names an attached named disk
pub record DiskSettings : Type 0 where
  pub size_mb : ℕ
  pub disk : Option String

-- types.NetworkConnection; `details` stands for the fields that nothing here reads or writes
pub record NetworkConnection : Type 0 where
  pub network : String
  pub index : ℕ
  pub ip_address : String
  pub needs_customization : Bool
  pub is_connected : Bool
  pub allocation_mode : String
  pub adapter_type : String
  pub details : String

-- types.NetworkConnectionSection
pub record NetworkSection : Type 0 where
  pub primary : ℕ
  pub connections : List NetworkConnection

-- govcd.VM, whose `VM` is not nil; a section that is nil is `none`
pub record Vm : Type 0 where
  pub id : String
  pub name : String
  pub network_section : Option NetworkSection
  pub disk_settings : Option (List DiskSettings)

-- corev1.Secret, its data by key
pub record Secret : Type 0 where
  pub entry : String → Option String

-- semver.Version
pub record Version : Type 0 where
  pub major : ℕ
  pub minor : ℕ
  pub patch : ℕ
  pub pre : List String
