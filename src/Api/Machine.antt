-- ===== src/Api/Machine.antt =====
-- api/v1beta3/vcdmachine_types.go
use cluster_api_provider_clo.Base.{String, ℕ, Bool, List, Option}
use cluster_api_provider_clo.Api.{Condition, ObjectMeta}

-- clusterv1.MachineAddress
pub record MachineAddress : Type 0 where
  pub kind : String
  pub address : String

-- `disk_size` is the quantity in bytes.
pub record VcdMachineSpec : Type 0 where
  pub provider_id : Option String
  pub catalog : String
  pub template : String
  pub sizing_policy : String
  pub placement_policy : String
  pub storage_profile : String
  pub disk_size : ℕ
  pub bootstrapped : Bool
  pub enable_nvidia_gpu : Bool
  pub extra_ovdc_networks : List String
  pub vm_naming_template : String

pub record VcdMachineStatus : Type 0 where
  pub provider_id : Option String
  pub ready : Bool
  pub addresses : List MachineAddress
  pub template : String
  pub sizing_policy : String
  pub placement_policy : String
  pub nvidia_gpu_enabled : Bool
  pub disk_size : ℕ
  pub conditions : List Condition

pub record VcdMachine : Type 0 where
  pub meta : ObjectMeta
  pub spec : VcdMachineSpec
  pub status : VcdMachineStatus

-- clusterv1.Machine, as far as the reconciler reads it
pub record OwnerMachine : Type 0 where
  pub name : String
  pub namespace : String
  pub control_plane : Bool  -- util.IsControlPlaneMachine
  pub bootstrap_ready : Bool
  pub data_secret_name : Option String
  pub conditions : List Condition
