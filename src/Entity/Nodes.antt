-- ===== src/Entity/Nodes.antt =====
-- getAllMachinesInKCP, getAllMachinesInMachineDeployment, the lists of control planes and machine
-- deployments, getNodePoolList and hasClusterReconciledToDesiredK8Version.
pub mod Laws
use cluster_api_provider_clo.Base.{String, ℕ, Bool, true, false, Option, none, some, List, [], ◌∷◌}
use cluster_api_provider_clo.Base.{
  is_some, ◌==◌, ◌!=◌, string_eq, nat_eq, ◌&&◌, ◌||◌, ◌++◌, ◌/◌, ◌%◌,
}
use cluster_api_provider_clo.Base.{if◌then◌else◌}
use cluster_api_provider_clo.Effect.{Body, Fun, ◌>>=◌, ◌>>◌, leave, pure, call, run, when}
use cluster_api_provider_clo.Api.{Err, message}
use cluster_api_provider_clo.Rde.Types.{NodePool}
use cluster_api_provider_clo.Vcd.Calls.{Trace, list_control_planes, list_machine_deployments}
use cluster_api_provider_clo.Vcd.Calls.{list_machines, get_machine_template}
use cluster_api_provider_clo.Vcd.Env.{Env, Store, ask}

-- metav1.OwnerReference
pub record OwnerReference : Type 0 where
  pub kind : String
  pub name : String

-- clusterv1.Machine in a list
pub record ListedMachine : Type 0 where
  pub name : String
  pub phase : String
  pub version : Option String
  pub owners : List OwnerReference

-- kcpv1.KubeadmControlPlane and clusterv1.MachineDeployment, of which the same is read; only a
-- control plane has a version. `template` names the VCDMachineTemplate.
pub record NodeOwner : Type 0 where
  pub name : String
  pub version : String
  pub replicas : Option ℕ
  pub ready_replicas : ℕ
  pub template : String

-- The spec of a VCDMachineTemplate.
pub record TemplateSpec : Type 0 where
  pub sizing_policy : String
  pub placement_policy : String
  pub enable_nvidia_gpu : Bool
  pub storage_profile : String
  pub disk_size : ℕ

-- The answers of the API server to lists and to the read of a template.
pub record Listing : Type 0 where
  pub owners : Trace → List NodeOwner × Option Err
  pub machines : Trace → List ListedMachine × Option Err
  pub template : Trace → TemplateSpec × Option Err

-- The machine has the control plane among its owners.
unfoldable pub is_owned : String → List OwnerReference → Bool
is_owned kcp [] = false
is_owned kcp (ref ∷ refs) =
    (ref.kind == "KubeadmControlPlane" && ref.name == kcp) || is_owned kcp refs

unfoldable pub machines_of : String → List ListedMachine → List ListedMachine
machines_of kcp [] = []
machines_of kcp (m ∷ rest) =
    let others = machines_of kcp rest in if is_owned kcp m.owners then m ∷ others else others

-- The map from the names of machines to their phases.
unfoldable pub set_phase : String → String → List (String × String) → List (String × String)
set_phase name phase [] = (name, phase) ∷ []
set_phase name phase (entry ∷ rest) =
    let others = set_phase name phase rest in
    if entry.0 == name then (name, phase) ∷ rest else entry ∷ others

unfoldable pub node_status_of : List ListedMachine → List (String × String) → List (String × String)
node_status_of [] status = status
node_status_of (m ∷ rest) status = node_status_of rest (set_phase m.name m.phase status)

-- int32 of a number of bytes in MB
unfoldable pub int32_mb : ℕ → ℕ
int32_mb bytes = (bytes / 1048576) % 4294967296

unfoldable pub node_pool_of : NodeOwner → TemplateSpec → List ListedMachine → NodePool
node_pool_of owner spec machines = record {
  name = owner.name;
  sizing_policy = spec.sizing_policy;
  placement_policy = spec.placement_policy;
  disk_size_mb = int32_mb spec.disk_size;
  nvidia_gpu_enabled = spec.enable_nvidia_gpu;
  storage_profile = spec.storage_profile;
  desired_replicas = elim (owner.replicas) [ none ↦ 0 | some n ↦ n ];
  available_replicas = owner.ready_replicas;
  node_status = node_status_of machines [];
}

-- The version differs from the expected one.
unfoldable pub is_behind : String → ListedMachine → Bool
is_behind expected m = elim (m.version) [ none ↦ false | some v ↦ v != expected ]

unfoldable pub any_behind : String → List ListedMachine → Bool
any_behind expected [] = false
any_behind expected (m ∷ rest) = is_behind expected m || any_behind expected rest

module _ (env : Env) (listing : Listing) where
  unfoldable pub all_kubeadm_control_planes : Fun Store (List NodeOwner × Option Err)
  all_kubeadm_control_planes = run do
    (kcps, err) ← ask list_control_planes listing.owners
    when (is_some err) (leave ([], env.wrapf err "error getting all kubeadm control planes"))
    pure (kcps, none)

  unfoldable pub all_machine_deployments : Fun Store (List NodeOwner × Option Err)
  all_machine_deployments = run do
    (mds, err) ← ask list_machine_deployments listing.owners
    when (is_some err) (leave ([], env.wrapf err "error getting machine deployments"))
    pure (mds, none)

  unfoldable pub all_machines_in_kcp :
      String → NodeOwner → Fun Store (List ListedMachine × Option Err)
  all_machines_in_kcp cluster_name kcp = run do
    (machines, err) ← ask (list_machines cluster_name) listing.machines
    when (is_some err) (leave ([], env.wrapf err "error getting machine list associated with KCP"))
    pure (machines_of kcp.name machines, none)

  unfoldable pub all_machines_in_machine_deployment :
      NodeOwner → Fun Store (List ListedMachine × Option Err)
  all_machines_in_machine_deployment md = run do
    (machines, err) ← ask (list_machines md.name) listing.machines
    when (is_some err) (leave ([], env.wrapf err "error getting machine list"))
    pure (machines, none)

  -- The machines of a control plane, or of a machine deployment.
  unfoldable pub machines_for :
      Bool → String → NodeOwner → Fun Store (List ListedMachine × Option Err)
  machines_for is_kcp cluster_name owner =
      if is_kcp
      then all_machines_in_kcp cluster_name owner
      else all_machines_in_machine_deployment owner

  -- The two loops of getNodePoolList, which differ in the machines that they list.
  unfoldable pub node_pools :
      Bool → String → List NodeOwner → Fun Store (List NodePool × Option Err)
  node_pools is_kcp cluster_name [] = run (pure ([], none))
  node_pools is_kcp cluster_name (owner ∷ owners) = run do
    (spec, err) ← ask (get_machine_template owner.template) listing.template
    when (is_some err) (leave ([], some (message "failed to get VCDMachineTemplate")))
    (machines, e) ← call (machines_for is_kcp cluster_name owner)
    when (is_some e) (leave ([], some (message "failed to get Machines")))
    (pools, failed) ← call (node_pools is_kcp cluster_name owners)
    when (is_some failed) (leave ([], failed))
    pure (node_pool_of owner spec machines ∷ pools, none)

  unfoldable pub node_pool_list : String → Fun Store (List NodePool × Option Err)
  node_pool_list cluster_name = run do
    (mds, err) ← call all_machine_deployments
    when (is_some err) (leave ([], some (message "failed to query all machine deployments")))
    (workers, e) ← call (node_pools false cluster_name mds)
    when (is_some e) (leave ([], e))
    (kcps, failed) ← call all_kubeadm_control_planes
    when (is_some failed)
        (leave ([], some (message "failed to query all KubeadmControlPlane objects")))
    (planes, last) ← call (node_pools true cluster_name kcps)
    when (is_some last) (leave ([], last))
    pure (workers ++ planes, none)

  -- The two loops of hasClusterReconciledToDesiredK8Version: whether a machine is behind.
  unfoldable pub some_behind :
      Bool → String → String → List NodeOwner → Fun Store (Bool × Option Err)
  some_behind is_kcp cluster_name expected [] = run (pure (false, none))
  some_behind is_kcp cluster_name expected (owner ∷ owners) = run do
    (machines, err) ← call (machines_for is_kcp cluster_name owner)
    when (is_some err) (leave (false, some (message "failed to fetch machines")))
    when (any_behind expected machines) (leave (true, none))
    call (some_behind is_kcp cluster_name expected owners)

  unfoldable pub has_cluster_reconciled_to_desired_k8_version :
      String → List NodeOwner → List NodeOwner → String → Fun Store (Bool × Option Err)
  has_cluster_reconciled_to_desired_k8_version cluster_name kcps mds expected = run do
    (behind, err) ← call (some_behind true cluster_name expected kcps)
    when (is_some err) (leave (false, err))
    when behind (leave (false, none))
    (md_behind, e) ← call (some_behind false cluster_name expected mds)
    when (is_some e) (leave (false, e))
    when md_behind (leave (false, none))
    pure (true, none)
