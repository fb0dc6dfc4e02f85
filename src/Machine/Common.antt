-- ===== src/Machine/Common.antt =====
-- Constants of the machine controller, patchVCDMachine, getVMName, getVMIDFromProviderID and
-- checkIfMachineNodeIsUnhealthy.
pub mod ProviderId
use cluster_api_provider_clo.Base.{String, Bool, Option, none, some, List, [], ◌∷◌}
use cluster_api_provider_clo.Base.{
  ◌==◌, string_eq, not, ◌&&◌, ◌||◌, if◌then◌else◌, is_some, starts_with,
}
use cluster_api_provider_clo.Effect.{Body, Fun, ◌>>=◌, ◌>>◌, run}
use cluster_api_provider_clo.Api.{Err, Condition}
use cluster_api_provider_clo.Api.Machine.{VcdMachine, OwnerMachine}
use cluster_api_provider_clo.Vcd.Calls.{patch_machine}
use cluster_api_provider_clo.Vcd.Env.{Env, Store, ask, the_machine, update_machine}

abbrev pub machine_finalizer : String
machine_finalizer = "vcdmachine.infrastructure.cluster.x-k8s.io"

abbrev pub vcd_provider_id : String
vcd_provider_id = "vmware-cloud-director"

abbrev pub container_provisioned_condition : String
container_provisioned_condition = "ContainerProvisioned"

abbrev pub bootstrap_exec_succeeded_condition : String
bootstrap_exec_succeeded_condition = "BootstrapExecSucceeded"

abbrev pub machine_conditions : List Condition → VcdMachine → VcdMachine
machine_conditions conditions m = record m {
  status = record (m.status) { conditions = conditions };
}

abbrev pub machine_finalizers : List String → VcdMachine → VcdMachine
machine_finalizers finalizers m = record m { meta = record (m.meta) { finalizers = finalizers } }

-- strings.TrimPrefix
unfoldable pub trim_prefix : String → String → String
trim_prefix words String.[] = words
trim_prefix String.[] prefix = ""
trim_prefix (String.◌∷◌ c words) (String.◌∷◌ d prefix) =
    let rest = trim_prefix words prefix in
    if starts_with (String.◌∷◌ c words) (String.◌∷◌ d prefix) then rest else String.◌∷◌ c words

unfoldable pub vm_id_from_provider_id : Option String → String
vm_id_from_provider_id none = ""
vm_id_from_provider_id (some id) = trim_prefix id "vmware-cloud-director://"

module _ (env : Env) where
  -- conditions.MarkFalse and conditions.MarkTrue on the machine
  abbrev pub mark_machine_false : {R : Type 0} → String → String → Body Store R (Unit {0})
  mark_machine_false kind reason =
      update_machine
        (λ m. machine_conditions (env.mark_false m.status.conditions kind reason "Info") m)

  abbrev pub mark_machine_true : {R : Type 0} → String → Body Store R (Unit {0})
  mark_machine_true kind =
      update_machine (λ m. machine_conditions (env.mark_true m.status.conditions kind) m)

  unfoldable pub patch_vcd_machine : Fun Store (Option Err)
  patch_vcd_machine = run do
    m ← the_machine
    let kinds = container_provisioned_condition ∷ bootstrap_exec_succeeded_condition ∷ []
    let summary = env.set_summary m.status.conditions kinds (not m.meta.deleting)
    update_machine (machine_conditions summary)
    ask (patch_machine (machine_conditions summary m)) env.error_reply

  unfoldable pub vm_name_of : OwnerMachine → VcdMachine → String × Option Err
  vm_name_of owner m =
      let template = m.spec.vm_naming_template in
      let parsed = env.parse_template template in
      let executed = env.execute_template template owner m in
      if template == ""
      then (owner.name, none)
      else (if is_some parsed
          then ("", env.wrapf parsed "Error while parsing VmNamingTemplate of VCDMachine")
          else (if is_some executed.1
              then (
                "",
                env.wrapf executed.1
                    "Error while generating VM Name by using VmNamingTemplate of VCDMachine",
              )
              else (executed.0, none)))

  unfoldable pub check_if_machine_node_is_unhealthy : OwnerMachine → Bool
  check_if_machine_node_is_unhealthy owner =
      let reason = env.get_reason owner.conditions "NodeHealthy" in
      (env.is_unknown owner.conditions "NodeHealthy" || env.is_false owner.conditions "NodeHealthy")
      && (reason == "NodeNotFound" || reason == "NodeConditionsFailed")
