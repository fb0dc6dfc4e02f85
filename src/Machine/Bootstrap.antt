-- ===== src/Machine/Bootstrap.antt =====
-- reconcileVMBoostrap and hasCloudInitExecutionFailedBefore.
pub mod Keeps
pub mod Laws
use cluster_api_provider_clo.Base.{String, ℕ, Bool, true, false, Option, none, some, List, [], ◌∷◌}
use cluster_api_provider_clo.Base.{is_some, is_none, ◌==◌, ◌!=◌, string_eq, nat_eq, not, ◌&&◌, ◌++◌}
use cluster_api_provider_clo.Base.{if◌then◌else◌, contains, ◌≡◌}
use cluster_api_provider_clo.Effect.{Body, Fun, ◌>>=◌, ◌>>◌, leave, pure, crash, call, run}
use cluster_api_provider_clo.Effect.{if_nil, when, exit, next, panic, ret, panicked}
use cluster_api_provider_clo.Api.{Err, message}
use cluster_api_provider_clo.Api.Machine.{OwnerMachine}
use cluster_api_provider_clo.Vcd.{Client, VApp, Vm}
use cluster_api_provider_clo.Vcd.Calls.{Trace, new_vdc_manager, get_vm_status, refresh_vm}
use cluster_api_provider_clo.Vcd.Calls.{refresh_vapp, power_on, wait_task_completion}
use cluster_api_provider_clo.Vcd.Calls.{set_vm_extra_config_key_value, get_extra_config_value}
use cluster_api_provider_clo.Vcd.Calls.{post_customization}
use cluster_api_provider_clo.Vcd.Env.{Env, Store, ask, the_cluster}
use cluster_api_provider_clo.Rde.Sets.{report_error, report_event, clear_error}
use cluster_api_provider_clo.Machine.PostCustomization.{Round, Wait, returned, sleeping}
use cluster_api_provider_clo.Machine.PostCustomization.{remove_from_slice}
use cluster_api_provider_clo.Machine.PostCustomization.{wait_for_post_customization_phase}

abbrev pub network_configuration : String
network_configuration = "guestinfo.postcustomization.networkconfiguration.status"

abbrev pub proxy_configuration : String
proxy_configuration = "guestinfo.postcustomization.proxy.setting.status"

abbrev pub metering_configuration : String
metering_configuration = "guestinfo.metering.status"

abbrev pub kubeadm_init : String
kubeadm_init = "guestinfo.postcustomization.kubeinit.status"

abbrev pub kubeadm_node_join : String
kubeadm_node_join = "guestinfo.postcustomization.kubeadm.node.join.status"

abbrev pub script_execution_status : String
script_execution_status = "guestinfo.post_customization_script_execution_status"

abbrev pub script_failure_reason : String
script_failure_reason = "guestinfo.post_customization_script_execution_failure_reason"

-- postCustPhases
abbrev pub post_cust_phases : List String
post_cust_phases = network_configuration ∷ metering_configuration ∷ proxy_configuration ∷ []

abbrev pub config_keys : List String
config_keys = "guestinfo.userdata" ∷ "guestinfo.userdata.encoding" ∷ "disk.enableUUID" ∷ []

-- What the guest answers in a phase: rounds, and a last one after more than 600 seconds. `is_zero`
-- is strconv.Atoi; `shuffle` is the order in which a map is read.
pub record Guest : Type 0 where
  pub early : Trace → List Round
  pub late : Trace → Round
  pub is_zero : String → Option Bool
  pub shuffle : Trace → List String → List String
  pub contains-shuffle :
      (t : Trace) (keys : List String) (key : String)
      → contains (shuffle t keys) key ≡ contains keys key

abbrev pub rounds_of : Guest → Trace → List Round
rounds_of guest t = guest.early t ++ record (guest.late t) { timed_out = true } ∷ []

-- The end of a wait; it never sleeps there, since the last round is late.
unfoldable pub end_of : Wait → Body Store (Option Err) (Option Err)
end_of (returned e) = pure e
end_of sleeping = crash

-- The phases to wait for.
unfoldable pub phases_of : Bool → Bool → List String
phases_of initial proxied =
    let all = post_cust_phases ++ (if initial then kubeadm_init else kubeadm_node_join) ∷ [] in
    if proxied then all else remove_from_slice proxy_configuration all

module _ (env : Env) (guest : Guest) (owner : OwnerMachine) (client : Client) where
  -- An error of the check itself comes with false.
  unfoldable pub has_cloud_init_execution_failed_before : Vm → Fun Store (Bool × Option Err)
  has_cloud_init_execution_failed_before vm = run do
    (_, err) ← ask (new_vdc_manager client.cluster_org_name client.cluster_ovdc_name) env.vdc_reply
    when (is_some err) (leave (false, env.wrapf err "failed to create a vdc manager object"))
    (status, e) ← ask (get_extra_config_value vm.id script_execution_status) env.text_reply
    when (is_some e) (leave (false, env.wrapf e "unable to get extra config value"))
    when (status == "") (leave (false, none))
    if_nil (guest.is_zero status)
        (leave (false, some (message "unable to convert script execution status to int")))
        λ zero_status. do
          when zero_status (leave (false, none))
          (_, failed) ← ask (get_extra_config_value vm.id script_failure_reason) env.text_reply
          when (is_some failed) (leave (false, env.wrapf failed "unable to get extra config value"))
          pure (true, some (message "script failed with status and reason"))

  -- waitForPostCustomizationPhase with its manager. The wait returns at the last round at the latest.
  unfoldable pub wait_for_phase : Vm → String → Fun Store (Option Err)
  wait_for_phase vm phase = run do
    (_, err) ← ask (new_vdc_manager client.cluster_org_name client.cluster_ovdc_name) env.vdc_reply
    rounds ← if is_some err then pure [] else ask (post_customization vm.id phase) (rounds_of guest)
    end_of (wait_for_post_customization_phase env guest.is_zero err rounds)

  unfoldable pub wait_for_phases : VApp → Vm → List String → Fun Store (Option Err)
  wait_for_phases vapp vm [] = run (pure none)
  wait_for_phases vapp vm (phase ∷ phases) = run do
    err ← ask (refresh_vapp vapp.id) env.error_reply
    when (is_some err) do
      report_error env "VCDMachineScriptExecutionError" "" owner.name
      leave (env.wrapf err "unable to refresh vapp")
    e ← call (wait_for_phase vm phase)
    when (is_some e) do
      report_error env "VCDMachineScriptExecutionError" "" owner.name
      leave (env.wrapf e "unable to wait for post customization phase")
    call (wait_for_phases vapp vm phases)

  -- The value of a key of the map.
  abbrev config_value : String → String → String
  config_value script key =
      if key == "guestinfo.userdata"
      then env.base64 script
      else (if key == "guestinfo.userdata.encoding" then "base64" else "1")

  unfoldable pub set_extra_config : VApp → Vm → String → List String → Fun Store (Option Err)
  set_extra_config vapp vm script [] = run (pure none)
  set_extra_config vapp vm script (key ∷ keys) = run do
    err ← ask (set_vm_extra_config_key_value vm.id key (config_value script key)) env.error_reply
    when (is_some err) do
      report_error env "VCDMachineCreationError" "" owner.name
      leave (env.wrapf err "unable to set vm extra config key for vm")
    e ← ask (refresh_vm vm.id) env.error_reply
    when (is_some e) do
      report_error env "VCDMachineCreationError" "" owner.name
      leave (env.wrapf e "unable to refresh vm")
    failed ← ask (refresh_vapp vapp.id) env.error_reply
    when (is_some failed) do
      report_error env "VCDMachineCreationError" "" owner.name
      leave (env.wrapf failed "unable to refresh vapp")
    _ ← clear_error env "VCDMachineCreationError" "" owner.name
    call (set_extra_config vapp vm script keys)

  -- The part for a VM that is not powered on.
  unfoldable pub power_on_vm : VApp → Vm → String → Fun Store (Option Err)
  power_on_vm vapp vm script = run do
    keys ← λ s. next (guest.shuffle s.trace config_keys) s
    configured ← call (set_extra_config vapp vm script keys)
    when (is_some configured) (leave configured)
    err ← ask (power_on vm.id) env.error_reply
    when (is_some err) do
      report_error env "VCDMachineCreationError" "" owner.name
      leave (env.wrapf err "unable to power on VM")
    e ← ask (wait_task_completion vm.id) env.error_reply
    when (is_some e) do
      report_error env "VCDMachineCreationError" "" owner.name
      leave (env.wrapf e "error waiting for VM power-on task completion")
    failed ← ask (refresh_vapp vapp.id) env.error_reply
    when (is_some failed) do
      report_error env "VCDMachineCreationError" "" owner.name
      leave (env.wrapf failed "unable to refresh vapp after VM power-on")
    pure none

  -- The part after the phases.
  unfoldable pub finish_bootstrap : VApp → Vm → Bool → Fun Store (Option Err)
  finish_bootstrap vapp vm skip_rde_event_updates = run do
    _ ← clear_error env "VCDMachineScriptExecutionError" "" ""
    report_event env "InfraVmBootstrapped" "" owner.name skip_rde_event_updates
    err ← ask (refresh_vm vm.id) env.error_reply
    when (is_some err) do
      report_error env "VCDMachineCreationError" "" owner.name
      leave (env.wrapf err "unable to refresh vm")
    e ← ask (refresh_vapp vapp.id) env.error_reply
    when (is_some e) do
      report_error env "VCDMachineCreationError" "" owner.name
      leave (env.wrapf e "unable to refresh vapp")
    _ ← clear_error env "VCDMachineCreationError" "" owner.name
    pure none

  -- The error of the check for an earlier failure is wrapped where the check says true.
  unfoldable pub bootstrap_vm : VApp → Vm → String → Bool → Bool → Fun Store (Option Err)
  bootstrap_vm vapp vm script initial skip_rde_event_updates = run do
    c ← the_cluster
    (status, err) ← ask (get_vm_status vm.id) env.text_reply
    when (is_some err) do
      report_error env "VCDMachineCreationError" "" owner.name
      leave (env.wrapf err "failed to get status of vm")
    _ ← clear_error env "VCDMachineCreationError" "" ""
    when (status != "POWERED_ON")
        do powered ← call (power_on_vm vapp vm script); when (is_some powered) (leave powered)
    (failed_before, reason) ← call (has_cloud_init_execution_failed_before vm)
    when failed_before do
      report_error env "VCDMachineScriptExecutionError" "" owner.name
      leave (env.wrapf reason "machine is probably in unreconciliable state")
    report_event env "InfraVmPoweredOn" "" owner.name skip_rde_event_updates
    _ ← clear_error env "VCDMachineCreationError" "" owner.name
    let proxy = c.spec.proxy_config_spec
    let proxied = not (proxy.https_proxy == "" && proxy.http_proxy == "")
    waited ← call (wait_for_phases vapp vm (phases_of initial proxied))
    when (is_some waited) (leave waited)
    call (finish_bootstrap vapp vm skip_rde_event_updates)

  unfoldable pub reconcile_vm_bootstrap :
      Option VApp → Option Vm → String → Bool → Bool → Fun Store (Option Err)
  reconcile_vm_bootstrap vapp vm script initial skip_rde_event_updates = run do
    if_nil vapp (leave (some (message "reconcileVMBootstrap is called with a nil VAPP"))) λ found.
        if_nil vm crash
          λ there. call (bootstrap_vm found there script initial skip_rde_event_updates)
