-- ===== src/Tests/Bootstraps.antt =====
-- The theorems on scripts, bootstraps and whole reconciles of a machine at work.
use native.Mathlib.Decide.{ℕ_discrete}
use cluster_api_provider_clo.Machine.Vm.{configure_vm, create_vm, vm_address}
use cluster_api_provider_clo.Machine.Networks.{
  all_have, at_places, connection_at, contains_the_same_elements, desired_connections,
  ensure_network_is_attached_to_vapp, has_connection, network_connection, number_from, place_of,
  primary_network, reconcile_vm_networks, same_connection, same_flag, set_index,
}
use cluster_api_provider_clo.Machine.Disk.{
  disk_size_mb, float64, nearest, resize_disk, resized, round_from,
}
use cluster_api_provider_clo.Cluster.Common.{text_contains}
use cluster_api_provider_clo.Machine.CloudInit.{
  format_lines, merge_jinja_to_cloud_init_script, run_commands, trim_left, trim_right,
  with_run_commands, write_keys,
}
use cluster_api_provider_clo.Machine.Common.{patch_vcd_machine, trim_prefix, vm_id_from_provider_id}
use cluster_api_provider_clo.Machine.Normal.{boot_machine, bootstrap_machine, provisioned}
use cluster_api_provider_clo.Machine.Pool.{reconcile_lb_pool}
use cluster_api_provider_clo.Machine.PostCustomization.{check_script}
use cluster_api_provider_clo.Machine.Script.{
  bootstrap_data, escape_slashes, reconcile_cloud_init_script, script_input, tkg_version_of,
}
use cluster_api_provider_clo.Ovdc.Client.{check_if_ovdc_name_change, org_by_name, ovdc_by_id}
use cluster_api_provider_clo.Ovdc.Resources.{
  id_of_name, remove_first, remove_vcd_resource_from_vcd_cluster, upsert,
}
use cluster_api_provider_clo.Machine.CloudInit.{append_items, join}
use cluster_api_provider_clo.Machine.Bootstrap.{
  bootstrap_vm, end_of, finish_bootstrap, has_cloud_init_execution_failed_before, phases_of,
  power_on_vm, set_extra_config, wait_for_phases,
}
use cluster_api_provider_clo.Machine.PostCustomization.{
  last_of, remove_from_slice, str_in_slice, wait, wait_for_post_customization_phase,
}
use cluster_api_provider_clo.Ovdc.Client.{
  create_vcd_client_from_secrets, ovdc_by_name, update_client_with_vdc,
  user_credentials_for_cluster,
}
use cluster_api_provider_clo.Ovdc.Resources.{update_vdc_resource_to_vcd_cluster}
use cluster_api_provider_clo.Machine.Normal.{
  mark_bootstrapping, provision_machine, provision_vm, reconcile_machine_with,
}
use cluster_api_provider_clo.Machine.Common.{check_if_machine_node_is_unhealthy, vm_name_of}
use cluster_api_provider_clo.Machine.Vm.{reconcile_vapp_creation, reconcile_vm, record_vapp}
use cluster_api_provider_clo.Base.{true, false, Option, none, some, [], ◌∷◌}
use cluster_api_provider_clo.Base.{◌≡◌, ◌⊎◌, refl, string_eq, nat_eq}
use cluster_api_provider_clo.Effect.{Result, ret, Returns}
use cluster_api_provider_clo.Api.{Err, message, Reply}
use cluster_api_provider_clo.Json.{nil, item, list, text, Fields, end, field, get, put}
use cluster_api_provider_clo.Vcd.Calls
use cluster_api_provider_clo.Vcd.Calls.{Trace}
use cluster_api_provider_clo.Vcd.Env.{Env, Store}
use cluster_api_provider_clo.Vcd.History.{happened}
use cluster_api_provider_clo.Cluster.Common.{done}
use cluster_api_provider_clo.Machine.Common.{machine_finalizer}
use cluster_api_provider_clo.Machine.PostCustomization.{Round}
use cluster_api_provider_clo.Machine.Bootstrap.{Guest, wait_for_phase, reconcile_vm_bootstrap}
use cluster_api_provider_clo.Machine.Bootstrap.{network_configuration, kubeadm_node_join}
use cluster_api_provider_clo.Machine.Bootstrap.Laws.{wait_for_phase-Returns, powered}
use cluster_api_provider_clo.Machine.Bootstrap.Laws.{
  reconcile_vm_bootstrap-booted, is_awaited, has_proxy,
}
use cluster_api_provider_clo.Machine.Bootstrap.Laws.{phase_settled}
use cluster_api_provider_clo.Machine.CloudInit.{Yaml, merge_template, merge_remaining}
use cluster_api_provider_clo.Machine.CloudInit.Laws.{merged_value, unique_keys, merge-merged_value}
use cluster_api_provider_clo.Machine.Normal.{reconcile_machine_normal}
use cluster_api_provider_clo.Machine.Normal.Laws.{ReadyStep, reconcile_machine_normal-ReadyStep}
use cluster_api_provider_clo.Machine.Reconcile.{reconcile_with_cluster, reconcile_machine}
use cluster_api_provider_clo.Machine.Reconcile.Laws.{Abandoned, no_cloud_call}
use cluster_api_provider_clo.Machine.Reconcile.Laws.{reconcile_with_cluster-unread}
use cluster_api_provider_clo.Machine.Reconcile.Laws.{reconcile_machine-adds_finalizer}
use cluster_api_provider_clo.Tests.{running, objects, worker, client, has, provisioning}
use cluster_api_provider_clo.Tests.Machines.{one_vm, vm_1, vapp_1, coming, going, machine_with}

-- A script with one command and a user, and a template with commands and users of its own.
abbrev jinja : Fields
jinja =
    field "runcmd" (list (item (text "kubeadm join") nil))
      (field "users" (list (item (text "root") nil)) end)

abbrev template : Fields
template =
    field "runcmd" (list (item (text "echo") nil))
      (field "users" (list (item (text "capv") nil)) end)

abbrev joined_users : Fields
joined_users =
    field "runcmd" (list (item (text "echo") nil))
      (field "users" (list (item (text "capv") (item (text "root") nil))) end)

merge_run : merge_template jinja template end running ≡ ret (joined_users, none) running
unfolding merge_template string_eq get join put append_items
merge_run = refl

template_unique : unique_keys template ≡ true
unfolding unique_keys get string_eq
template_unique = refl

jinja_unique : unique_keys jinja ≡ true
unfolding unique_keys get string_eq
jinja_unique = refl

merge-merged_value_example :
    get "users" (merge_remaining template jinja joined_users)
    ≡ merged_value "users" (get "users" template) (get "users" jinja)
merge-merged_value_example =
    merge-merged_value "users" jinja template joined_users running running merge_run template_unique
      jinja_unique

-- Every phase succeeds in its first round.
abbrev success : Round
success = record {
  refresh_error = none;
  status = "successful";
  status_error = none;
  script_status = "";
  script_error = none;
  reason_error = none;
  timed_out = false;
}

abbrev guest : Guest
guest = record {
  early = λ t. success ∷ [];
  late = λ t. success;
  is_zero = λ words. some true;
  shuffle = λ t keys. keys;
  contains-shuffle = λ t keys key. refl;
}

abbrev yaml : Yaml
yaml = record {
  decode = λ words. some jinja;
  encode = λ key v. some "x";
  render = λ input. ("y", none);
}

-- A Cloud Director whose secrets have a bootstrap script.
abbrev scripted : Env
scripted = record one_vm { secret_reply = λ t. (record { entry = λ key. some "script" }, none) }

wait_for_phase-Returns_example :
    Returns
      (λ r t. t.machine ≡ coming.machine)
      (wait_for_phase one_vm guest worker client vm_1 network_configuration coming)
wait_for_phase-Returns_example =
    wait_for_phase-Returns one_vm guest worker client vm_1 network_configuration coming

abbrev booted : Result Store (Option Err)
booted =
    reconcile_vm_bootstrap one_vm guest worker client (some vapp_1) (some vm_1) "s" false false
      coming

booted_run : booted ≡ ret none (objects booted)
unfolding reconcile_vm_bootstrap bootstrap_vm string_eq power_on_vm set_extra_config
    has_cloud_init_execution_failed_before wait_for_phases phases_of remove_from_slice
    wait_for_phase end_of wait_for_post_customization_phase wait str_in_slice last_of
    finish_bootstrap
booted_run = refl

join_phase :
    is_awaited one_vm guest worker client false
      (has_proxy one_vm guest worker client coming)
      kubeadm_node_join
    ≡ true
unfolding string_eq
join_phase = refl

reconcile_vm_bootstrap-booted_example :
    (happened (powered one_vm "vm-1") (objects booted).trace ≡ true)
    × (happened
          (phase_settled one_vm guest worker client "vm-1" kubeadm_node_join)
          (objects booted).trace
        ≡ true)
reconcile_vm_bootstrap-booted_example =
    reconcile_vm_bootstrap-booted one_vm guest worker client (some vapp_1) (some vm_1) "s" false
      false coming (objects booted) booted_run kubeadm_node_join join_phase

abbrev made_ready : Result Store Reply
made_ready = reconcile_machine_normal scripted yaml guest worker provisioning coming

made_ready_run : made_ready ≡ ret (done, none) (objects made_ready)
unfolding reconcile_machine_normal create_vcd_client_from_secrets user_credentials_for_cluster
    update_client_with_vdc ovdc_by_name update_vdc_resource_to_vcd_cluster string_eq
    reconcile_machine_with check_if_machine_node_is_unhealthy mark_bootstrapping provision_machine
    reconcile_vapp_creation record_vapp provision_vm vm_name_of reconcile_vm configure_vm
    reconcile_vm_networks desired_connections ensure_network_is_attached_to_vapp
    contains_the_same_elements nat_eq at_places network_connection place_of all_have has_connection
    same_connection same_flag vm_address primary_network connection_at resize_disk text_contains get
    put bootstrap_vm end_of finish_bootstrap has_cloud_init_execution_failed_before phases_of
    power_on_vm reconcile_vm_bootstrap set_extra_config wait_for_phase wait_for_phases append_items
    format_lines join merge_jinja_to_cloud_init_script merge_remaining merge_template run_commands
    trim_left trim_right with_run_commands write_keys patch_vcd_machine trim_prefix
    vm_id_from_provider_id disk_size_mb float64 nearest resized round_from number_from set_index
    boot_machine bootstrap_machine provisioned reconcile_lb_pool check_script last_of
    remove_from_slice str_in_slice wait wait_for_post_customization_phase bootstrap_data
    escape_slashes reconcile_cloud_init_script script_input tkg_version_of create_vm
    check_if_ovdc_name_change org_by_name ovdc_by_id id_of_name remove_first
    remove_vcd_resource_from_vcd_cluster upsert ℕ_discrete
made_ready_run = refl

reconcile_machine_normal-ReadyStep_example :
    ReadyStep scripted yaml guest worker provisioning coming (done, none) (objects made_ready)
reconcile_machine_normal-ReadyStep_example =
    reconcile_machine_normal-ReadyStep scripted yaml guest worker provisioning coming
      (objects made_ready) (done, none) made_ready_run

-- The machine is ready at the end of that run.
made_ready_test : (objects made_ready).machine.status.ready ≡ true
unfolding reconcile_machine_normal create_vcd_client_from_secrets user_credentials_for_cluster
    update_client_with_vdc ovdc_by_name update_vdc_resource_to_vcd_cluster string_eq
    reconcile_machine_with check_if_machine_node_is_unhealthy mark_bootstrapping provision_machine
    reconcile_vapp_creation record_vapp provision_vm vm_name_of reconcile_vm configure_vm
    reconcile_vm_networks desired_connections ensure_network_is_attached_to_vapp
    contains_the_same_elements nat_eq at_places network_connection place_of all_have has_connection
    same_connection same_flag vm_address primary_network connection_at resize_disk text_contains get
    put bootstrap_vm end_of finish_bootstrap has_cloud_init_execution_failed_before phases_of
    power_on_vm reconcile_vm_bootstrap set_extra_config wait_for_phase wait_for_phases append_items
    format_lines join merge_jinja_to_cloud_init_script merge_remaining merge_template run_commands
    trim_left trim_right with_run_commands write_keys patch_vcd_machine trim_prefix
    vm_id_from_provider_id disk_size_mb float64 nearest resized round_from number_from set_index
    boot_machine bootstrap_machine provisioned reconcile_lb_pool check_script last_of
    remove_from_slice str_in_slice wait wait_for_post_customization_phase bootstrap_data
    escape_slashes reconcile_cloud_init_script script_input tkg_version_of create_vm
    check_if_ovdc_name_change org_by_name ovdc_by_id id_of_name remove_first
    remove_vcd_resource_from_vcd_cluster upsert ℕ_discrete
made_ready_test = refl

-- A Kubernetes in which no VCDCluster can be read.
abbrev cluster_error : Trace → Option Err
cluster_error (Calls.get_vcd_cluster name ∷ t) = some (message "timeout")
cluster_error _ = none

abbrev no_cluster : Env
no_cluster = record one_vm { error_reply = cluster_error }

no_call_yet : no_cloud_call [] ≡ true
unfolding no_cloud_call
no_call_yet = refl

reconcile_with_cluster-unread_example :
    Returns
      (λ r t.
        (no_cloud_call t.trace ≡ true) × Abandoned no_cluster yaml guest going.machine r t.machine)
      (reconcile_with_cluster no_cluster yaml guest worker provisioning going)
reconcile_with_cluster-unread_example =
    reconcile_with_cluster-unread no_cluster yaml guest worker provisioning going no_call_yet refl

abbrev bare : Store
bare = record coming { machine = machine_with [] false }

bare_has_none : has bare.machine.meta.finalizers machine_finalizer ≡ false
unfolding has
bare_has_none = refl

reconcile_machine-adds_finalizer_example :
    Returns
      (λ r t.
        (no_cloud_call t.trace ≡ true)
        × ((t.machine ≡ bare.machine) ⊎ (has t.machine.meta.finalizers machine_finalizer ≡ true)))
      (reconcile_machine one_vm yaml guest "m1" bare)
reconcile_machine-adds_finalizer_example =
    reconcile_machine-adds_finalizer one_vm yaml guest "m1" bare refl bare_has_none
