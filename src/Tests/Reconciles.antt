-- ===== src/Tests/Reconciles.antt =====
-- The theorems on whole reconciles at work, where every call succeeds.
use cluster_api_provider_clo.Base.{true, false, Option, none, some, ◌≡◌, ◌≢◌, ◌⊎◌}
use cluster_api_provider_clo.Base.{refl, string_eq, nat_eq}
use cluster_api_provider_clo.Effect.{Result, ret, Returns}
use cluster_api_provider_clo.Api.{Err, Reply}
use cluster_api_provider_clo.Api.Cluster.{OwnerCluster}
use cluster_api_provider_clo.Json.{get, put}
use cluster_api_provider_clo.Vcd.Env.{Store}
use cluster_api_provider_clo.Cluster.Common.{done, cluster_finalizer, patch_vcd_cluster}
use cluster_api_provider_clo.Cluster.Delete.{reconcile_delete, delete_infrastructure, delete_lb}
use cluster_api_provider_clo.Cluster.Delete.{reconcile_delete_vapps, reconcile_delete_single_vapp}
use cluster_api_provider_clo.Cluster.Delete.{delete_empty_vapp, reconcile_delete_rde, delete_entity}
use cluster_api_provider_clo.Cluster.Delete.Finalizer.{GoneOf, reconcile_delete-finalizer}
use cluster_api_provider_clo.Cluster.Delete.Guards.{guarded, reconcile_delete_single_vapp-guarded}
use cluster_api_provider_clo.Cluster.Validate.{compare_versions, validate_derived_rde_properties}
use cluster_api_provider_clo.Cluster.InfraId.{reconcile_infra_id, derive_existing, stored_version}
use cluster_api_provider_clo.Cluster.InfraId.{upgrade_rde, store_infra_id}
use cluster_api_provider_clo.Cluster.Common.{text_contains}
use cluster_api_provider_clo.Cluster.InfraId.Laws.{Moved, reconcile_infra_id-Moved}
use cluster_api_provider_clo.Cluster.LoadBalancer.{reconcile_load_balancer, publish_endpoint}
use cluster_api_provider_clo.Cluster.LoadBalancer.{record_resources, add_kinds, add_resources}
use cluster_api_provider_clo.Cluster.LoadBalancer.{add_lb_resources_to_vcd_resource_set}
use cluster_api_provider_clo.Cluster.LoadBalancer.Laws.{
  EndpointStep, reconcile_load_balancer-EndpointStep,
}
use cluster_api_provider_clo.Cluster.Normal.{
  reconcile, dispatch, with_patch, patch_after, reconcile_normal,
}
use cluster_api_provider_clo.Cluster.Normal.{finish, record_ovdc, copy_spec}
use cluster_api_provider_clo.Cluster.Normal.Laws.{Identified, reconcile_normal-ready}
use cluster_api_provider_clo.Cluster.Normal.InfraId.{reconcile-infra_id_stays}
use cluster_api_provider_clo.Cluster.Normal.Finalizer.{only_kubernetes, reconcile-adds_finalizer}
use cluster_api_provider_clo.Rde.Patch.{patch_rde, patch_unguarded, patch_rounds, patch_attempt}
use cluster_api_provider_clo.Rde.Patch.{patch_status, send_update}
use cluster_api_provider_clo.Rde.Version.{last_segment, check_if_cluster_rde_needs_upgrade}
use cluster_api_provider_clo.Rde.Version.{is_capvcd_entity_type_registered, get_rde_version}
use cluster_api_provider_clo.Rde.Version.{vcdke_flag, is_vcdke_cluster}
use cluster_api_provider_clo.Rde.Version.{check_for_empty_rde_and_update_created_by_versions}
use cluster_api_provider_clo.Rde.Convert.{from_100, convert_rounds, convert_attempt}
use cluster_api_provider_clo.Rde.Convert.{convert_from_100_format, send_upgrade}
use cluster_api_provider_clo.Rde.Convert.{convert_to_latest_rde_version_format}
use cluster_api_provider_clo.Ovdc.Client.{create_vcd_client_from_secrets, update_client_with_vdc}
use cluster_api_provider_clo.Ovdc.Client.{user_credentials_for_cluster, ovdc_by_name, org_by_name}
use cluster_api_provider_clo.Ovdc.Resources.{update_vdc_resource_to_vcd_cluster, upsert}
use native.Mathlib.Decide.{ℕ_discrete}
use cluster_api_provider_clo.Rde.Convert.{empty_entity}
use cluster_api_provider_clo.Rde.Patch.{patch_metadata, patch_spec}
use cluster_api_provider_clo.Machine.Script.{tkg_version_of}
use cluster_api_provider_clo.Entity.Upgrade.{first_of, with_current, upgrade_section}
use cluster_api_provider_clo.Entity.Patches.{
  patch_where, bool_differs, bindings_patch, kube_config_patch, later_patches, status_patches,
  metadata_patches,
}
use cluster_api_provider_clo.Entity.Nodes.{
  all_kubeadm_control_planes, all_machine_deployments, node_pool_list, node_pools, machines_for,
  all_machines_in_kcp, all_machines_in_machine_deployment, machines_of, is_owned, node_pool_of,
  node_status_of, set_phase, int32_mb, has_cluster_reconciled_to_desired_k8_version, some_behind,
  any_behind, is_behind,
}
use cluster_api_provider_clo.Entity.Reconcile.{
  reconcile_rde, get_capvcd_entity, patch_entity, send_patches, resolve_rde, spec_patches,
  first_version, rows_of, set_rows, binding_rows, listed_rows, api_status_of, vcd_resources_of,
  read_text,
}
use cluster_api_provider_clo.Tests.{calm, reads, leaving, running, created, objects, value}
use cluster_api_provider_clo.Tests.{client, has, remove, provisioning}

rde_1_set : running.cluster.status.infra_id ≢ ""
rde_1_set = λ e. cc

finalizer_there : has leaving.cluster.meta.finalizers cluster_finalizer ≡ true
unfolding has string_eq
finalizer_there = refl

finalizer_missing : has created.cluster.meta.finalizers cluster_finalizer ≡ false
unfolding has
finalizer_missing = refl

-- The deletion of a cluster.
abbrev deleted : Result Store Reply
deleted = reconcile_delete calm leaving

deleted_run : deleted ≡ ret (value (done, none) deleted) (objects deleted)
unfolding reconcile_delete patch_vcd_cluster update_vdc_resource_to_vcd_cluster upsert has remove
    create_vcd_client_from_secrets user_credentials_for_cluster update_client_with_vdc ovdc_by_name
    org_by_name delete_infrastructure delete_lb reconcile_delete_vapps reconcile_delete_single_vapp
    delete_empty_vapp reconcile_delete_rde delete_entity string_eq nat_eq
deleted_run = refl

finalizer_gone : has (objects deleted).cluster.meta.finalizers cluster_finalizer ≡ false
unfolding reconcile_delete patch_vcd_cluster update_vdc_resource_to_vcd_cluster upsert has remove
    create_vcd_client_from_secrets user_credentials_for_cluster update_client_with_vdc ovdc_by_name
    org_by_name delete_infrastructure delete_lb reconcile_delete_vapps reconcile_delete_single_vapp
    delete_empty_vapp reconcile_delete_rde delete_entity string_eq nat_eq
finalizer_gone = refl

reconcile_delete-finalizer_example :
    ((value (done, none) deleted).1 ≡ none) × GoneOf calm leaving.cluster (objects deleted).trace
reconcile_delete-finalizer_example =
    reconcile_delete-finalizer calm leaving (objects deleted) (value (done, none) deleted)
      deleted_run finalizer_there finalizer_gone

-- The reconcile of a cluster with an RDE of version 1.0.0.
abbrev reconciled : Result Store Reply
reconciled = reconcile calm reads false "c1" running

reconciled_run : reconciled ≡ ret (value (done, none) reconciled) (objects reconciled)
unfolding reconcile with_patch patch_after dispatch patch_vcd_cluster has reconcile_normal
    record_ovdc update_vdc_resource_to_vcd_cluster upsert copy_spec finish
    create_vcd_client_from_secrets user_credentials_for_cluster update_client_with_vdc ovdc_by_name
    org_by_name reconcile_infra_id derive_existing stored_version upgrade_rde text_contains
    store_infra_id validate_derived_rde_properties compare_versions get_rde_version
    check_for_empty_rde_and_update_created_by_versions is_vcdke_cluster vcdke_flag get put
    check_if_cluster_rde_needs_upgrade convert_to_latest_rde_version_format
    is_capvcd_entity_type_registered convert_from_100_format convert_rounds convert_attempt
    send_upgrade from_100 last_segment patch_rde patch_unguarded patch_rounds patch_attempt
    patch_status send_update reconcile_rde get_capvcd_entity patch_entity send_patches resolve_rde
    spec_patches first_version rows_of set_rows binding_rows listed_rows api_status_of
    vcd_resources_of read_text all_kubeadm_control_planes all_machine_deployments node_pool_list
    node_pools machines_for all_machines_in_kcp all_machines_in_machine_deployment machines_of
    is_owned node_pool_of node_status_of set_phase int32_mb
    has_cluster_reconciled_to_desired_k8_version some_behind any_behind is_behind first_of
    with_current upgrade_section tkg_version_of patch_where bool_differs bindings_patch
    kube_config_patch later_patches status_patches metadata_patches patch_metadata patch_spec
    empty_entity ℕ_discrete reconcile_load_balancer publish_endpoint record_resources
    add_lb_resources_to_vcd_resource_set add_kinds add_resources string_eq nat_eq
reconciled_run = refl

reconcile-infra_id_stays_example : (objects reconciled).cluster.status.infra_id ≡ "rde-1"
reconcile-infra_id_stays_example =
    reconcile-infra_id_stays calm reads false "c1" running (objects reconciled)
      (value (done, none) reconciled) reconciled_run rde_1_set

reconcile-adds_finalizer_example :
    Returns
      (λ r t.
        (only_kubernetes t.trace ≡ true)
        × ((t.cluster ≡ created.cluster)
            ⊎ (has t.cluster.meta.finalizers cluster_finalizer ≡ true)))
      (reconcile calm reads false "c1" created)
reconcile-adds_finalizer_example =
    reconcile-adds_finalizer calm reads false "c1" created refl finalizer_missing

abbrev owner : OwnerCluster
owner = provisioning

abbrev normal : Result Store Reply
normal = reconcile_normal calm reads false owner running

normal_run : normal ≡ ret (value (done, none) normal) (objects normal)
unfolding reconcile_normal record_ovdc update_vdc_resource_to_vcd_cluster upsert copy_spec finish
    create_vcd_client_from_secrets user_credentials_for_cluster update_client_with_vdc ovdc_by_name
    org_by_name reconcile_infra_id derive_existing stored_version upgrade_rde text_contains
    store_infra_id validate_derived_rde_properties compare_versions get_rde_version
    check_for_empty_rde_and_update_created_by_versions is_vcdke_cluster vcdke_flag get put
    check_if_cluster_rde_needs_upgrade convert_to_latest_rde_version_format
    is_capvcd_entity_type_registered convert_from_100_format convert_rounds convert_attempt
    send_upgrade from_100 last_segment patch_rde patch_unguarded patch_rounds patch_attempt
    patch_status send_update reconcile_rde get_capvcd_entity patch_entity send_patches resolve_rde
    spec_patches first_version rows_of set_rows binding_rows listed_rows api_status_of
    vcd_resources_of read_text all_kubeadm_control_planes all_machine_deployments node_pool_list
    node_pools machines_for all_machines_in_kcp all_machines_in_machine_deployment machines_of
    is_owned node_pool_of node_status_of set_phase int32_mb
    has_cluster_reconciled_to_desired_k8_version some_behind any_behind is_behind first_of
    with_current upgrade_section tkg_version_of patch_where bool_differs bindings_patch
    kube_config_patch later_patches status_patches metadata_patches patch_metadata patch_spec
    empty_entity ℕ_discrete reconcile_load_balancer publish_endpoint record_resources
    add_lb_resources_to_vcd_resource_set add_kinds add_resources string_eq nat_eq
normal_run = refl

normal_ready : (objects normal).cluster.status.ready ≡ true
unfolding reconcile_normal record_ovdc update_vdc_resource_to_vcd_cluster upsert copy_spec finish
    create_vcd_client_from_secrets user_credentials_for_cluster update_client_with_vdc ovdc_by_name
    org_by_name reconcile_infra_id derive_existing stored_version upgrade_rde text_contains
    store_infra_id validate_derived_rde_properties compare_versions get_rde_version
    check_for_empty_rde_and_update_created_by_versions is_vcdke_cluster vcdke_flag get put
    check_if_cluster_rde_needs_upgrade convert_to_latest_rde_version_format
    is_capvcd_entity_type_registered convert_from_100_format convert_rounds convert_attempt
    send_upgrade from_100 last_segment patch_rde patch_unguarded patch_rounds patch_attempt
    patch_status send_update reconcile_rde get_capvcd_entity patch_entity send_patches resolve_rde
    spec_patches first_version rows_of set_rows binding_rows listed_rows api_status_of
    vcd_resources_of read_text all_kubeadm_control_planes all_machine_deployments node_pool_list
    node_pools machines_for all_machines_in_kcp all_machines_in_machine_deployment machines_of
    is_owned node_pool_of node_status_of set_phase int32_mb
    has_cluster_reconciled_to_desired_k8_version some_behind any_behind is_behind first_of
    with_current upgrade_section tkg_version_of patch_where bool_differs bindings_patch
    kube_config_patch later_patches status_patches metadata_patches patch_metadata patch_spec
    empty_entity ℕ_discrete reconcile_load_balancer publish_endpoint record_resources
    add_lb_resources_to_vcd_resource_set add_kinds add_resources string_eq nat_eq
normal_ready = refl

reconcile_normal-ready_example :
    (value (done, none) normal ≡ (done, none))
    × Identified calm reads false (objects normal).cluster
reconcile_normal-ready_example =
    reconcile_normal-ready calm reads false owner running (objects normal)
      (value (done, none) normal) normal_run refl normal_ready

abbrev identified : Result Store (Option Err)
identified = reconcile_infra_id calm reads false owner (some client) running

identified_run : identified ≡ ret (value none identified) (objects identified)
unfolding reconcile_infra_id derive_existing stored_version upgrade_rde text_contains store_infra_id
    validate_derived_rde_properties compare_versions get_rde_version
    check_for_empty_rde_and_update_created_by_versions is_vcdke_cluster vcdke_flag get put
    check_if_cluster_rde_needs_upgrade convert_to_latest_rde_version_format
    is_capvcd_entity_type_registered convert_from_100_format convert_rounds convert_attempt
    send_upgrade from_100 last_segment patch_rde patch_unguarded patch_rounds patch_attempt
    patch_status send_update reconcile_rde get_capvcd_entity patch_entity send_patches resolve_rde
    spec_patches first_version rows_of set_rows binding_rows listed_rows api_status_of
    vcd_resources_of read_text all_kubeadm_control_planes all_machine_deployments node_pool_list
    node_pools machines_for all_machines_in_kcp all_machines_in_machine_deployment machines_of
    is_owned node_pool_of node_status_of set_phase int32_mb
    has_cluster_reconciled_to_desired_k8_version some_behind any_behind is_behind first_of
    with_current upgrade_section tkg_version_of patch_where bool_differs bindings_patch
    kube_config_patch later_patches status_patches metadata_patches patch_metadata patch_spec
    empty_entity ℕ_discrete string_eq nat_eq
identified_run = refl

reconcile_infra_id-Moved_example :
    Moved calm reads false owner running.cluster
      (objects identified).cluster
      (value none identified)
reconcile_infra_id-Moved_example =
    reconcile_infra_id-Moved calm reads false owner (some client) running (objects identified)
      (value none identified) identified_run

abbrev balanced : Result Store Reply
balanced = reconcile_load_balancer calm (some client) false running

balanced_run : balanced ≡ ret (value (done, none) balanced) (objects balanced)
unfolding reconcile_load_balancer publish_endpoint record_resources
    add_lb_resources_to_vcd_resource_set add_kinds add_resources string_eq nat_eq
balanced_run = refl

reconcile_load_balancer-EndpointStep_example :
    EndpointStep calm running.cluster (objects balanced) (value (done, none) balanced)
reconcile_load_balancer-EndpointStep_example =
    reconcile_load_balancer-EndpointStep calm (some client) false running (objects balanced)
      (value (done, none) balanced) balanced_run

abbrev vapp_deleted : Result Store Reply
vapp_deleted = reconcile_delete_single_vapp calm "pool" "c1" (some client) leaving

vapp_deleted_run : vapp_deleted ≡ ret (value (done, none) vapp_deleted) (objects vapp_deleted)
unfolding reconcile_delete_single_vapp string_eq delete_empty_vapp
vapp_deleted_run = refl

nothing_deleted : guarded calm "rde-1" leaving.trace ≡ true
unfolding guarded
nothing_deleted = refl

reconcile_delete_single_vapp-guarded_example :
    guarded calm "rde-1" (objects vapp_deleted).trace ≡ true
reconcile_delete_single_vapp-guarded_example =
    reconcile_delete_single_vapp-guarded calm "rde-1" "pool" "c1" (some client) leaving
      (objects vapp_deleted) (value (done, none) vapp_deleted) vapp_deleted_run refl nothing_deleted
