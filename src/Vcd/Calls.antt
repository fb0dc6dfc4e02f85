-- ===== src/Vcd/Calls.antt =====
-- One constructor for each remote call, with the arguments that decide what it does.
use cluster_api_provider_clo.Base.{String, ℕ, Bool, List, Option}
use cluster_api_provider_clo.Api.Cluster.{VcdCluster}
use cluster_api_provider_clo.Api.Machine.{VcdMachine}
use cluster_api_provider_clo.Vcd.{DefinedEntity, NetworkSection, DiskSettings}

pub data Call : Type 0 where
  -- Kubernetes
  get_vcd_cluster : String → Call
  get_owner_cluster : Call
  list_machines : String → Call
  list_machine_deployments : Call
  list_control_planes : Call
  list_bindings : Call
  new_uuid : Call  -- uuid.New
  build_capi_yaml : Call
  build_capi_status_yaml : Call
  get_machine_template : String → Call
  get_kube_config : Call
  get_secret : String → String → Call
  get_vcd_machine : String → Call
  get_owner_machine : Call
  get_cluster_from_metadata : Call
  new_patch_helper : Call
  patch_cluster : VcdCluster → Call
  patch_cluster_status : VcdCluster → Call
  patch_machine : VcdMachine → Call
  -- Cloud Director: organisations and data centers
  new_vcd_client : String → String → String → String → String → String → Call
  get_org_by_name : String → Call
  get_vdc_by_id : String → Call
  get_vdc_by_name : String → Call
  new_vdc_manager : String → String → Call
  -- load balancers: virtual service, pool, then ports and addresses
  new_gateway_manager : String → String → String → Call
  get_load_balancer : String → String → Bool → Call
  create_load_balancer : String → String → ℕ → Bool → Bool → String → Call
  delete_load_balancer : String → String → ℕ → Bool → Call
  get_load_balancer_pool : String → Call
  get_load_balancer_pool_member_ips : String → Call
  update_load_balancer : String → String → List String → ℕ → Bool → Bool → Call
  -- vApps and virtual machines
  get_vapp_by_name : String → Call
  get_metadata_by_key : String → String → Call
  delete_vapp : String → Call
  get_vm_by_name : String → Call
  get_vm_status : String → Call
  power_off : String → Call
  wait_task_completion : String → Call
  delete_vm : String → Call
  get_or_create_vapp : String → String → Call
  add_metadata_to_vapp : String → String → String → Call
  -- name, vApp, catalog, template, placement policy, sizing policy, storage profile
  add_new_tkg_vm : String → String → String → String → String → String → String → Call
  network_names : String → Call
  get_network_connection_section : String → Call
  get_org_vdc_network_by_name : String → Call
  add_org_network : String → String → Call
  update_network_connection_section : String → NetworkSection → Call
  update_internal_disks : String → List DiskSettings → Call
  set_vm_extra_config_key_value : String → String → String → Call
  get_extra_config_value : String → String → Call
  refresh_vm : String → Call
  refresh_vapp : String → Call
  power_on : String → Call
  post_customization : String → String → Call  -- the rounds of a phase
  -- the runtime defined entity of a cluster
  add_to_error_set : String → String → String → Call
  add_to_event_set : String → String → String → Call
  remove_error : String → String → String → Call
  add_to_vcd_resource_set : String → String → String → Option String → Call
  remove_from_vcd_resource_set : String → String → Call
  build_endpoint : String → Call
  get_entity_type : String → Call
  get_defined_entities : String → Call
  get_defined_entity : String → Call
  resolve_defined_entity : String → Call
  refresh_task : String → Call
  create_defined_entity : DefinedEntity → Call
  update_defined_entity : DefinedEntity → String → Call  -- with the etag
  delete_defined_entity : String → Call

abbrev pub Trace : Type 0
Trace = List Call
