-- ===== src/Tests/MachineSteps.antt =====
-- The theorems on pools, networks, disks, VMs and vApps at work.
use native.Mathlib.Decide.{ℕ_discrete}
use cluster_api_provider_clo.Machine.Networks.{
  all_have, at_places, connection_at, contains_the_same_elements, desired_connections,
  ensure_network_is_attached_to_vapp, has_connection, network_connection, number_from, place_of,
  primary_network, same_connection, same_flag, set_index,
}
use cluster_api_provider_clo.Machine.Disk.{float64, nearest, resize_disk, round_from}
use cluster_api_provider_clo.Machine.Vm.{configure_vm, create_vm, record_vapp, vm_address}
use cluster_api_provider_clo.Base.{◌&&◌, not}
use cluster_api_provider_clo.Base.{String, true, false, Option, none, some, List, [], ◌∷◌}
use cluster_api_provider_clo.Base.{◌≡◌, ◌⊎◌, refl, string_eq, nat_eq, contains, ◌<◌, ◌≤◌, arith}
use cluster_api_provider_clo.Effect.{Result, ret}
use cluster_api_provider_clo.Api.{Err, Reply}
use cluster_api_provider_clo.Vcd.{Vm, DiskSettings}
use cluster_api_provider_clo.Vcd.Env.{Store}
use cluster_api_provider_clo.Vcd.History.{happened}
use cluster_api_provider_clo.Cluster.Common.{done}
use cluster_api_provider_clo.Machine.Common.{vm_id_from_provider_id}
use cluster_api_provider_clo.Machine.Common.ProviderId.{vm_id_from_provider_id-provisioned}
use cluster_api_provider_clo.Machine.Pool.{remove_address, reconcile_lb_pool}
use cluster_api_provider_clo.Machine.Pool.Laws.{count, without, remove_address-without}
use cluster_api_provider_clo.Machine.Pool.Joined.{pool_joined, reconcile_lb_pool-joined}
use cluster_api_provider_clo.Machine.Networks.{reconcile_vm_networks}
use cluster_api_provider_clo.Machine.Networks.Primary.{SectionStep, reconcile_vm_networks-primary}
use cluster_api_provider_clo.Machine.Disk.{resized, disk_size_mb, mantissa}
use cluster_api_provider_clo.Machine.Disk.Laws.{FirstGrown, resized-grown}
use cluster_api_provider_clo.Machine.Vm.{VmReply, vm_failed, reconcile_vm, reconcile_vapp_creation}
use cluster_api_provider_clo.Machine.Vm.Laws.{VmOutcome, reconcile_vm-Provisioned}
use cluster_api_provider_clo.Machine.Vm.Laws.{
  VappReady, vapp_nil, not_there, reconcile_vapp_creation-ready,
}
use cluster_api_provider_clo.Machine.Normal.{provisioned}
use cluster_api_provider_clo.Tests.{machine, objects, value, worker, client}
use cluster_api_provider_clo.Tests.Machines.{one_vm, vm_1, vapp_1, coming, control_plane}

vm_id_from_provider_id-provisioned_example :
    (vm_id_from_provider_id (provisioned "vm-1" machine).spec.provider_id ≡ "vm-1")
    × (vm_id_from_provider_id (provisioned "vm-1" machine).status.provider_id ≡ "vm-1")
vm_id_from_provider_id-provisioned_example = vm_id_from_provider_id-provisioned "vm-1" machine

abbrev three_ips : List String
three_ips = "10.0.0.1" ∷ "10.0.0.2" ∷ "10.0.0.3" ∷ []

one_ip : count "10.0.0.2" three_ips ≡ 1
unfolding count string_eq
one_ip = refl

one_ip_at_most : count "10.0.0.2" three_ips ≤ 1
one_ip_at_most = omega (arith, one_ip)

remove_address-without_example : remove_address "10.0.0.2" three_ips ≡ without "10.0.0.2" three_ips
remove_address-without_example = remove_address-without "10.0.0.2" three_ips one_ip_at_most

abbrev joined_pool : Result Store (Option Err)
joined_pool = reconcile_lb_pool one_vm control_plane "10.0.0.9" coming

joined_pool_run : joined_pool ≡ ret none (objects joined_pool)
unfolding reconcile_lb_pool
joined_pool_run = refl

reconcile_lb_pool-joined_example :
    happened (pool_joined one_vm "10.0.0.9") (objects joined_pool).trace ≡ true
reconcile_lb_pool-joined_example =
    reconcile_lb_pool-joined one_vm control_plane "10.0.0.9" coming (objects joined_pool)
      joined_pool_run

abbrev networks : Result Store (Vm × Option Err)
networks = reconcile_vm_networks one_vm vapp_1 vm_1 ("extra" ∷ "net" ∷ []) coming

networks_run : networks ≡ ret ((value (vm_1, none) networks).0, none) (objects networks)
unfolding reconcile_vm_networks desired_connections ensure_network_is_attached_to_vapp string_eq
    contains_the_same_elements nat_eq at_places network_connection place_of
networks_run = refl

extra_once : contains {A = String} ("net" ∷ []) "extra" ≡ false
unfolding string_eq
extra_once = refl

reconcile_vm_networks-primary_example :
    SectionStep one_vm vapp_1 "extra" ("net" ∷ []) vm_1 (value (vm_1, none) networks).0
reconcile_vm_networks-primary_example =
    reconcile_vm_networks-primary one_vm vapp_1 "extra" ("net" ∷ []) vm_1
      (value (vm_1, none) networks).0 coming (objects networks) networks_run extra_once

abbrev small_disks : List DiskSettings
small_disks = record { size_mb = 10; disk = none } ∷ []

abbrev large_disks : List DiskSettings
large_disks = record { size_mb = 20; disk = none } ∷ []

small_size : 21000000 < mantissa
small_size = omega arith

resized_run : resized (disk_size_mb 21000000) small_disks ≡ some large_disks
unfolding resized disk_size_mb float64 round_from nearest
resized_run = refl

resized-grown_example : FirstGrown 21000000 small_disks large_disks
resized-grown_example = resized-grown 21000000 small_disks large_disks small_size resized_run

abbrev vm_reply : Result Store VmReply
vm_reply = reconcile_vm one_vm worker (some vapp_1) "m1" "net" coming

abbrev replied : VmReply
replied = value (vm_failed none) vm_reply

vm_reply_run : vm_reply ≡ ret replied (objects vm_reply)
unfolding reconcile_vm configure_vm reconcile_vm_networks desired_connections
    ensure_network_is_attached_to_vapp string_eq contains_the_same_elements nat_eq at_places
    network_connection place_of all_have has_connection same_connection same_flag vm_address
    primary_network disk_size_mb float64 nearest resize_disk resized round_from connection_at
    number_from set_index create_vm ℕ_discrete
vm_reply_run = refl

replied_ok : replied.error ≡ none
unfolding reconcile_vm configure_vm reconcile_vm_networks desired_connections
    ensure_network_is_attached_to_vapp string_eq contains_the_same_elements nat_eq at_places
    network_connection place_of all_have has_connection same_connection same_flag vm_address
    primary_network disk_size_mb float64 nearest resize_disk resized round_from connection_at
    number_from set_index create_vm ℕ_discrete
replied_ok = refl

replied_vm : replied.vm ≡ some vm_1
unfolding reconcile_vm configure_vm reconcile_vm_networks desired_connections
    ensure_network_is_attached_to_vapp string_eq contains_the_same_elements nat_eq at_places
    network_connection place_of all_have has_connection same_connection same_flag vm_address
    primary_network disk_size_mb float64 nearest resize_disk resized round_from connection_at
    number_from set_index create_vm ℕ_discrete
replied_vm = refl

reconcile_vm-Provisioned_example : VmOutcome one_vm worker "m1" replied (objects vm_reply)
reconcile_vm-Provisioned_example =
    reconcile_vm-Provisioned one_vm worker (some vapp_1) "m1" "net" coming (objects vm_reply)
      replied vm_reply_run replied_ok

abbrev vapp_made : Result Store Reply
vapp_made = reconcile_vapp_creation one_vm client "c1" "net" coming

vapp_made_run : vapp_made ≡ ret (done, none) (objects vapp_made)
unfolding reconcile_vapp_creation record_vapp
vapp_made_run = refl

reconcile_vapp_creation-ready_example :
    (happened (vapp_nil one_vm "c1") (objects vapp_made).trace ≡ true)
    ⊎ VappReady one_vm "c1"
        (coming.cluster.status.vapp_metadata_updated && not (not_there one_vm client "c1" coming))
        "rde-1"
        (objects vapp_made)
reconcile_vapp_creation-ready_example =
    reconcile_vapp_creation-ready one_vm client "c1" "net" coming (objects vapp_made) (done, none)
      vapp_made_run refl
