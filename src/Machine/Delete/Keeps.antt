-- ===== src/Machine/Delete/Keeps.antt =====
-- The parts of reconcileDelete leave the objects in memory as they are, and forget no call.
use cluster_api_provider_clo.Base.{Bool, Option, ◌≡◌, refl, true}
use cluster_api_provider_clo.Effect.{ret}
use cluster_api_provider_clo.Effect.Keeps.{KeepsFun}
use cluster_api_provider_clo.Api.{Err, Reply}
use cluster_api_provider_clo.Api.Machine.{VcdMachine, OwnerMachine}
use cluster_api_provider_clo.Vcd.{Client, VApp, Vm}
use cluster_api_provider_clo.Vcd.Calls.{Trace}
use cluster_api_provider_clo.Vcd.Env.{Env, Store}
use cluster_api_provider_clo.Vcd.History.{Past, past_rules, happened, happened_after}
use cluster_api_provider_clo.Api.Cluster.{VcdCluster}
use cluster_api_provider_clo.Vcd.Objects.{OnCluster, on_cluster_rules, on_cluster_after}
use cluster_api_provider_clo.Vcd.Objects.{OnMachine, on_machine_rules, on_machine_after}
use cluster_api_provider_clo.Ovdc.Client.{create_vcd_client_from_secrets}
use cluster_api_provider_clo.Ovdc.Client.Keeps.{create_vcd_client-OnMachine}
use cluster_api_provider_clo.Machine.Pool.{remove_from_pool}
use cluster_api_provider_clo.Machine.Delete.{delete_from_vapp, delete_in_vapp, delete_found_vm}
use cluster_api_provider_clo.Machine.Delete.{power_off_vm, release_machine, delete_machine_vm}

module _ (env : Env) (owner : OwnerMachine) (P : VcdMachine → Type 0) where
  remove_from_pool-OnMachine : KeepsFun (OnMachine P) (remove_from_pool env owner)
  unfolding remove_from_pool
  remove_from_pool-OnMachine = search on_machine_rules depth 60

  delete_found_vm-OnMachine : (vm : Vm) → KeepsFun (OnMachine P) (delete_found_vm env owner vm)
  unfolding delete_found_vm power_off_vm
  delete_found_vm-OnMachine vm = search on_machine_rules depth 60

  delete_in_vapp-OnMachine : (vapp : VApp) → KeepsFun (OnMachine P) (delete_in_vapp env owner vapp)
  unfolding delete_in_vapp
  delete_in_vapp-OnMachine vapp = search (on_machine_rules, delete_found_vm-OnMachine) depth 60

  delete_from_vapp-OnMachine :
      (vapp : VApp) → KeepsFun (OnMachine P) (delete_from_vapp env owner vapp)
  unfolding delete_from_vapp
  delete_from_vapp-OnMachine vapp = search (on_machine_rules, delete_in_vapp-OnMachine) depth 60

module _ (env : Env) (owner : OwnerMachine) where
  remove_from_pool-OnCluster :
      (P : VcdCluster → Type 0) → KeepsFun (OnCluster P) (remove_from_pool env owner)
  unfolding remove_from_pool
  remove_from_pool-OnCluster P = search on_cluster_rules depth 60

  pub pool-cluster :
      (s t : Store) (r : Option Err)
      → remove_from_pool env owner s ≡ ret r t
      → t.cluster ≡ s.cluster
  pool-cluster s t r e =
      on_cluster_after (remove_from_pool-OnCluster (λ c. c ≡ s.cluster)) s t r e refl

  pub pool-machine :
      (s t : Store) (r : Option Err)
      → remove_from_pool env owner s ≡ ret r t
      → t.machine ≡ s.machine
  pool-machine s t r e =
      on_machine_after (remove_from_pool-OnMachine env owner (λ m. m ≡ s.machine)) s t r e refl

  pub vapp-machine :
      (vapp : VApp) (s t : Store) (r : Option (Option Err))
      → delete_from_vapp env owner vapp s ≡ ret r t
      → t.machine ≡ s.machine
  vapp-machine vapp s t r e =
      on_machine_after (delete_from_vapp-OnMachine env owner (λ m. m ≡ s.machine) vapp) s t r e refl

  pub client-machine :
      (s t : Store) (r : Option Client × Option Err)
      → create_vcd_client_from_secrets env s ≡ ret r t
      → t.machine ≡ s.machine
  client-machine s t r e =
      on_machine_after (create_vcd_client-OnMachine env (λ m. m ≡ s.machine)) s t r e refl

module _ (env : Env) (owner : OwnerMachine) (test : Trace → Bool) where
  release-Past : KeepsFun (Past test) (release_machine env owner)
  unfolding release_machine
  release-Past = search past_rules depth 60

  delete_found_vm-Past : (vm : Vm) → KeepsFun (Past test) (delete_found_vm env owner vm)
  unfolding delete_found_vm power_off_vm
  delete_found_vm-Past vm = search past_rules depth 60

  delete_in_vapp-Past : (vapp : VApp) → KeepsFun (Past test) (delete_in_vapp env owner vapp)
  unfolding delete_in_vapp
  delete_in_vapp-Past vapp = search (past_rules, delete_found_vm-Past) depth 60

  delete_from_vapp-Past : (vapp : VApp) → KeepsFun (Past test) (delete_from_vapp env owner vapp)
  unfolding delete_from_vapp
  delete_from_vapp-Past vapp = search (past_rules, delete_in_vapp-Past) depth 60

  delete_machine_vm-Past :
      (client : Client) → KeepsFun (Past test) (delete_machine_vm env owner client)
  unfolding delete_machine_vm
  delete_machine_vm-Past client = search (past_rules, delete_from_vapp-Past, release-Past) depth 60

  pub release-past :
      (s t : Store) (r : Reply)
      → release_machine env owner s ≡ ret r t
      → happened test s.trace ≡ true
      → happened test t.trace ≡ true
  release-past s t r = happened_after release-Past s t r

  pub vm-past :
      (client : Client) (s t : Store) (r : Reply)
      → delete_machine_vm env owner client s ≡ ret r t
      → happened test s.trace ≡ true
      → happened test t.trace ≡ true
  vm-past client s t r = happened_after (delete_machine_vm-Past client) s t r
