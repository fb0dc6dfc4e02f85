-- ===== src/Entity/Nodes/Laws.antt =====
-- Which machines an upgrade waits for, and which node pools there are.
use cluster_api_provider_clo.Base.{String, Bool, true, false, Option, none, List, [], ◌∷◌}
use cluster_api_provider_clo.Base.{◌≡◌, refl, arith, is_none, ◌==◌, string_eq, ◌&&◌}
use cluster_api_provider_clo.Base.{not, if◌then◌else◌}
use cluster_api_provider_clo.Effect.{ret}
use cluster_api_provider_clo.Effect.Keeps.{KeepsFun}
use cluster_api_provider_clo.Api.{Err}
use cluster_api_provider_clo.Rde.Types.{NodePool}
use cluster_api_provider_clo.Vcd.Calls.{Trace, list_machines}
use cluster_api_provider_clo.Vcd.Env.{Env, Store}
use cluster_api_provider_clo.Vcd.History.{Past, past_rules, happened, happened_after}
use cluster_api_provider_clo.Entity.Nodes.{Listing, NodeOwner, ListedMachine, machines_of}
use cluster_api_provider_clo.Entity.Nodes.{any_behind, all_machines_in_kcp, some_behind}
use cluster_api_provider_clo.Entity.Nodes.{all_machines_in_machine_deployment, node_pools}
use cluster_api_provider_clo.Entity.Nodes.{node_pool_of, machines_for}
use cluster_api_provider_clo.Entity.Nodes.{has_cluster_reconciled_to_desired_k8_version}

module _ (env : Env) (listing : Listing) where
  -- The machines of the owner were listed without an error, and none of them has another version than
  -- the expected one.
  unfoldable pub is_current : Bool → String → String → NodeOwner → Trace → Bool
  is_current is_kcp cluster_name expected owner (list_machines n ∷ before) =
      let listed = listing.machines (list_machines n ∷ before) in
      n == (if is_kcp then cluster_name else owner.name)
      && (is_none listed.1
          && not
              (any_behind expected (if is_kcp then machines_of owner.name listed.0 else listed.0)))
  is_current is_kcp cluster_name expected owner _ = false

  unfoldable pub all_current : Bool → String → String → List NodeOwner → Trace → Bool
  all_current is_kcp cluster_name expected [] t = true
  all_current is_kcp cluster_name expected (owner ∷ owners) t =
      happened (is_current is_kcp cluster_name expected owner) t
      && all_current is_kcp cluster_name expected owners t

  machines-Past :
      (test : Trace → Bool) (is_kcp : Bool) (cluster_name : String) (owner : NodeOwner)
      → KeepsFun (Past test) (machines_for env listing is_kcp cluster_name owner)
  unfolding machines_for all_machines_in_kcp all_machines_in_machine_deployment
  machines-Past test true cluster_name owner = search past_rules depth 60
  machines-Past test false cluster_name owner = search past_rules depth 60

  some_behind-Past :
      (test : Trace → Bool) (is_kcp : Bool) (cluster_name expected : String)
      → (owners : List NodeOwner)
      → KeepsFun (Past test) (some_behind env listing is_kcp cluster_name expected owners)
  unfolding some_behind
  some_behind-Past test is_kcp cluster_name expected [] = search past_rules depth 60
  some_behind-Past test is_kcp cluster_name expected (owner ∷ owners) =
      let first = machines-Past test is_kcp cluster_name owner in
      let later = some_behind-Past test is_kcp cluster_name expected owners in
      search (past_rules, first, later) depth 60

  behind-past :
      (test : Trace → Bool) (is_kcp : Bool) (cluster_name expected : String)
      → (owners : List NodeOwner) (s t : Store) (r : Bool × Option Err)
      → some_behind env listing is_kcp cluster_name expected owners s ≡ ret r t
      → happened test s.trace ≡ true
      → happened test t.trace ≡ true
  behind-past test is_kcp cluster_name expected owners s t r =
      happened_after (some_behind-Past test is_kcp cluster_name expected owners) s t r

  machines_current :
      (is_kcp : Bool) (cluster_name expected : String) (owner : NodeOwner) (s t : Store)
      → (machines : List ListedMachine)
      → machines_for env listing is_kcp cluster_name owner s ≡ ret (machines, none) t
      → any_behind expected machines ≡ false
      → happened (is_current is_kcp cluster_name expected owner) t.trace ≡ true
  unfolding machines_for all_machines_in_kcp all_machines_in_machine_deployment is_current
  machines_current true cluster_name expected owner s t machines e h =
      grind (arith, env.is_some-wrapf)
  machines_current false cluster_name expected owner s t machines e h =
      grind (arith, env.is_some-wrapf)

  none_behind :
      (is_kcp : Bool) (cluster_name expected : String) (owners : List NodeOwner) (s t : Store)
      → some_behind env listing is_kcp cluster_name expected owners s ≡ ret (false, none) t
      → all_current is_kcp cluster_name expected owners t.trace ≡ true
  unfolding some_behind all_current
  none_behind is_kcp cluster_name expected [] s t e = refl
  none_behind is_kcp cluster_name expected (owner ∷ owners) s t e =
      let kept =
        behind-past (is_current is_kcp cluster_name expected owner) is_kcp cluster_name expected
          owners in
      let first = machines_current is_kcp cluster_name expected owner in
      let later = none_behind is_kcp cluster_name expected owners in
      grind (arith, first, later, kept)

  all_current-kept :
      (first : Bool) (name expected : String) (checked : List NodeOwner)
      → (is_kcp : Bool) (owners : List NodeOwner) (s t : Store) (r : Bool × Option Err)
      → some_behind env listing is_kcp name expected owners s ≡ ret r t
      → all_current first name expected checked s.trace ≡ true
      → all_current first name expected checked t.trace ≡ true
  unfolding all_current
  all_current-kept first name expected [] is_kcp owners s t r e h = refl
  all_current-kept first name expected (c ∷ checked) is_kcp owners s t r e h =
      let kept =
        behind-past (is_current first name expected c) is_kcp name expected owners s t r e in
      let rest = all_current-kept first name expected checked is_kcp owners s t r e in
      grind (arith, kept, rest)

  pub has_cluster_reconciled-current :
      (name expected : String) (kcps mds : List NodeOwner) (s t : Store) (err : Option Err)
      → has_cluster_reconciled_to_desired_k8_version env listing name kcps mds expected s
        ≡ ret (true, err) t
      → (err ≡ none)
        × ((all_current true name expected kcps t.trace ≡ true)
            × (all_current false name expected mds t.trace ≡ true))
  unfolding has_cluster_reconciled_to_desired_k8_version
  has_cluster_reconciled-current name expected kcps mds s t err e = grind (
    arith,
    none_behind true name expected kcps,
    none_behind false name expected mds,
    all_current-kept true name expected kcps false mds,
  )

-- The names of the pools and of what they are made of.
unfoldable pub pool_names : List NodePool → List String
pool_names [] = []
pool_names (p ∷ rest) = p.name ∷ pool_names rest

unfoldable pub owner_names : List NodeOwner → List String
owner_names [] = []
owner_names (o ∷ rest) = o.name ∷ owner_names rest

module _ (env : Env) (listing : Listing) where
  -- If a loop of getNodePoolList returns no error, it has one pool for each control plane or machine
  -- deployment, in their order, with their names.
  pub node_pools-names :
      (is_kcp : Bool) (cluster_name : String) (owners : List NodeOwner) (pools : List NodePool)
      → (s t : Store) → node_pools env listing is_kcp cluster_name owners s ≡ ret (pools, none) t
      → pool_names pools ≡ owner_names owners
  unfolding node_pools node_pool_of pool_names owner_names
  node_pools-names is_kcp cluster_name [] pools s t e = ground arith
  node_pools-names is_kcp cluster_name (owner ∷ owners) pools s t e =
      grind (arith, node_pools-names is_kcp cluster_name owners)
