-- ===== src/Machine/Networks/Primary.antt =====
-- The network section that reconcileVMNetworks leaves.
use cluster_api_provider_clo.Base.{String, ℕ, false, Option, none, some}
use cluster_api_provider_clo.Base.{List, [], ◌∷◌, ◌≡◌, ◌⊎◌, arith}
use cluster_api_provider_clo.Base.{string_eq, nat_eq, contains}
use cluster_api_provider_clo.Effect.{ret}
use cluster_api_provider_clo.Vcd.{VApp, Vm, NetworkConnection, NetworkSection}
use cluster_api_provider_clo.Vcd.Env.{Env, Store}
use cluster_api_provider_clo.Machine.Networks.{network_connection, at_places, number_from}
use cluster_api_provider_clo.Machine.Networks.{primary_network, connection_at}
use cluster_api_provider_clo.Machine.Networks.{desired_connections, reconcile_vm_networks}
use cluster_api_provider_clo.Machine.Networks.Laws.{name_at, index_at, Points, names, Grows}
use cluster_api_provider_clo.Machine.Networks.Laws.{Grows-self, Grows-trans}
use cluster_api_provider_clo.Machine.Networks.Laws.{network_connection-Grows}
use cluster_api_provider_clo.Machine.Networks.Laws.{network_connection-name, index_at-first}
use cluster_api_provider_clo.Machine.Networks.Laws.{names-at_places, Points-number_from}

-- The connections in memory after the loop, with the pointers.
pub Reaches : List NetworkConnection → List NetworkConnection → List ℕ → List String → Type 0
Reaches heap later places networks = Grows heap later × Points later places networks

module _ (env : Env) (vapp : VApp) (existing : List NetworkConnection) where
  Reaches-none : (heap : List NetworkConnection) → Reaches heap heap [] []
  unfolding Reaches Points
  Reaches-none heap = (Grows-self heap, tt)

  Reaches-step :
      (network : String) (networks : List String) (heap later : List NetworkConnection)
      → (places : List ℕ) → Grows existing heap
      → Reaches (network_connection existing network heap).0 later places networks
      → Reaches heap later
          ((network_connection existing network heap).1 ∷ places)
          (network ∷ networks)
  unfolding Reaches Points
  Reaches-step network networks heap later places g (grows, points) =
      let found = network_connection existing network heap in
      (
        Grows-trans heap found.0 later (network_connection-Grows existing network heap) grows,
        (grows.name found.1 network (network_connection-name existing network heap g), points),
      )

  desired_connections-Reaches :
      (networks : List String) (heap later : List NetworkConnection) (places : List ℕ)
      → (s t : Store)
      → desired_connections env vapp existing networks heap s ≡ ret (later, places, none) t
      → Grows existing heap
      → Reaches heap later places networks
  unfolding desired_connections
  desired_connections-Reaches [] heap later places s t e g = grind (arith, Reaches-none heap)
  desired_connections-Reaches (network ∷ networks) heap later places s t e g =
      let next_grows =
        Grows-trans existing heap (network_connection existing network heap).0 g
          (network_connection-Grows existing network heap) in
      let later_reaches = λ (l : List NetworkConnection). λ (p : List ℕ). λ (u v : Store).
        λ (d : desired_connections env vapp existing networks
              (network_connection existing network heap).0 u
            ≡ ret (l, p, none) v).
          desired_connections-Reaches networks (network_connection existing network heap).0 l p u v
            d next_grows in
      let step =
        λ (l : List NetworkConnection). λ (p : List ℕ). Reaches-step network networks heap l p g in
      grind (arith, env.is_some-wrapf, step, later_reaches)

-- The connection is there and belongs to the network.
unfoldable pub IsOf : String → Option NetworkConnection → Type 0
IsOf network none = ⊥
IsOf network (some c) = c.network ≡ network

-- The connections of the section are those of the networks, in their order, and getPrimaryNetwork
-- finds one of the first network.
pub PrimaryFirst : String → List String → NetworkSection → Type 0
PrimaryFirst network others section =
    (names section.connections ≡ network ∷ others) × IsOf network (primary_network section)

primary-IsOf_first :
    (heap : List NetworkConnection) (place : ℕ) (network : String)
    → (places : List ℕ) → name_at heap place ≡ some network
    → index_at heap place ≡ some 0
    → IsOf network
        (primary_network (record { primary = 0; connections = at_places heap (place ∷ places) }))
unfolding name_at index_at at_places primary_network connection_at IsOf
primary-IsOf_first heap place network places named indexed = ground arith

numbered-PrimaryFirst :
    (network : String) (others : List String) (heap : List NetworkConnection) (places : List ℕ)
    → Points heap places (network ∷ others)
    → contains others network ≡ false
    → PrimaryFirst network others
        (record { primary = 0; connections = at_places (number_from 0 places heap) places })
unfolding PrimaryFirst Points
numbered-PrimaryFirst network others heap [] points absent = elim points [ ]
numbered-PrimaryFirst network others heap (place ∷ places) points absent =
    let numbered =
      Points-number_from 0 (place ∷ places) (place ∷ places) heap (network ∷ others) points in
    (
      names-at_places (number_from 0 (place ∷ places) heap) (place ∷ places) (network ∷ others)
          numbered,
      primary-IsOf_first (number_from 0 (place ∷ places) heap) place network places numbered.0
          (index_at-first heap place network places others points absent),
    )

module _ (env : Env) (vapp : VApp) (network : String) (others : List String) where
  section_of :
      (existing heap : List NetworkConnection) (places : List ℕ)
      → Reaches existing heap places (network ∷ others)
      → contains others network ≡ false
      → PrimaryFirst network others
          (record { primary = 0; connections = at_places (number_from 0 places heap) places })
  unfolding Reaches
  section_of existing heap places (grows, points) absent =
      numbered-PrimaryFirst network others heap places points absent

  -- The VM has the section that it had, or a section for the networks.
  pub SectionStep : Vm → Vm → Type 0
  SectionStep before after = (after ≡ before) ⊎ elim (after.network_section) [
    | none ↦ ⊥
    | some section ↦ PrimaryFirst network others section
  ]

  -- If reconcileVMNetworks returns no error, and the first network is not among the others, the VM is
  -- unchanged, or it has a network section with one connection for each network, in their order, in
  -- which getPrimaryNetwork finds a connection of the first network.
  pub reconcile_vm_networks-primary :
      (vm after : Vm) (s t : Store)
      → reconcile_vm_networks env vapp vm (network ∷ others) s ≡ ret (after, none) t
      → contains others network ≡ false
      → SectionStep vm after
  unfolding reconcile_vm_networks SectionStep
  reconcile_vm_networks-primary vm after s t e absent =
      let reaches = λ (existing : List NetworkConnection). λ (heap : List NetworkConnection).
        λ (places : List ℕ). λ (u v : Store).
          λ (d : desired_connections env vapp existing (network ∷ others) existing u
              ≡ ret (heap, places, none) v).
            section_of existing heap places
              (desired_connections-Reaches env vapp existing (network ∷ others) existing heap places
                u v d (Grows-self existing))
              absent in
      grind (arith, env.is_some-wrapf, reaches)
