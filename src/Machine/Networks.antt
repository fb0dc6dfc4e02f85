-- ===== src/Machine/Networks.antt =====
-- getPrimaryNetwork, reconcileVMNetworks, containsTheSameElements, getNetworkConnection and
-- ensureNetworkIsAttachedToVApp. The connections are shared through pointers: a pointer is a place
-- in a list of connections, of which the first are those of the VM.
pub mod Laws
pub mod Primary
use cluster_api_provider_clo.Base.{String, ℕ, zero, suc, Bool, true, false, Option, none, some}
use cluster_api_provider_clo.Base.{List, [], ◌∷◌, ◌++◌, is_some, is_none, not, ◌&&◌, ◌||◌}
use cluster_api_provider_clo.Base.{◌==◌, string_eq, nat_eq, if◌then◌else◌, length, get_elem?}
use cluster_api_provider_clo.Base.{contains}
use cluster_api_provider_clo.Effect.{Body, Fun, ◌>>=◌, ◌>>◌, leave, pure, run, when, call}
use cluster_api_provider_clo.Api.{Err, message}
use cluster_api_provider_clo.Vcd.{VApp, Vm, NetworkConnection, NetworkSection}
use cluster_api_provider_clo.Vcd.Calls.{network_names, get_org_vdc_network_by_name}
use cluster_api_provider_clo.Vcd.Calls.{add_org_network, get_network_connection_section}
use cluster_api_provider_clo.Vcd.Calls.{update_network_connection_section}
use cluster_api_provider_clo.Vcd.Env.{Env, Store, ask}

-- The first connection with an index.
unfoldable pub connection_at : ℕ → List NetworkConnection → Option NetworkConnection
connection_at index [] = none
connection_at index (c ∷ rest) = if c.index == index then some c else connection_at index rest

unfoldable pub primary_network : NetworkSection → Option NetworkConnection
primary_network section = connection_at section.primary section.connections

-- reflect.DeepEqual
unfoldable pub same_flag : Bool → Bool → Bool
same_flag true b = b
same_flag false b = not b

unfoldable pub same_connection : NetworkConnection → NetworkConnection → Bool
same_connection a b =
    a.network == b.network
    && (a.index == b.index
        && (a.ip_address == b.ip_address
            && (same_flag a.needs_customization b.needs_customization
                && (same_flag a.is_connected b.is_connected
                    && (a.allocation_mode == b.allocation_mode
                        && (a.adapter_type == b.adapter_type && a.details == b.details))))))

unfoldable pub has_connection : NetworkConnection → List NetworkConnection → Bool
has_connection c [] = false
has_connection c (d ∷ rest) = same_connection c d || has_connection c rest

unfoldable pub all_have : List NetworkConnection → List NetworkConnection → Bool
all_have [] others = true
all_have (c ∷ rest) others = has_connection c others && all_have rest others

unfoldable pub contains_the_same_elements : List NetworkConnection → List NetworkConnection → Bool
contains_the_same_elements array1 array2 = length array1 == length array2 && all_have array1 array2

-- The place of the first connection of a network.
unfoldable pub place_of : String → List NetworkConnection → Option ℕ
place_of network [] = none
place_of network (c ∷ rest) =
    let later = place_of network rest in
    if c.network == network then some 0 else elim later [ none ↦ none | some n ↦ some (suc n) ]

abbrev pub new_connection : String → NetworkConnection
new_connection network = record {
  network = network;
  index = 0;
  ip_address = "";
  needs_customization = false;
  is_connected = true;
  allocation_mode = "POOL";
  adapter_type = "VMXNET3";
  details = "";
}

-- A pointer to the connection of the VM, or to a new one, which takes the next place.
unfoldable pub network_connection :
    List NetworkConnection → String → List NetworkConnection → List NetworkConnection × ℕ
network_connection existing network heap = elim (place_of network existing) [
  | some place ↦ (heap, place)
  | none ↦ (heap ++ new_connection network ∷ [], length heap)
]

-- The connections at the places.
unfoldable pub at_places : List NetworkConnection → List ℕ → List NetworkConnection
at_places heap [] = []
at_places heap (place ∷ places) =
    let rest = at_places heap places in
    elim (get_elem? heap place) [ none ↦ rest | some c ↦ c ∷ rest ]

unfoldable pub set_index : ℕ → ℕ → List NetworkConnection → List NetworkConnection
set_index place index [] = []
set_index zero index (c ∷ rest) = record c { index = index } ∷ rest
set_index (suc place) index (c ∷ rest) = c ∷ set_index place index rest

-- The loop that numbers the connections through their pointers.
unfoldable pub number_from : ℕ → List ℕ → List NetworkConnection → List NetworkConnection
number_from index [] heap = heap
number_from index (place ∷ places) heap =
    number_from (suc index) places (set_index place index heap)

module _ (env : Env) where
  unfoldable pub ensure_network_is_attached_to_vapp : VApp → String → Fun Store (Option Err)
  ensure_network_is_attached_to_vapp vapp network = run do
    (names, _) ← ask (network_names vapp.id) env.texts_reply
    when (contains names network) (leave none)
    (_, err) ← ask (get_org_vdc_network_by_name network) env.text_reply
    when (is_some err) (leave (some (message "unable to get ovdc network")))
    e ← ask (add_org_network vapp.id network) env.error_reply
    when (is_some e) (leave (some (message "unable to add ovdc network to vApp")))
    pure none

  -- The loop over the networks: the connections in memory, and a pointer for each network.
  unfoldable pub desired_connections :
      VApp
      → List NetworkConnection
      → List String
      → List NetworkConnection
      → Fun Store (List NetworkConnection × List ℕ × Option Err)
  desired_connections vapp existing [] heap = run (pure (heap, [], none))
  desired_connections vapp existing (network ∷ networks) heap = run do
    err ← call (ensure_network_is_attached_to_vapp vapp network)
    when (is_some err)
        (leave (heap, [], env.wrapf err "Error ensuring network is attached to vApp"))
    let found = network_connection existing network heap
    (later, places, e) ← call (desired_connections vapp existing networks found.0)
    pure (later, found.1 ∷ places, e)

  -- The VM with its network section afterwards.
  unfoldable pub reconcile_vm_networks : VApp → Vm → List String → Fun Store (Vm × Option Err)
  reconcile_vm_networks vapp vm networks = run do
    (section, err) ← ask (get_network_connection_section vm.id) env.section_reply
    when (is_some err) (leave (vm, env.wrapf err "Failed to get attached networks to VM"))
    let existing = section.connections
    (heap, places, e) ← call (desired_connections vapp existing networks existing)
    when (is_some e) (leave (vm, e))
    when (contains_the_same_elements existing (at_places heap places)) (leave (vm, none))
    let updated : NetworkSection = record {
      primary = 0;
      connections = at_places (number_from 0 places heap) places;
    }
    failed ← ask (update_network_connection_section vm.id updated) env.error_reply
    when (is_some failed) (leave (vm, env.wrapf failed "failed to update networks of VM"))
    pure (record vm { network_section = some updated }, none)
