-- ===== src/Machine/Networks/Laws.antt =====
-- Pointers to connections: their networks, and the index that the loop gives them.
use cluster_api_provider_clo.Base.{String, ℕ, zero, suc, false, Option, none, some}
use cluster_api_provider_clo.Base.{
  List, [], ◌∷◌, ◌++◌, ◌≡◌, ◌≢◌, refl, arith, ap, ◌∙◌, inl, inr, Option-cases,
}
use cluster_api_provider_clo.Base.{string_eq, nat_eq, length, get_elem?, contains}
use cluster_api_provider_clo.Vcd.{NetworkConnection}
use cluster_api_provider_clo.Machine.Networks.{place_of, new_connection, network_connection}
use cluster_api_provider_clo.Machine.Networks.{at_places, set_index, number_from}

-- The network and the index of the connection at a place.
unfoldable pub name_at : List NetworkConnection → ℕ → Option String
name_at heap place = elim (get_elem? heap place) [ none ↦ none | some c ↦ some c.network ]

unfoldable pub index_at : List NetworkConnection → ℕ → Option ℕ
index_at heap place = elim (get_elem? heap place) [ none ↦ none | some c ↦ some c.index ]

-- The places hold connections of the networks, in their order.
unfoldable pub Points : List NetworkConnection → List ℕ → List String → Type 0
Points heap [] [] = Unit
Points heap (place ∷ places) (n ∷ ns) = (name_at heap place ≡ some n) × Points heap places ns
Points heap [] (n ∷ ns) = ⊥
Points heap (place ∷ places) [] = ⊥

unfoldable pub names : List NetworkConnection → List String
names [] = []
names (c ∷ rest) = c.network ∷ names rest

place_of-name :
    (network : String) (existing : List NetworkConnection) (place : ℕ)
    → place_of network existing ≡ some place
    → name_at existing place ≡ some network
unfolding place_of name_at
place_of-name network [] place e = ground arith
place_of-name network (c ∷ rest) zero e = grind arith
place_of-name network (c ∷ rest) (suc place) e = grind (arith, place_of-name network rest place)

name_at-append :
    (heap more : List NetworkConnection) (place : ℕ) (n : String)
    → name_at heap place ≡ some n
    → name_at (heap ++ more) place ≡ some n
unfolding name_at
name_at-append [] more place n e = ground arith
name_at-append (c ∷ heap) more zero n e = e
name_at-append (c ∷ heap) more (suc place) n e = name_at-append heap more place n e

name_at-last :
    (heap : List NetworkConnection) (c : NetworkConnection)
    → name_at (heap ++ c ∷ []) (length heap) ≡ some c.network
unfolding name_at
name_at-last [] c = refl
name_at-last (d ∷ heap) c = name_at-last heap c

-- What the second list of connections keeps of the first.
pub record Grows (heap later : List NetworkConnection) : Type 0 where
  pub name : (place : ℕ) (n : String) → name_at heap place ≡ some n → name_at later place ≡ some n

pub Grows-self : (heap : List NetworkConnection) → Grows heap heap
Grows-self heap = record { name = λ place n e. e }

pub Grows-trans : (a b c : List NetworkConnection) → Grows a b → Grows b c → Grows a c
Grows-trans a b c f g = record { name = λ place n e. g.name place n (f.name place n e) }

pub network_connection-Grows :
    (existing : List NetworkConnection) (network : String) (heap : List NetworkConnection)
    → Grows heap (network_connection existing network heap).0
unfolding network_connection
network_connection-Grows existing network heap =
    let more = name_at-append heap (new_connection network ∷ []) in
    elim (Option-cases (place_of network existing)) [
      | inl missing ↦ record { name = λ place n e. grind (arith, missing, more place n e) }
      | inr (place, found) ↦ record { name = λ other n e. grind (arith, found) }
    ]

pub network_connection-name :
    (existing : List NetworkConnection) (network : String) (heap : List NetworkConnection)
    → Grows existing heap
    → name_at
        (network_connection existing network heap).0
        (network_connection existing network heap).1
      ≡ some network
unfolding network_connection
network_connection-name existing network heap g = elim (Option-cases (place_of network existing)) [
  | inl missing ↦ grind (arith, missing, name_at-last heap (new_connection network))
  | inr (place, found) ↦
      grind (arith, found, g.name place network (place_of-name network existing place found))
]

name_at-set_index :
    (place index other : ℕ) (heap : List NetworkConnection)
    → name_at (set_index place index heap) other ≡ name_at heap other
unfolding name_at set_index
name_at-set_index place index other [] = refl
name_at-set_index zero index zero (c ∷ heap) = refl
name_at-set_index zero index (suc other) (c ∷ heap) = refl
name_at-set_index (suc place) index zero (c ∷ heap) = refl
name_at-set_index (suc place) index (suc other) (c ∷ heap) =
    name_at-set_index place index other heap

pub name_at-number_from :
    (index : ℕ) (places : List ℕ) (heap : List NetworkConnection) (other : ℕ)
    → name_at (number_from index places heap) other ≡ name_at heap other
unfolding number_from
name_at-number_from index [] heap other = refl
name_at-number_from index (place ∷ places) heap other =
    name_at-number_from (suc index) places (set_index place index heap) other
    ∙ name_at-set_index place index other heap

index_at-set_index :
    (place index : ℕ) (heap : List NetworkConnection) (n : String)
    → name_at heap place ≡ some n
    → index_at (set_index place index heap) place ≡ some index
unfolding name_at index_at set_index
index_at-set_index place index [] n e = ground arith
index_at-set_index zero index (c ∷ heap) n e = refl
index_at-set_index (suc place) index (c ∷ heap) n e = index_at-set_index place index heap n e

index_at-set_other :
    (place index other : ℕ) (heap : List NetworkConnection)
    → place ≢ other
    → index_at (set_index place index heap) other ≡ index_at heap other
unfolding index_at set_index
index_at-set_other place index other [] differ = refl
index_at-set_other zero index zero (c ∷ heap) differ = absurd (differ refl)
index_at-set_other zero index (suc other) (c ∷ heap) differ = refl
index_at-set_other (suc place) index zero (c ∷ heap) differ = refl
index_at-set_other (suc place) index (suc other) (c ∷ heap) differ =
    index_at-set_other place index other heap (λ e. differ (ap suc e))

index_at-number_from :
    (index : ℕ) (places : List ℕ) (heap : List NetworkConnection) (other : ℕ)
    → contains places other ≡ false
    → index_at (number_from index places heap) other ≡ index_at heap other
unfolding number_from
index_at-number_from index [] heap other absent = refl
index_at-number_from index (place ∷ places) heap other absent =
    let differ : place ≢ other = λ e. ground arith in
    index_at-number_from (suc index) places (set_index place index heap) other (ground arith)
    ∙ index_at-set_other place index other heap differ

-- A place is not among the others if its network is not among theirs.
place_absent :
    (heap : List NetworkConnection) (place : ℕ) (n : String) (places : List ℕ) (ns : List String)
    → name_at heap place ≡ some n
    → Points heap places ns
    → contains ns n ≡ false
    → contains places place ≡ false
unfolding Points
place_absent heap place n [] ns e points absent = refl
place_absent heap place n (p ∷ places) [] e points absent = elim points [ ]
place_absent heap place n (p ∷ places) (m ∷ ns) e (named, points) absent =
    grind (arith, place_absent heap place n places ns e points)

pub index_at-first :
    (heap : List NetworkConnection) (place : ℕ) (n : String) (places : List ℕ) (ns : List String)
    → Points heap (place ∷ places) (n ∷ ns)
    → contains ns n ≡ false
    → index_at (number_from 0 (place ∷ places) heap) place ≡ some 0
unfolding Points number_from
index_at-first heap place n places ns (named, points) absent =
    index_at-number_from 1 places (set_index place 0 heap) place
      (place_absent heap place n places ns named points absent)
    ∙ index_at-set_index place 0 heap n named

pub names-at_places :
    (heap : List NetworkConnection) (places : List ℕ) (ns : List String)
    → Points heap places ns
    → names (at_places heap places) ≡ ns
unfolding Points names at_places name_at
names-at_places heap [] [] points = refl
names-at_places heap [] (n ∷ ns) points = elim points [ ]
names-at_places heap (p ∷ places) [] points = elim points [ ]
names-at_places heap (p ∷ places) (n ∷ ns) (named, points) =
    grind (arith, names-at_places heap places ns points)

pub Points-number_from :
    (index : ℕ) (numbered places : List ℕ) (heap : List NetworkConnection) (ns : List String)
    → Points heap places ns
    → Points (number_from index numbered heap) places ns
unfolding Points
Points-number_from index numbered [] heap [] points = tt
Points-number_from index numbered [] heap (n ∷ ns) points = points
Points-number_from index numbered (p ∷ places) heap [] points = points
Points-number_from index numbered (p ∷ places) heap (n ∷ ns) (named, points) = (
  name_at-number_from index numbered heap p ∙ named,
  Points-number_from index numbered places heap ns points,
)
