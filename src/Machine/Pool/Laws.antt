-- ===== src/Machine/Pool/Laws.antt =====
-- What is taken out of the pool and what is put into it.
use cluster_api_provider_clo.Base.{String, ℕ, zero, suc, Bool, true, false}
use cluster_api_provider_clo.Base.{
  List, [], ◌∷◌, ◌≡◌, ◌≤◌, refl, arith, ap, ◌∙◌, Bool-cases, inl, inr, ◌⊎◌,
}
use cluster_api_provider_clo.Base.{◌==◌, string_eq, if◌then◌else◌, length}
use cluster_api_provider_clo.Machine.Pool.{shifted, sweep, but_last, remove_address}

-- How often the pool has the address.
unfoldable pub count : String → List String → ℕ
count address [] = 0
count address (ip ∷ rest) =
    let more = count address rest in if ip == address then suc more else more

-- The pool without the address.
unfoldable pub without : String → List String → List String
without address [] = []
without address (ip ∷ rest) =
    let kept = without address rest in if ip == address then kept else ip ∷ kept

sweep-absent :
    (address : String) (ips : List String)
    → count address ips ≡ 0
    → (n : ℕ) → (sweep address n ips ≡ (ips, false))
unfolding sweep count
sweep-absent address ips h zero = refl
sweep-absent address [] h (suc n) = refl
sweep-absent address (ip ∷ rest) h (suc n) = grind (arith, sweep-absent address rest)

without-absent :
    (address : String) (ips : List String) → count address ips ≡ 0 → without address ips ≡ ips
unfolding without count
without-absent address [] h = refl
without-absent address (ip ∷ rest) h = grind (arith, without-absent address rest)

but_last-cons :
    (ip x : String) (rest : List String)
    → but_last (ip ∷ shifted x rest) ≡ ip ∷ but_last (shifted x rest)
unfolding but_last shifted
but_last-cons ip x [] = refl
but_last-cons ip x (y ∷ rest) = refl

but_last-shifted : (ip : String) (rest : List String) → but_last (shifted ip rest) ≡ rest
unfolding but_last shifted
but_last-shifted ip [] = refl
but_last-shifted ip (x ∷ rest) = but_last-cons x x rest ∙ ap (λ l. x ∷ l) (but_last-shifted x rest)

count-shifted :
    (address ip : String) (rest : List String)
    → count address (ip ∷ rest) ≡ 0
    → count address (shifted ip rest) ≡ 0
unfolding shifted count
count-shifted address ip [] h = h
count-shifted address ip (x ∷ rest) h = grind (arith, count-shifted address x rest)

not_empty : List String → Bool
not_empty [] = false
not_empty (ip ∷ rest) = true

but_last-not_empty :
    (ip : String) (rest : List String)
    → not_empty rest ≡ true
    → but_last (ip ∷ rest) ≡ ip ∷ but_last rest
unfolding but_last not_empty
but_last-not_empty ip [] h = ground arith
but_last-not_empty ip (x ∷ rest) h = refl

-- The array after the loop, where the address stands in it once.
record Removed (address : String) (ips swept : List String) (found : Bool) : Type 0 where
  found_it : found ≡ true
  some_left : not_empty swept ≡ true
  rest_is : but_last swept ≡ without address ips

sweep-found :
    (address ip : String) (rest : List String)
    → (ip == address) ≡ true
    → count address rest ≡ 0
    → Removed address
        (ip ∷ rest)
        (sweep address (suc (length rest)) (ip ∷ rest)).0
        (sweep address (suc (length rest)) (ip ∷ rest)).1
unfolding sweep shifted without count not_empty but_last
sweep-found address ip [] same h = record {
  found_it = ground arith;
  some_left = ground arith;
  rest_is = ground arith;
}
sweep-found address ip (x ∷ rest) same h =
    let still = sweep-absent address (shifted x rest) (count-shifted address x rest h) in
    let left = without-absent address (x ∷ rest) h in
    record {
      found_it = grind (arith, still (suc (length rest)));
      some_left = grind (arith, still (suc (length rest)));
      rest_is =
          grind (
            arith,
            still (suc (length rest)),
            left,
            but_last-shifted x rest,
            but_last-cons x x rest,
          );
    }

sweep-kept :
    (address ip : String) (rest : List String)
    → (ip == address) ≡ false
    → Removed address rest (sweep address (length rest) rest).0 (sweep address (length rest) rest).1
    → Removed address
        (ip ∷ rest)
        (sweep address (suc (length rest)) (ip ∷ rest)).0
        (sweep address (suc (length rest)) (ip ∷ rest)).1
unfolding sweep without not_empty
sweep-kept address ip rest differ kept =
    let cons = but_last-not_empty ip ((sweep address (length rest) rest).0) kept.some_left in
    record {
      found_it = grind (arith, kept.found_it);
      some_left = grind (arith, kept.some_left);
      rest_is = grind (arith, cons, kept.rest_is);
    }

zero_or_one : (n : ℕ) → n ≤ 1 → (n ≡ 0) ⊎ (n ≡ 1)
zero_or_one zero h = inl refl
zero_or_one (suc n) h = inr (omega arith)

sweep-once :
    (address : String) (ips : List String)
    → count address ips ≡ 1
    → Removed address ips (sweep address (length ips) ips).0 (sweep address (length ips) ips).1
unfolding count
sweep-once address [] h = absurd (ground arith)
sweep-once address (ip ∷ rest) h = elim (Bool-cases (ip == address)) [
  | inl same ↦ sweep-found address ip rest same (grind arith)
  | inr differ ↦ sweep-kept address ip rest differ (sweep-once address rest (grind arith))
]

-- If the pool has the address at most once, what reconcileDelete leaves is the pool without it,
-- though the loop writes to the array that it reads.
pub remove_address-without :
    (address : String) (ips : List String)
    → count address ips ≤ 1
    → remove_address address ips ≡ without address ips
unfolding remove_address
remove_address-without address ips h = elim (zero_or_one (count address ips) h) [
  | inl absent ↦
      grind (arith, sweep-absent address ips absent (length ips), without-absent address ips absent)
  | inr once ↦ grind (arith, sweep-once address ips once)
]
