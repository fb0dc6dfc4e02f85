-- ===== src/Effect.antt =====
-- The control flow of a Go function: it reads and writes the objects in memory, it may return from
-- the middle, and it may panic. `exit` is a `return` that has been reached, `next` a value to go
-- on with. `S` is what the function can change, `R` what it returns.
pub mod Keeps
use cluster_api_provider_clo.Base.{Bool, true, false, Option, none, some, List, []}

pub data Outcome (S R A : Type 0) : Type 0 where
  exit : R → S → Outcome S R A
  next : A → S → Outcome S R A
  panic : S → Outcome S R A

-- What a call of a whole function ends with.
pub data Result (S R : Type 0) : Type 0 where
  ret : R → S → Result S R
  panicked : S → Result S R

-- The body of a function that returns an `R`.
abbrev pub Body : Type 0 → Type 0 → Type 0 → Type 0
Body S R A = S → Outcome S R A

abbrev pub Fun : Type 0 → Type 0 → Type 0
Fun S R = S → Result S R

module _ {S R A B : Type 0} where
  infixl 5 ◌>>=◌ ◌>>◌
  abbrev pub ◌>>=◌ : Body S R A → (A → Body S R B) → Body S R B
  ◌>>=◌ m f s = elim (m s) [ exit r t ↦ exit r t | next a t ↦ f a t | panic t ↦ panic t ]

  abbrev pub ◌>>◌ : Body S R A → Body S R B → Body S R B
  m >> k = m >>= λ _. k

module _ {S R A : Type 0} where
  -- `return r`
  abbrev pub leave : R → Body S R A
  leave r s = exit r s

  abbrev pub pure : A → Body S R A
  pure a s = next a s

  abbrev pub crash : Body S R A
  crash s = panic s

  -- A call of another function.
  abbrev pub call : Fun S A → Body S R A
  call f s = elim (f s) [ ret a t ↦ next a t | panicked t ↦ panic t ]

  abbrev pub gets : (S → A) → Body S R A
  gets f s = next (f s) s

module _ {S R A B : Type 0} where
  -- A pointer that may be nil.
  abbrev pub if_nil : Option A → Body S R B → (A → Body S R B) → Body S R B
  if_nil o n f s = elim o [ none ↦ n s | some a ↦ f a s ]

  abbrev pub if_empty : List A → Body S R B → Body S R B → Body S R B
  if_empty l n m s = elim l [ [] ↦ n s | _ ↦ m s ]

module _ {S R : Type 0} where
  -- A body whose last value is returned.
  abbrev pub run : Body S R R → Fun S R
  run m s = elim (m s) [ exit r t ↦ ret r t | next r t ↦ ret r t | panic t ↦ panicked t ]

  abbrev pub when : Bool → Body S R (Unit {0}) → Body S R (Unit {0})
  when b m s = elim b [ true ↦ m s | false ↦ next tt s ]

  abbrev pub modify : (S → S) → Body S R (Unit {0})
  modify f s = next tt (f s)

module _ {S R : Type 0} where
  -- What holds of the value that is returned and of the objects, if the call returns.
  abbrev pub Ensures : (R → S → Type 0) → Result S R → Type 0
  Ensures P (ret r t) = P r t
  Ensures P (panicked t) = Unit

  -- The call returns, with a value and objects of which `P` holds.
  abbrev pub Returns : (R → S → Type 0) → Result S R → Type 0
  Returns P (ret r t) = P r t
  Returns P (panicked t) = ⊥

  abbrev pub Panics : Result S R → Type 0
  Panics (ret r t) = ⊥
  Panics (panicked t) = Unit
