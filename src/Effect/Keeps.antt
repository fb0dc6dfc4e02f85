-- ===== src/Effect/Keeps.antt =====
-- What a function never takes away from the objects, one rule for each way to build a body.
use cluster_api_provider_clo.Base.{
  Bool, true, false, Option, none, some, if◌then◌else◌, List, [], ◌∷◌,
}
use cluster_api_provider_clo.Effect.{Outcome, exit, next, panic, Result, ret, panicked, Body, Fun}
use cluster_api_provider_clo.Effect.{
  ◌>>=◌, leave, pure, crash, call, gets, run, when, modify, if_nil,
}
use cluster_api_provider_clo.Effect.{if_empty}

-- `Q` holds of the objects, however the body or the function ends.
abbrev pub At : {S R A : Type 0} → (S → Type 0) → Outcome S R A → Type 0
At Q (exit r t) = Q t
At Q (next a t) = Q t
At Q (panic t) = Q t

abbrev pub AtEnd : {S R : Type 0} → (S → Type 0) → Result S R → Type 0
AtEnd Q (ret r t) = Q t
AtEnd Q (panicked t) = Q t

pub record Keeps {S R A : Type 0} (Q : S → Type 0) (m : Body S R A) : Type 0 where
  pub at : (s : S) → Q s → At Q (m s)

pub record KeepsFun {S R : Type 0} (Q : S → Type 0) (f : Fun S R) : Type 0 where
  pub at : (s : S) → Q s → AtEnd Q (f s)

At-call :
    {S A : Type 0} (R : Type 0) (Q : S → Type 0) (o : Result S A)
    → AtEnd Q o
    → At {R = R} Q (elim o [ ret a t ↦ next a t | panicked t ↦ panic t ])
At-call R Q (ret a t) h = h
At-call R Q (panicked t) h = h

At-run :
    {S R : Type 0} (Q : S → Type 0) (o : Outcome S R R)
    → At Q o
    → AtEnd Q (elim o [ exit r t ↦ ret r t | next r t ↦ ret r t | panic t ↦ panicked t ])
At-run Q (exit r t) h = h
At-run Q (next r t) h = h
At-run Q (panic t) h = h

module _ {S R A : Type 0} {Q : S → Type 0} where
  pub Keeps-leave : (r : R) → Keeps {A = A} Q (leave r)
  Keeps-leave r = record { at = λ s h. h }

  pub Keeps-pure : (a : A) → Keeps {R = R} Q (pure a)
  Keeps-pure a = record { at = λ s h. h }

  pub Keeps-crash : Keeps {R = R} {A = A} Q crash
  Keeps-crash = record { at = λ s h. h }

  pub Keeps-gets : (f : S → A) → Keeps {R = R} Q (gets f)
  Keeps-gets f = record { at = λ s h. h }

  pub Keeps-call : (f : Fun S A) → KeepsFun Q f → Keeps {R = R} Q (call f)
  Keeps-call f k = record { at = λ s h. At-call R Q (f s) (k.at s h) }

  pub Keeps-if :
      (b : Bool) (m n : Body S R A) → Keeps Q m → Keeps Q n → Keeps Q (if b then m else n)
  Keeps-if true m n km kn = km
  Keeps-if false m n km kn = kn

module _ {S R : Type 0} {Q : S → Type 0} where
  pub Keeps-run : (m : Body S R R) → Keeps Q m → KeepsFun Q (run m)
  Keeps-run m k = record { at = λ s h. At-run Q (m s) (k.at s h) }

  pub Keeps-when : (b : Bool) (m : Body S R (Unit {0})) → Keeps Q m → Keeps Q (when b m)
  Keeps-when true m k = k
  Keeps-when false m k = record { at = λ s h. h }

  pub Keeps-modify : (f : S → S) → ((s : S) → Q s → Q (f s)) → Keeps {R = R} Q (modify f)
  Keeps-modify f k = record { at = k }

module _ {S R A B : Type 0} {Q : S → Type 0} where
  At-bind :
      (o : Outcome S R A) (f : A → Body S R B)
      → At Q o
      → ((a : A) → Keeps Q (f a))
      → At Q (elim o [ exit r t ↦ exit r t | next a t ↦ f a t | panic t ↦ panic t ])
  At-bind (exit r t) f h k = h
  At-bind (next a t) f h k = (k a).at t h
  At-bind (panic t) f h k = h

  pub Keeps-bind :
      (m : Body S R A) (f : A → Body S R B)
      → Keeps Q m
      → ((a : A) → Keeps Q (f a))
      → Keeps Q (m >>= f)
  Keeps-bind m f km kf = record { at = λ s h. At-bind (m s) f (km.at s h) kf }

  -- A case split on an option.
  pub Keeps-option :
      (o : Option A) (n : Body S R B) (f : A → Body S R B)
      → Keeps Q n
      → ((a : A) → Keeps Q (f a))
      → Keeps Q (if_nil o n f)
  Keeps-option none n f kn kf = record { at = kn.at }
  Keeps-option (some a) n f kn kf = record { at = (kf a).at }

  pub Keeps-empty :
      (l : List A) (n m : Body S R B) → Keeps Q n → Keeps Q m → Keeps Q (if_empty l n m)
  Keeps-empty [] n m kn km = record { at = kn.at }
  Keeps-empty (a ∷ l) n m kn km = record { at = km.at }

pub ruleset keeps_rules = (
  Keeps-leave, Keeps-pure, Keeps-crash, Keeps-gets, Keeps-call, Keeps-if, Keeps-run, Keeps-when,
  Keeps-bind, Keeps-option, Keeps-empty,
)
