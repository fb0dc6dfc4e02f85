-- ===== src/Machine/PostCustomization/Laws.antt =====
-- When the wait for a phase of the customization ends without an error.
use cluster_api_provider_clo.Base.{
  String, Bool, true, false, Option, none, some, List, [], ◌∷◌, ◌≡◌,
}
use cluster_api_provider_clo.Base.{◌++◌, is_none, refl, ◌⊎◌, inl, inr, sym}
use cluster_api_provider_clo.Base.{◌==◌, string_eq, not, ◌||◌, ◌&&◌, arith, ◌≢◌}
use mathlib.Core.Path.{subst}
use cluster_api_provider_clo.Api.{Err}
use cluster_api_provider_clo.Vcd.Env.{Env}
use cluster_api_provider_clo.Machine.PostCustomization.{Round, returned, check_script}
use cluster_api_provider_clo.Machine.PostCustomization.{str_in_slice, remove_from_slice, last_of}
use cluster_api_provider_clo.Machine.PostCustomization.{wait, possible_statuses}
use cluster_api_provider_clo.Machine.PostCustomization.{wait_for_post_customization_phase}

-- The status is none that may come, given whether the phase has begun.
abbrev pub is_invalid : Bool → String → Bool
is_invalid begun status =
    not ((status == "" && not begun) || (status == "in_progress" || status == "successful"))

-- Some round has the status of success, or one that may not come then.
unfoldable pub settles : Bool → List Round → Bool
settles begun [] = false
settles begun (r ∷ rounds) =
    r.status == "successful"
    || (is_invalid begun r.status || settles (begun || r.status == "in_progress") rounds)

-- The status was read without an error.
unfoldable pub quiet_calls : Round → Bool
quiet_calls r = is_none r.refresh_error && is_none r.status_error

-- Rounds in which nothing happens: no error, no end of the script, no timeout, and a status that may
-- come but is not "successful".
unfoldable pub quiet : Bool → List Round → Bool
quiet begun [] = true
quiet begun (r ∷ rounds) =
    quiet_calls r
    && (not (is_invalid begun r.status)
        && (not (r.status == "successful")
            && (is_none r.script_error
                && (r.script_status == ""
                    && (not r.timed_out && quiet (begun || r.status == "in_progress") rounds)))))

-- Whether the phase has begun after the rounds.
unfoldable pub begun_after : Bool → List Round → Bool
begun_after begun [] = begun
begun_after begun (r ∷ rounds) = begun_after (begun || r.status == "in_progress") rounds

begun_after-true : (rounds : List Round) → begun_after true rounds ≡ true
unfolding begun_after
begun_after-true [] = refl
begun_after-true (r ∷ rounds) = begun_after-true rounds

module _ (env : Env) (is_zero : String → Option Bool) where
  check_script-error : (r : Round) → check_script env is_zero r ≢ some none
  unfolding check_script
  check_script-error r = grind (arith, env.is_some-wrapf)

  wait_begun :
      (rounds : List Round)
      → wait env is_zero ("in_progress" ∷ "successful" ∷ []) "in_progress" rounds ≡ returned none
      → settles true rounds ≡ true
  unfolding wait settles str_in_slice remove_from_slice last_of
  wait_begun [] e = ground arith
  wait_begun (r ∷ rounds) e =
      grind (arith, env.is_some-wrapf, check_script-error r, wait_begun rounds)

  wait_first :
      (rounds : List Round)
      → wait env is_zero possible_statuses "" rounds ≡ returned none
      → settles false rounds ≡ true
  unfolding wait settles str_in_slice remove_from_slice last_of
  wait_first [] e = ground arith
  wait_first (r ∷ rounds) e =
      grind (arith, env.is_some-wrapf, check_script-error r, wait_first rounds, wait_begun rounds)

  -- If waitForPostCustomizationPhase returns no error, NewVDCManager gave none, and some round had
  -- the status "successful", or a status that may not come at that point.
  pub wait_for_post_customization_phase-settles :
      (manager_error : Option Err) (rounds : List Round)
      → wait_for_post_customization_phase env is_zero manager_error rounds ≡ returned none
      → (manager_error ≡ none) × (settles false rounds ≡ true)
  unfolding wait_for_post_customization_phase
  wait_for_post_customization_phase-settles manager_error rounds e =
      grind (arith, env.is_some-wrapf, wait_first)

  wait_begun-quiet :
      (rounds : List Round) (r : Round) (later : List Round)
      → quiet true rounds ≡ true
      → quiet_calls r ≡ true
      → is_invalid true r.status ≡ true
      → wait env is_zero ("in_progress" ∷ "successful" ∷ []) "in_progress" (rounds ++ r ∷ later)
        ≡ returned none
  unfolding wait quiet quiet_calls str_in_slice remove_from_slice last_of check_script
  wait_begun-quiet [] r later q c i = grind (arith, env.is_some-wrapf)
  wait_begun-quiet (x ∷ rounds) r later q c i = grind (arith, wait_begun-quiet rounds r later)

  -- A wait that goes on from a round with this status to an invalid one, and ends well.
  abbrev Passes : Round → List Round → Round → List Round → String → Type 0
  Passes x rounds r later status =
      quiet false (record x { status = status } ∷ rounds) ≡ true
      → is_invalid (begun_after false (record x { status = status } ∷ rounds)) r.status ≡ true
      → wait env is_zero possible_statuses "" (record x { status = status } ∷ (rounds ++ r ∷ later))
        ≡ returned none

  Passes-empty :
      (x : Round) (rounds : List Round) (r : Round) (later : List Round)
      → (quiet false rounds ≡ true
          → is_invalid (begun_after false rounds) r.status ≡ true
          → wait env is_zero possible_statuses "" (rounds ++ r ∷ later) ≡ returned none)
      → Passes x rounds r later ""
  unfolding string_eq wait quiet quiet_calls begun_after str_in_slice remove_from_slice last_of
      check_script
  Passes-empty x rounds r later ih q i = ground arith

  Passes-begun :
      (x : Round) (rounds : List Round) (r : Round) (later : List Round)
      → quiet_calls r ≡ true
      → Passes x rounds r later "in_progress"
  unfolding string_eq wait quiet quiet_calls begun_after str_in_slice remove_from_slice last_of
      check_script
  Passes-begun x rounds r later c q i =
      ground (arith, wait_begun-quiet rounds r later, begun_after-true rounds)

  quiet-status :
      (x : Round) (rounds : List Round)
      → quiet false (x ∷ rounds) ≡ true
      → (x.status ≡ "") ⊎ (x.status ≡ "in_progress")
  unfolding quiet
  quiet-status x rounds q = ground arith

  wait_first-quiet :
      (rounds : List Round) (r : Round) (later : List Round)
      → quiet false rounds ≡ true
      → quiet_calls r ≡ true
      → is_invalid (begun_after false rounds) r.status ≡ true
      → wait env is_zero possible_statuses "" (rounds ++ r ∷ later) ≡ returned none
  unfolding wait quiet_calls begun_after str_in_slice
  wait_first-quiet [] r later q c i = grind (arith, env.is_some-wrapf)
  wait_first-quiet (x ∷ rounds) r later q c i = elim (quiet-status x rounds q) [
    | inl e ↦
        let rest = λ (k : quiet false rounds ≡ true).
          λ (j : is_invalid (begun_after false rounds) r.status ≡ true).
            wait_first-quiet rounds r later k c j in
        subst (Passes x rounds r later) (sym e) (Passes-empty x rounds r later rest) q i
    | inr e ↦ subst (Passes x rounds r later) (sym e) (Passes-begun x rounds r later c) q i
  ]

  pub invalid_status_accepted :
      (rounds : List Round) (r : Round) (later : List Round)
      → quiet false rounds ≡ true
      → quiet_calls r ≡ true
      → is_invalid (begun_after false rounds) r.status ≡ true
      → wait_for_post_customization_phase env is_zero none (rounds ++ r ∷ later) ≡ returned none
  unfolding wait_for_post_customization_phase
  invalid_status_accepted rounds r later q c i = wait_first-quiet rounds r later q c i
