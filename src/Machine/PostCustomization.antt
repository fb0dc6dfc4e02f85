-- ===== src/Machine/PostCustomization.antt =====
-- waitForPostCustomizationPhase, with strInSlice and removeFromSlice.
pub mod Laws
use cluster_api_provider_clo.Base.{String, ℕ, Bool, true, false, Option, none, some, List, [], ◌∷◌}
use cluster_api_provider_clo.Base.{is_some, ◌==◌, ◌!=◌, string_eq, nat_eq, not, if◌then◌else◌}
use cluster_api_provider_clo.Base.{◌<◌}
use cluster_api_provider_clo.Api.{Err, message}
use cluster_api_provider_clo.Vcd.Env.{Env}

unfoldable pub str_in_slice : String → List String → Bool
str_in_slice find_str [] = false
str_in_slice find_str (s ∷ rest) = if s == find_str then true else str_in_slice find_str rest

unfoldable pub remove_from_slice : String → List String → List String
remove_from_slice gone [] = []
remove_from_slice gone (s ∷ rest) = if s == gone then rest else s ∷ remove_from_slice gone rest

-- The last item; the list of the code is never empty there.
unfoldable pub last_of : String → List String → String
last_of other [] = other
last_of other (s ∷ rest) = last_of s rest

-- What Cloud Director answers in one round of the loop, and whether more than 600 seconds have
-- passed at its end.
pub record Round : Type 0 where
  pub refresh_error : Option Err
  pub status : String
  pub status_error : Option Err
  pub script_status : String
  pub script_error : Option Err
  pub reason_error : Option Err
  pub timed_out : Bool

-- The wait has returned, or it sleeps before a round that has not been made.
pub data Wait : Type 0 where
  returned : Option Err → Wait
  sleeping : Wait

abbrev pub possible_statuses : List String
possible_statuses = "" ∷ "in_progress" ∷ "successful" ∷ []

-- `is_zero` is strconv.Atoi, as far as the code looks at the number: none is an error.
module _ (env : Env) (is_zero : String → Option Bool) where
  -- The round from the status of the script on: an error, or `none` to sleep.
  unfoldable pub check_script : Round → Option (Option Err)
  check_script r =
      let late : Option (Option Err) =
        if r.timed_out
        then some (some (message "time for postcustomization status exceeded timeout"))
        else none in
      if is_some r.script_error
      then some (env.wrapf r.script_error "unable to get extra config value")
      else (if r.script_status == "" then late else elim (is_zero r.script_status) [
        | none ↦
            some
              (env.wrapf (some (message "Atoi")) "unable to convert script execution status to int")
        | some true ↦ late
        | some false ↦
            if is_some r.reason_error
            then some (env.wrapf r.reason_error "unable to get extra config value")
            else some (some (message "script failed"))
      ])

  -- The loop, with the statuses that may still come and the current one. The error that is wrapped
  -- for an invalid status is nil.
  unfoldable pub wait : List String → String → List Round → Wait
  wait possible current [] = sleeping
  wait possible current (r ∷ rounds) =
      let possible' =
        if r.status != current then remove_from_slice current possible else possible in
      let rest = wait possible' r.status rounds in
      if is_some r.refresh_error
      then returned (env.wrapf r.refresh_error "unable to refresh vm")
      else (if is_some r.status_error
          then returned (env.wrapf r.status_error "unable to get extra config value")
          else (if not (str_in_slice r.status possible)
              then returned (env.wrapf none "invalid postcustomiation phase")
              else (if r.status == last_of "" possible'
                  then returned none
                  else elim (check_script r) [ some e ↦ returned e | none ↦ rest ])))

  -- The whole function; `manager_error` is the error of NewVDCManager.
  unfoldable pub wait_for_post_customization_phase : Option Err → List Round → Wait
  wait_for_post_customization_phase manager_error rounds =
      if is_some manager_error
      then returned (env.wrapf manager_error "failed to create a vdc manager object")
      else wait possible_statuses "" rounds
