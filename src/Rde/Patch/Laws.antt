-- ===== src/Rde/Patch/Laws.antt =====
-- PatchRDE sends at most ten updates, and success is the answer to the last of them.
use cluster_api_provider_clo.Base.{
  String, ℕ, zero, suc, ◌+◌, ◌≤◌, Bool, true, false, Option, none, some,
}
use cluster_api_provider_clo.Base.{List, [], ◌∷◌, ◌⊎◌, is_none, ◌≡◌, ◌≢◌, arith, ◌==◌, nat_eq, ◌&&◌}
use cluster_api_provider_clo.Base.{string_eq}
use cluster_api_provider_clo.Effect.{ret, Returns}
use cluster_api_provider_clo.Effect.Keeps.{AtEnd}
use cluster_api_provider_clo.Api.{Err}
use cluster_api_provider_clo.Vcd.{Client, DefinedEntity}
use cluster_api_provider_clo.Vcd.Calls.{Trace, update_defined_entity}
use cluster_api_provider_clo.Vcd.Env.{Env, Store}
use cluster_api_provider_clo.Rde.Types.{MetadataPatch, SpecPatch, StatusPatch}
use cluster_api_provider_clo.Rde.Patch.{
  send_update, patch_attempt, patch_rounds, patch_rde, patch_status,
  set_is_management_cluster_in_rde,
}
use cluster_api_provider_clo.Rde.Patch.{patch_unguarded, is_empty, max_update_retries}

-- How many updates of an entity a trace holds.
pub updates : Trace → ℕ
updates [] = 0
updates (update_defined_entity e tag ∷ before) = suc (updates before)
updates (_ ∷ before) = updates before

-- The newest call is an update, answered with 200 and no error.
pub ends_updated : Env → Trace → Bool
ends_updated env (update_defined_entity e tag ∷ before) =
    let reply = env.entity_reply (update_defined_entity e tag ∷ before) in
    is_none (reply.error) && elim (reply.status_code) [ none ↦ false | some code ↦ code == 200 ]
ends_updated env _ = false

module _ (env : Env) where
  updates-patch_attempt :
      (specs : List SpecPatch) (metadatas : List MetadataPatch) (statuses : List StatusPatch)
      (id : String) (external_id : Option String) (s : Store)
      → AtEnd
          (λ t. updates t.trace ≤ updates s.trace + 1)
          (patch_attempt env specs metadatas statuses id external_id s)
  unfolding patch_attempt send_update updates
  updates-patch_attempt specs metadatas statuses id external_id s = ground arith

  send_update-updated :
      (new : DefinedEntity) (etag : String) (s t : Store) (r : Option DefinedEntity × Option Err)
      → send_update env new etag s ≡ ret (some r) t
      → ends_updated env t.trace ≡ true
  unfolding send_update ends_updated
  send_update-updated new etag s t r e = ground arith

  patch_attempt-updated :
      (specs : List SpecPatch) (metadatas : List MetadataPatch) (statuses : List StatusPatch)
      (id : String) (external_id : Option String) (s t : Store)
      (r : Option DefinedEntity × Option Err)
      → patch_attempt env specs metadatas statuses id external_id s ≡ ret (some r) t
      → r.1 ≡ none
      → (is_empty specs && (is_empty metadatas && is_empty statuses)) ≡ false
      → ends_updated env t.trace ≡ true
  unfolding patch_attempt
  patch_attempt-updated specs metadatas statuses id external_id s t r e ok full =
      grind (arith, send_update-updated)

  no_such_field-patch_attempt :
      (key : String) (more : List StatusPatch) (id : String) (external_id : Option String)
      (s t : Store) (r : Option DefinedEntity × Option Err)
      → patch_attempt env [] [] (StatusPatch.no_such_field key ∷ more) id external_id s
        ≡ ret (some r) t
      → r.1 ≢ none
  unfolding patch_attempt patch_status
  no_such_field-patch_attempt key more id external_id s t r e = ground arith

  updates-patch_rounds :
      (left : ℕ) (specs : List SpecPatch) (metadatas : List MetadataPatch)
      (statuses : List StatusPatch) (id : String) (external_id : Option String) (s : Store)
      → AtEnd
          (λ t. updates t.trace ≤ updates s.trace + left)
          (patch_rounds env left specs metadatas statuses id external_id s)
  unfolding patch_rounds updates
  updates-patch_rounds zero specs metadatas statuses id external_id s = ground arith
  updates-patch_rounds (suc left) specs metadatas statuses id external_id s = grind (
    arith,
    updates-patch_attempt specs metadatas statuses id external_id,
    updates-patch_rounds left specs metadatas statuses id external_id,
  )

  patch_rounds-updated :
      (left : ℕ) (specs : List SpecPatch) (metadatas : List MetadataPatch)
      (statuses : List StatusPatch) (id : String) (external_id : Option String) (s t : Store)
      (r : Option DefinedEntity × Option Err)
      → patch_rounds env left specs metadatas statuses id external_id s ≡ ret r t
      → r.1 ≡ none
      → (is_empty specs && (is_empty metadatas && is_empty statuses)) ≡ false
      → ends_updated env t.trace ≡ true
  unfolding patch_rounds
  patch_rounds-updated zero specs metadatas statuses id external_id s t r e ok full = ground arith
  patch_rounds-updated (suc left) specs metadatas statuses id external_id s t r e ok full = grind (
    arith,
    patch_attempt-updated specs metadatas statuses id external_id,
    patch_rounds-updated left specs metadatas statuses id external_id,
  )

  patch_attempt-empty :
      (specs : List SpecPatch) (metadatas : List MetadataPatch) (statuses : List StatusPatch)
      (id : String) (external_id : Option String) (s t : Store)
      (r : Option DefinedEntity × Option Err)
      → patch_attempt env specs metadatas statuses id external_id s ≡ ret (some r) t
      → (is_empty specs && (is_empty metadatas && is_empty statuses)) ≡ true
      → updates t.trace ≡ updates s.trace
  unfolding patch_attempt updates
  patch_attempt-empty specs metadatas statuses id external_id s t r e empty = grind arith

  patch_attempt-ends :
      (specs : List SpecPatch) (metadatas : List MetadataPatch) (statuses : List StatusPatch)
      (id : String) (external_id : Option String) (s t : Store)
      → patch_attempt env specs metadatas statuses id external_id s ≡ ret none t
      → (is_empty specs && (is_empty metadatas && is_empty statuses)) ≢ true
  unfolding patch_attempt
  patch_attempt-ends specs metadatas statuses id external_id s t e empty = grind arith

  patch_rounds-empty :
      (left : ℕ) (specs : List SpecPatch) (metadatas : List MetadataPatch)
      (statuses : List StatusPatch) (id : String) (external_id : Option String) (s t : Store)
      (r : Option DefinedEntity × Option Err)
      → patch_rounds env left specs metadatas statuses id external_id s ≡ ret r t
      → (is_empty specs && (is_empty metadatas && is_empty statuses)) ≡ true
      → updates t.trace ≡ updates s.trace
  unfolding patch_rounds
  patch_rounds-empty zero specs metadatas statuses id external_id s t r e empty = ground arith
  patch_rounds-empty (suc left) specs metadatas statuses id external_id s t r e empty = grind (
    arith,
    patch_attempt-empty specs metadatas statuses id external_id,
    patch_attempt-ends specs metadatas statuses id external_id,
  )

  -- There is nothing to patch.
  abbrev pub nothing : List SpecPatch → List MetadataPatch → List StatusPatch → Bool
  nothing specs metadatas statuses = is_empty specs && (is_empty metadatas && is_empty statuses)

  -- PatchRDE has worked: the last call was an update answered with 200, or no update was sent since
  -- there was nothing to patch.
  abbrev pub Worked : Bool → Trace → Trace → Type 0
  Worked empty before after =
      ((empty ≡ false) × (ends_updated env after ≡ true))
      ⊎ ((empty ≡ true) × (updates after ≡ updates before))

  -- Whatever the patches and the answers are, PatchRDE returns and does not panic, and it sends at
  -- most ten updates; if it returns no error, then where there is something to patch the last call
  -- was an update that was answered with status 200, and where there is nothing to patch it sent no
  -- update.
  pub patch_rde_lem :
      (client : Client) (specs : List SpecPatch) (metadatas : List MetadataPatch)
      (statuses : List StatusPatch) (id : String) (external_id : Option String) (s : Store)
      → Returns
          (λ r t.
            (updates t.trace ≤ updates s.trace + max_update_retries)
            × ((r.1 ≢ none) ⊎ Worked (nothing specs metadatas statuses) s.trace t.trace))
          (patch_rde env client specs metadatas statuses id external_id s)
  unfolding patch_rde patch_unguarded updates
  patch_rde_lem client specs metadatas statuses id external_id s = grind (
    arith,
    updates-patch_rounds 10 specs metadatas statuses id external_id,
    patch_rounds-updated 10 specs metadatas statuses id external_id,
    patch_rounds-empty 10 specs metadatas statuses id external_id,
  )

  no_such_field_refused :
      (left : ℕ) (key : String) (more : List StatusPatch) (id : String)
      (external_id : Option String) (s t : Store) (r : Option DefinedEntity × Option Err)
      → patch_rounds env left [] [] (StatusPatch.no_such_field key ∷ more) id external_id s
        ≡ ret r t
      → r.1 ≢ none
  unfolding patch_rounds
  no_such_field_refused zero key more id external_id s t r e = ground arith
  no_such_field_refused (suc left) key more id external_id s t r e =
      grind (arith, no_such_field-patch_attempt, no_such_field_refused left)

  -- SetIsManagementClusterInRDE fails for every RDE ID that is not empty, whatever Cloud Director
  -- answers: the field that it patches does not exist.
  pub set_is_management_cluster_fails :
      (client : Client) (id : String) (s : Store)
      → id ≢ ""
      → Returns (λ r t. r ≢ none) (set_is_management_cluster_in_rde env client id s)
  unfolding set_is_management_cluster_in_rde patch_rde patch_unguarded
  set_is_management_cluster_fails client id s h = grind (arith, no_such_field_refused 10)
