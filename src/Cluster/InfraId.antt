-- ===== src/Cluster/InfraId.antt =====
-- reconcileInfraID, in its four parts.
pub mod Laws
use cluster_api_provider_clo.Base.{String, ℕ, Bool, true, false, Option, none, some, List, [], ◌∷◌}
use cluster_api_provider_clo.Base.{is_some, is_none, ◌==◌, ◌!=◌, string_eq, nat_eq, not, ◌&&◌, ◌||◌}
use cluster_api_provider_clo.Base.{if◌then◌else◌, starts_with, ◌<>◌}
use cluster_api_provider_clo.Effect.{Body, Fun, ◌>>=◌, ◌>>◌, leave, pure, crash, call, run}
use cluster_api_provider_clo.Effect.{if_nil, when, exit, next, panic, ret, panicked}
use cluster_api_provider_clo.Api.{Err, message}
use cluster_api_provider_clo.Api.Cluster.{VcdCluster, OwnerCluster}
use cluster_api_provider_clo.Vcd.{Client, DefinedEntity}
use cluster_api_provider_clo.Vcd.Calls.{get_org_by_name, get_defined_entities, patch_cluster_status}
use cluster_api_provider_clo.Vcd.Calls.{Trace, new_uuid}
use cluster_api_provider_clo.Vcd.Env.{Env, Store, ask, the_cluster, update_cluster}
use cluster_api_provider_clo.Rde.Sets.{report_error, report_event, clear_error}
use cluster_api_provider_clo.Rde.Version.{capvcd_rde_type_version, last_segment}
use cluster_api_provider_clo.Rde.Version.{is_capvcd_entity_type_registered, get_rde_version}
use cluster_api_provider_clo.Rde.Version.{check_for_empty_rde_and_update_created_by_versions}
use cluster_api_provider_clo.Rde.Version.{is_vcdke_cluster, check_if_cluster_rde_needs_upgrade}
use cluster_api_provider_clo.Rde.Convert.{convert_to_latest_rde_version_format}
use cluster_api_provider_clo.Cluster.Common.{no_rde_prefix, status_ok, text_contains}
use cluster_api_provider_clo.Entity.Create.{construct_and_create_rde_from_cluster}
use cluster_api_provider_clo.Entity.Reconcile.{RdeReads, reconcile_rde}
use cluster_api_provider_clo.Cluster.Validate.{validate_derived_rde_properties}

-- The derived infra ID and RDE version, or an error.
abbrev pub Derived : Type 0
Derived = String × String × Option Err

-- The assignments to status.infraId and status.rdeVersionInUse.
abbrev pub with_infra_id : String → String → VcdCluster → VcdCluster
with_infra_id infra_id version c = record c {
  status = record (c.status) { infra_id = infra_id; rde_version_in_use = version };
}

abbrev pub with_rde_id : String → VcdCluster → VcdCluster
with_rde_id infra_id c = record c { spec = record (c.spec) { rde_id = infra_id } }

-- The answer to Status().Patch.
abbrev status_reply : Env → Trace → VcdCluster × Option Err
status_reply env t = (env.cluster_reply t, env.error_reply t)

-- SkipRDE is a variable of the package, set from CAPVCD_SKIP_RDE when the program starts.
module _ (env : Env) (reads : RdeReads) (skip_rde : Bool) (owner : OwnerCluster) where
  -- The RDE of the cluster's name: the first that is there, or a new one.
  unfoldable pub adopt_or_create : Client → List DefinedEntity → Fun Store Derived
  adopt_or_create client [] = run do
    (rde_id, err) ←
        call (construct_and_create_rde_from_cluster env reads.listing reads.creation owner client)
    when (is_some err) (leave ("", "", some (message "error creating RDE for the cluster")))
    pure (rde_id, capvcd_rde_type_version, none)
  adopt_or_create client (entity ∷ _) =
      run (pure (entity.id, last_segment entity.entity_type, none))

  -- The part for an empty infra ID where SkipRDE is not set. Where the error of the RDE cannot be
  -- removed, the infra ID stays empty.
  unfoldable pub derive_from_name : Client → Fun Store Derived
  derive_from_name client = run do
    c ← the_cluster
    registered ← call (is_capvcd_entity_type_registered env capvcd_rde_type_version)
    when (not registered) do
      report_error env "RdeError" "" c.meta.name
      leave ("", "", some (message "capvcdCluster entity type not registered or rights missing"))
    (org, err) ← ask (get_org_by_name client.cluster_org_name) env.org_reply
    when (is_some err) (leave ("", "", some (message "error getting org by name for org")))
    when (is_none org) (leave ("", "", some (message "obtained nil org when getting org by name")))
    entities ← ask (get_defined_entities ("name==" <> c.meta.name)) env.entities_reply
    when (is_some (entities.error)) do
      report_error env "RdeError" "" c.meta.name
      leave ("", "", some (message "error checking if RDE is already present for the cluster"))
    let bad : Bool = elim (entities.status_code) [ none ↦ true | some code ↦ code != status_ok ]
    when bad do
      report_error env "RdeError" "" c.meta.name
      leave
          ("", "", some (message "Error while checking if RDE for the cluster is already present"))
    failed ← clear_error env "RdeError" "" ""
    when (is_some failed) (leave ("", c.status.rde_version_in_use, none))
    call (adopt_or_create client entities.values)

  -- A generated infra ID, for a cluster without an RDE.
  unfoldable pub generate_id : Fun Store Derived
  generate_id = run do id ← ask new_uuid env.uuid; pure (no_rde_prefix <> id, no_rde_prefix, none)

  unfoldable pub derive_new : Client → Fun Store Derived
  derive_new client = run (if skip_rde then call generate_id else call (derive_from_name client))

  -- The upgrade of an RDE, from the test of the versions on.
  unfoldable pub upgrade_rde : Client → String → String → Fun Store (String × Option Err)
  upgrade_rde client infra_id version = run do
    c ← the_cluster
    let stored = c.status.rde_version_in_use
    when
        (text_contains infra_id no_rde_prefix
          || (stored == "" || stored == capvcd_rde_type_version))
        (leave (version, none))
    vcdke ← call (is_vcdke_cluster env client infra_id)
    when (vcdke || not (check_if_cluster_rde_needs_upgrade env version capvcd_rde_type_version))
        (leave (version, none))
    (_, err) ← call (convert_to_latest_rde_version_format env client infra_id)
    when (is_some err) do
      report_error env "RdeError" "" c.meta.name
      leave ("", some (message "failed to upgrade RDE"))
    failed ← call (reconcile_rde env reads owner (some client) none)
    when (is_some failed) (report_error env "RdeError" "" c.meta.name)
    report_event env "RdeUpgraded" infra_id "" true
    _ ← clear_error env "RdeError" "" ""
    pure (capvcd_rde_type_version, none)

  -- The version of the RDE that an infra ID names.
  unfoldable pub stored_version : Client → String → Fun Store (String × Option Err)
  stored_version client infra_id = run do
    when (starts_with infra_id no_rde_prefix) (leave (no_rde_prefix, none))
    (_, version, err) ← call (get_rde_version env client infra_id)
    when (is_some err) (leave ("", some (message "unexpected error retrieving RDE")))
    e ← call (check_for_empty_rde_and_update_created_by_versions env client infra_id)
    when (is_some e) (leave ("", some (message "failed to update RDE with created by version")))
    pure (version, none)

  -- The part for an infra ID that is there.
  unfoldable pub derive_existing : Client → String → Fun Store Derived
  derive_existing client infra_id = run do
    (version, err) ← call (stored_version client infra_id)
    when (is_some err) (leave (infra_id, "", err))
    (upgraded, e) ← call (upgrade_rde client infra_id version)
    pure (infra_id, upgraded, e)

  -- The part below the derivation.
  unfoldable pub store_infra_id : String → String → Fun Store (Option Err)
  store_infra_id infra_id version = run do
    c ← the_cluster
    when (is_some (validate_derived_rde_properties env c infra_id version))
        (leave (some (message "error validating derived infraID and RDE version")))
    when (c.status.infra_id == "" || c.status.rde_version_in_use != version) do
      update_cluster (with_infra_id infra_id version)
      (answer, err) ←
          ask (patch_cluster_status (with_infra_id infra_id version c)) (status_reply env)
      when (is_some err) do
        report_error env "CAPVCDObjectPatchError" "" c.meta.name
        leave (some (message "unable to patch status of vcdCluster"))
      update_cluster (λ d. answer)
      _ ← clear_error env "CAPVCDObjectPatchError" "" answer.meta.name
      pure tt
    update_cluster (with_rde_id infra_id)
    pure none

  unfoldable pub reconcile_infra_id : Option Client → Fun Store (Option Err)
  reconcile_infra_id vcd_client = run do
    if_nil vcd_client (leave (some (message "vcdClient is nil"))) λ client. do
      c ← the_cluster
      let infra_id = if c.status.infra_id == "" then c.spec.rde_id else c.status.infra_id
      (derived, version, err) ←
          if infra_id == ""
          then call (derive_new client)
          else call (derive_existing client infra_id)
      when (is_some err) (leave err)
      call (store_infra_id derived version)
