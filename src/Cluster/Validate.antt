-- ===== src/Cluster/Validate.antt =====
-- validateDerivedRDEProperties
pub mod Laws
use cluster_api_provider_clo.Base.{String, Bool, true, false, Option, none, some}
use cluster_api_provider_clo.Base.{◌==◌, ◌!=◌, string_eq, ◌&&◌, ◌||◌, if◌then◌else◌}
use cluster_api_provider_clo.Api.{Err, message}
use cluster_api_provider_clo.Api.Cluster.{VcdCluster}
use cluster_api_provider_clo.Vcd.Env.{Env}
use cluster_api_provider_clo.Cluster.Common.{no_rde_prefix}

module _ (env : Env) where
  -- The comparison of the two versions, where the stored one is a version.
  unfoldable pub compare_versions : String → String → Option Err
  compare_versions old new =
      if old != "" && old != no_rde_prefix
      then elim (env.semver_new old) [
        | none ↦ some (message "invalid RDE version in VCDCluster status")
        | some stored ↦ elim (env.semver_new new) [
          | none ↦ some (message "invalid RDE version derived")
          | some derived ↦
              if env.semver_lt derived stored
              then some
                  (message "derived RDE version is lesser than RDE version in VCDCluster status")
              else none
        ]
      ]
      else none

  unfoldable pub validate_derived_rde_properties : VcdCluster → String → String → Option Err
  validate_derived_rde_properties c infra_id version =
      let old = c.status.rde_version_in_use in
      if infra_id == "" || version == ""
      then some (message "empty values derived for infraID or RDEVersionInUse")
      else (if c.spec.rde_id != "" && c.spec.rde_id != infra_id
          then some (message "derived infraID is different from the infraID in VCDCluster spec")
          else (if c.status.infra_id != "" && c.status.infra_id != infra_id
              then some
                  (message "derived infraID is different from the infraID in VCDCluster status")
              else elim (compare_versions old version) [
                | some e ↦ some e
                | none ↦
                    if old == ""
                    then none
                    else (if (old == no_rde_prefix && version == no_rde_prefix)
                          || (old != no_rde_prefix && version != no_rde_prefix)
                        then none
                        else some
                            (message "stored and derived RDE versions mismatched for the cluster"))
              ]))
