-- ===== src/Cluster/Validate/Laws.antt =====
-- Which infra ID and RDE version a cluster can move to.
use cluster_api_provider_clo.Base.{String, true, false, none, some, ◌≡◌, ◌≢◌, ◌⊎◌, ◌↔◌}
use cluster_api_provider_clo.Base.{arith, ◌==◌, ◌!=◌, string_eq, ◌&&◌, ◌||◌}
use cluster_api_provider_clo.Api.Cluster.{VcdCluster}
use cluster_api_provider_clo.Vcd.{Version}
use cluster_api_provider_clo.Vcd.Env.{Env}
use cluster_api_provider_clo.Cluster.Common.{no_rde_prefix}
use cluster_api_provider_clo.Cluster.Validate.{compare_versions, validate_derived_rde_properties}

module _ (env : Env) where
  -- Both are semantic versions, and the new one is not lower.
  pub record NotLower (old new : String) : Type 0 where
    pub stored : Version
    pub derived : Version
    pub old_parsed : env.semver_new old ≡ some stored
    pub new_parsed : env.semver_new new ≡ some derived
    pub not_lower : env.semver_lt derived stored ≡ false
    pub old_rde : old ≢ no_rde_prefix
    pub new_rde : new ≢ no_rde_prefix

  -- The moves of the version: a first one, no RDE for ever, or a version that is not lower.
  pub VersionStep : String → String → Type 0
  VersionStep old new =
      (old ≡ "") ⊎ (((old ≡ no_rde_prefix) × (new ≡ no_rde_prefix)) ⊎ NotLower old new)

  pub record Admissible (c : VcdCluster) (infra_id version : String) : Type 0 where
    pub has_id : infra_id ≢ ""
    pub has_version : version ≢ ""
    pub spec_id : (c.spec.rde_id ≡ "") ⊎ (c.spec.rde_id ≡ infra_id)
    pub status_id : (c.status.infra_id ≡ "") ⊎ (c.status.infra_id ≡ infra_id)
    pub step : VersionStep c.status.rde_version_in_use version

  compare-step :
      (old new : String)
      → compare_versions env old new ≡ none
      → ((old ≡ "")
          ⊎ ((old == no_rde_prefix && new == no_rde_prefix)
              || (old != no_rde_prefix && new != no_rde_prefix))
            ≡ true)
      → VersionStep old new
  unfolding compare_versions VersionStep
  compare-step old new h k = ground arith

  step-compare :
      (old new : String)
      → VersionStep old new
      → (compare_versions env old new ≡ none)
        × ((old ≡ "")
            ⊎ ((old == no_rde_prefix && new == no_rde_prefix)
                || (old != no_rde_prefix && new != no_rde_prefix))
              ≡ true)
  unfolding compare_versions VersionStep
  step-compare old new h = ground arith

  pub validate-Admissible :
      (c : VcdCluster) (infra_id version : String)
      → validate_derived_rde_properties env c infra_id version ≡ none
      → Admissible c infra_id version
  unfolding validate_derived_rde_properties
  validate-Admissible c infra_id version h = grind (arith, compare-step)

  Admissible-validate :
      (c : VcdCluster) (infra_id version : String)
      → Admissible c infra_id version
      → validate_derived_rde_properties env c infra_id version ≡ none
  unfolding validate_derived_rde_properties
  Admissible-validate c infra_id version h =
      grind (arith, step-compare c.status.rde_version_in_use version h.step)

  -- validateDerivedRDEProperties accepts exactly the admissible moves: the infra ID and the version
  -- are not empty, the infra ID is the one of spec and status where these have one, and the version is
  -- the first one, or stays NO_RDE_, or is a semantic version not lower than the stored one.
  pub validate_derived_rde_properties_lem :
      (c : VcdCluster) (infra_id version : String)
      → (validate_derived_rde_properties env c infra_id version ≡ none)
        ↔ Admissible c infra_id version
  validate_derived_rde_properties_lem c infra_id version =
      (validate-Admissible c infra_id version, Admissible-validate c infra_id version)
