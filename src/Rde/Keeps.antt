-- ===== src/Rde/Keeps.antt =====
-- The RDE functions make calls and leave the cluster in memory as it is.
use cluster_api_provider_clo.Base.{String, ℕ, Option, List, zero, suc}
use cluster_api_provider_clo.Effect.Keeps.{KeepsFun, Keeps, AtEnd}
use cluster_api_provider_clo.Effect.{Fun, Result, ret, panicked}
use cluster_api_provider_clo.Api.Cluster.{VcdCluster}
use cluster_api_provider_clo.Vcd.{Client, DefinedEntity}
use cluster_api_provider_clo.Vcd.Env.{Env, Store}
use cluster_api_provider_clo.Vcd.Objects.{OnCluster, on_cluster_rules}
use cluster_api_provider_clo.Rde.Types.{MetadataPatch, SpecPatch, StatusPatch}
use cluster_api_provider_clo.Rde.Patch.{
  Patched, patched, refused, panics, checked_content, recovered,
}
use cluster_api_provider_clo.Rde.Patch.{patch_attempt, patch_rounds, patch_rde, send_update}
use cluster_api_provider_clo.Rde.Patch.{patch_unguarded}
use cluster_api_provider_clo.Rde.Version.{is_capvcd_entity_type_registered, get_rde_version}
use cluster_api_provider_clo.Rde.Version.{check_for_empty_rde_and_update_created_by_versions}
use cluster_api_provider_clo.Rde.Version.{is_vcdke_cluster}
use cluster_api_provider_clo.Rde.Convert.{send_upgrade, convert_attempt, convert_rounds}
use cluster_api_provider_clo.Rde.Convert.{convert_from_100_format, convert_from_110_format}
use cluster_api_provider_clo.Rde.Convert.{convert_to_latest_rde_version_format}

module _ (env : Env) (P : VcdCluster → Type 0) where
  pub registered-OnCluster :
      (version : String) → KeepsFun (OnCluster P) (is_capvcd_entity_type_registered env version)
  unfolding is_capvcd_entity_type_registered
  registered-OnCluster version = search on_cluster_rules depth 60

  pub get_rde_version-OnCluster :
      (client : Client) (id : String) → KeepsFun (OnCluster P) (get_rde_version env client id)
  unfolding get_rde_version
  get_rde_version-OnCluster client id = search on_cluster_rules depth 60

  pub is_vcdke_cluster-OnCluster :
      (client : Client) (id : String) → KeepsFun (OnCluster P) (is_vcdke_cluster env client id)
  unfolding is_vcdke_cluster
  is_vcdke_cluster-OnCluster client id = search on_cluster_rules depth 60

  checked_content-OnCluster : (p : Patched) → Keeps (OnCluster P) (checked_content env p)
  checked_content-OnCluster (patched m) = search on_cluster_rules depth 60
  checked_content-OnCluster refused = search on_cluster_rules depth 60
  checked_content-OnCluster panics = search on_cluster_rules depth 60

  patch_attempt-OnCluster :
      (specs : List SpecPatch) (metadatas : List MetadataPatch) (statuses : List StatusPatch)
      (id : String) (external_id : Option String)
      → KeepsFun (OnCluster P) (patch_attempt env specs metadatas statuses id external_id)
  unfolding patch_attempt send_update
  patch_attempt-OnCluster specs metadatas statuses id external_id =
      search (on_cluster_rules, checked_content-OnCluster) depth 60

  patch_rounds-OnCluster :
      (n : ℕ) (specs : List SpecPatch) (metadatas : List MetadataPatch)
      (statuses : List StatusPatch) (id : String) (external_id : Option String)
      → KeepsFun (OnCluster P) (patch_rounds env n specs metadatas statuses id external_id)
  unfolding patch_rounds
  patch_rounds-OnCluster zero specs metadatas statuses id external_id =
      search on_cluster_rules depth 60
  patch_rounds-OnCluster (suc n) specs metadatas statuses id external_id =
      search (on_cluster_rules, patch_attempt-OnCluster, patch_rounds-OnCluster n) depth 60

  AtEnd-recovered :
      {R : Type 0} (r : R) (o : Result Store R)
      → AtEnd (OnCluster P) o
      → AtEnd (OnCluster P) (elim o [ ret a t ↦ ret a t | panicked t ↦ ret r t ])
  AtEnd-recovered r (ret a t) h = h
  AtEnd-recovered r (panicked t) h = h

  recovered-OnCluster :
      {R : Type 0} (r : R) (f : Fun Store R)
      → KeepsFun (OnCluster P) f
      → KeepsFun (OnCluster P) (recovered r f)
  recovered-OnCluster r f k = record { at = λ s h. AtEnd-recovered r (f s) (k.at s h) }

  patch_unguarded-OnCluster :
      (client : Client) (specs : List SpecPatch) (metadatas : List MetadataPatch)
      (statuses : List StatusPatch) (id : String) (external_id : Option String)
      → KeepsFun (OnCluster P) (patch_unguarded env client specs metadatas statuses id external_id)
  unfolding patch_unguarded
  patch_unguarded-OnCluster client specs metadatas statuses id external_id =
      search (on_cluster_rules, patch_rounds-OnCluster) depth 60

  pub patch_rde-OnCluster :
      (client : Client) (specs : List SpecPatch) (metadatas : List MetadataPatch)
      (statuses : List StatusPatch) (id : String) (external_id : Option String)
      → KeepsFun (OnCluster P) (patch_rde env client specs metadatas statuses id external_id)
  unfolding patch_rde
  patch_rde-OnCluster client specs metadatas statuses id external_id =
      recovered-OnCluster _ _
        (patch_unguarded-OnCluster client specs metadatas statuses id external_id)

  pub check_for_empty-OnCluster :
      (client : Client) (id : String)
      → KeepsFun (OnCluster P) (check_for_empty_rde_and_update_created_by_versions env client id)
  unfolding check_for_empty_rde_and_update_created_by_versions
  check_for_empty-OnCluster client id = search (on_cluster_rules, patch_rde-OnCluster) depth 60

  convert_attempt-OnCluster :
      (build : DefinedEntity → Option DefinedEntity) (id : String)
      → KeepsFun (OnCluster P) (convert_attempt env build id)
  unfolding convert_attempt send_upgrade
  convert_attempt-OnCluster build id = search on_cluster_rules depth 60

  convert_rounds-OnCluster :
      (n : ℕ) (build : DefinedEntity → Option DefinedEntity) (id : String)
      → KeepsFun (OnCluster P) (convert_rounds env n build id)
  unfolding convert_rounds
  convert_rounds-OnCluster zero build id = search on_cluster_rules depth 60
  convert_rounds-OnCluster (suc n) build id =
      search (on_cluster_rules, convert_attempt-OnCluster, convert_rounds-OnCluster n) depth 60

  convert_from_100-OnCluster :
      (client : Client) (src : DefinedEntity) (version : String)
      → KeepsFun (OnCluster P) (convert_from_100_format env client src version)
  unfolding convert_from_100_format
  convert_from_100-OnCluster client src version =
      search (on_cluster_rules, convert_rounds-OnCluster) depth 60

  convert_from_110-OnCluster :
      (client : Client) (src : DefinedEntity) (version : String)
      → KeepsFun (OnCluster P) (convert_from_110_format env client src version)
  unfolding convert_from_110_format
  convert_from_110-OnCluster client src version =
      search (on_cluster_rules, convert_rounds-OnCluster) depth 60

  pub convert_to_latest-OnCluster :
      (client : Client) (id : String)
      → KeepsFun (OnCluster P) (convert_to_latest_rde_version_format env client id)
  unfolding convert_to_latest_rde_version_format
  convert_to_latest-OnCluster client id =
      search
        (
          on_cluster_rules, registered-OnCluster, get_rde_version-OnCluster,
          convert_from_100-OnCluster, convert_from_110-OnCluster,
        )
        depth 60
