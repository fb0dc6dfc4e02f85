-- ===== src/Entity/Patches.antt =====
-- The patches of the status and of the metadata that reconcileRDE sends: an assignment for each field
-- that differs from what the cluster says.
pub mod Laws
use cluster_api_provider_clo.Base.{String, Bool, true, false, Option, none, some, List, [], ◌∷◌}
use cluster_api_provider_clo.Base.{◌≡◌, ◌!=◌, string_eq, not, if◌then◌else◌}
use cluster_api_provider_clo.Rde.Types
use cluster_api_provider_clo.Rde.Types.{CapvcdStatus, ClusterApiStatus, NodePool, VcdProperties}
use cluster_api_provider_clo.Rde.Types.{ClusterResourceSetBinding, Upgrade, StatusPatch}
use cluster_api_provider_clo.Rde.Types.{Metadata, MetadataPatch}
use cluster_api_provider_clo.Base.{◌++◌}

-- reflect.DeepEqual at the types that it is used at. Values that it says are equal are equal; a nil
-- slice and an empty one, which are one list here, it tells apart.
pub record DeepEqual : Type 0 where
  pub upgrades : Upgrade → Upgrade → Bool
  pub blocks : List String → List String → Bool
  pub bindings : List ClusterResourceSetBinding → List ClusterResourceSetBinding → Bool
  pub api_statuses : ClusterApiStatus → ClusterApiStatus → Bool
  pub node_pools : List NodePool → List NodePool → Bool
  pub properties : VcdProperties → VcdProperties → Bool
  pub upgrades-same : (x y : Upgrade) → upgrades x y ≡ true → y ≡ x
  pub blocks-same : (x y : List String) → blocks x y ≡ true → y ≡ x
  pub bindings-same : (x y : List ClusterResourceSetBinding) → bindings x y ≡ true → y ≡ x
  pub api_statuses-same : (x y : ClusterApiStatus) → api_statuses x y ≡ true → y ≡ x
  pub node_pools-same : (x y : List NodePool) → node_pools x y ≡ true → y ≡ x
  pub properties-same : (x y : VcdProperties) → properties x y ≡ true → y ≡ x

-- What the status shall be. The bindings are `none` where they could not be listed, and the
-- kubeconfig where its secret could not be read.
pub record Desired : Type 0 where
  pub phase : String
  pub upgrade : Upgrade
  pub kubernetes : String
  pub uid : String
  pub parent_uid : String
  pub use_as_management_cluster : Bool
  pub capi_status_yaml : String
  pub pods : List String
  pub bindings : Option (List ClusterResourceSetBinding)
  pub services : List String
  pub api_status : ClusterApiStatus
  pub node_pools : List NodePool
  pub properties : VcdProperties
  pub kube_config : Option String
  pub capvcd_version : String

-- An assignment where the values differ, then the others.
unfoldable pub patch_where : Bool → StatusPatch → List StatusPatch → List StatusPatch
patch_where differs p rest = if differs then p ∷ rest else rest

unfoldable pub bool_differs : Bool → Bool → Bool
bool_differs true b = not b
bool_differs false b = b

unfoldable pub bindings_patch :
    DeepEqual
    → Option (List ClusterResourceSetBinding)
    → CapvcdStatus
    → List StatusPatch
    → List StatusPatch
bindings_patch eq none old rest = rest
bindings_patch eq (some x) old rest =
    patch_where (not (eq.bindings old.cluster_resource_set_bindings x))
      (StatusPatch.cluster_resource_set_bindings x) rest

unfoldable pub kube_config_patch :
    Option String → CapvcdStatus → List StatusPatch → List StatusPatch
kube_config_patch none old rest = rest
kube_config_patch (some x) old rest =
    patch_where (x != old.kube_config) (StatusPatch.kube_config x) rest

-- The second half of the assignments, from the network of the pods on.
unfoldable pub later_patches : DeepEqual → Desired → CapvcdStatus → List StatusPatch
later_patches eq d old = patch_where (not (eq.blocks old.pods d.pods)) (StatusPatch.pods d.pods) (
    bindings_patch eq d.bindings old (
      patch_where (not (eq.blocks old.services d.services)) (StatusPatch.services d.services) (
        patch_where (not (eq.api_statuses d.api_status old.cluster_api_status))
          (StatusPatch.cluster_api_status d.api_status)
          (patch_where (not (eq.node_pools d.node_pools old.node_pool))
            (StatusPatch.node_pool d.node_pools)
            (patch_where (not (eq.properties d.properties old.vcd_properties))
              (StatusPatch.vcd_properties d.properties)
              (kube_config_patch d.kube_config old (
                patch_where (d.capvcd_version != old.capvcd_version)
                  (StatusPatch.capvcd_version d.capvcd_version) [])))))))

-- The map has one entry for a key: the phase, which the code assigns twice, is here once.
unfoldable pub status_patches : DeepEqual → Desired → CapvcdStatus → List StatusPatch
status_patches eq d old = patch_where (old.phase != d.phase) (StatusPatch.phase d.phase) (
    patch_where (not (eq.upgrades d.upgrade old.upgrade)) (StatusPatch.upgrade d.upgrade) (
      patch_where (old.kubernetes != d.kubernetes) (StatusPatch.kubernetes d.kubernetes) (
        patch_where (old.uid != d.uid) (StatusPatch.uid d.uid) (
          patch_where (old.parent_uid != d.parent_uid) (StatusPatch.parent_uid d.parent_uid) (
            patch_where (bool_differs old.use_as_management_cluster d.use_as_management_cluster)
              (StatusPatch.use_as_management_cluster d.use_as_management_cluster)
              (patch_where (old.capi_status_yaml != d.capi_status_yaml)
                (StatusPatch.capi_status_yaml d.capi_status_yaml) (later_patches eq d old)))))))

-- The name of the organisation, the OVDC and the site, against the metadata of the RDE. The assignment
-- of the OVDC carries the old value.
unfoldable pub metadata_patches : String → String → String → Metadata → List MetadataPatch
metadata_patches org vdc site old =
    let org_patch : List MetadataPatch =
      if org != old.org then MetadataPatch.org org ∷ [] else [] in
    let vdc_patch : List MetadataPatch =
      if vdc != old.vdc then MetadataPatch.vdc old.vdc ∷ [] else [] in
    let site_patch : List MetadataPatch =
      if old.site != site then MetadataPatch.site site ∷ [] else [] in
    org_patch ++ (vdc_patch ++ site_patch)
