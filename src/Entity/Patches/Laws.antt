-- ===== src/Entity/Patches/Laws.antt =====
-- The patch brings the status to what the cluster says.
use cluster_api_provider_clo.Base.{String, Bool, true, false, Option, none, some, List, []}
use cluster_api_provider_clo.Base.{◌≡◌, refl, sym, ap, ◌∙◌, arith, ◌!=◌, string_eq, not}
use cluster_api_provider_clo.Rde.Types.{Upgrade, ClusterApiStatus, NodePool, VcdProperties}
use cluster_api_provider_clo.Rde.Types.{CapvcdStatus, ClusterResourceSetBinding, StatusPatch}
use cluster_api_provider_clo.Rde.Types.{Metadata}
use cluster_api_provider_clo.Rde.Patch.{patch_status, assign_status, patch_metadata}
use cluster_api_provider_clo.Entity.Patches.{metadata_patches}
use cluster_api_provider_clo.Entity.Patches.{DeepEqual, Desired, patch_where, bool_differs}
use cluster_api_provider_clo.Entity.Patches.{bindings_patch, kube_config_patch, later_patches}
use cluster_api_provider_clo.Entity.Patches.{status_patches}

-- An assignment that is left out where it would change nothing.
patch_where-assigned :
    (differs : Bool) (p : StatusPatch) (rest : List StatusPatch) (m m' : CapvcdStatus)
    → assign_status p m ≡ some m'
    → (differs ≡ false → m ≡ m')
    → patch_status (patch_where differs p rest) m ≡ patch_status rest m'
unfolding patch_where patch_status
patch_where-assigned true p rest m m' e k = ground arith
patch_where-assigned false p rest m m' e k = let same = k refl in rw same

-- The status with the desired values.
abbrev pub brought : Desired → CapvcdStatus → CapvcdStatus
brought d old = record old {
  phase = d.phase;
  upgrade = d.upgrade;
  kubernetes = d.kubernetes;
  uid = d.uid;
  parent_uid = d.parent_uid;
  use_as_management_cluster = d.use_as_management_cluster;
  capi_status_yaml = d.capi_status_yaml;
  pods = d.pods;
  cluster_resource_set_bindings = elim (d.bindings) [
    | none ↦ old.cluster_resource_set_bindings
    | some x ↦ x
  ];
  services = d.services;
  cluster_api_status = d.api_status;
  node_pool = d.node_pools;
  vcd_properties = d.properties;
  kube_config = elim (d.kube_config) [ none ↦ old.kube_config | some x ↦ x ];
  capvcd_version = d.capvcd_version;
}

bool_same : (a b : Bool) → bool_differs a b ≡ false → a ≡ b
unfolding bool_differs
bool_same true b h = ground arith
bool_same false b h = ground arith

string_same : (a b : String) → (a != b) ≡ false → a ≡ b
string_same a b h = ground arith

not_same : (b : Bool) → not b ≡ false → b ≡ true
not_same true h = refl
not_same false h = ground arith

phase_step :
    (x : String) (rest : List StatusPatch) (m : CapvcdStatus)
    → patch_status (patch_where (m.phase != x) (StatusPatch.phase x) rest) m
      ≡ patch_status rest (record m { phase = x })
phase_step x rest m =
    let new : CapvcdStatus = record m { phase = x } in
    patch_where-assigned (m.phase != x) (StatusPatch.phase x) rest m new refl
      λ h. ap (λ (y : String). record m { phase = y }) (string_same m.phase x h)

kubernetes_step :
    (x : String) (rest : List StatusPatch) (m : CapvcdStatus)
    → patch_status (patch_where (m.kubernetes != x) (StatusPatch.kubernetes x) rest) m
      ≡ patch_status rest (record m { kubernetes = x })
kubernetes_step x rest m =
    let new : CapvcdStatus = record m { kubernetes = x } in
    patch_where-assigned (m.kubernetes != x) (StatusPatch.kubernetes x) rest m new refl
      λ h. ap (λ (y : String). record m { kubernetes = y }) (string_same m.kubernetes x h)

uid_step :
    (x : String) (rest : List StatusPatch) (m : CapvcdStatus)
    → patch_status (patch_where (m.uid != x) (StatusPatch.uid x) rest) m
      ≡ patch_status rest (record m { uid = x })
uid_step x rest m =
    let new : CapvcdStatus = record m { uid = x } in
    patch_where-assigned (m.uid != x) (StatusPatch.uid x) rest m new refl
      λ h. ap (λ (y : String). record m { uid = y }) (string_same m.uid x h)

parent_uid_step :
    (x : String) (rest : List StatusPatch) (m : CapvcdStatus)
    → patch_status (patch_where (m.parent_uid != x) (StatusPatch.parent_uid x) rest) m
      ≡ patch_status rest (record m { parent_uid = x })
parent_uid_step x rest m =
    let new : CapvcdStatus = record m { parent_uid = x } in
    patch_where-assigned (m.parent_uid != x) (StatusPatch.parent_uid x) rest m new refl
      λ h. ap (λ (y : String). record m { parent_uid = y }) (string_same m.parent_uid x h)

capi_status_yaml_step :
    (x : String) (rest : List StatusPatch) (m : CapvcdStatus)
    → patch_status (patch_where (m.capi_status_yaml != x) (StatusPatch.capi_status_yaml x) rest) m
      ≡ patch_status rest (record m { capi_status_yaml = x })
capi_status_yaml_step x rest m =
    let new : CapvcdStatus = record m { capi_status_yaml = x } in
    patch_where-assigned (m.capi_status_yaml != x) (StatusPatch.capi_status_yaml x) rest m new refl
      λ h.
        ap (λ (y : String). record m { capi_status_yaml = y }) (string_same m.capi_status_yaml x h)

capvcd_version_step :
    (x : String) (rest : List StatusPatch) (m : CapvcdStatus)
    → patch_status (patch_where (x != m.capvcd_version) (StatusPatch.capvcd_version x) rest) m
      ≡ patch_status rest (record m { capvcd_version = x })
capvcd_version_step x rest m =
    let new : CapvcdStatus = record m { capvcd_version = x } in
    patch_where-assigned (x != m.capvcd_version) (StatusPatch.capvcd_version x) rest m new refl λ h.
      ap (λ (y : String). record m { capvcd_version = y }) (sym (string_same x m.capvcd_version h))

use_as_management_cluster_step :
    (x : Bool) (rest : List StatusPatch) (m : CapvcdStatus)
    → patch_status
        (patch_where
          (bool_differs m.use_as_management_cluster x)
          (StatusPatch.use_as_management_cluster x)
          rest)
        m
      ≡ patch_status rest (record m { use_as_management_cluster = x })
use_as_management_cluster_step x rest m =
    let new : CapvcdStatus = record m { use_as_management_cluster = x } in
    patch_where-assigned (bool_differs m.use_as_management_cluster x)
      (StatusPatch.use_as_management_cluster x) rest m new refl
      λ h.
        ap (λ (y : Bool). record m { use_as_management_cluster = y })
          (bool_same m.use_as_management_cluster x h)

upgrade_step :
    (eq : DeepEqual) (x : Upgrade) (rest : List StatusPatch) (m : CapvcdStatus)
    → patch_status (patch_where (not (eq.upgrades x m.upgrade)) (StatusPatch.upgrade x) rest) m
      ≡ patch_status rest (record m { upgrade = x })
upgrade_step eq x rest m =
    let new : CapvcdStatus = record m { upgrade = x } in
    patch_where-assigned (not (eq.upgrades x m.upgrade)) (StatusPatch.upgrade x) rest m new refl
      λ h.
        ap (λ (y : Upgrade). record m { upgrade = y })
          (eq.upgrades-same x m.upgrade (not_same (eq.upgrades x m.upgrade) h))

pods_step :
    (eq : DeepEqual) (x : List String) (rest : List StatusPatch) (m : CapvcdStatus)
    → patch_status (patch_where (not (eq.blocks m.pods x)) (StatusPatch.pods x) rest) m
      ≡ patch_status rest (record m { pods = x })
pods_step eq x rest m =
    let new : CapvcdStatus = record m { pods = x } in
    patch_where-assigned (not (eq.blocks m.pods x)) (StatusPatch.pods x) rest m new refl λ h.
      ap (λ (y : List String). record m { pods = y })
        (sym (eq.blocks-same m.pods x (not_same (eq.blocks m.pods x) h)))

services_step :
    (eq : DeepEqual) (x : List String) (rest : List StatusPatch) (m : CapvcdStatus)
    → patch_status (patch_where (not (eq.blocks m.services x)) (StatusPatch.services x) rest) m
      ≡ patch_status rest (record m { services = x })
services_step eq x rest m =
    let new : CapvcdStatus = record m { services = x } in
    patch_where-assigned (not (eq.blocks m.services x)) (StatusPatch.services x) rest m new refl
      λ h.
        ap (λ (y : List String). record m { services = y })
          (sym (eq.blocks-same m.services x (not_same (eq.blocks m.services x) h)))

cluster_api_status_step :
    (eq : DeepEqual) (x : ClusterApiStatus) (rest : List StatusPatch) (m : CapvcdStatus)
    → patch_status
        (patch_where
          (not (eq.api_statuses x m.cluster_api_status))
          (StatusPatch.cluster_api_status x)
          rest)
        m
      ≡ patch_status rest (record m { cluster_api_status = x })
cluster_api_status_step eq x rest m =
    let new : CapvcdStatus = record m { cluster_api_status = x } in
    patch_where-assigned (not (eq.api_statuses x m.cluster_api_status))
      (StatusPatch.cluster_api_status x) rest m new refl
      λ h.
        ap (λ (y : ClusterApiStatus). record m { cluster_api_status = y })
          (eq.api_statuses-same x m.cluster_api_status
            (not_same (eq.api_statuses x m.cluster_api_status) h))

node_pool_step :
    (eq : DeepEqual) (x : List NodePool) (rest : List StatusPatch) (m : CapvcdStatus)
    → patch_status
        (patch_where (not (eq.node_pools x m.node_pool)) (StatusPatch.node_pool x) rest)
        m
      ≡ patch_status rest (record m { node_pool = x })
node_pool_step eq x rest m =
    let new : CapvcdStatus = record m { node_pool = x } in
    patch_where-assigned (not (eq.node_pools x m.node_pool)) (StatusPatch.node_pool x) rest m new
      refl
      λ h.
        ap (λ (y : List NodePool). record m { node_pool = y })
          (eq.node_pools-same x m.node_pool (not_same (eq.node_pools x m.node_pool) h))

vcd_properties_step :
    (eq : DeepEqual) (x : VcdProperties) (rest : List StatusPatch) (m : CapvcdStatus)
    → patch_status
        (patch_where (not (eq.properties x m.vcd_properties)) (StatusPatch.vcd_properties x) rest)
        m
      ≡ patch_status rest (record m { vcd_properties = x })
vcd_properties_step eq x rest m =
    let new : CapvcdStatus = record m { vcd_properties = x } in
    patch_where-assigned (not (eq.properties x m.vcd_properties)) (StatusPatch.vcd_properties x)
      rest m new refl
      λ h.
        ap (λ (y : VcdProperties). record m { vcd_properties = y })
          (eq.properties-same x m.vcd_properties (not_same (eq.properties x m.vcd_properties) h))

bindings_step :
    (eq : DeepEqual) (x : Option (List ClusterResourceSetBinding)) (rest : List StatusPatch)
    → (old m : CapvcdStatus) → m.cluster_resource_set_bindings ≡ old.cluster_resource_set_bindings
    → patch_status (bindings_patch eq x old rest) m
      ≡ patch_status rest (record m {
        cluster_resource_set_bindings = elim x [
          | none ↦ old.cluster_resource_set_bindings
          | some y ↦ y
        ];
      })
unfolding bindings_patch
bindings_step eq none rest old m e =
    ap
      (λ (y : List ClusterResourceSetBinding).
        patch_status rest (record m { cluster_resource_set_bindings = y }))
      e
bindings_step eq (some x) rest old m e =
    let kept = eq.bindings old.cluster_resource_set_bindings x in
    let new : CapvcdStatus = record m { cluster_resource_set_bindings = x } in
    patch_where-assigned (not kept) (StatusPatch.cluster_resource_set_bindings x) rest m new refl
      λ h.
        ap (λ (y : List ClusterResourceSetBinding). record m { cluster_resource_set_bindings = y })
          (e ∙ sym (eq.bindings-same old.cluster_resource_set_bindings x (not_same kept h)))

kube_config_patch_step :
    (x : Option String) (rest : List StatusPatch) (old m : CapvcdStatus)
    → m.kube_config ≡ old.kube_config
    → patch_status (kube_config_patch x old rest) m
      ≡ patch_status rest
          (record m { kube_config = elim x [ none ↦ old.kube_config | some y ↦ y ] })
unfolding kube_config_patch
kube_config_patch_step none rest old m e =
    ap (λ (y : String). patch_status rest (record m { kube_config = y })) e
kube_config_patch_step (some x) rest old m e =
    let new : CapvcdStatus = record m { kube_config = x } in
    patch_where-assigned (x != old.kube_config) (StatusPatch.kube_config x) rest m new refl λ h.
      ap (λ (y : String). record m { kube_config = y }) (e ∙ sym (string_same x old.kube_config h))

-- The first half of the assignments.
half : Desired → CapvcdStatus → CapvcdStatus
half d old = record old {
  phase = d.phase;
  upgrade = d.upgrade;
  kubernetes = d.kubernetes;
  uid = d.uid;
  parent_uid = d.parent_uid;
  use_as_management_cluster = d.use_as_management_cluster;
  capi_status_yaml = d.capi_status_yaml;
}

first_half :
    (eq : DeepEqual) (d : Desired) (old : CapvcdStatus)
    → patch_status (status_patches eq d old) old
      ≡ patch_status (later_patches eq d old) (half d old)
unfolding status_patches half
first_half eq d old =
    let m1 : CapvcdStatus = record old { phase = d.phase } in
    let m2 : CapvcdStatus = record m1 { upgrade = d.upgrade } in
    let m3 : CapvcdStatus = record m2 { kubernetes = d.kubernetes } in
    let m4 : CapvcdStatus = record m3 { uid = d.uid } in
    let m5 : CapvcdStatus = record m4 { parent_uid = d.parent_uid } in
    let m6 : CapvcdStatus = record m5 { use_as_management_cluster = d.use_as_management_cluster } in
    phase_step d.phase _ old
    ∙ (upgrade_step eq d.upgrade _ m1
        ∙ (kubernetes_step d.kubernetes _ m2
            ∙ (uid_step d.uid _ m3
                ∙ (parent_uid_step d.parent_uid _ m4
                    ∙ (use_as_management_cluster_step d.use_as_management_cluster _ m5
                        ∙ capi_status_yaml_step d.capi_status_yaml _ m6)))))

second_half :
    (eq : DeepEqual) (d : Desired) (old : CapvcdStatus)
    → patch_status (later_patches eq d old) (half d old) ≡ some (brought d old)
unfolding later_patches half patch_status
second_half eq d old =
    let m0 : CapvcdStatus = half d old in
    let m1 : CapvcdStatus = record m0 { pods = d.pods } in
    let m2 : CapvcdStatus = record m1 {
      cluster_resource_set_bindings = elim (d.bindings) [
        | none ↦ old.cluster_resource_set_bindings
        | some x ↦ x
      ];
    } in
    let m3 : CapvcdStatus = record m2 { services = d.services } in
    let m4 : CapvcdStatus = record m3 { cluster_api_status = d.api_status } in
    let m5 : CapvcdStatus = record m4 { node_pool = d.node_pools } in
    let m6 : CapvcdStatus = record m5 { vcd_properties = d.properties } in
    let m7 : CapvcdStatus = record m6 {
      kube_config = elim (d.kube_config) [ none ↦ old.kube_config | some x ↦ x ];
    } in
    pods_step eq d.pods _ m0
    ∙ (bindings_step eq d.bindings _ old m1 refl
        ∙ (services_step eq d.services _ m2
            ∙ (cluster_api_status_step eq d.api_status _ m3
                ∙ (node_pool_step eq d.node_pools _ m4
                    ∙ (vcd_properties_step eq d.properties _ m5
                        ∙ (kube_config_patch_step d.kube_config _ old m6 refl
                            ∙ capvcd_version_step d.capvcd_version [] m7))))))

-- Where PatchRDE assigns what reconcileRDE computes to the status that it computed it from, the status
-- then has every desired value, and its other fields are as they were; no assignment panics.
pub status_patches-brought :
    (eq : DeepEqual) (d : Desired) (old : CapvcdStatus)
    → patch_status (status_patches eq d old) old ≡ some (brought d old)
status_patches-brought eq d old = first_half eq d old ∙ second_half eq d old

-- Where PatchRDE assigns what reconcileRDE computes to the metadata that it computed it from, they have
-- the organisation and the site of the cluster, and the OVDC that they had, whatever the OVDC of
-- the cluster is.
pub metadata_patches_keep_vdc :
    (org vdc site : String) (old : Metadata)
    → patch_metadata (metadata_patches org vdc site old) old ≡ record old { org = org; site = site }
unfolding metadata_patches patch_metadata
metadata_patches_keep_vdc org vdc site old = grind arith
