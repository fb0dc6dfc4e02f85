-- ===== src/Entity/Upgrade.antt =====
-- The upgrade section that reconcileRDE computes from the old one, from its first control plane, from
-- the TKG version and from whether all machines have the version.
use cluster_api_provider_clo.Base.{String, Bool, Option, none, some, List, [], ◌∷◌}
use cluster_api_provider_clo.Base.{◌≡◌, arith, ◌!=◌, string_eq, if◌then◌else◌, ◌==◌}
use cluster_api_provider_clo.Rde.Types.{K8sInfo, Upgrade}
use cluster_api_provider_clo.Entity.Nodes.{NodeOwner}

-- `none` where the list is empty.
unfoldable pub first_of : List NodeOwner → Option NodeOwner
first_of [] = none
first_of (kcp ∷ rest) = some kcp

unfoldable pub with_current : NodeOwner → String → Bool → Upgrade → Upgrade
with_current kcp tkg_version ready old =
    let new : K8sInfo = record { tkg_version = tkg_version; k8s_version = kcp.version } in
    elim (old.current) [
      | none ↦ record { current = some new; previous = none; ready = ready }
      | some info ↦
          if kcp.version != info.k8s_version
          then record { current = some new; previous = some info; ready = ready }
          else record old { ready = ready }
    ]

unfoldable pub upgrade_section : List NodeOwner → String → Bool → Upgrade → Upgrade
upgrade_section kcps tkg_version ready old = elim (first_of kcps) [
  | none ↦ old
  | some kcp ↦ with_current kcp tkg_version ready old
]

abbrev pub k8s_version_of : Upgrade → Option String
k8s_version_of u = elim (u.current) [ none ↦ none | some info ↦ some (info.k8s_version) ]

-- The previous version after the computation: none where there was no current one, the old current
-- one where its version has changed, and the old previous one where it has not.
abbrev pub previous_of : NodeOwner → Upgrade → Option K8sInfo
previous_of kcp old = elim (old.current) [
  | none ↦ none
  | some info ↦ if info.k8s_version == kcp.version then old.previous else some info
]

-- With a control plane, the upgrade section that reconcileRDE computes has the version of the first
-- one as its current version, and the given flag; the previous version is none where the old section
-- has no current version, that of the old section where the version has not changed, and the old
-- current one where it has; and to compute the section again changes nothing.
pub upgrade_section_lem :
    (kcp : NodeOwner) (rest : List NodeOwner) (tkg_version : String) (ready : Bool) (old : Upgrade)
    → (k8s_version_of (upgrade_section (kcp ∷ rest) tkg_version ready old) ≡ some (kcp.version))
      × (((upgrade_section (kcp ∷ rest) tkg_version ready old).ready ≡ ready)
          × (((upgrade_section (kcp ∷ rest) tkg_version ready old).previous ≡ previous_of kcp old)
              × (upgrade_section
                    (kcp ∷ rest)
                    tkg_version
                    ready
                    (upgrade_section (kcp ∷ rest) tkg_version ready old)
                  ≡ upgrade_section (kcp ∷ rest) tkg_version ready old)))
unfolding upgrade_section with_current first_of
upgrade_section_lem kcp rest tkg_version ready old = grind arith
