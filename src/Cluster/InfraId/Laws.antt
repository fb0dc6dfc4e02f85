-- ===== src/Cluster/InfraId/Laws.antt =====
-- What reconcileInfraID makes of the infra ID of a cluster.
use cluster_api_provider_clo.Base.{String, Bool, Option, none, ◌≡◌, ◌≢◌, ◌⊎◌, refl}
use cluster_api_provider_clo.Base.{arith, string_eq}
use cluster_api_provider_clo.Effect.{ret}
use cluster_api_provider_clo.Effect.Keeps.{KeepsFun}
use cluster_api_provider_clo.Api.{Err}
use cluster_api_provider_clo.Api.Cluster.{VcdCluster, OwnerCluster}
use cluster_api_provider_clo.Vcd.{Client, DefinedEntity}
use cluster_api_provider_clo.Base.{List, [], ◌∷◌}
use cluster_api_provider_clo.Vcd.Env.{Env, Store}
use cluster_api_provider_clo.Vcd.Objects.{OnCluster, on_cluster_rules, on_cluster_after}
use cluster_api_provider_clo.Rde.Keeps.{registered-OnCluster, get_rde_version-OnCluster}
use cluster_api_provider_clo.Rde.Keeps.{is_vcdke_cluster-OnCluster, check_for_empty-OnCluster}
use cluster_api_provider_clo.Rde.Keeps.{convert_to_latest-OnCluster}
use cluster_api_provider_clo.Entity.Create.Laws.{create-OnCluster}
use cluster_api_provider_clo.Entity.Reconcile.{RdeReads}
use cluster_api_provider_clo.Entity.Reconcile.Keeps.{reconcile_rde-OnCluster}
use cluster_api_provider_clo.Cluster.Validate.Laws.{Admissible, validate-Admissible}
use cluster_api_provider_clo.Cluster.InfraId.{
  Derived, adopt_or_create, derive_from_name, derive_new,
}
use cluster_api_provider_clo.Cluster.InfraId.{generate_id, upgrade_rde, stored_version}
use cluster_api_provider_clo.Cluster.InfraId.{derive_existing, store_infra_id, reconcile_infra_id}
use cluster_api_provider_clo.Cluster.InfraId.{with_infra_id}

module _ (env : Env) (reads : RdeReads) (skip_rde : Bool) (owner : OwnerCluster)
    (P : VcdCluster → Type 0) where
  adopt_or_create-OnCluster :
      (client : Client) (entities : List DefinedEntity)
      → KeepsFun (OnCluster P) (adopt_or_create env reads skip_rde owner client entities)
  unfolding adopt_or_create
  adopt_or_create-OnCluster client [] =
      let create = create-OnCluster env reads.listing P reads.creation owner in
      search (on_cluster_rules, create) depth 60
  adopt_or_create-OnCluster client (entity ∷ _) = search on_cluster_rules depth 60

  derive_new-OnCluster :
      (client : Client) → KeepsFun (OnCluster P) (derive_new env reads skip_rde owner client)
  unfolding derive_new derive_from_name generate_id
  derive_new-OnCluster client =
      search (on_cluster_rules, registered-OnCluster, adopt_or_create-OnCluster) depth 80

  derive_existing-OnCluster :
      (client : Client) (id : String)
      → KeepsFun (OnCluster P) (derive_existing env reads skip_rde owner client id)
  unfolding derive_existing stored_version upgrade_rde
  derive_existing-OnCluster client id =
      let rde = reconcile_rde-OnCluster env reads P owner in
      search
        (
          on_cluster_rules, get_rde_version-OnCluster, check_for_empty-OnCluster,
          is_vcdke_cluster-OnCluster, convert_to_latest-OnCluster, rde,
        )
        depth 80

module _ (env : Env) (reads : RdeReads) (skip_rde : Bool) (owner : OwnerCluster) where
  derive_new-cluster :
      (client : Client) (s t : Store) (r : Derived)
      → derive_new env reads skip_rde owner client s ≡ ret r t
      → t.cluster ≡ s.cluster
  derive_new-cluster client s t r e =
      on_cluster_after (derive_new-OnCluster env reads skip_rde owner (λ c. c ≡ s.cluster) client) s
        t r e refl

  derive_existing-cluster :
      (client : Client) (id : String) (s t : Store) (r : Derived)
      → derive_existing env reads skip_rde owner client id s ≡ ret r t
      → t.cluster ≡ s.cluster
  derive_existing-cluster client id s t r e =
      on_cluster_after
        (derive_existing-OnCluster env reads skip_rde owner (λ c. c ≡ s.cluster) client id) s t r e
        refl

  -- The cluster as it was and an error, or a move to an admissible infra ID and version.
  unfoldable pub Moved : VcdCluster → VcdCluster → Option Err → Type 0
  Moved c d r =
      ((d ≡ c) × (r ≢ none))
      ⊎ (Admissible env c d.status.infra_id d.status.rde_version_in_use
          × ((r ≢ none) ⊎ (d.spec.rde_id ≡ d.status.infra_id)))

  -- The status after the validation, whether it has been assigned or not.
  store_infra_id-Moved :
      (c : VcdCluster) (infra_id version : String) (s t : Store) (r : Option Err)
      → s.cluster ≡ c
      → store_infra_id env reads skip_rde owner infra_id version s ≡ ret r t
      → Moved c t.cluster r
  unfolding store_infra_id Moved
  store_infra_id-Moved c infra_id version s t r same e = grind (
    arith,
    validate-Admissible env c infra_id version,
    env.patched-infra_id (with_infra_id infra_id version c),
    env.patched-rde_version (with_infra_id infra_id version c),
  )

  -- If reconcileInfraID returns, either the cluster is unchanged and an error is returned, or the
  -- infra ID and the RDE version are an admissible move from the old ones, and without an error the
  -- RDE ID of the spec is the infra ID. The API server is taken to answer Status().Patch with
  -- the infra ID and the version that were sent.
  pub reconcile_infra_id-Moved :
      (client : Option Client) (s t : Store) (r : Option Err)
      → reconcile_infra_id env reads skip_rde owner client s ≡ ret r t
      → Moved s.cluster t.cluster r
  unfolding reconcile_infra_id Moved
  reconcile_infra_id-Moved client s t r e =
      grind (arith, derive_new-cluster, derive_existing-cluster, store_infra_id-Moved s.cluster)

  -- The functions of this module do not set the ready flag.
  store_infra_id-ready :
      (infra_id version : String) (s t : Store) (r : Option Err)
      → store_infra_id env reads skip_rde owner infra_id version s ≡ ret r t
      → t.cluster.status.ready ≡ s.cluster.status.ready
  unfolding store_infra_id
  store_infra_id-ready infra_id version s t r e =
      grind (arith, env.patched-ready (with_infra_id infra_id version s.cluster))

  pub reconcile_infra_id-ready :
      (client : Option Client) (s t : Store) (r : Option Err)
      → reconcile_infra_id env reads skip_rde owner client s ≡ ret r t
      → t.cluster.status.ready ≡ s.cluster.status.ready
  unfolding reconcile_infra_id
  reconcile_infra_id-ready client s t r e =
      grind (arith, derive_new-cluster, derive_existing-cluster, store_infra_id-ready)
