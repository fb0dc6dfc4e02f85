-- ===== src/Entity/Create/Laws.antt =====
-- The RDE that constructAndCreateRDEFromCluster names has been created, and the cluster stays.
use cluster_api_provider_clo.Base.{String, ℕ, Bool, true, false, Option, none, some, List, [], ◌∷◌}
use cluster_api_provider_clo.Base.{◌≡◌, refl, arith, is_none, ◌==◌, string_eq, nat_eq, ◌&&◌}
use cluster_api_provider_clo.Effect.{ret}
use cluster_api_provider_clo.Effect.Keeps.{KeepsFun}
use cluster_api_provider_clo.Api.{Err}
use cluster_api_provider_clo.Api.Cluster.{VcdCluster, OwnerCluster}
use cluster_api_provider_clo.Vcd.{Client, DefinedEntity, Org, Vdc}
use cluster_api_provider_clo.Vcd.Calls.{Trace, create_defined_entity}
use cluster_api_provider_clo.Vcd.Calls.{list_control_planes, list_machine_deployments}
use cluster_api_provider_clo.Entity.Nodes.Laws.{has_cluster_reconciled-current, all_current}
use cluster_api_provider_clo.Entity.Create.{ClusterNetwork, new_capvcd_entity, kubernetes_version}
use cluster_api_provider_clo.Base.{◌⊎◌, inl, inr}
use cluster_api_provider_clo.Rde.Types.{CapvcdEntity}
use cluster_api_provider_clo.Machine.Script.{tkg_version_of}
use cluster_api_provider_clo.Vcd.Env.{Env, Store}
use cluster_api_provider_clo.Vcd.History.{happened}
use cluster_api_provider_clo.Vcd.Objects.{OnCluster, on_cluster_rules, on_cluster_after}
use cluster_api_provider_clo.Ovdc.Client.{org_by_name}
use cluster_api_provider_clo.Entity.Nodes.{NodeOwner, Listing, all_kubeadm_control_planes}
use cluster_api_provider_clo.Entity.Nodes.{all_machine_deployments, machines_for, some_behind}
use cluster_api_provider_clo.Entity.Nodes.{all_machines_in_kcp, all_machines_in_machine_deployment}
use cluster_api_provider_clo.Entity.Nodes.{has_cluster_reconciled_to_desired_k8_version}
use cluster_api_provider_clo.Entity.Create.{Creation, capvcd_entity_type_id, construct_capvcd_rde}
use cluster_api_provider_clo.Entity.Create.{construct_and_create_rde_from_cluster}

module _ (env : Env) (listing : Listing) (P : VcdCluster → Type 0) where
  pub machines-OnCluster :
      (is_kcp : Bool) (cluster_name : String) (owner : NodeOwner)
      → KeepsFun (OnCluster P) (machines_for env listing is_kcp cluster_name owner)
  unfolding machines_for all_machines_in_kcp all_machines_in_machine_deployment
  machines-OnCluster true cluster_name owner = search on_cluster_rules depth 60
  machines-OnCluster false cluster_name owner = search on_cluster_rules depth 60

  pub some_behind-OnCluster :
      (is_kcp : Bool) (cluster_name expected : String) (owners : List NodeOwner)
      → KeepsFun (OnCluster P) (some_behind env listing is_kcp cluster_name expected owners)
  unfolding some_behind
  some_behind-OnCluster is_kcp cluster_name expected [] = search on_cluster_rules depth 60
  some_behind-OnCluster is_kcp cluster_name expected (owner ∷ owners) =
      let later = some_behind-OnCluster is_kcp cluster_name expected owners in
      let first = machines-OnCluster is_kcp cluster_name owner in
      search (on_cluster_rules, first, later) depth 60

  module _ (creation : Creation) (owner : OwnerCluster) where
    construct-OnCluster :
        (vdc : Option Vdc) (org : Option Org)
        → KeepsFun (OnCluster P) (construct_capvcd_rde env listing creation owner vdc org)
    unfolding construct_capvcd_rde has_cluster_reconciled_to_desired_k8_version
        all_kubeadm_control_planes all_machine_deployments
    construct-OnCluster vdc org = search (on_cluster_rules, some_behind-OnCluster) depth 80

    pub create-OnCluster :
        (client : Client)
        → KeepsFun
            (OnCluster P)
            (construct_and_create_rde_from_cluster env listing creation owner client)
    unfolding construct_and_create_rde_from_cluster org_by_name
    create-OnCluster client = search (on_cluster_rules, construct-OnCluster) depth 80

abbrev is_accepted : Option ℕ → Bool
is_accepted none = false
is_accepted (some code) = code == 202

module _ (env : Env) (listing : Listing) (creation : Creation) (owner : OwnerCluster) where
  -- Cloud Director accepted the creation of an entity of the type of CAPVCD, with this name.
  unfoldable pub is_created : String → Trace → Bool
  is_created name (create_defined_entity e ∷ before) =
      let answer = env.response_reply (create_defined_entity e ∷ before) in
      e.name == name
      && (e.entity_type == capvcd_entity_type_id && (is_none answer.1 && is_accepted answer.0))
  is_created name _ = false

  constructed-name :
      (vdc : Option Vdc) (org : Option Org) (s t : Store) (rde : DefinedEntity)
      → (r : Option DefinedEntity × Option Err)
      → construct_capvcd_rde env listing creation owner vdc org s ≡ ret r t
      → r.0 ≡ some rde
      → (rde.name ≡ s.cluster.meta.name) × (rde.entity_type ≡ capvcd_entity_type_id)
  unfolding construct_capvcd_rde all_kubeadm_control_planes all_machine_deployments
  constructed-name vdc org s t rde r e h = grind (arith, env.is_some-wrapf)

  -- If constructAndCreateRDEFromCluster returns an ID without an error, Cloud Director accepted the
  -- creation of an entity of the type of CAPVCD with the name of the cluster; the cluster in memory
  -- is as it was.
  pub construct_and_create-created :
      (client : Client) (s t : Store) (id : String)
      → construct_and_create_rde_from_cluster env listing creation owner client s ≡ ret (id, none) t
      → (happened (is_created s.cluster.meta.name) t.trace ≡ true) × (t.cluster ≡ s.cluster)
  unfolding construct_and_create_rde_from_cluster org_by_name is_created
  construct_and_create-created client s t id e =
      let same : VcdCluster → Type 0 = λ c. c ≡ s.cluster in
      let kept =
        on_cluster_after (create-OnCluster env listing same creation owner client) s t (id, none) e
          refl in
      (grind (arith, constructed-name), kept)

  current_where_ready :
      (name expected : String) (kcps mds : List NodeOwner) (s t : Store) (r : Bool × Option Err)
      → has_cluster_reconciled_to_desired_k8_version env listing name kcps mds expected s ≡ ret r t
      → r.0 ≡ true
      → (all_current env listing true name expected kcps t.trace ≡ true)
        × (all_current env listing false name expected mds t.trace ≡ true)
  current_where_ready name expected kcps mds s t (true, err) e h =
      (has_cluster_reconciled-current env listing name expected kcps mds s t err e).1
  current_where_ready name expected kcps mds s t (false, err) e h = grind arith

  -- The control planes and the machine deployments that constructCapvcdRDE reads in a store.
  unfoldable pub kcps_at : Store → List NodeOwner
  kcps_at s = (listing.owners (list_control_planes ∷ s.trace)).0

  unfoldable pub mds_at : Store → List NodeOwner
  mds_at s = (listing.owners (list_machine_deployments ∷ list_control_planes ∷ s.trace)).0

  -- The content says what the cluster, its organisation, its OVDC and its owner say, for Kubernetes
  -- of this version with this ready flag and these networks, and it has no Kubernetes objects yet.
  pub record IsNew (version : String) (ready : Bool) (pods services : List String) (vdc : Vdc)
      (org : Org) (c : VcdCluster) (e : CapvcdEntity) : Type 0 where
    pub name : e.metadata.name ≡ c.meta.name
    pub org_name : e.metadata.org ≡ org.name
    pub vdc_name : e.metadata.vdc ≡ vdc.name
    pub site : e.metadata.site ≡ c.spec.site
    pub kind : e.kind ≡ "CAPVCDCluster"
    pub api_version : e.api_version ≡ "capvcd.vmware.com/v1.1"
    pub capi_yaml : e.capi_yaml ≡ ""
    pub phase : e.status.phase ≡ "Not Ready"
    pub kubernetes : e.status.kubernetes ≡ version
    pub upgrade_ready : e.status.upgrade.ready ≡ ready
    pub upgrade_from : e.status.upgrade.previous ≡ none
    pub upgrade_to :
        e.status.upgrade.current
        ≡ some (record { tkg_version = tkg_version_of owner; k8s_version = version })
    pub pod_blocks : e.status.pods ≡ pods
    pub service_blocks : e.status.services ≡ services
    pub parent : e.status.parent_uid ≡ c.spec.parent_uid
    pub management : e.status.use_as_management_cluster ≡ c.spec.use_as_management_cluster
    pub written_by : e.status.capvcd_version ≡ env.release_version
    pub created_by : e.status.created_by_version ≡ env.release_version
    pub vcd_site : e.status.vcd_properties.site ≡ c.spec.site
    pub vcd_org : e.status.vcd_properties.org ≡ record { name = org.name; id = org.id } ∷ []
    pub vcd_ovdc :
        e.status.vcd_properties.ovdc
        ≡ record { name = vdc.name; id = vdc.id; ovdc_network = c.spec.ovdc_network } ∷ []
    pub no_nodes : e.status.node_pool ≡ []

  new_capvcd_entity-IsNew :
      (version : String) (ready : Bool) (pods services : List String) (vdc : Vdc) (org : Org)
      (c : VcdCluster)
      → IsNew version ready pods services vdc org c
          (new_capvcd_entity env.release_version version ready pods services owner c vdc org)
  unfolding new_capvcd_entity
  new_capvcd_entity-IsNew version ready pods services vdc org c = record {
    name = refl;
    org_name = refl;
    vdc_name = refl;
    site = refl;
    kind = refl;
    api_version = refl;
    capi_yaml = refl;
    phase = refl;
    kubernetes = refl;
    upgrade_ready = refl;
    upgrade_from = refl;
    upgrade_to = refl;
    pod_blocks = refl;
    service_blocks = refl;
    parent = refl;
    management = refl;
    written_by = refl;
    created_by = refl;
    vcd_site = refl;
    vcd_org = refl;
    vcd_ovdc = refl;
    no_nodes = refl;
  }

  -- The version of the last of the control planes, or none.
  pub last_version : List NodeOwner → String
  last_version [] = ""
  last_version (kcp ∷ kcps) = elim kcps [ [] ↦ kcp.version | _ ↦ last_version kcps ]

  kubernetes_version-last :
      (kcp : NodeOwner) (kcps : List NodeOwner) (other : String)
      → kubernetes_version (kcp ∷ kcps) other ≡ last_version (kcp ∷ kcps)
  unfolding kubernetes_version last_version
  kubernetes_version-last kcp [] other = refl
  kubernetes_version-last kcp (k ∷ kcps) other = kubernetes_version-last k kcps kcp.version

  kubernetes_version_lem : (kcps : List NodeOwner) → kubernetes_version kcps "" ≡ last_version kcps
  unfolding kubernetes_version last_version
  kubernetes_version_lem [] = refl
  kubernetes_version_lem (kcp ∷ kcps) = kubernetes_version-last kcp kcps ""

  -- The entity has the content of a new RDE, whose upgrade section is ready or not.
  abbrev pub HasContent :
      Bool → List String → List String → Vdc → Org → Store → DefinedEntity → Type 0
  HasContent ready pods services vdc org s rde =
      (e : CapvcdEntity) × IsNew (last_version (kcps_at s)) ready pods services vdc org s.cluster e
      × (rde.entity ≡ env.encode_entity e)

  -- The same of the version that the code computes.
  abbrev Encoded : Bool → List String → List String → Vdc → Org → Store → DefinedEntity → Type 0
  Encoded ready pods services vdc org s rde =
      rde.entity
      ≡ env.encode_entity (
          new_capvcd_entity env.release_version (kubernetes_version (kcps_at s) "") ready pods
            services owner s.cluster vdc org)

  content-of :
      (ready : Bool) (pods services : List String) (vdc : Vdc) (org : Org) (s : Store)
      (rde : DefinedEntity)
      → Encoded ready pods services vdc org s rde
      → HasContent ready pods services vdc org s rde
  content-of ready pods services vdc org s rde e =
      let version = kubernetes_version_lem (kcps_at s) in
      let made =
        new_capvcd_entity env.release_version (last_version (kcps_at s)) ready pods services owner
          s.cluster vdc org in
      (
        made,
        new_capvcd_entity-IsNew (last_version (kcps_at s)) ready pods services vdc org s.cluster,
        rw version at e,
      )

  -- All machines are at the version.
  abbrev pub AllCurrent : String → Store → Store → Type 0
  AllCurrent version s t =
      (all_current env listing true s.cluster.meta.name version (kcps_at s) t.trace ≡ true)
      × (all_current env listing false s.cluster.meta.name version (mds_at s) t.trace ≡ true)

  constructed :
      (network : ClusterNetwork) (pods services : List String)
      → creation.network ≡ some network
      → network.pods ≡ some pods
      → network.services ≡ some services
      → (vdc : Vdc) (org : Org) (s t : Store) (rde : DefinedEntity)
      → construct_capvcd_rde env listing creation owner (some vdc) (some org) s
        ≡ ret (some rde, none) t
      → (Encoded true pods services vdc org s rde
          × AllCurrent (kubernetes_version (kcps_at s) "") s t)
        ⊎ Encoded false pods services vdc org s rde
  unfolding construct_capvcd_rde all_kubeadm_control_planes all_machine_deployments kcps_at mds_at
  constructed network pods services e0 e1 e2 vdc org s t rde e =
      grind (arith, env.is_some-wrapf, current_where_ready)

  pub construct_capvcd_rde-ready :
      (network : ClusterNetwork) (pods services : List String)
      → creation.network ≡ some network
      → network.pods ≡ some pods
      → network.services ≡ some services
      → (vdc : Vdc) (org : Org) (s t : Store) (rde : DefinedEntity)
      → construct_capvcd_rde env listing creation owner (some vdc) (some org) s
        ≡ ret (some rde, none) t
      → (HasContent true pods services vdc org s rde × AllCurrent (last_version (kcps_at s)) s t)
        ⊎ HasContent false pods services vdc org s rde
  construct_capvcd_rde-ready network pods services e0 e1 e2 vdc org s t rde e =
      let version = kubernetes_version_lem (kcps_at s) in
      elim (constructed network pods services e0 e1 e2 vdc org s t rde e) [
        | inl (made, current) ↦
            inl (content-of true pods services vdc org s rde made, rw version at current)
        | inr made ↦ inr (content-of false pods services vdc org s rde made)
      ]
