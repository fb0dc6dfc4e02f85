-- ===== src/Cluster/Delete/Guards.antt =====
-- What is checked before a vApp is deleted, and what a failure to delete the RDE does.
use cluster_api_provider_clo.Base.{String, ℕ, Bool, true, false, Option, none, some, ◌≡◌, [], ◌∷◌}
use cluster_api_provider_clo.Base.{arith, ◌==◌, string_eq, nat_eq, ◌&&◌, is_none, if◌then◌else◌}
use cluster_api_provider_clo.Effect.{ret, Returns}
use cluster_api_provider_clo.Api.{Err, Reply}
use cluster_api_provider_clo.Vcd.{Client, VApp}
use cluster_api_provider_clo.Vcd.Calls.{Trace, delete_vapp, get_vapp_by_name, get_metadata_by_key}
use cluster_api_provider_clo.Vcd.Env.{Env, Store}
use cluster_api_provider_clo.Vcd.History.{happened}
use cluster_api_provider_clo.Cluster.Common.{done, tcp_port}
use cluster_api_provider_clo.Cluster.Delete.{delete_empty_vapp, reconcile_delete_single_vapp}
use cluster_api_provider_clo.Cluster.Delete.{
  delete_lb, reconcile_delete_vapps, reconcile_delete_rde,
}
use cluster_api_provider_clo.Cluster.Delete.{delete_infrastructure}
use cluster_api_provider_clo.Cluster.Delete.Finalizer.{lb-cluster, vapps-cluster, rde-cluster}

module _ (env : Env) (infra_id : String) where
  -- The vApp of this name was read, without a VM, and its metadata names the cluster.
  pub checked : String → Trace → Bool
  checked name (get_metadata_by_key id key ∷ get_vapp_by_name n ∷ before) =
      let meta = env.text_reply (get_metadata_by_key id key ∷ get_vapp_by_name n ∷ before) in
      let vapp = (env.vapp_reply (get_vapp_by_name n ∷ before)).0 in
      n == name
      && (is_none (meta.1)
          && (meta.0 == infra_id
              && elim vapp [ none ↦ false | some v ↦ v.id == id && is_none (v.children) ]))
  checked name _ = false

  -- Every deletion of a vApp came after such a check.
  unfoldable pub guarded : Trace → Bool
  guarded [] = true
  guarded (delete_vapp name ∷ before) = happened (checked name) before && guarded before
  guarded (_ ∷ before) = guarded before

  delete_empty_vapp-guarded :
      (vapp : VApp) (name : String) (s t : Store) (r : Reply)
      → delete_empty_vapp env vapp name s ≡ ret r t
      → guarded s.trace ≡ true
      → ((vapp.children ≡ none) → happened (checked name) s.trace ≡ true)
      → guarded t.trace ≡ true
  unfolding delete_empty_vapp guarded checked
  delete_empty_vapp-guarded vapp name s t r e h k = grind arith

  -- If every deletion of a vApp so far came after a read of the vApp of that name, without VMs, whose
  -- metadata has the infra ID of the cluster, then so it is after reconcileDeleteSingleVApp returns.
  pub reconcile_delete_single_vapp-guarded :
      (ovdc name : String) (client : Option Client) (s t : Store) (r : Reply)
      → reconcile_delete_single_vapp env ovdc name client s ≡ ret r t
      → s.cluster.status.infra_id ≡ infra_id
      → guarded s.trace ≡ true
      → guarded t.trace ≡ true
  unfolding reconcile_delete_single_vapp guarded checked
  reconcile_delete_single_vapp-guarded ovdc name client s t r e same h =
      grind (arith, delete_empty_vapp-guarded)

module _ (env : Env) where
  abbrev pub delete_port : Store → ℕ
  delete_port s =
      let port = s.cluster.spec.control_plane_endpoint.port in if port == 0 then tcp_port else port

  -- If deleteLB and reconcileDeleteVApps return no error and reconcileDeleteRDE returns one,
  -- reconcileDelete returns no error and no requeue, and the cluster, with its finalizer, is
  -- unchanged by this part.
  pub delete_infrastructure-swallows :
      (client : Client) (s s1 s2 s3 : Store) (result : Reply) (e : Err)
      → delete_lb env
          (some client)
          s.cluster.spec.ovdc_network
          s.cluster.spec.ovdc
          (delete_port s)
          s
        ≡ ret none s1
      → reconcile_delete_vapps env (some client) s1 ≡ ret result s2
      → result.1 ≡ none
      → reconcile_delete_rde env (some client) s2 ≡ ret (some e) s3
      → Returns
          (λ r t. (r.0 ≡ done) × ((r.1 ≡ none) × (t.cluster ≡ s.cluster)))
          (delete_infrastructure env client s)
  unfolding delete_infrastructure
  delete_infrastructure-swallows client s s1 s2 s3 result e lb vapps ok rde =
      grind (arith, env.is_some-wrapf, lb-cluster env, vapps-cluster env, rde-cluster env)
