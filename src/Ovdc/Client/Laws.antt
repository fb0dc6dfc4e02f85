-- ===== src/Ovdc/Client/Laws.antt =====
-- What a reconcile knows of its client, and the rename of an OVDC.
use cluster_api_provider_clo.Base.{Option, none, some, List, ◌∷◌}
use cluster_api_provider_clo.Base.{◌≡◌, ◌≢◌, ◌==◌, string_eq, arith, if◌then◌else◌}
use cluster_api_provider_clo.Effect.{ret, Panics}
use cluster_api_provider_clo.Api.Cluster.{VcdResource}
use cluster_api_provider_clo.Vcd.{Org, Vdc, Client}
use cluster_api_provider_clo.Vcd.Calls.{get_org_by_name, get_vdc_by_id}
use cluster_api_provider_clo.Vcd.Env.{Env, Store}
use cluster_api_provider_clo.Ovdc.Resources.{id_of_name}
use cluster_api_provider_clo.Ovdc.Client.{ovdc_by_id}
use cluster_api_provider_clo.Ovdc.Client.{check_if_ovdc_name_change}
use cluster_api_provider_clo.Ovdc.Client.{update_client_with_vdc, create_vcd_client_from_secrets}

-- The client points at an OVDC, by whose name it is known too.
abbrev pub HasVdc : Option Client → Type 0
HasVdc none = ⊥
HasVdc (some client) = elim (client.vdc) [
  | none ↦ ⊥
  | some vdc ↦ client.cluster_ovdc_name ≡ vdc.name
]

module _ (env : Env) where
  update_client-HasVdc :
      (client client' : Client) (s t : Store)
      → update_client_with_vdc env client s ≡ ret (client', none) t
      → HasVdc (some client')
  unfolding update_client_with_vdc
  update_client-HasVdc client client' s t h = ground arith

  -- If createVCDClientFromSecrets returns without an error, it returns a client, the client has an
  -- OVDC, and the client's OVDC name is the name of that OVDC.
  pub create_vcd_client-HasVdc :
      (client : Option Client) (s t : Store)
      → create_vcd_client_from_secrets env s ≡ ret (client, none) t
      → HasVdc client
  unfolding create_vcd_client_from_secrets
  create_vcd_client-HasVdc client s t h = grind (arith, update_client-HasVdc)

  -- An OVDC that was renamed in Cloud Director stops the reconcile with a panic: the resource map
  -- has the ID of the OVDC, the OVDC is found by that ID under another name than the spec has, and
  -- the client, fresh from createVCDClientFromSecrets, has no VDC yet.
  pub update_client_with_vdc_renamed :
      (client : Client) (s : Store) (r : VcdResource) (rest : List VcdResource) (vdc : Vdc)
      (org : Org)
      → let c = s.cluster in
        let id =
          id_of_name ""
            (if c.status.ovdc == "" then c.spec.ovdc else c.status.ovdc)
            c.status.vcd_resource_map.ovdcs in
        c.status.vcd_resource_map.ovdcs ≡ r ∷ rest
        → id ≢ ""
        → env.org_reply (get_org_by_name c.spec.org ∷ s.trace) ≡ (some org, none)
        → env.vdc_reply (get_vdc_by_id id ∷ get_org_by_name c.spec.org ∷ s.trace) ≡ (some vdc, none)
        → vdc.name ≢ c.spec.ovdc
        → client.vdc ≡ none
        → Panics (update_client_with_vdc env client s)
  unfolding update_client_with_vdc check_if_ovdc_name_change ovdc_by_id
  update_client_with_vdc_renamed client s r rest vdc org full known o v renamed fresh = ground arith
