-- ===== src/Machine/Common/ProviderId.antt =====
-- The provider ID of a machine and the ID of its VM.
use Prim.Native.Char.{Char}
use Prim.Native.String.append
use text.Mathlib.TextLemmas.{append_assoc}
use text.Mathlib.TextPositions.{starts_with-append}
use cluster_api_provider_clo.Base.{String, true, ◌≡◌, refl, ◌<>◌}
use cluster_api_provider_clo.Base.{arith, starts_with, ◌∙◌, sym, ap}
use cluster_api_provider_clo.Api.Machine.{VcdMachine}
use cluster_api_provider_clo.Machine.Common.{vcd_provider_id, trim_prefix, vm_id_from_provider_id}
use cluster_api_provider_clo.Machine.Normal.{provisioned}

trim_prefix-nil : (words : String) → trim_prefix words "" ≡ words
unfolding trim_prefix
trim_prefix-nil words = refl

cons-append :
    (c : Char) (prefix words : String)
    → String.◌∷◌ c prefix <> words ≡ String.◌∷◌ c (prefix <> words)
cons-append c prefix words = λ i. append.cons c prefix words i

-- Of a text that starts with the first character of the prefix and goes on with the rest of it.
trim_prefix-step :
    (c : Char) (prefix words rest : String)
    → starts_with (String.◌∷◌ c words) (String.◌∷◌ c prefix) ≡ true
    → trim_prefix words prefix ≡ rest
    → trim_prefix (String.◌∷◌ c words) (String.◌∷◌ c prefix) ≡ rest
unfolding trim_prefix
trim_prefix-step c prefix words rest starts e = ground arith

trim_prefix-append : (prefix words : String) → trim_prefix (prefix <> words) prefix ≡ words
trim_prefix-append String.[] words = trim_prefix-nil ("" <> words) ∙ (λ i. append.nil words i)
trim_prefix-append (String.◌∷◌ c prefix) words =
    let path = cons-append c prefix words in
    let starts : starts_with (String.◌∷◌ c (prefix <> words)) (String.◌∷◌ c prefix) ≡ true =
      sym (ap (λ w. starts_with w (String.◌∷◌ c prefix)) path)
      ∙ starts_with-append (String.◌∷◌ c prefix) words in
    ap (λ w. trim_prefix w (String.◌∷◌ c prefix)) path
    ∙ trim_prefix-step c prefix (prefix <> words) words starts (trim_prefix-append prefix words)

-- For the provider ID that reconcileNormal sets, in the spec and in the status, getVMIDFromProviderID
-- is the ID of the VM.
pub vm_id_from_provider_id-provisioned :
    (vm_id : String) (m : VcdMachine)
    → (vm_id_from_provider_id (provisioned vm_id m).spec.provider_id ≡ vm_id)
      × (vm_id_from_provider_id (provisioned vm_id m).status.provider_id ≡ vm_id)
unfolding vm_id_from_provider_id provisioned
vm_id_from_provider_id-provisioned vm_id m =
    let joined : vcd_provider_id <> ("://" <> vm_id) ≡ "vmware-cloud-director://" <> vm_id =
      sym (append_assoc vcd_provider_id "://" vm_id) in
    let trimmed =
      ap (λ w. trim_prefix w "vmware-cloud-director://") joined
      ∙ trim_prefix-append "vmware-cloud-director://" vm_id in
    (trimmed, trimmed)
