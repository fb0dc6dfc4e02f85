-- ===== src/Vcd/Env.antt =====
-- The answers of the outside world, the documented laws of the helper libraries, and the objects
-- that one reconcile holds in memory.
use cluster_api_provider_clo.Base.{String, ℕ, Bool, true, false, List, ◌∷◌, Option}
use cluster_api_provider_clo.Base.{◌≡◌, is_some, none, some, contains, string_eq}
use cluster_api_provider_clo.Effect.{Body, next}
use cluster_api_provider_clo.Api.{Err, Condition}
use cluster_api_provider_clo.Api.Cluster.{VcdCluster, OwnerCluster}
use cluster_api_provider_clo.Api.Machine.{VcdMachine, OwnerMachine}
use cluster_api_provider_clo.Vcd.{Org, Vdc, Client, EntityReference, DefinedEntity, VApp, Vm}
use cluster_api_provider_clo.Vcd.{Secret, Version, NetworkSection}
use cluster_api_provider_clo.Json.{Fields}
use cluster_api_provider_clo.Rde.Types.{CapvcdEntity, CapvcdStatus, Metadata}
use cluster_api_provider_clo.Vcd.Calls.{Call, Trace, patch_cluster_status}

-- A list of defined entities with the status code of the response, if there is one.
pub record EntitiesReply : Type 0 where
  pub values : List DefinedEntity
  pub status_code : Option ℕ
  pub error : Option Err

-- One defined entity with its etag.
pub record EntityReply : Type 0 where
  pub entity : DefinedEntity
  pub status_code : Option ℕ
  pub etag : String
  pub error : Option Err

-- The answer to a request for resolution.
pub record ResolveReply : Type 0 where
  pub state : String
  pub status_code : Option ℕ
  pub error : Option Err

-- An address with the resources allocated for it.
pub record LoadBalancerReply : Type 0 where
  pub ip : String
  pub allocated : String → List EntityReference
  pub error : Option Err

pub record Env : Type 0 where
  -- calls that return an error at most, and calls that return a value and an error
  pub error_reply : Trace → Option Err
  pub text_reply : Trace → String × Option Err
  pub texts_reply : Trace → List String × Option Err
  pub client_reply : Trace → Option Client × Option Err
  pub secret_reply : Trace → Secret × Option Err
  pub org_reply : Trace → Option Org × Option Err
  pub vdc_reply : Trace → Option Vdc × Option Err
  pub vapp_reply : Trace → Option VApp × Option Err
  pub vm_reply : Trace → Option Vm × Option Err
  pub load_balancer_reply : Trace → LoadBalancerReply
  pub entities_reply : Trace → EntitiesReply
  pub entity_reply : Trace → EntityReply
  pub resolve_reply : Trace → ResolveReply
  pub response_reply : Trace → Option ℕ × Option Err
  pub owner_reply : Trace → Option OwnerCluster × Option Err
  pub owner_machine_reply : Trace → Option OwnerMachine × Option Err
  pub section_reply : Trace → NetworkSection × Option Err
  -- The object after Status().Patch, which decodes the answer of the API server into it: the cluster as
  -- it is stored. The answer has the status that was sent: no one else writes these three fields.
  pub cluster_reply : Trace → VcdCluster
  pub patched-infra_id :
      (sent : VcdCluster) (before : Trace)
      → error_reply (patch_cluster_status sent ∷ before) ≡ none
      → (cluster_reply (patch_cluster_status sent ∷ before)).status.infra_id ≡ sent.status.infra_id
  pub patched-rde_version :
      (sent : VcdCluster) (before : Trace)
      → error_reply (patch_cluster_status sent ∷ before) ≡ none
      → (cluster_reply (patch_cluster_status sent ∷ before)).status.rde_version_in_use
        ≡ sent.status.rde_version_in_use
  pub patched-ready :
      (sent : VcdCluster) (before : Trace)
      → error_reply (patch_cluster_status sent ∷ before) ≡ none
      → (cluster_reply (patch_cluster_status sent ∷ before)).status.ready ≡ sent.status.ready
  pub uuid : Trace → String
  pub getenv : String → String
  pub release_version : String
  -- github.com/pkg/errors: Wrapf of a nil error is nil, of any other it is not
  pub wrapf : Option Err → String → Option Err
  pub is_some-wrapf : (e : Option Err) (text : String) → is_some (wrapf e text) ≡ is_some e
  -- encoding/json between the content of an entity and the structs; an encoding never fails
  pub decode_entity : Fields → Option CapvcdEntity
  pub encode_entity : CapvcdEntity → Fields
  pub encode_metadata : Metadata → Fields
  pub encode_spec : String → Fields
  pub encode_status : CapvcdStatus → Fields
  pub decode_status : Fields → Option CapvcdStatus
  -- controllerutil: the finalizers of an object
  pub contains_finalizer : List String → String → Bool
  pub add_finalizer : List String → String → List String
  pub remove_finalizer : List String → String → List String
  pub contains-add :
      (finalizers : List String) (f : String)
      → contains_finalizer (add_finalizer finalizers f) f ≡ true
  pub contains-remove :
      (finalizers : List String) (f : String)
      → contains_finalizer (remove_finalizer finalizers f) f ≡ false
  -- conditions of cluster-api, which the patch helpers summarise
  pub mark_true : List Condition → String → List Condition
  pub mark_false : List Condition → String → String → String → List Condition
  pub set_summary : List Condition → List String → Bool → List Condition
  pub is_true : List Condition → String → Bool
  pub is_false : List Condition → String → Bool
  pub is_unknown : List Condition → String → Bool
  pub has_condition : List Condition → String → Bool
  pub get_reason : List Condition → String → String
  pub is_paused : OwnerCluster → VcdMachine → Bool
  -- text/template: the error of Parse, and what Execute writes for a machine
  pub parse_template : String → Option Err
  pub execute_template : String → OwnerMachine → VcdMachine → String × Option Err
  -- cpiutil.NewSet, then GetElements
  pub unique : List String → List String
  pub contains-unique :
      (values : List String) (value : String)
      → contains (unique values) value ≡ contains values value
  -- resource.Quantity: AsInt64 of a number of bytes
  pub as_int64 : ℕ → Option ℕ
  pub as_int64-same : (bytes value : ℕ) → as_int64 bytes ≡ some value → value ≡ bytes
  -- encoding/base64
  pub base64 : String → String
  -- github.com/blang/semver
  pub semver_new : String → Option Version
  pub semver_lt : Version → Version → Bool

-- The objects in memory of one reconcile and the calls made so far, newest first.
pub record Store : Type 0 where
  pub cluster : VcdCluster
  pub machine : VcdMachine
  pub trace : Trace

-- Makes a call and reads its answer.
abbrev pub ask : {R A : Type 0} → Call → (Trace → A) → Body Store R A
ask c answer s = next (answer (c ∷ s.trace)) (record s { trace = c ∷ s.trace })

abbrev pub the_cluster : {R : Type 0} → Body Store R VcdCluster
the_cluster s = next s.cluster s

abbrev pub the_machine : {R : Type 0} → Body Store R VcdMachine
the_machine s = next s.machine s

-- An assignment to fields of the cluster, or of the machine, through its pointer.
abbrev pub update_cluster : {R : Type 0} → (VcdCluster → VcdCluster) → Body Store R (Unit {0})
update_cluster f s = next tt (record s { cluster = f s.cluster })

abbrev pub update_machine : {R : Type 0} → (VcdMachine → VcdMachine) → Body Store R (Unit {0})
update_machine f s = next tt (record s { machine = f s.machine })
