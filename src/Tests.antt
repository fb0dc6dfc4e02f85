-- ===== src/Tests.antt =====
-- A Cloud Director in which every call succeeds, a cluster, and the theorems applied to them.
pub mod Bootstraps
pub mod Entities
pub mod MachineSteps
pub mod Machines
pub mod Reconciles
pub mod Steps
use cluster_api_provider_clo.Base.{
  String, ℕ, Bool, true, false, Option, none, some, List, [], ◌∷◌, ◌≡◌,
}
use cluster_api_provider_clo.Base.{
  refl, is_some, ◌==◌, ◌!=◌, string_eq, nat_eq, ◌<>◌, arith, if◌then◌else◌,
}
use cluster_api_provider_clo.Effect.{Result, ret, panicked}
use cluster_api_provider_clo.Api.{Err, message, ObjectMeta}
use cluster_api_provider_clo.Api.Cluster.{VcdCluster, VcdResource, OwnerCluster}
use cluster_api_provider_clo.Api.Machine.{VcdMachine, OwnerMachine}
use cluster_api_provider_clo.Json.{Fields, end, field, object, text}
use cluster_api_provider_clo.Vcd.{Org, Vdc, Client, DefinedEntity, VApp, Secret, Version}
use cluster_api_provider_clo.Vcd.Calls.{
  Call, Trace, patch_cluster_status, get_vdc_by_id, get_vdc_by_name,
}
use cluster_api_provider_clo.Vcd.Env.{Env, Store}
use cluster_api_provider_clo.Rde.Types.{CapvcdStatus}
use cluster_api_provider_clo.Rde.Convert.{empty_entity}
use cluster_api_provider_clo.Cluster.Common.{done, cluster_finalizer}
use cluster_api_provider_clo.Entity.Nodes.{NodeOwner, ListedMachine}
use cluster_api_provider_clo.Entity.Reconcile.{RdeReads}

-- A wrapped error is the error with a text before it.
abbrev wrap : Option Err → String → Option Err
wrap none words = none
wrap (some e) words = some (Err.caused words e)

pub is_some-wrap : (e : Option Err) (words : String) → is_some (wrap e words) ≡ is_some e
is_some-wrap none words = refl
is_some-wrap (some e) words = refl

-- Finalizers as a list without repetition.
unfoldable pub has : List String → String → Bool
has [] f = false
has (g ∷ rest) f = if g == f then true else has rest f

abbrev add : List String → String → List String
add finalizers f = f ∷ finalizers

unfoldable pub remove : List String → String → List String
remove [] f = []
remove (g ∷ rest) f = let shorter = remove rest f in if g == f then shorter else g ∷ shorter

pub has-add : (finalizers : List String) (f : String) → has (add finalizers f) f ≡ true
unfolding has
has-add finalizers f = ground arith

pub has-remove : (finalizers : List String) (f : String) → has (remove finalizers f) f ≡ false
unfolding has remove
has-remove [] f = refl
has-remove (g ∷ rest) f = ground (arith, has-remove rest f)

abbrev pub acme : Org
acme = record { id = "org-1"; name = "acme" }

abbrev pub pool : Vdc
pool = record { id = "vdc-1"; name = "pool" }

abbrev pub renamed : Vdc
renamed = record { id = "vdc-1"; name = "pool-2" }

abbrev pub fresh_client : Client
fresh_client = record { cluster_org_name = "acme"; cluster_ovdc_name = "pool"; vdc = none }

abbrev pub client : Client
client = record { cluster_org_name = "acme"; cluster_ovdc_name = "pool"; vdc = some pool }

-- The OVDC has another name under its ID than the cluster knows.
abbrev vdc_answer : Trace → Option Vdc × Option Err
vdc_answer (get_vdc_by_id id ∷ _) = (some renamed, none)
vdc_answer _ = (some pool, none)

abbrev pub old_entity : DefinedEntity
old_entity = record {
  id = "rde-1";
  name = "c1";
  entity_type = "urn:vcloud:type:vmware:capvcdCluster:1.0.0";
  external_id = "";
  state = "RESOLVED";
  entity =
      field "status" (object (field "cpi" (text "cpi-data") (field "capvcd" (object end) end))) end;
}

abbrev version_of : String → Option Version
version_of words =
    if words == "1.0.0"
    then some (record { major = 1; minor = 0; patch = 0; pre = [] })
    else (if words == "1.1.0"
        then some (record { major = 1; minor = 1; patch = 0; pre = [] })
        else none)

abbrev pub provisioning : OwnerCluster
provisioning = record {
  name = "c1";
  phase = "Provisioning";
  control_plane_ready = true;
  infrastructure_ready = true;
  infrastructure_name = "c1";
  conditions = [];
  annotation = λ key. none;
}

abbrev pub worker : OwnerMachine
worker = record {
  name = "m1";
  namespace = "ns";
  control_plane = false;
  bootstrap_ready = false;
  data_secret_name = some "secret";
  conditions = [];
}

pub same_number : (bytes value : ℕ) → some bytes ≡ some value → value ≡ bytes
same_number bytes value e = cc

-- A cluster with these finalizers, infra ID and RDE version.
abbrev pub cluster_of : List String → String → String → Bool → VcdCluster
cluster_of finalizers infra_id version deleting = record {
  meta = record { name = "c1"; namespace = "ns"; deleting = deleting; finalizers = finalizers };
  spec = record {
    control_plane_endpoint = record { host = ""; port = 0 };
    site = "https://vcd";
    org = "acme";
    ovdc = "pool";
    ovdc_network = "net";
    user_credentials_context = record {
      username = "u";
      password = "p";
      refresh_token = "";
      secret_ref = none;
    };
    rde_id = infra_id;
    parent_uid = "";
    use_as_management_cluster = false;
    proxy_config_spec = record { http_proxy = ""; https_proxy = ""; no_proxy = "" };
    load_balancer_config_spec = record { use_one_arm = false; vip_subnet = "" };
  };
  status = record {
    ready = false;
    rde_version_in_use = version;
    vapp_metadata_updated = false;
    conditions = [];
    site = "";
    vcd_resource_map = record { ovdcs = [] };
    org = "";
    ovdc = "";
    ovdc_network = "";
    infra_id = infra_id;
    parent_uid = "";
    use_as_management_cluster = false;
    proxy_config = record { http_proxy = ""; https_proxy = ""; no_proxy = "" };
    load_balancer_config = record { use_one_arm = false; vip_subnet = "" };
  };
}

-- The API server stores what it is sent.
abbrev stored : Trace → VcdCluster
stored (patch_cluster_status c ∷ _) = c
stored _ = cluster_of [] "" "" false

abbrev pub calm : Env
calm = record {
  error_reply = λ t. none;
  text_reply = λ t. ("rde-1", none);
  texts_reply = λ t. ([], none);
  client_reply = λ t. (some fresh_client, none);
  secret_reply = λ t. (record { entry = λ key. none }, none);
  org_reply = λ t. (some acme, none);
  vdc_reply = vdc_answer;
  vapp_reply = λ t. (some (record { id = "vapp-1"; name = "c1"; children = none }), none);
  vm_reply = λ t. (none, none);
  load_balancer_reply = λ t. record { ip = "10.0.0.5"; allocated = λ kind. []; error = none };
  entities_reply = λ t. record { values = old_entity ∷ []; status_code = some 200; error = none };
  entity_reply =
      λ t. record { entity = old_entity; status_code = some 200; etag = "e1"; error = none };
  resolve_reply = λ t. record { state = "RESOLVED"; status_code = some 200; error = none };
  response_reply = λ t. (some 204, none);
  owner_reply = λ t. (some (provisioning), none);
  owner_machine_reply = λ t. (some worker, none);
  section_reply = λ t. (record { primary = 0; connections = [] }, none);
  cluster_reply = stored;
  patched-infra_id = λ sent before e. refl;
  patched-rde_version = λ sent before e. refl;
  patched-ready = λ sent before e. refl;
  uuid = λ t. "1234";
  getenv = λ name. "";
  release_version = "1.3.0";
  wrapf = wrap;
  is_some-wrapf = is_some-wrap;
  decode_entity = λ m. some empty_entity;
  encode_entity = λ e. end;
  encode_metadata = λ m. end;
  encode_spec = λ yaml. end;
  encode_status = λ status. end;
  decode_status = λ m. some empty_entity.status;
  contains_finalizer = has;
  add_finalizer = add;
  remove_finalizer = remove;
  contains-add = has-add;
  contains-remove = has-remove;
  mark_true = λ conditions kind. conditions;
  mark_false = λ conditions kind reason severity. conditions;
  set_summary = λ conditions kinds counted. conditions;
  is_true = λ conditions kind. false;
  is_false = λ conditions kind. false;
  is_unknown = λ conditions kind. false;
  has_condition = λ conditions kind. true;
  get_reason = λ conditions kind. "";
  is_paused = λ owner m. false;
  parse_template = λ words. none;
  execute_template = λ words m v. ("vm", none);
  unique = λ values. values;
  contains-unique = λ values value. refl;
  as_int64 = some;
  as_int64-same = same_number;
  base64 = λ words. words;
  semver_new = version_of;
  semver_lt = λ a b. if a.minor == 0 then (if b.minor == 0 then false else true) else false;
}

-- One control plane, which is a machine deployment of the same name too, with one machine, and a
-- comparison that tells all values apart.
abbrev pub one_owner : NodeOwner
one_owner = record {
  name = "kcp";
  version = "v1.28.0";
  replicas = some 1;
  ready_replicas = 1;
  template = "large";
}

abbrev pub one_machine : ListedMachine
one_machine = record {
  name = "m1";
  phase = "Running";
  version = some "v1.28.0";
  owners = record { kind = "KubeadmControlPlane"; name = "kcp" } ∷ [];
}

abbrev differ : {A : Type 0} → A → A → Bool
differ x y = false

pub differ-same : {A : Type 0} (x y : A) → false ≡ true → y ≡ x
differ-same x y e = cc

abbrev pub reads : RdeReads
reads = record {
  listing = record {
    owners = λ t. (one_owner ∷ [], none);
    machines = λ t. (one_machine ∷ [], none);
    template = λ t. (
      record {
        sizing_policy = "large";
        placement_policy = "";
        enable_nvidia_gpu = false;
        storage_profile = "";
        disk_size = 0;
      },
      none,
    );
  };
  creation = record {
    network = some (record { pods = some ("100.96.0.0/11" ∷ []); services = some [] });
    location = λ t. "task-1";
    task_owner = λ t. (some "rde-2", none);
  };
  deep_equal = record {
    upgrades = differ;
    blocks = differ;
    bindings = differ;
    api_statuses = differ;
    node_pools = differ;
    properties = differ;
    upgrades-same = differ-same;
    blocks-same = differ-same;
    bindings-same = differ-same;
    api_statuses-same = differ-same;
    node_pools-same = differ-same;
    properties-same = differ-same;
  };
  bindings = λ t. ([], none);
}

abbrev pub machine : VcdMachine
machine = record {
  meta = record { name = "m1"; namespace = "ns"; deleting = false; finalizers = [] };
  spec = record {
    provider_id = none;
    catalog = "";
    template = "";
    sizing_policy = "";
    placement_policy = "";
    storage_profile = "";
    disk_size = 0;
    bootstrapped = false;
    enable_nvidia_gpu = false;
    extra_ovdc_networks = [];
    vm_naming_template = "";
  };
  status = record {
    provider_id = none;
    ready = false;
    addresses = [];
    template = "";
    sizing_policy = "";
    placement_policy = "";
    nvidia_gpu_enabled = false;
    disk_size = 0;
    conditions = [];
  };
}

abbrev pub store_of : VcdCluster → Store
store_of c = record { cluster = c; machine = machine; trace = [] }

abbrev pub finalizers : List String
finalizers = cluster_finalizer ∷ []

-- A cluster that is deleted, one that has an RDE, and one that was just created.
abbrev pub leaving : Store
leaving = store_of (cluster_of finalizers "rde-1" "1.0.0" true)

abbrev pub running : Store
running = store_of (cluster_of finalizers "rde-1" "1.0.0" false)

abbrev pub created : Store
created = store_of (cluster_of [] "" "" false)

-- The objects and the value at the end of a call.
abbrev pub objects : {R : Type 0} → Result Store R → Store
objects (ret r t) = t
objects (panicked t) = t

abbrev pub value : {R : Type 0} → R → Result Store R → R
value other (ret r t) = r
value other (panicked t) = other
