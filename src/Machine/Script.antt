-- ===== src/Machine/Script.antt =====
-- getBootstrapData and reconcileCloudInitScript.
use cluster_api_provider_clo.Base.{String, Bool, false, Option, none, some}
use cluster_api_provider_clo.Base.{is_some, ◌==◌, string_eq, not, ◌&&◌, ◌<>◌}
use cluster_api_provider_clo.Base.{if◌then◌else◌}
use cluster_api_provider_clo.Effect.{Fun, ◌>>=◌, ◌>>◌, leave, pure, call, run}
use cluster_api_provider_clo.Effect.{if_nil, when}
use cluster_api_provider_clo.Api.{Err, message}
use cluster_api_provider_clo.Api.Cluster.{OwnerCluster, VcdCluster}
use cluster_api_provider_clo.Api.Machine.{OwnerMachine}
use cluster_api_provider_clo.Vcd.Calls.{get_secret}
use cluster_api_provider_clo.Vcd.Env.{Env, Store, ask, the_cluster, the_machine}
use cluster_api_provider_clo.Rde.Sets.{report_error, report_event, clear_error}
use cluster_api_provider_clo.Cluster.Common.{text_contains}
use cluster_api_provider_clo.Machine.CloudInit.{CloudInitScriptInput, Yaml}
use cluster_api_provider_clo.Machine.CloudInit.{merge_jinja_to_cloud_init_script}

-- getTKGVersion
unfoldable pub tkg_version_of : OwnerCluster → String
tkg_version_of cluster = elim (cluster.annotation "TKGVERSION") [
  | none ↦ ""
  | some version ↦ version
]

-- strings.ReplaceAll(site, "/", "\\/")
unfoldable pub escape_slashes : String → String
escape_slashes String.[] = ""
escape_slashes (String.◌∷◌ c rest) =
    let escaped = escape_slashes rest in
    if String.◌∷◌ c "" == "/" then "\\/" <> escaped else String.◌∷◌ c escaped

-- The script, whether the machine is the first of the control plane, whether it joins the control
-- plane, and the error.
pub record ScriptReply : Type 0 where
  pub script : String
  pub initial : Bool
  pub resized : Bool
  pub error : Option Err

-- The input for the script of a machine.
unfoldable pub script_input :
    OwnerCluster → VcdCluster → Bool → Bool → Bool → String → CloudInitScriptInput
script_input cluster c bootstrapped initial resized vm_name = record {
  control_plane = not bootstrapped && initial;
  nvidia_gpu = false;
  bootstrap_run_cmd = "";
  http_proxy = c.spec.proxy_config_spec.http_proxy;
  https_proxy = c.spec.proxy_config_spec.https_proxy;
  no_proxy = c.spec.proxy_config_spec.no_proxy;
  machine_name = vm_name;
  resized_control_plane = resized;
  vcd_host_formatted = escape_slashes c.spec.site;
  tkg_version = tkg_version_of cluster;
  cluster_id = c.status.infra_id;
}

module _ (env : Env) (yaml : Yaml) (owner : OwnerMachine) where
  unfoldable pub bootstrap_data : Fun Store (String × Option Err)
  bootstrap_data = run do
    if_nil (owner.data_secret_name)
        (leave ("", some (message "linked Machine's bootstrap.dataSecretName is nil")))
        λ name. do
          (secret, err) ← ask (get_secret name owner.namespace) env.secret_reply
          when (is_some err) (leave ("", env.wrapf err "failed to retrieve bootstrap data secret"))
          if_nil (secret.entry "value") (leave ("", some (message "secret value key is missing")))
              λ value. pure (value, none)

  unfoldable pub reconcile_cloud_init_script : OwnerCluster → String → Bool → Fun Store ScriptReply
  reconcile_cloud_init_script cluster vm_name skip_rde_event_updates = run do
    c ← the_cluster
    m ← the_machine
    (jinja, err) ← call bootstrap_data
    when (is_some err) do
      report_error env "VCDMachineScriptGenerationError" "" owner.name
      leave (record {
        script = "";
        initial = false;
        resized = false;
        error = env.wrapf err "Error retrieving bootstrap data";
      })
    let joins = text_contains jinja "kubeadm join"
    let initial = owner.control_plane && not joins
    let resized = owner.control_plane && joins
    let input = script_input cluster c m.spec.bootstrapped initial resized vm_name
    (script, e) ← call (merge_jinja_to_cloud_init_script env yaml input jinja)
    when (is_some e) do
      report_error env "VCDMachineScriptGenerationError" "" owner.name
      leave (record {
        script = "";
        initial = initial;
        resized = resized;
        error = env.wrapf e "Error merging bootstrap jinja script with the cloudInit script";
      })
    report_event env "CloudInitScriptGenerated" "" owner.name skip_rde_event_updates
    _ ← clear_error env "VCDMachineScriptGenerationError" "" owner.name
    pure (record { script = script; initial = initial; resized = resized; error = none })
