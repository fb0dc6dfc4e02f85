-- ===== src/Machine/CloudInit.antt =====
-- MergeJinjaToCloudInitScript. A map that comes from YAML is a list of fields; the order in which
-- the code reads a map decides only which of several errors comes first.
pub mod Laws
use cluster_api_provider_clo.Base.{String, Bool, true, false, Option, none, some, List, [], ◌∷◌}
use cluster_api_provider_clo.Base.{is_some, is_none, ◌==◌, string_eq, not, ◌&&◌, ◌||◌, ◌<>◌}
use cluster_api_provider_clo.Base.{if◌then◌else◌}
use cluster_api_provider_clo.Effect.{Body, Fun, ◌>>=◌, ◌>>◌, leave, pure, crash, call, run}
use cluster_api_provider_clo.Effect.{if_nil, when, exit, next, panic, ret, panicked}
use cluster_api_provider_clo.Api.{Err, message}
use cluster_api_provider_clo.Json.{
  Value, Items, nil, item, list, text, Fields, end, field, get, put,
}
use cluster_api_provider_clo.Vcd.Env.{Env, Store}

pub record CloudInitScriptInput : Type 0 where
  pub control_plane : Bool
  pub nvidia_gpu : Bool
  pub bootstrap_run_cmd : String
  pub http_proxy : String
  pub https_proxy : String
  pub no_proxy : String
  pub machine_name : String
  pub resized_control_plane : Bool
  pub vcd_host_formatted : String
  pub tkg_version : String
  pub cluster_id : String

-- gopkg.in/yaml and the template cloud_init.tmpl.
pub record Yaml : Type 0 where
  pub decode : String → Option Fields
  pub encode : String → Value → Option String
  pub render : CloudInitScriptInput → String × Option Err

-- strings.Trim with the characters of a set.
unfoldable pub trim_left : (String → Bool) → String → String
trim_left cut String.[] = ""
trim_left cut (String.◌∷◌ c rest) =
    let shorter = trim_left cut rest in if cut (String.◌∷◌ c "") then shorter else String.◌∷◌ c rest

unfoldable pub trim_right : (String → Bool) → String → String
trim_right cut String.[] = ""
trim_right cut (String.◌∷◌ c rest) =
    let trimmed = trim_right cut rest in
    if trimmed == "" && cut (String.◌∷◌ c "") then "" else String.◌∷◌ c trimmed

abbrev pub trim : (String → Bool) → String → String
trim cut words = trim_right cut (trim_left cut words)

abbrev pub is_newline : String → Bool
is_newline c = c == "\n"

abbrev pub is_line_end : String → Bool
is_line_end c = c == "\r" || c == "\n"

-- The commands, each on a line of its own behind four blanks; none where one is not a text.
unfoldable pub format_lines : Items → Option String
format_lines nil = some ""
format_lines (item (text line) rest) = elim (format_lines rest) [
  | none ↦ none
  | some later ↦ some ("    " <> line <> "\n" <> later)
]
format_lines (item _ rest) = none

-- The text that goes into the template for the commands of the bootstrap script.
unfoldable pub run_commands : Items → Option String
run_commands items = elim (format_lines items) [
  | none ↦ none
  | some words ↦ some (trim is_line_end (trim is_newline ("\n" <> words)))
]

unfoldable pub append_items : Items → Items → Items
append_items nil others = others
append_items (item v rest) others = item v (append_items rest others)

-- The value of a key that both maps have: two lists are joined, a list and something else panic, and
-- other values are an error.
pub data Joined : Type 0 where
  joined : Value → Joined
  not_a_list : Joined  -- the script's value is not a list
  unhandled : Joined

unfoldable pub join : Value → Value → Joined
join (list items) (list others) = joined (list (append_items items others))
join (list items) _ = not_a_list
join _ _ = unhandled

-- The keys of the template, in order, with the values that the merged map has so far.
unfoldable pub merge_template : Fields → Fields → Fields → Fun Store (Fields × Option Err)
merge_template jinja end merged = run (pure (merged, none))
merge_template jinja (field key value rest) merged = run do
  if_nil (if key == "runcmd" then none else get key jinja)
      (call (merge_template jinja rest (put key value merged)))
      λ other. elim (join value other) [
        | joined both ↦ call (merge_template jinja rest (put key both merged))
        | not_a_list ↦ crash
        | unhandled ↦ leave (merged, some (message "unable to handle type for key"))
      ]

-- The keys that only the script has.
unfoldable pub merge_remaining : Fields → Fields → Fields → Fields
merge_remaining vcd end merged = merged
merge_remaining vcd (field key value rest) merged =
    merge_remaining vcd rest (if is_none (get key vcd) then put key value merged else merged)

abbrev pub output_keys : List String
output_keys =
    "write_files" ∷ "runcmd" ∷ "users" ∷ "timezone" ∷ "disable_root" ∷ "preserve_hostname"
    ∷ "hostname" ∷ "final_message" ∷ []

module _ (yaml : Yaml) where
  unfoldable pub write_keys : List String → Fields → String → String × Option Err
  write_keys [] merged out = (out, none)
  write_keys (key ∷ keys) merged out = elim (get key merged) [
    | none ↦ write_keys keys merged out
    | some value ↦ elim (yaml.encode key value) [
      | none ↦ ("", some (message "unable to marshal"))
      | some delta ↦ write_keys keys merged (out <> delta)
    ]
  ]

module _ (env : Env) (yaml : Yaml) where
  -- The input with the commands of the bootstrap script.
  unfoldable pub with_run_commands :
      CloudInitScriptInput → Fields → CloudInitScriptInput × Option Err
  with_run_commands input jinja = elim (get "runcmd" jinja) [
    | none ↦ (input, none)
    | some (list items) ↦ elim (run_commands items) [
      | none ↦ (input, some (message "unable to convert to string"))
      | some commands ↦ (record input { bootstrap_run_cmd = commands }, none)
    ]
    | some _ ↦ (input, some (message "expected a list for jinja runcmd"))
  ]

  unfoldable pub merge_jinja_to_cloud_init_script :
      CloudInitScriptInput → String → Fun Store (String × Option Err)
  merge_jinja_to_cloud_init_script input jinja_config = run do
    if_nil (yaml.decode jinja_config) (leave ("", some (message "unable to unmarshal yaml")))
        λ jinja. do
          let prepared = with_run_commands input jinja
          when (is_some prepared.1) (leave ("", prepared.1))
          let rendered = yaml.render prepared.0
          when (is_some rendered.1)
              (leave ("", env.wrapf rendered.1 "Error rendering cloud init template"))
          if_nil (yaml.decode rendered.0)
              (leave ("", some (message "unable to unmarshal cloud init with embedded script")))
              λ vcd. do
                (merged, err) ← call (merge_template jinja vcd end)
                when (is_some err) (leave ("", err))
                pure (
                    write_keys yaml output_keys (merge_remaining vcd jinja merged)
                      "#cloud-config\n")
