-- ===== src/Tests/Checks.antt =====
-- The theorems on plugin/plugintest/manifest.go and Registered at a plugin with one action and one
-- pane, and a manifest that declares them.
use herdr_client.Prelude.{
  ℕ, ◌+◌, ◌≡◌, refl, String, Bool, true, Option, none, some, [], ◌∷◌, contains,
}
use herdr_client.GoText.{trim_space, split, trim_prefix, parse_uint}
use herdr_client.Manifest.Types.{Manifest}
use herdr_client.Manifest.Validate.{
  validate, valid_plugin_id, valid_local_id, valid_identifier, identifier_code,
  validate_min_herdr_version, validate_platforms, validate_actions, validate_command,
  validate_events, validate_panes, validate_link_handlers, manifest_warnings,
}
use herdr_client.Plugin.Environment.{Env, environment, kind_action}
use herdr_client.Plugin.Registry.{
  EventEnvelope, Handler, Plugin, new_plugin, empty_table, store, action, pane, register,
  registered, bind,
}
use herdr_client.Plugin.Registered.{Built, built_new, built_action, built_pane, registered_names}
use herdr_client.Sorting.{sort_names}
use herdr_client.ManifestCheck.{
  parsed, parse, check_parsed, check_manifest, declared_actions, declared_panes, declared_events,
}
use herdr_client.ManifestCheck.Agreement.{nothing, clean, check_parsed-clean}
use herdr_client.ManifestCheck.Bound.{IsBound, check_manifest-binds_actions}

abbrev manifest : Manifest
manifest = record {
  id = "acme.runner";
  name = "Runner";
  version = "1.0.0";
  min_herdr_version = "0.9.0";
  description = "";
  platforms = some ("linux" ∷ []);
  build = [];
  startup = [];
  actions =
      record {
        id = " start";
        title = "Start";
        description = "";
        contexts = [];
        command = "run" ∷ [];
        platforms = none;
      }
      ∷ [];
  events = [];
  panes =
      record {
        id = "log";
        title = "Log";
        description = "";
        placement = "";
        width = none;
        height = none;
        command = "tail" ∷ [];
        platforms = none;
      }
      ∷ [];
  link_handlers = [];
}

abbrev handler : Handler ℕ String
handler e w = (none, w + 1)

abbrev with_action : Plugin ℕ String
with_action = record {
  startup = none;
  actions = store "start" handler empty_table;
  panes = empty_table;
  events = empty_table;
}

abbrev plugin : Plugin ℕ String
plugin = record {
  startup = none;
  actions = store "start" handler empty_table;
  panes = store "log" handler empty_table;
  events = empty_table;
}

action-registers :
    action "start" (some handler) (new_plugin {W = ℕ} {X = String}) ≡ registered with_action
unfolding action register new_plugin
action-registers = refl

pane-registers : pane "log" (some handler) with_action ≡ registered plugin
unfolding pane register
pane-registers = refl

plugin-Built : Built plugin
plugin-Built =
    built_pane "log" handler (built_action "start" handler built_new action-registers)
      pane-registers

abbrev compiles : String → Bool
compiles text = true

abbrev decode_toml : String → Option Manifest
decode_toml text = some manifest

abbrev decode : String → Option EventEnvelope
decode text = none

manifest-parses : parse compiles decode_toml (some "id = ...") ≡ parsed manifest []
unfolding parse validate trim_space valid_plugin_id valid_local_id valid_identifier identifier_code
    validate_min_herdr_version validate_platforms validate_actions validate_command validate_events
    validate_panes validate_link_handlers manifest_warnings split trim_prefix parse_uint
manifest-parses = refl

manifest-agrees : check_manifest compiles decode_toml (some "id = ...") plugin ≡ []
unfolding check_manifest registered_names sort_names store declared_actions declared_panes
    declared_events parse validate trim_space valid_plugin_id valid_local_id valid_identifier
    identifier_code validate_min_herdr_version validate_platforms validate_actions validate_command
    validate_events validate_panes validate_link_handlers manifest_warnings split trim_prefix
    parse_uint
manifest-agrees = refl

abbrev action_env : Env
action_env = environment (λ key. ("start", true))

abbrev pane_env : Env
pane_env = environment (λ key. ("log", true))

start-declared : contains (declared_actions manifest.actions) action_env.action_id ≡ true
unfolding declared_actions trim_space
start-declared = refl

log-declared : contains (declared_panes manifest.panes) pane_env.entrypoint_id ≡ true
unfolding declared_panes trim_space
log-declared = refl

check_manifest-binds_actions_example :
    IsBound decode plugin (bind decode plugin action_env kind_action)
check_manifest-binds_actions_example =
    check_manifest-binds_actions decode plugin compiles decode_toml (some "id = ...") manifest []
      action_env plugin-Built manifest-agrees manifest-parses start-declared

check_parsed-clean_example :
    nothing (check_parsed (parsed manifest []) (registered_names plugin))
    ≡ clean (parsed manifest []) (registered_names plugin)
check_parsed-clean_example = check_parsed-clean (parsed manifest []) (registered_names plugin)
