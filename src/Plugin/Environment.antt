-- ===== src/Plugin/Environment.antt =====
-- plugin/plugin.go: the environment of a plugin process, and what kind of entry it was started for.
-- os.LookupEnv is a parameter: a function to a value and whether the variable is set. A byte slice
-- is a text, and nil the empty one, since the code only tests its length and decodes it.
use herdr_client.Prelude.{String, ◌==◌, Bool, not, if◌then◌else◌}
use herdr_client.GoText.{has_dot}

pub record Env : Type 0 where
  pub plugin_id : String
  pub plugin_root : String
  pub config_dir : String
  pub state_dir : String
  pub socket_path : String
  pub bin_path : String
  pub workspace_id : String
  pub tab_id : String
  pub pane_id : String
  pub action_id : String
  pub entrypoint_id : String
  pub event : String
  pub context_json : String
  pub event_json : String
  pub clicked_url : String
  pub link_handler_id : String

pub data EntryKind : Type 0 where
  kind_unknown kind_startup kind_action kind_event kind_pane : EntryKind

pub data Loaded : Type 0 where
  not_plugin_process missing_plugin_id : Loaded
  loaded : Env → Loaded

abbrev pub startup_event : String
startup_event = "startup"

module _ (lookup : String → String × Bool) where
  abbrev variable : String → String
  variable key = (lookup key).0

  abbrev pub environment : Env
  environment = record {
    plugin_id = variable "HERDR_PLUGIN_ID";
    plugin_root = variable "HERDR_PLUGIN_ROOT";
    config_dir = variable "HERDR_PLUGIN_CONFIG_DIR";
    state_dir = variable "HERDR_PLUGIN_STATE_DIR";
    socket_path = variable "HERDR_SOCKET_PATH";
    bin_path = variable "HERDR_BIN_PATH";
    workspace_id = variable "HERDR_WORKSPACE_ID";
    tab_id = variable "HERDR_TAB_ID";
    pane_id = variable "HERDR_PANE_ID";
    action_id = variable "HERDR_PLUGIN_ACTION_ID";
    entrypoint_id = variable "HERDR_PLUGIN_ENTRYPOINT_ID";
    event = variable "HERDR_PLUGIN_EVENT";
    context_json = variable "HERDR_PLUGIN_CONTEXT_JSON";
    event_json = variable "HERDR_PLUGIN_EVENT_JSON";
    clicked_url = variable "HERDR_PLUGIN_CLICKED_URL";
    link_handler_id = variable "HERDR_PLUGIN_LINK_HANDLER_ID";
  }

  unfoldable pub load_from : Loaded
  load_from =
      if not (variable "HERDR_ENV" == "1")
      then not_plugin_process
      else if environment.plugin_id == ""
      then missing_plugin_id
      else loaded environment

unfoldable pub entry_kind : Env → EntryKind
entry_kind e =
    if e.event == startup_event
    then kind_startup
    else if not (e.action_id == "")
    then kind_action
    else if has_dot e.event
    then kind_event
    else if not (e.entrypoint_id == "")
    then kind_pane
    else kind_unknown
