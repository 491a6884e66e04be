-- ===== src/Plugin/Invocation.antt =====
-- plugin/invocation.go: the context that an entry was invoked in. json.Unmarshal is a parameter.
use herdr_client.Prelude.{String, ◌==◌, if◌then◌else◌}
use herdr_client.Optional.{Optional, absent_value, value_or_zero}
use herdr_client.Wire.{AgentStatus, WorkspaceWorktreeInfo, workspace_worktree_zero}
use herdr_client.Plugin.Environment.{Env}

-- PluginInvocationContext of herdr/types_gen.go
pub record InvocationContext : Type 0 where
  pub clicked_url : Optional String
  pub correlation_id : Optional String
  pub focused_pane_agent : Optional String
  pub focused_pane_cwd : Optional String
  pub focused_pane_id : Optional String
  pub focused_pane_status : Optional AgentStatus
  pub invocation_source : Optional String
  pub link_handler_id : Optional String
  pub selected_text : Optional String
  pub tab_id : Optional String
  pub tab_label : Optional String
  pub workspace_cwd : Optional String
  pub workspace_id : Optional String
  pub workspace_label : Optional String
  pub worktree : Optional WorkspaceWorktreeInfo

pub record Invocation : Type 0 where
  pub clicked_url : String
  pub correlation_id : String
  pub focused_pane_agent : String
  pub focused_pane_cwd : String
  pub focused_pane_id : String
  pub focused_pane_status : AgentStatus
  pub invocation_source : String
  pub link_handler_id : String
  pub selected_text : String
  pub tab_id : String
  pub tab_label : String
  pub workspace_cwd : String
  pub workspace_id : String
  pub workspace_label : String
  pub worktree : Optional WorkspaceWorktreeInfo

abbrev zero_invocation : Invocation
zero_invocation = record {
  clicked_url = "";
  correlation_id = "";
  focused_pane_agent = "";
  focused_pane_cwd = "";
  focused_pane_id = "";
  focused_pane_status = "";
  invocation_source = "";
  link_handler_id = "";
  selected_text = "";
  tab_id = "";
  tab_label = "";
  workspace_cwd = "";
  workspace_id = "";
  workspace_label = "";
  worktree = absent_value;
}

-- the fields of a context as values
unfoldable pub flattened : InvocationContext → Invocation
unfolding value_or_zero
flattened c = record {
  clicked_url = value_or_zero c.clicked_url;
  correlation_id = value_or_zero c.correlation_id;
  focused_pane_agent = value_or_zero c.focused_pane_agent;
  focused_pane_cwd = value_or_zero c.focused_pane_cwd;
  focused_pane_id = value_or_zero c.focused_pane_id;
  focused_pane_status = value_or_zero c.focused_pane_status;
  invocation_source = value_or_zero c.invocation_source;
  link_handler_id = value_or_zero c.link_handler_id;
  selected_text = value_or_zero c.selected_text;
  tab_id = value_or_zero c.tab_id;
  tab_label = value_or_zero c.tab_label;
  workspace_cwd = value_or_zero c.workspace_cwd;
  workspace_id = value_or_zero c.workspace_id;
  workspace_label = value_or_zero c.workspace_label;
  worktree = c.worktree;
}

pub data ContextError : Type 0 where
  no_context : ContextError
  undecodable : String → ContextError

pub data Contextual : Type 0 where
  in_context : InvocationContext → Contextual
  without : ContextError → Contextual

module _ (decode : String → Contextual) where
  -- Env.Context; `decode` fails with the error of json.Unmarshal
  unfoldable pub context : Env → Contextual
  context e = if e.context_json == "" then without no_context else decode e.context_json

  abbrev invocation_of : Contextual → Invocation
  invocation_of (without e) = zero_invocation
  invocation_of (in_context c) = flattened c

  -- Env.Invocation
  unfoldable pub invocation : Env → Invocation
  unfolding context flattened
  invocation e = invocation_of (context e)
