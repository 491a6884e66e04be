-- ===== src/SessionCache/Shared.antt =====
-- herdr/types_gen.go: the fields that an AgentInfo and a PaneInfo have in common.
use herdr_client.Prelude.{◌≡◌, refl, Bool}
use herdr_client.Wire.{PaneInfo, AgentInfo}
use herdr_client.SessionCache.State.{merge_agent}

-- An agent and a pane have the same in each of the fields that both structs have.
pub record SharesFields (p : PaneInfo) (a : AgentInfo) : Type 0 where
  pub same_agent : a.agent ≡ p.agent
  pub same_agent_session : a.agent_session ≡ p.agent_session
  pub same_agent_status : a.agent_status ≡ p.agent_status
  pub same_cwd : a.cwd ≡ p.cwd
  pub same_display_agent : a.display_agent ≡ p.display_agent
  pub same_focused : a.focused ≡ p.focused
  pub same_foreground_cwd : a.foreground_cwd ≡ p.foreground_cwd
  pub same_pane_id : a.pane_id ≡ p.pane_id
  pub same_revision : a.revision ≡ p.revision
  pub same_state_labels : a.state_labels ≡ p.state_labels
  pub same_tab_id : a.tab_id ≡ p.tab_id
  pub same_terminal_id : a.terminal_id ≡ p.terminal_id
  pub same_terminal_title : a.terminal_title ≡ p.terminal_title
  pub same_terminal_title_stripped : a.terminal_title_stripped ≡ p.terminal_title_stripped
  pub same_title : a.title ≡ p.title
  pub same_tokens : a.tokens ≡ p.tokens
  pub same_workspace_id : a.workspace_id ≡ p.workspace_id

-- mergeAgent makes them so, whatever the agent was before
pub merge_agent-SharesFields : (a : AgentInfo) (p : PaneInfo) → SharesFields p (merge_agent a p)
unfolding merge_agent
merge_agent-SharesFields a p = record {
  same_agent = refl;
  same_agent_session = refl;
  same_agent_status = refl;
  same_cwd = refl;
  same_display_agent = refl;
  same_focused = refl;
  same_foreground_cwd = refl;
  same_pane_id = refl;
  same_revision = refl;
  same_state_labels = refl;
  same_tab_id = refl;
  same_terminal_id = refl;
  same_terminal_title = refl;
  same_terminal_title_stripped = refl;
  same_title = refl;
  same_tokens = refl;
  same_workspace_id = refl;
}

pub focus-SharesFields :
    (b : Bool) (p : PaneInfo) (a : AgentInfo)
    → SharesFields p a
    → SharesFields (record p { focused = b }) (record a { focused = b })
focus-SharesFields b p a h = record {
  same_agent = h.same_agent;
  same_agent_session = h.same_agent_session;
  same_agent_status = h.same_agent_status;
  same_cwd = h.same_cwd;
  same_display_agent = h.same_display_agent;
  same_focused = refl;
  same_foreground_cwd = h.same_foreground_cwd;
  same_pane_id = h.same_pane_id;
  same_revision = h.same_revision;
  same_state_labels = h.same_state_labels;
  same_tab_id = h.same_tab_id;
  same_terminal_id = h.same_terminal_id;
  same_terminal_title = h.same_terminal_title;
  same_terminal_title_stripped = h.same_terminal_title_stripped;
  same_title = h.same_title;
  same_tokens = h.same_tokens;
  same_workspace_id = h.same_workspace_id;
}
