-- ===== src/Tests/Samples.antt =====
-- A server with two workspaces: the first has two tabs, and a pane in which an agent works.
use herdr_client.Prelude.{String, [], ◌∷◌, nat_zero, string_zero, bool_zero, map_zero}
use herdr_client.Optional.{some_value, absent_value}
use herdr_client.Wire.{
  WorkspaceInfo, TabInfo, PaneInfo, AgentInfo, PaneLayoutSnapshot, SessionSnapshot, workspace_zero,
  tab_zero, pane_zero, agent_zero, layout_zero, pane_scroll_zero, agent_session_zero,
  workspace_worktree_zero,
}
use herdr_client.SessionCache.State.{SessionCache, new_session_cache, merge_agent}

abbrev pub workspace : String → String → WorkspaceInfo
workspace id label = record workspace_zero.zero_value { workspace_id = id; label = label }

abbrev pub tab : String → String → TabInfo
tab id workspace_id = record tab_zero.zero_value { tab_id = id; workspace_id = workspace_id }

abbrev pub pane : PaneInfo
pane = record pane_zero.zero_value {
  pane_id = "p1";
  tab_id = "t1";
  workspace_id = "w1";
  agent = some_value "claude";
  agent_status = "working";
}

abbrev pub agent : AgentInfo
agent = merge_agent (record agent_zero.zero_value { name = some_value "helper" }) pane

abbrev pub layout : PaneLayoutSnapshot
layout = record layout_zero.zero_value {
  tab_id = "t1";
  workspace_id = "w1";
  focused_pane_id = "p1";
}

abbrev pub snapshot : SessionSnapshot
snapshot = record {
  agents = agent ∷ [];
  focused_pane_id = absent_value;
  focused_tab_id = absent_value;
  focused_workspace_id = absent_value;
  layouts = layout ∷ [];
  panes = pane ∷ [];
  protocol = 1;
  tabs = tab "t1" "w1" ∷ tab "t2" "w1" ∷ tab "t3" "w2" ∷ [];
  version = "0.7.1";
  workspaces = workspace "w1" "api" ∷ workspace "w2" "web" ∷ [];
}

abbrev pub cache : SessionCache
cache = new_session_cache snapshot
