-- ===== src/SessionCache/State.antt =====
-- herdr/session_cache.go: the mirrored state, and the steps on its workspaces, tabs and panes.
use herdr_client.Prelude.{ℕ, String, ◌==◌, Option, none, some, List, bool_zero, string_zero}
use herdr_client.Optional
use herdr_client.Optional.{Optional}
use herdr_client.OrderedCollection
use herdr_client.OrderedCollection.{OrderedCollection}
use herdr_client.Wire.{
  WorkspaceInfo, TabInfo, PaneInfo, AgentInfo, PaneLayoutSnapshot, SessionSnapshot, clone,
  workspace_zero, tab_zero, pane_zero, agent_zero, layout_zero,
}
use herdr_client.Wire.Events.{PaneMovedEvent}

pub record SessionCache : Type 0 where
  pub workspaces : OrderedCollection WorkspaceInfo
  pub tabs : OrderedCollection TabInfo
  pub panes : OrderedCollection PaneInfo
  pub agents : OrderedCollection AgentInfo
  pub layouts : OrderedCollection PaneLayoutSnapshot
  pub version : String
  pub protocol : ℕ

abbrev pub workspace_key : WorkspaceInfo → String
workspace_key w = w.workspace_id

abbrev pub tab_key : TabInfo → String
tab_key t = t.tab_id

abbrev pub pane_key : PaneInfo → String
pane_key p = p.pane_id

abbrev pub agent_key : AgentInfo → String
agent_key a = a.pane_id

abbrev pub layout_key : PaneLayoutSnapshot → String
layout_key l = l.tab_id

unfoldable pub new_session_cache : SessionSnapshot → SessionCache
new_session_cache snapshot = record {
  workspaces = OrderedCollection.reset snapshot.workspaces workspace_key clone;
  tabs = OrderedCollection.reset snapshot.tabs tab_key clone;
  panes = OrderedCollection.reset snapshot.panes pane_key clone;
  agents = OrderedCollection.reset snapshot.agents agent_key clone;
  layouts = OrderedCollection.reset snapshot.layouts layout_key clone;
  version = snapshot.version;
  protocol = snapshot.protocol;
}

-- the fields that an AgentInfo shares with the pane it runs in
unfoldable pub merge_agent : AgentInfo → PaneInfo → AgentInfo
merge_agent agent pane = record agent {
  agent = pane.agent;
  agent_session = pane.agent_session;
  agent_status = pane.agent_status;
  cwd = pane.cwd;
  display_agent = pane.display_agent;
  focused = pane.focused;
  foreground_cwd = pane.foreground_cwd;
  pane_id = pane.pane_id;
  revision = pane.revision;
  state_labels = pane.state_labels;
  tab_id = pane.tab_id;
  terminal_id = pane.terminal_id;
  terminal_title = pane.terminal_title;
  terminal_title_stripped = pane.terminal_title_stripped;
  title = pane.title;
  tokens = pane.tokens;
  workspace_id = pane.workspace_id;
}

abbrev pub refresh_agent : String → PaneInfo → Option AgentInfo → SessionCache → SessionCache
refresh_agent id pane none c = c
refresh_agent id pane (some agent) c = record c {
  agents = OrderedCollection.set id (merge_agent agent pane) c.agents;
}

abbrev pub set_workspace : WorkspaceInfo → SessionCache → SessionCache
set_workspace w c = record c {
  workspaces = OrderedCollection.set w.workspace_id (clone w) c.workspaces;
}

abbrev pub set_tab : TabInfo → SessionCache → SessionCache
set_tab t c = record c { tabs = OrderedCollection.set t.tab_id (clone t) c.tabs }

unfoldable pub set_pane : PaneInfo → SessionCache → SessionCache
set_pane pane c =
    refresh_agent pane.pane_id pane (OrderedCollection.get c.agents pane.pane_id)
      (record c { panes = OrderedCollection.set pane.pane_id (clone pane) c.panes })

unfoldable pub close_pane : String → SessionCache → SessionCache
close_pane id c = record c {
  panes = OrderedCollection.delete id c.panes;
  agents = OrderedCollection.delete id c.agents;
}

unfoldable pub close_tab : String → SessionCache → SessionCache
close_tab id c = record c {
  tabs = OrderedCollection.delete id c.tabs;
  layouts = OrderedCollection.delete id c.layouts;
  panes = (OrderedCollection.delete_where (λ p. p.tab_id == id) c.panes).1;
  agents = (OrderedCollection.delete_where (λ a. a.tab_id == id) c.agents).1;
}

unfoldable pub close_workspace : String → SessionCache → SessionCache
close_workspace id c = record c {
  workspaces = OrderedCollection.delete id c.workspaces;
  tabs = (OrderedCollection.delete_where (λ t. t.workspace_id == id) c.tabs).1;
  panes = (OrderedCollection.delete_where (λ p. p.workspace_id == id) c.panes).1;
  agents = (OrderedCollection.delete_where (λ a. a.workspace_id == id) c.agents).1;
  layouts = (OrderedCollection.delete_where (λ l. l.workspace_id == id) c.layouts).1;
}

-- `if value, ok := o.Get(); ok { … }` on a step of the mirror
abbrev pub when_some {ℓ κ} : {A : Type ℓ} {S : Type κ} → Option A → (A → S → S) → S → S
when_some none f s = s
when_some (some a) f s = f a s

unfoldable pub move_pane : PaneMovedEvent → SessionCache → SessionCache
move_pane e c =
    let c1 = when_some (Optional.get e.created_workspace) set_workspace c in
    let c2 = when_some (Optional.get e.created_tab) set_tab c1 in
    let agent = OrderedCollection.get c2.agents e.previous_pane_id in
    let c3 = close_pane e.previous_pane_id c2 in
    let pane = clone e.pane in
    let c4 = record c3 { panes = OrderedCollection.set pane.pane_id pane c3.panes } in
    let c5 = refresh_agent pane.pane_id pane agent c4 in
    let c6 = when_some (Optional.get e.closed_tab_id) close_tab c5 in
    when_some (Optional.get e.closed_workspace_id) close_workspace c6

unfoldable pub reorder_tabs : String → List TabInfo → SessionCache → SessionCache
reorder_tabs workspace_id tabs c =
    let (at, rest) = OrderedCollection.delete_where (λ t. t.workspace_id == workspace_id) c.tabs in
    record c { tabs = OrderedCollection.insert_at at tabs tab_key clone rest }
