-- ===== src/SessionCache/Focus.antt =====
-- herdr/session_cache.go: the focus events. The flag is exclusive among the entries of a kind.
use herdr_client.Prelude.{String, ◌==◌, Option, none, some, bool_zero, string_zero}
use herdr_client.OrderedCollection
use herdr_client.OrderedCollection.{OrderedCollection}
use herdr_client.Wire.{
  PaneInfo, PaneLayoutSnapshot, workspace_zero, tab_zero, pane_zero, agent_zero, layout_zero,
}
use herdr_client.SessionCache.State.{SessionCache}

unfoldable pub focus_workspace : String → SessionCache → SessionCache
focus_workspace workspace_id c = record c {
  workspaces =
      OrderedCollection.update (λ id w. record w { focused = id == workspace_id }) c.workspaces;
}

unfoldable pub focus_tab : String → SessionCache → SessionCache
focus_tab tab_id c = record c {
  tabs = OrderedCollection.update (λ id t. record t { focused = id == tab_id }) c.tabs;
}

abbrev pub focus_layout :
    String → PaneInfo → Option PaneLayoutSnapshot → SessionCache → SessionCache
focus_layout pane_id pane none c = c
focus_layout pane_id pane (some layout) c = record c {
  layouts =
      OrderedCollection.set pane.tab_id (record layout { focused_pane_id = pane_id }) c.layouts;
}

abbrev pub focus_layout_of : String → Option PaneInfo → SessionCache → SessionCache
focus_layout_of pane_id none c = c
focus_layout_of pane_id (some pane) c =
    focus_layout pane_id pane (OrderedCollection.get c.layouts pane.tab_id) c

unfoldable pub focus_pane : String → SessionCache → SessionCache
focus_pane pane_id c =
    let c1 = record c {
      panes = OrderedCollection.update (λ id p. record p { focused = id == pane_id }) c.panes;
      agents = OrderedCollection.update (λ id a. record a { focused = id == pane_id }) c.agents;
    } in
    focus_layout_of pane_id (OrderedCollection.get c1.panes pane_id) c1
