-- ===== src/SessionCache/Apply.antt =====
-- herdr/session_cache.go: `apply`, which folds one event into the mirror.
use herdr_client.Prelude.{bool_zero, string_zero}
use herdr_client.Optional
use herdr_client.Optional.{Optional}
use herdr_client.OrderedCollection
use herdr_client.OrderedCollection.{OrderedCollection}
use herdr_client.Wire.{clone, workspace_zero, tab_zero, pane_zero, agent_zero, layout_zero}
use herdr_client.Wire.Events.{
  Event, workspace_created, workspace_updated, workspace_metadata_updated, workspace_renamed,
  workspace_moved, workspace_reordered, workspace_focused, workspace_closed, worktree_created,
  worktree_opened, worktree_removed, tab_created, tab_renamed, tab_moved, tab_focused, tab_closed,
  pane_created, pane_updated, pane_moved, pane_focused, pane_closed, pane_exited,
  pane_output_changed, pane_output_matched, pane_scroll_changed, pane_agent_detected,
  pane_agent_status_changed, layout_updated,
}
use herdr_client.SessionCache.State.{
  SessionCache, workspace_key, set_workspace, set_tab, set_pane, close_pane, close_tab,
  close_workspace, when_some, move_pane, reorder_tabs,
}
use herdr_client.SessionCache.Agents.{apply_agent_detected, apply_agent_status}
use herdr_client.SessionCache.Focus.{focus_workspace, focus_tab, focus_pane}

unfoldable pub apply : Event → SessionCache → SessionCache
apply (workspace_created w) c = set_workspace w c
apply (workspace_updated w) c = set_workspace w c
apply (workspace_metadata_updated w) c = set_workspace w c
apply (workspace_renamed e) c =
    when_some (OrderedCollection.get c.workspaces e.workspace_id)
      (λ w c'. record c' {
        workspaces =
            OrderedCollection.set e.workspace_id (record w { label = e.label }) c'.workspaces;
      })
      c
apply (workspace_moved e) c = record c {
  workspaces = OrderedCollection.reset e.workspaces workspace_key clone;
}
apply (workspace_reordered e) c = record c {
  workspaces = OrderedCollection.reset e.workspaces workspace_key clone;
}
apply (workspace_focused workspace_id) c = focus_workspace workspace_id c
apply (workspace_closed e) c = close_workspace e.workspace_id c
apply (worktree_created w worktree) c = set_workspace w c
apply (worktree_opened e) c = set_workspace e.workspace c
apply (worktree_removed e) c = when_some (Optional.get e.workspace) set_workspace c
apply (tab_created t) c = set_tab t c
apply (tab_renamed e) c =
    when_some (OrderedCollection.get c.tabs e.tab_id)
      (λ t c'. record c' {
        tabs = OrderedCollection.set e.tab_id (record t { label = e.label }) c'.tabs;
      })
      c
apply (tab_moved e) c = reorder_tabs e.workspace_id e.tabs c
apply (tab_focused tab_id workspace_id) c = focus_tab tab_id c
apply (tab_closed tab_id workspace_id) c = close_tab tab_id c
apply (pane_created p) c = set_pane p c
apply (pane_updated p) c = set_pane p c
apply (pane_moved e) c = move_pane e c
apply (pane_focused pane_id workspace_id) c = focus_pane pane_id c
apply (pane_closed pane_id workspace_id) c = close_pane pane_id c
apply (pane_output_changed e) c =
    when_some (OrderedCollection.get c.panes e.pane_id)
      (λ p c'. set_pane (record p { revision = e.revision }) c') c
apply (pane_scroll_changed e) c =
    when_some (OrderedCollection.get c.panes e.pane_id)
      (λ p c'. set_pane (record p { scroll = Optional.some_value e.scroll }) c') c
apply (pane_agent_detected e) c = apply_agent_detected e c
apply (pane_agent_status_changed e) c = apply_agent_status e c
apply (layout_updated l) c = record c {
  layouts = OrderedCollection.set l.tab_id (clone l) c.layouts;
}
apply (pane_exited pane_id workspace_id) c = c
apply (pane_output_matched e) c = c
