-- ===== src/SessionCache/Invariant.antt =====
-- herdr/session_cache.go: every event keeps the mirror consistent.
use herdr_client.Prelude.{String, ◌==◌, refl, List, [], ◌∷◌}
use herdr_client.Optional
use herdr_client.OrderedCollection
use herdr_client.OrderedCollection.{get}
use herdr_client.OrderedCollection.Keep.{update-IsIndexed}
use herdr_client.Wire.{
  WorkspaceInfo, SessionSnapshot, clone, workspace_zero, tab_zero, pane_zero, agent_zero,
  layout_zero,
}
use herdr_client.Wire.Events.{
  Event, workspace_created, workspace_updated, workspace_metadata_updated, workspace_renamed,
  workspace_moved, workspace_reordered, workspace_focused, workspace_closed, worktree_created,
  worktree_opened, worktree_removed, tab_created, tab_renamed, tab_moved, tab_focused, tab_closed,
  pane_created, pane_updated, pane_moved, pane_focused, pane_closed, pane_exited,
  pane_output_changed, pane_output_matched, pane_scroll_changed, pane_agent_detected,
  pane_agent_status_changed, layout_updated,
}
use herdr_client.SessionCache.State.{
  SessionCache, workspace_key, tab_key, pane_key, agent_key, new_session_cache, set_workspace,
  set_pane,
}
use herdr_client.SessionCache.Agents.{apply_agent_detected, apply_agent_status}
use herdr_client.SessionCache.Focus.{focus_workspace, focus_tab, focus_pane}
use herdr_client.SessionCache.Apply.{apply}
use herdr_client.SessionCache.Consistent.{
  IsConsistent, Keyed, new_session_cache-IsConsistent, set_workspaces-IsConsistent,
  set_tabs-IsConsistent, set_layouts-IsConsistent, reset-Keyed, close_pane-IsConsistent,
  close_tab-IsConsistent, close_workspace-IsConsistent, reorder_tabs-IsConsistent,
  set_pane-IsConsistent, when_some-IsConsistent, focus_layout_of-IsConsistent,
  status_in-IsConsistent, detected_in-IsConsistent, move_pane-IsConsistent,
}

module _ {c : SessionCache} (h : IsConsistent c) where
  reset_workspaces-IsConsistent :
      (ws : List WorkspaceInfo)
      → IsConsistent (record c { workspaces = OrderedCollection.reset ws workspace_key clone })
  reset_workspaces-IsConsistent ws = record {
    workspaces = reset-Keyed workspace_key ws;
    tabs = h.tabs;
    panes = h.panes;
    agents = h.agents;
    layouts = h.layouts;
  }

  focus_workspace-IsConsistent : (id : String) → IsConsistent (focus_workspace id c)
  unfolding focus_workspace
  focus_workspace-IsConsistent id = record {
    workspaces = update-IsIndexed (Keyed workspace_key) _ c.workspaces (λ j w e. e) h.workspaces;
    tabs = h.tabs;
    panes = h.panes;
    agents = h.agents;
    layouts = h.layouts;
  }

  focus_tab-IsConsistent : (id : String) → IsConsistent (focus_tab id c)
  unfolding focus_tab
  focus_tab-IsConsistent id = record {
    workspaces = h.workspaces;
    tabs = update-IsIndexed (Keyed tab_key) _ c.tabs (λ j w e. e) h.tabs;
    panes = h.panes;
    agents = h.agents;
    layouts = h.layouts;
  }

  focus_pane-IsConsistent : (id : String) → IsConsistent (focus_pane id c)
  unfolding focus_pane
  focus_pane-IsConsistent id =
      let focused : IsConsistent _ = record {
        workspaces = h.workspaces;
        tabs = h.tabs;
        panes =
            update-IsIndexed (Keyed pane_key) (λ j p. record p { focused = j == id }) c.panes
              (λ j w e. e) h.panes;
        agents =
            update-IsIndexed (Keyed agent_key) (λ j a. record a { focused = j == id }) c.agents
              (λ j w e. e) h.agents;
        layouts = h.layouts;
      } in
      focus_layout_of-IsConsistent focused id _

-- Every event keeps the mirror consistent: in each of its five collections no id stands twice, the
-- listed ids are those that have an entry, and an entry stands under the id that it carries.
pub apply-IsConsistent : {c : SessionCache} (e : Event) → IsConsistent c → IsConsistent (apply e c)
unfolding apply apply_agent_detected apply_agent_status get
apply-IsConsistent (workspace_created w) h = set_workspaces-IsConsistent h w.workspace_id w refl
apply-IsConsistent (workspace_updated w) h = set_workspaces-IsConsistent h w.workspace_id w refl
apply-IsConsistent (workspace_metadata_updated w) h =
    set_workspaces-IsConsistent h w.workspace_id w refl
apply-IsConsistent {c} (workspace_renamed e) h =
    when_some-IsConsistent h (get c.workspaces e.workspace_id)
      (λ w c'. record c' {
        workspaces =
            OrderedCollection.set e.workspace_id (record w { label = e.label }) c'.workspaces;
      })
      λ w found.
        set_workspaces-IsConsistent h e.workspace_id _ (h.workspaces.holds e.workspace_id w found)
apply-IsConsistent (workspace_moved e) h = reset_workspaces-IsConsistent h e.workspaces
apply-IsConsistent (workspace_reordered e) h = reset_workspaces-IsConsistent h e.workspaces
apply-IsConsistent (workspace_focused id) h = focus_workspace-IsConsistent h id
apply-IsConsistent (workspace_closed e) h = close_workspace-IsConsistent h e.workspace_id
apply-IsConsistent (worktree_created w t) h = set_workspaces-IsConsistent h w.workspace_id w refl
apply-IsConsistent (worktree_opened e) h =
    set_workspaces-IsConsistent h e.workspace.workspace_id e.workspace refl
apply-IsConsistent (worktree_removed e) h =
    when_some-IsConsistent h (Optional.get e.workspace) set_workspace
      (λ w _. set_workspaces-IsConsistent h w.workspace_id w refl)
apply-IsConsistent (tab_created t) h = set_tabs-IsConsistent h t.tab_id t refl
apply-IsConsistent {c} (tab_renamed e) h =
    when_some-IsConsistent h (get c.tabs e.tab_id)
      (λ t c'. record c' {
        tabs = OrderedCollection.set e.tab_id (record t { label = e.label }) c'.tabs;
      })
      λ t found. set_tabs-IsConsistent h e.tab_id _ (h.tabs.holds e.tab_id t found)
apply-IsConsistent (tab_moved e) h = reorder_tabs-IsConsistent h e.workspace_id e.tabs
apply-IsConsistent (tab_focused id w) h = focus_tab-IsConsistent h id
apply-IsConsistent (tab_closed id w) h = close_tab-IsConsistent h id
apply-IsConsistent (pane_created p) h = set_pane-IsConsistent h p
apply-IsConsistent (pane_updated p) h = set_pane-IsConsistent h p
apply-IsConsistent (pane_moved e) h = move_pane-IsConsistent h e
apply-IsConsistent (pane_focused id w) h = focus_pane-IsConsistent h id
apply-IsConsistent (pane_closed id w) h = close_pane-IsConsistent h id
apply-IsConsistent {c} (pane_output_changed e) h =
    when_some-IsConsistent h (get c.panes e.pane_id)
      (λ p. set_pane (record p { revision = e.revision }))
      λ p _. set_pane-IsConsistent h (record p { revision = e.revision })
apply-IsConsistent {c} (pane_scroll_changed e) h =
    when_some-IsConsistent h (get c.panes e.pane_id)
      (λ p. set_pane (record p { scroll = Optional.some_value e.scroll }))
      λ p _. set_pane-IsConsistent h (record p { scroll = Optional.some_value e.scroll })
apply-IsConsistent (pane_agent_detected e) h = detected_in-IsConsistent h e _ refl
apply-IsConsistent (pane_agent_status_changed e) h = status_in-IsConsistent h e _ refl
apply-IsConsistent (layout_updated l) h = set_layouts-IsConsistent h l.tab_id l refl
apply-IsConsistent (pane_exited p w) h = h
apply-IsConsistent (pane_output_matched e) h = h

-- the mirror after a list of events
unfoldable pub apply_all : List Event → SessionCache → SessionCache
apply_all [] c = c
apply_all (e ∷ es) c = apply_all es (apply e c)

apply_all-IsConsistent :
    {c : SessionCache} (es : List Event) → IsConsistent c → IsConsistent (apply_all es c)
unfolding apply_all
apply_all-IsConsistent [] h = h
apply_all-IsConsistent {c} (e ∷ es) h =
    apply_all-IsConsistent {c = apply e c} es (apply-IsConsistent e h)

-- So the mirror is consistent after any snapshot and any events behind it.
pub mirror-IsConsistent :
    (s : SessionSnapshot) (es : List Event) → IsConsistent (apply_all es (new_session_cache s))
mirror-IsConsistent s es = apply_all-IsConsistent es (new_session_cache-IsConsistent s)
