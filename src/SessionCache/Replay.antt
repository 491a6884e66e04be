-- ===== src/SessionCache/Replay.antt =====
-- herdr/session_cache.go: applying an event twice leaves what applying it once leaves, which a
-- bootstrap relies on when it replays events that the snapshot already reflects.
use herdr_client.Prelude.{◌≡◌, refl, ap, Option-cases, inl, inr}
use herdr_client.Optional
use herdr_client.OrderedCollection.Laws.{set_twice}
use herdr_client.Wire.{workspace_zero, tab_zero, pane_zero, agent_zero, layout_zero}
use herdr_client.Wire.Events.{
  WorktreeRemovedEvent, Event, workspace_created, workspace_updated, workspace_metadata_updated,
  workspace_renamed, workspace_moved, workspace_reordered, workspace_focused, workspace_closed,
  worktree_created, worktree_opened, worktree_removed, tab_created, tab_renamed, tab_moved,
  tab_focused, tab_closed, pane_created, pane_updated, pane_moved, pane_focused, pane_closed,
  pane_exited, pane_output_changed, pane_output_matched, pane_scroll_changed, pane_agent_detected,
  pane_agent_status_changed, layout_updated,
}
use herdr_client.SessionCache.State.{SessionCache}
use herdr_client.SessionCache.Apply.{apply}
use herdr_client.SessionCache.Consistent.{IsConsistent}
use herdr_client.SessionCache.Twice.{
  set_workspace_twice, set_tab_twice, set_pane_twice, close_pane_twice, revise_pane_twice,
  status_twice, detected_twice, close_tab_twice, close_workspace_twice, focus_workspace_twice,
  focus_tab_twice, rename_workspace_twice, rename_tab_twice, focus_pane_twice,
}

-- every event but the two that move a tab or a pane
abbrev pub Replayable : Event → Type 0
Replayable (tab_moved e) = ⊥
Replayable (pane_moved e) = ⊥
Replayable _ = Unit

worktree_removed_twice :
    (e : WorktreeRemovedEvent) (c : SessionCache)
    → apply (worktree_removed e) (apply (worktree_removed e) c) ≡ apply (worktree_removed e) c
unfolding apply
worktree_removed_twice e c = elim (Option-cases (Optional.get e.workspace)) [
  | inl absent ↦ rw absent refl
  | inr (w, present) ↦ rw present (set_workspace_twice w c)
]

-- On a consistent mirror, applying an event twice leaves the mirror that applying it once leaves,
-- for every event but tab.moved and pane.moved.
pub apply_twice :
    (e : Event) (c : SessionCache) → IsConsistent c → Replayable e → apply e (apply e c) ≡ apply e c
unfolding apply
apply_twice (workspace_created w) c h r = set_workspace_twice w c
apply_twice (workspace_updated w) c h r = set_workspace_twice w c
apply_twice (workspace_metadata_updated w) c h r = set_workspace_twice w c
apply_twice (workspace_renamed e) c h r = rename_workspace_twice h e
apply_twice (workspace_moved e) c h r = refl
apply_twice (workspace_reordered e) c h r = refl
apply_twice (workspace_focused id) c h r = focus_workspace_twice h id
apply_twice (workspace_closed e) c h r = close_workspace_twice h e.workspace_id
apply_twice (worktree_created w t) c h r = set_workspace_twice w c
apply_twice (worktree_opened e) c h r = set_workspace_twice e.workspace c
apply_twice (worktree_removed e) c h r = worktree_removed_twice e c
apply_twice (tab_created t) c h r = set_tab_twice t c
apply_twice (tab_renamed e) c h r = rename_tab_twice h e
apply_twice (tab_moved e) c h r = elim r [ ]
apply_twice (tab_focused id w) c h r = focus_tab_twice h id
apply_twice (tab_closed id w) c h r = close_tab_twice h id
apply_twice (pane_created p) c h r = set_pane_twice p c
apply_twice (pane_updated p) c h r = set_pane_twice p c
apply_twice (pane_moved e) c h r = elim r [ ]
apply_twice (pane_focused id w) c h r = focus_pane_twice h id
apply_twice (pane_closed id w) c h r = close_pane_twice id c
apply_twice (pane_output_changed e) c h r =
    revise_pane_twice (λ p. record p { revision = e.revision }) e.pane_id c (λ p. refl) (λ p. refl)
      h
apply_twice (pane_scroll_changed e) c h r =
    revise_pane_twice (λ p. record p { scroll = Optional.some_value e.scroll }) e.pane_id c
      (λ p. refl) (λ p. refl) h
apply_twice (pane_agent_detected e) c h r = detected_twice e c
apply_twice (pane_agent_status_changed e) c h r = status_twice e c
apply_twice (layout_updated l) c h r =
    ap (λ o. record c { layouts = o }) (set_twice l.tab_id l l c.layouts)
apply_twice (pane_exited p w) c h r = refl
apply_twice (pane_output_matched e) c h r = refl
