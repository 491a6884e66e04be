-- ===== src/SessionCache/Closing.antt =====
-- herdr/session_cache.go: what the closing of a workspace, a tab or a pane leaves in the mirror.
use herdr_client.Prelude.{
  Zero, String, ◌==◌, eq_iff, ◌≡◌, ◌≢◌, ◌↔◌, refl, ◌∙◌, Option, none, some, arith, if◌then◌else◌,
}
use herdr_client.OrderedCollection
use herdr_client.OrderedCollection.{OrderedCollection, get}
use herdr_client.OrderedCollection.Index.{IsIndexed}
use herdr_client.OrderedCollection.Laws.{get-delete, get-delete_where, reject_entry}
use herdr_client.Wire.{workspace_zero, tab_zero, pane_zero, agent_zero, layout_zero}
use herdr_client.Wire.Events.{WorkspaceClosedEvent, workspace_closed, tab_closed}
use herdr_client.SessionCache.State.{
  SessionCache, close_tab, close_workspace, workspace_key, tab_key, layout_key,
}
use herdr_client.SessionCache.Apply.{apply}
use herdr_client.SessionCache.Consistent.{IsConsistent, Keyed}

-- The second collection holds the entries of the first whose field is not `id`, unchanged and
-- under the same ids, and nothing else.
abbrev pub Drops {ℓ} :
    {T : Type ℓ} → (T → String) → String → OrderedCollection T → OrderedCollection T → Type ℓ
Drops {T = T} field id o o' =
    (j : String) (v : T) → (get o' j ≡ some v) ↔ ((get o j ≡ some v) × (field v ≢ id))

module _ {ℓ} {T : Type ℓ} (field : T → String) (id : String) where
  rejected_iff :
      (x y : Option T) (v : T)
      → y ≡ reject_entry (λ w. field w == id) x
      → (y ≡ some v) ↔ ((x ≡ some v) × (field v ≢ id))
  rejected_iff none y v e = (λ h. absurd (ground arith), λ h. absurd (ground arith))
  rejected_iff (some w) y v e = ground (arith, eq_iff (field w) id, eq_iff (field v) id)

  delete_where-Drops {κ} :
      ⦃z : Zero T⦄ {P : String → T → Type κ} (o : OrderedCollection T)
      → IsIndexed P o
      → Drops field id o (OrderedCollection.delete_where (λ w. field w == id) o).1
  delete_where-Drops o h j v =
      rejected_iff (get o j) _ v (get-delete_where (λ w. field w == id) o j h)

  delete-Drops :
      (o : OrderedCollection T)
      → IsIndexed (Keyed field) o
      → Drops field id o (OrderedCollection.delete id o)
  unfolding get
  delete-Drops o h j v =
      rejected_iff (get o j) _ v (get-delete id o j ∙ keyed_reject j (o.entries j) (h.holds j))
    where
      keyed_reject :
          (j : String) (x : Option T)
          → ((w : T) → x ≡ some w → field w ≡ j)
          → (if id == j then none else x) ≡ reject_entry (λ w. field w == id) x
      keyed_reject j none k = ground arith
      keyed_reject j (some w) k = ground (arith, k w refl, eq_iff id j, eq_iff (field w) id)

-- What closing a workspace leaves: the entries of the other workspaces, each as it was.
pub record WorkspaceClosed (id : String) (c d : SessionCache) : Type 0 where
  pub workspaces : Drops workspace_key id c.workspaces d.workspaces
  pub tabs : Drops (λ t. t.workspace_id) id c.tabs d.tabs
  pub panes : Drops (λ p. p.workspace_id) id c.panes d.panes
  pub agents : Drops (λ a. a.workspace_id) id c.agents d.agents
  pub layouts : Drops (λ l. l.workspace_id) id c.layouts d.layouts

-- What closing a tab leaves: the entries of the other tabs, and every workspace.
pub record TabClosed (id : String) (c d : SessionCache) : Type 0 where
  pub workspaces : d.workspaces ≡ c.workspaces
  pub tabs : Drops tab_key id c.tabs d.tabs
  pub panes : Drops (λ p. p.tab_id) id c.panes d.panes
  pub agents : Drops (λ a. a.tab_id) id c.agents d.agents
  pub layouts : Drops layout_key id c.layouts d.layouts

-- After workspace.closed the mirror holds exactly the workspaces, tabs, panes, agents and layouts
-- that it held and that are not of the closed workspace, unchanged.
pub workspace_closed-drops :
    (e : WorkspaceClosedEvent) (c : SessionCache)
    → IsConsistent c
    → WorkspaceClosed e.workspace_id c (apply (workspace_closed e) c)
unfolding apply close_workspace
workspace_closed-drops e c h = record {
  workspaces = delete-Drops workspace_key e.workspace_id c.workspaces h.workspaces;
  tabs = delete_where-Drops (λ t. t.workspace_id) e.workspace_id c.tabs h.tabs;
  panes = delete_where-Drops (λ p. p.workspace_id) e.workspace_id c.panes h.panes;
  agents = delete_where-Drops (λ a. a.workspace_id) e.workspace_id c.agents h.agents;
  layouts = delete_where-Drops (λ l. l.workspace_id) e.workspace_id c.layouts h.layouts;
}

-- After tab.closed the mirror holds exactly the tabs, panes, agents and layouts that it held and
-- that are not of the closed tab, unchanged, and all of its workspaces.
pub tab_closed-drops :
    (tab_id workspace_id : String) (c : SessionCache)
    → IsConsistent c
    → TabClosed tab_id c (apply (tab_closed tab_id workspace_id) c)
unfolding apply close_tab
tab_closed-drops id workspace_id c h = record {
  workspaces = refl;
  tabs = delete-Drops tab_key id c.tabs h.tabs;
  panes = delete_where-Drops (λ p. p.tab_id) id c.panes h.panes;
  agents = delete_where-Drops (λ a. a.tab_id) id c.agents h.agents;
  layouts = delete-Drops layout_key id c.layouts h.layouts;
}
