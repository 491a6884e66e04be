-- ===== src/SessionCache/Consistent.antt =====
-- herdr/session_cache.go: the invariant of the mirror, and that each step of it keeps the invariant.
use herdr_client.Prelude.{
  String, ◌==◌, ◌≡◌, refl, ◌∙◌, Option, none, some, List, [], ◌∷◌, All, Bool-cases, inl, inr, arith,
}
use herdr_client.Optional
use herdr_client.Optional.{Optional}
use herdr_client.OrderedCollection
use herdr_client.OrderedCollection.{OrderedCollection, get}
use herdr_client.OrderedCollection.Index.{
  IsIndexed, set-IsIndexed, delete-IsIndexed, reset-IsIndexed,
}
use herdr_client.OrderedCollection.Keep.{delete_where-IsIndexed, insert_at-IsIndexed}
use herdr_client.Wire.{
  WorkspaceInfo, TabInfo, PaneInfo, AgentInfo, PaneLayoutSnapshot, SessionSnapshot, clone,
  workspace_zero, tab_zero, pane_zero, agent_zero, layout_zero,
}
use herdr_client.Wire.Events.{PaneMovedEvent, PaneAgentDetectedEvent, PaneAgentStatusChangedEvent}
use herdr_client.SessionCache.State.{
  SessionCache, workspace_key, tab_key, pane_key, agent_key, layout_key, new_session_cache,
  merge_agent, refresh_agent, set_workspace, set_tab, set_pane, close_pane, close_tab,
  close_workspace, when_some, move_pane, reorder_tabs,
}
use herdr_client.SessionCache.Agents.{
  detected_pane, detected_in, status_pane, status_alone, status_in,
}
use herdr_client.SessionCache.Focus.{focus_layout, focus_layout_of}

-- an entry stands under the id that it carries
abbrev pub Keyed {ℓ} : {T : Type ℓ} → (T → String) → String → T → Type 0
Keyed key id v = key v ≡ id

pub record IsConsistent (c : SessionCache) : Type 0 where
  pub workspaces : IsIndexed (Keyed workspace_key) c.workspaces
  pub tabs : IsIndexed (Keyed tab_key) c.tabs
  pub panes : IsIndexed (Keyed pane_key) c.panes
  pub agents : IsIndexed (Keyed agent_key) c.agents
  pub layouts : IsIndexed (Keyed layout_key) c.layouts

All-own_key {ℓ} : {T : Type ℓ} (key : T → String) (vs : List T) → All (λ v. key v ≡ key v) vs
All-own_key key [] = tt
All-own_key key (v ∷ vs) = (refl, All-own_key key vs)

pub reset-Keyed {ℓ} :
    {T : Type ℓ} (key : T → String) (vs : List T)
    → IsIndexed (Keyed key) (OrderedCollection.reset vs key clone)
reset-Keyed key vs = reset-IsIndexed (Keyed key) key clone vs (All-own_key key vs)

-- A mirror that is built from a snapshot is consistent, whatever the snapshot holds.
pub new_session_cache-IsConsistent : (s : SessionSnapshot) → IsConsistent (new_session_cache s)
unfolding new_session_cache
new_session_cache-IsConsistent s = record {
  workspaces = reset-Keyed workspace_key s.workspaces;
  tabs = reset-Keyed tab_key s.tabs;
  panes = reset-Keyed pane_key s.panes;
  agents = reset-Keyed agent_key s.agents;
  layouts = reset-Keyed layout_key s.layouts;
}

module _ {c : SessionCache} (h : IsConsistent c) where
  pub set_workspaces-IsConsistent :
      (id : String) (w : WorkspaceInfo)
      → w.workspace_id ≡ id
      → IsConsistent (record c { workspaces = OrderedCollection.set id w c.workspaces })
  set_workspaces-IsConsistent id w e = record {
    workspaces = set-IsIndexed (Keyed workspace_key) id w c.workspaces e h.workspaces;
    tabs = h.tabs;
    panes = h.panes;
    agents = h.agents;
    layouts = h.layouts;
  }

  pub set_tabs-IsConsistent :
      (id : String) (t : TabInfo)
      → t.tab_id ≡ id
      → IsConsistent (record c { tabs = OrderedCollection.set id t c.tabs })
  set_tabs-IsConsistent id t e = record {
    tabs = set-IsIndexed (Keyed tab_key) id t c.tabs e h.tabs;
    workspaces = h.workspaces;
    panes = h.panes;
    agents = h.agents;
    layouts = h.layouts;
  }

  pub set_panes-IsConsistent :
      (id : String) (p : PaneInfo)
      → p.pane_id ≡ id
      → IsConsistent (record c { panes = OrderedCollection.set id p c.panes })
  set_panes-IsConsistent id p e = record {
    panes = set-IsIndexed (Keyed pane_key) id p c.panes e h.panes;
    workspaces = h.workspaces;
    tabs = h.tabs;
    agents = h.agents;
    layouts = h.layouts;
  }

  pub set_agents-IsConsistent :
      (id : String) (a : AgentInfo)
      → a.pane_id ≡ id
      → IsConsistent (record c { agents = OrderedCollection.set id a c.agents })
  set_agents-IsConsistent id a e = record {
    agents = set-IsIndexed (Keyed agent_key) id a c.agents e h.agents;
    workspaces = h.workspaces;
    tabs = h.tabs;
    panes = h.panes;
    layouts = h.layouts;
  }

  pub set_layouts-IsConsistent :
      (id : String) (l : PaneLayoutSnapshot)
      → l.tab_id ≡ id
      → IsConsistent (record c { layouts = OrderedCollection.set id l c.layouts })
  set_layouts-IsConsistent id l e = record {
    layouts = set-IsIndexed (Keyed layout_key) id l c.layouts e h.layouts;
    workspaces = h.workspaces;
    tabs = h.tabs;
    panes = h.panes;
    agents = h.agents;
  }

  pub refresh_agent-IsConsistent :
      (id : String) (p : PaneInfo) (o : Option AgentInfo)
      → p.pane_id ≡ id
      → IsConsistent (refresh_agent id p o c)
  unfolding merge_agent
  refresh_agent-IsConsistent id p none e = h
  refresh_agent-IsConsistent id p (some a) e = set_agents-IsConsistent id (merge_agent a p) e

  pub close_pane-IsConsistent : (id : String) → IsConsistent (close_pane id c)
  unfolding close_pane
  close_pane-IsConsistent id = record {
    panes = delete-IsIndexed (Keyed pane_key) id c.panes h.panes;
    agents = delete-IsIndexed (Keyed agent_key) id c.agents h.agents;
    workspaces = h.workspaces;
    tabs = h.tabs;
    layouts = h.layouts;
  }

  pub close_tab-IsConsistent : (id : String) → IsConsistent (close_tab id c)
  unfolding close_tab
  close_tab-IsConsistent id = record {
    tabs = delete-IsIndexed (Keyed tab_key) id c.tabs h.tabs;
    layouts = delete-IsIndexed (Keyed layout_key) id c.layouts h.layouts;
    panes = delete_where-IsIndexed (Keyed pane_key) _ c.panes h.panes;
    agents = delete_where-IsIndexed (Keyed agent_key) _ c.agents h.agents;
    workspaces = h.workspaces;
  }

  pub close_workspace-IsConsistent : (id : String) → IsConsistent (close_workspace id c)
  unfolding close_workspace
  close_workspace-IsConsistent id = record {
    workspaces = delete-IsIndexed (Keyed workspace_key) id c.workspaces h.workspaces;
    tabs = delete_where-IsIndexed (Keyed tab_key) _ c.tabs h.tabs;
    panes = delete_where-IsIndexed (Keyed pane_key) _ c.panes h.panes;
    agents = delete_where-IsIndexed (Keyed agent_key) _ c.agents h.agents;
    layouts = delete_where-IsIndexed (Keyed layout_key) _ c.layouts h.layouts;
  }

  pub reorder_tabs-IsConsistent :
      (id : String) (ts : List TabInfo) → IsConsistent (reorder_tabs id ts c)
  unfolding reorder_tabs
  reorder_tabs-IsConsistent id ts = record {
    tabs =
        insert_at-IsIndexed (Keyed tab_key) _ ts tab_key clone _ (All-own_key tab_key ts)
          (delete_where-IsIndexed (Keyed tab_key) (λ t. t.workspace_id == id) c.tabs h.tabs);
    workspaces = h.workspaces;
    panes = h.panes;
    agents = h.agents;
    layouts = h.layouts;
  }

module _ {c : SessionCache} (h : IsConsistent c) where
  pub set_pane-IsConsistent : (p : PaneInfo) → IsConsistent (set_pane p c)
  unfolding set_pane
  set_pane-IsConsistent p =
      refresh_agent-IsConsistent (set_panes-IsConsistent h p.pane_id p refl) p.pane_id p _ refl

  pub when_some-IsConsistent {ℓ} :
      {A : Type ℓ} (o : Option A) (f : A → SessionCache → SessionCache)
      → ((a : A) → o ≡ some a → IsConsistent (f a c))
      → IsConsistent (when_some o f c)
  when_some-IsConsistent none f k = h
  when_some-IsConsistent (some a) f k = k a refl

  pub focus_layout-IsConsistent :
      (id : String) (p : PaneInfo) (o : Option PaneLayoutSnapshot)
      → get c.layouts p.tab_id ≡ o
      → IsConsistent (focus_layout id p o c)
  unfolding get
  focus_layout-IsConsistent id p none e = h
  focus_layout-IsConsistent id p (some l) e =
      set_layouts-IsConsistent h p.tab_id _ (h.layouts.holds p.tab_id l e)

  pub focus_layout_of-IsConsistent :
      (id : String) (o : Option PaneInfo) → IsConsistent (focus_layout_of id o c)
  focus_layout_of-IsConsistent id none = h
  focus_layout_of-IsConsistent id (some p) = focus_layout-IsConsistent id p _ refl

  status_pane-id :
      (e : PaneAgentStatusChangedEvent) (p : PaneInfo) → (status_pane e p).pane_id ≡ p.pane_id
  unfolding status_pane
  status_pane-id e p = ground arith

  detected_pane-id :
      (e : PaneAgentDetectedEvent) (p : PaneInfo) → (detected_pane e p).pane_id ≡ p.pane_id
  unfolding detected_pane
  detected_pane-id e p = ground arith

  status_alone-IsConsistent :
      (e : PaneAgentStatusChangedEvent) (o : Option AgentInfo)
      → get c.agents e.pane_id ≡ o
      → IsConsistent (status_alone e o c)
  unfolding get
  status_alone-IsConsistent e none g = h
  status_alone-IsConsistent e (some a) g =
      set_agents-IsConsistent h e.pane_id _ (h.agents.holds e.pane_id a g)

  pub status_in-IsConsistent :
      (e : PaneAgentStatusChangedEvent) (o : Option PaneInfo)
      → get c.panes e.pane_id ≡ o
      → IsConsistent (status_in e o c)
  unfolding get
  status_in-IsConsistent e none g = status_alone-IsConsistent e _ refl
  status_in-IsConsistent e (some p) g =
      let same = status_pane-id e p ∙ h.panes.holds e.pane_id p g in
      refresh_agent-IsConsistent (set_panes-IsConsistent h e.pane_id _ same) e.pane_id _ _ same

  delete_agent-IsConsistent :
      (id : String) → IsConsistent (record c { agents = OrderedCollection.delete id c.agents })
  delete_agent-IsConsistent id = record {
    workspaces = h.workspaces;
    tabs = h.tabs;
    panes = h.panes;
    agents = delete-IsIndexed (Keyed agent_key) id c.agents h.agents;
    layouts = h.layouts;
  }

module _ {c : SessionCache} (h : IsConsistent c) where
  pub detected_in-IsConsistent :
      (e : PaneAgentDetectedEvent) (o : Option PaneInfo)
      → get c.panes e.pane_id ≡ o
      → IsConsistent (detected_in e o c)
  unfolding get merge_agent
  detected_in-IsConsistent e none g = elim (Bool-cases (Optional.value_or_zero e.released)) [
    | inl released ↦ rw released (delete_agent-IsConsistent h e.pane_id)
    | inr kept ↦ rw kept h
  ]
  detected_in-IsConsistent e (some p) g =
      let same = detected_pane-id h e p ∙ h.panes.holds e.pane_id p g in
      let stored = set_panes-IsConsistent h e.pane_id _ same in
      elim (Bool-cases (Optional.value_or_zero e.released)) [
        | inl released ↦ rw released (delete_agent-IsConsistent stored e.pane_id)
        | inr kept ↦ rw kept (set_agents-IsConsistent stored e.pane_id _ same)
      ]

  pub move_pane-IsConsistent : (e : PaneMovedEvent) → IsConsistent (move_pane e c)
  unfolding move_pane
  move_pane-IsConsistent e =
      let h1 =
        when_some-IsConsistent h (Optional.get e.created_workspace) set_workspace
          (λ w _. set_workspaces-IsConsistent h w.workspace_id w refl) in
      let h2 =
        when_some-IsConsistent h1 (Optional.get e.created_tab) set_tab
          (λ t _. set_tabs-IsConsistent h1 t.tab_id t refl) in
      let h3 = close_pane-IsConsistent h2 e.previous_pane_id in
      let h4 = set_panes-IsConsistent h3 e.pane.pane_id e.pane refl in
      let h5 = refresh_agent-IsConsistent h4 e.pane.pane_id e.pane _ refl in
      let h6 =
        when_some-IsConsistent h5 (Optional.get e.closed_tab_id) close_tab
          (λ id _. close_tab-IsConsistent h5 id) in
      when_some-IsConsistent h6 (Optional.get e.closed_workspace_id) close_workspace
        (λ id _. close_workspace-IsConsistent h6 id)
