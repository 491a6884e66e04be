-- ===== src/SessionCache/Agreement.antt =====
-- herdr/session_cache.go: an agent entry repeats the fields that it shares with its pane.
use herdr_client.Prelude.{
  String, ◌==◌, eq_iff, ◌≡◌, ◌≢◌, refl, sym, ap, ◌∙◌, Bool, Option, none, some, Bool-cases,
  Option-cases, inl, inr,
}
use herdr_client.Optional
use herdr_client.OrderedCollection
use herdr_client.OrderedCollection.{OrderedCollection, get}
use herdr_client.OrderedCollection.Laws.{
  get-set, get-delete, get-delete_where, get-update, reject_entry, map_entry,
}
use herdr_client.Wire.{
  PaneInfo, AgentInfo, workspace_zero, tab_zero, pane_zero, agent_zero, layout_zero,
}
use herdr_client.Wire.Events.{
  PaneMovedEvent, PaneAgentDetectedEvent, PaneAgentStatusChangedEvent, Event, workspace_renamed,
  workspace_focused, workspace_closed, worktree_removed, tab_renamed, tab_moved, tab_focused,
  tab_closed, pane_created, pane_updated, pane_moved, pane_focused, pane_closed,
  pane_output_changed, pane_scroll_changed, pane_agent_detected, pane_agent_status_changed,
}
use herdr_client.SessionCache.State.{
  SessionCache, close_pane, close_tab, close_workspace, refresh_agent, merge_agent, set_pane,
  reorder_tabs,
}
use herdr_client.SessionCache.Agents.{
  apply_agent_detected, apply_agent_status, detected_pane, detected_in, status_in, status_pane,
  status_alone,
}
use herdr_client.SessionCache.Focus.{focus_workspace, focus_tab, focus_pane, focus_layout_of}
use herdr_client.SessionCache.Apply.{apply}
use herdr_client.SessionCache.Consistent.{IsConsistent}
use herdr_client.SessionCache.Shared.{SharesFields, merge_agent-SharesFields, focus-SharesFields}

abbrev AgreeAt : Option PaneInfo → Option AgentInfo → Type 0
AgreeAt (some p) (some a) = SharesFields p a
AgreeAt none a = Unit
AgreeAt p none = Unit

abbrev AgreeOn : OrderedCollection PaneInfo → OrderedCollection AgentInfo → Type 0
AgreeOn panes agents = (id : String) → AgreeAt (get panes id) (get agents id)

-- Where the mirror holds a pane and an agent under one id, they agree.
abbrev pub Agrees : SessionCache → Type 0
Agrees c = AgreeOn c.panes c.agents

AgreeAt-none : (x : Option PaneInfo) → AgreeAt x none
AgreeAt-none none = tt
AgreeAt-none (some p) = tt

module _ (P : OrderedCollection PaneInfo) (A : OrderedCollection AgentInfo) where
  -- a pane and its refreshed agent
  set_both :
      (id : String) (p : PaneInfo) (a : AgentInfo)
      → AgreeOn P A
      → AgreeOn (OrderedCollection.set id p P) (OrderedCollection.set id (merge_agent a p) A)
  set_both id p a h j =
      rw (get-set, get-set)
        (elim (Bool-cases (id == j)) [
          | inl same ↦ rw same (merge_agent-SharesFields a p)
          | inr other ↦ rw other (h j)
        ])

  -- a pane that has no agent
  set_alone :
      (id : String) (p : PaneInfo)
      → get A id ≡ none
      → AgreeOn P A
      → AgreeOn (OrderedCollection.set id p P) A
  set_alone id p e h j = rw get-set (elim (Bool-cases (id == j)) [
    | inl same ↦ rw (same, ap (get A) (sym ((eq_iff id j).0 same)) ∙ e) tt
    | inr other ↦ rw other (h j)
  ])

  delete_agent : (id : String) → AgreeOn P A → AgreeOn P (OrderedCollection.delete id A)
  delete_agent id h j = rw get-delete (elim (Bool-cases (id == j)) [
    | inl same ↦ rw same (AgreeAt-none (get P j))
    | inr other ↦ rw other (h j)
  ])

  -- a pane that is put in as its agent goes
  set_released :
      (id : String) (p : PaneInfo)
      → AgreeOn P A
      → AgreeOn (OrderedCollection.set id p P) (OrderedCollection.delete id A)
  set_released id p h j =
      rw (get-set, get-delete)
        (elim (Bool-cases (id == j)) [ inl same ↦ rw same tt | inr other ↦ rw other (h j) ])

  delete_both :
      (id : String)
      → AgreeOn P A
      → AgreeOn (OrderedCollection.delete id P) (OrderedCollection.delete id A)
  delete_both id h j =
      rw (get-delete, get-delete)
        (elim (Bool-cases (id == j)) [ inl same ↦ rw same tt | inr other ↦ rw other (h j) ])

  AgreeAt-reject :
      (f : PaneInfo → Bool) (g : AgentInfo → Bool) (x : Option PaneInfo) (y : Option AgentInfo)
      → AgreeAt x y
      → AgreeAt (reject_entry f x) (reject_entry g y)
  AgreeAt-reject f g none y h = tt
  AgreeAt-reject f g (some p) none h = AgreeAt-none (reject_entry f (some p))
  AgreeAt-reject f g (some p) (some a) h = elim (Bool-cases (f p)) [
    | inl gone ↦ rw gone tt
    | inr kept ↦ elim (Bool-cases (g a)) [
      | inl gone ↦ rw (kept, gone) tt
      | inr both ↦ rw (kept, both) h
    ]
  ]

AgreeAt-focus :
    (b : Bool) (x : Option PaneInfo) (y : Option AgentInfo)
    → AgreeAt x y
    → AgreeAt
        (map_entry (λ p. record p { focused = b }) x)
        (map_entry (λ a. record a { focused = b }) y)
AgreeAt-focus b none y h = tt
AgreeAt-focus b (some p) none h = tt
AgreeAt-focus b (some p) (some a) h = focus-SharesFields b p a h

-- the step that sets a pane and refreshes the agent that stands under its id
refresh-Agrees :
    (id : String) (p : PaneInfo) (o : Option AgentInfo) (c : SessionCache)
    → get c.agents id ≡ o
    → Agrees c
    → Agrees (refresh_agent id p o (record c { panes = OrderedCollection.set id p c.panes }))
refresh-Agrees id p none c e h = set_alone c.panes c.agents id p e h
refresh-Agrees id p (some a) c e h = set_both c.panes c.agents id p a h

set_pane-Agrees : (p : PaneInfo) (c : SessionCache) → Agrees c → Agrees (set_pane p c)
unfolding set_pane
set_pane-Agrees p c h = refresh-Agrees p.pane_id p _ c refl h

close_pane-Agrees : (id : String) (c : SessionCache) → Agrees c → Agrees (close_pane id c)
unfolding close_pane
close_pane-Agrees id c h = delete_both c.panes c.agents id h

status_alone-Agrees :
    (e : PaneAgentStatusChangedEvent) (o : Option AgentInfo) (c : SessionCache)
    → get c.panes e.pane_id ≡ none
    → Agrees c
    → Agrees (status_alone e o c)
status_alone-Agrees e none c absent h = h
status_alone-Agrees e (some a) c absent h = λ j. rw get-set (elim (Bool-cases (e.pane_id == j)) [
  | inl same ↦ rw (same, ap (get c.panes) (sym ((eq_iff e.pane_id j).0 same)) ∙ absent) tt
  | inr other ↦ rw other (h j)
])

status_in-Agrees :
    (e : PaneAgentStatusChangedEvent) (o : Option PaneInfo) (c : SessionCache)
    → get c.panes e.pane_id ≡ o
    → Agrees c
    → Agrees (status_in e o c)
status_in-Agrees e none c absent h = status_alone-Agrees e _ c absent h
status_in-Agrees e (some p) c there h = refresh-Agrees e.pane_id (status_pane e p) _ c refl h

detected_in-Agrees :
    (e : PaneAgentDetectedEvent) (o : Option PaneInfo) (c : SessionCache)
    → Agrees c
    → Agrees (detected_in e o c)
detected_in-Agrees e none c h = elim (Bool-cases (Optional.value_or_zero e.released)) [
  | inl released ↦ rw released (delete_agent c.panes c.agents e.pane_id h)
  | inr kept ↦ rw kept h
]
detected_in-Agrees e (some p) c h = elim (Bool-cases (Optional.value_or_zero e.released)) [
  | inl released ↦ rw released (set_released c.panes c.agents e.pane_id (detected_pane e p) h)
  | inr kept ↦ rw kept (set_both c.panes c.agents e.pane_id (detected_pane e p) _ h)
]

focus_layout_of-Agrees :
    (id : String) (o : Option PaneInfo) (c : SessionCache)
    → Agrees c
    → Agrees (focus_layout_of id o c)
focus_layout_of-Agrees id none c h = h
focus_layout_of-Agrees id (some p) c h = elim (Option-cases (get c.layouts p.tab_id)) [
  | inl absent ↦ rw absent h
  | inr (l, there) ↦ rw there h
]

module _ {c : SessionCache} (k : IsConsistent c) (h : Agrees c) where
  close_tab-Agrees : (id : String) → Agrees (close_tab id c)
  unfolding close_tab
  close_tab-Agrees id j =
      rw
        (
          get-delete_where (λ p. p.tab_id == id) c.panes j k.panes,
          get-delete_where (λ a. a.tab_id == id) c.agents j k.agents,
        )
        (AgreeAt-reject c.panes c.agents (λ p. p.tab_id == id) (λ a. a.tab_id == id) _ _ (h j))

  close_workspace-Agrees : (id : String) → Agrees (close_workspace id c)
  unfolding close_workspace
  close_workspace-Agrees id j =
      rw
        (
          get-delete_where (λ p. p.workspace_id == id) c.panes j k.panes,
          get-delete_where (λ a. a.workspace_id == id) c.agents j k.agents,
        )
        (AgreeAt-reject c.panes c.agents (λ p. p.workspace_id == id) (λ a. a.workspace_id == id) _ _
          (h j))

  focus_pane-Agrees : (id : String) → Agrees (focus_pane id c)
  unfolding focus_pane
  focus_pane-Agrees id =
      focus_layout_of-Agrees id
        (get (OrderedCollection.update (λ i p. record p { focused = i == id }) c.panes) id)
        (record c {
          panes = OrderedCollection.update (λ i p. record p { focused = i == id }) c.panes;
          agents = OrderedCollection.update (λ i a. record a { focused = i == id }) c.agents;
        })
        λ j.
          rw
            (
              get-update (λ i p. record p { focused = i == id }) c.panes j k.panes,
              get-update (λ i a. record a { focused = i == id }) c.agents j k.agents,
            )
            (AgreeAt-focus (j == id) _ _ (h j))

-- Every event but pane.moved keeps, on a consistent mirror, each agent in agreement with its pane: where
-- the mirror holds a pane and an agent under one id, the two are equal in each of the 17 fields that
-- both structs have.
pub apply-Agrees :
    (e : Event) (c : SessionCache)
    → IsConsistent c
    → Agrees c
    → ((m : PaneMovedEvent) → e ≢ pane_moved m)
    → Agrees (apply e c)
unfolding apply apply_agent_status apply_agent_detected
apply-Agrees (workspace_renamed e) c k h n = elim (Option-cases (get c.workspaces e.workspace_id)) [
  | inl absent ↦ rw absent h
  | inr (w, there) ↦ rw there h
]
apply-Agrees (workspace_focused id) c k h n = unfold focus_workspace in h
apply-Agrees (workspace_closed e) c k h n = close_workspace-Agrees k h e.workspace_id
apply-Agrees (worktree_removed e) c k h n = elim (Option-cases (Optional.get e.workspace)) [
  | inl absent ↦ rw absent h
  | inr (w, there) ↦ rw there h
]
apply-Agrees (tab_renamed e) c k h n = elim (Option-cases (get c.tabs e.tab_id)) [
  | inl absent ↦ rw absent h
  | inr (w, there) ↦ rw there h
]
apply-Agrees (tab_focused id w) c k h n = unfold focus_tab in h
apply-Agrees (tab_moved e) c k h n = unfold reorder_tabs in h
apply-Agrees (tab_closed id w) c k h n = close_tab-Agrees k h id
apply-Agrees (pane_created p) c k h n = set_pane-Agrees p c h
apply-Agrees (pane_updated p) c k h n = set_pane-Agrees p c h
apply-Agrees (pane_moved e) c k h n = absurd (n e refl)
apply-Agrees (pane_focused id w) c k h n = focus_pane-Agrees k h id
apply-Agrees (pane_closed id w) c k h n = close_pane-Agrees id c h
apply-Agrees (pane_output_changed e) c k h n = elim (Option-cases (get c.panes e.pane_id)) [
  | inl absent ↦ rw absent h
  | inr (p, there) ↦ rw there (set_pane-Agrees (record p { revision = e.revision }) c h)
]
apply-Agrees (pane_scroll_changed e) c k h n = elim (Option-cases (get c.panes e.pane_id)) [
  | inl absent ↦ rw absent h
  | inr (p, there) ↦
      rw there (set_pane-Agrees (record p { scroll = Optional.some_value e.scroll }) c h)
]
apply-Agrees (pane_agent_detected e) c k h n = detected_in-Agrees e _ c h
apply-Agrees (pane_agent_status_changed e) c k h n = status_in-Agrees e _ c refl h
apply-Agrees _ c k h n = h
