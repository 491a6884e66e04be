-- ===== src/SessionCache/Twice.antt =====
-- herdr/session_cache.go: each step of the mirror, done twice, leaves what it leaves when done once.
use herdr_client.Prelude.{
  String, ◌==◌, eq_iff, ◌≡◌, refl, sym, ap, ◌∙◌, none, some, Option-cases, Bool-cases, inl, inr,
  arith, if◌then◌else◌, value_or,
}
use herdr_client.Optional
use herdr_client.OrderedCollection
use herdr_client.OrderedCollection.{OrderedCollection, get}
use herdr_client.OrderedCollection.Keep.{update-IsIndexed}
use herdr_client.OrderedCollection.Laws.{
  get-set, get-set_self, set_twice, delete_twice, update_twice, delete_where_twice,
}
use herdr_client.Wire.{
  WorkspaceInfo, TabInfo, PaneInfo, PaneLayoutSnapshot, workspace_zero, tab_zero, pane_zero,
  agent_zero, layout_zero,
}
use herdr_client.Wire.Events.{
  WorkspaceRenamedEvent, TabRenamedEvent, PaneAgentDetectedEvent, PaneAgentStatusChangedEvent,
  workspace_renamed, tab_renamed,
}
use herdr_client.SessionCache.State.{
  SessionCache, workspace_key, tab_key, pane_key, agent_key, set_workspace, set_tab, set_pane,
  merge_agent, close_pane, close_tab, close_workspace, when_some,
}
use herdr_client.SessionCache.Agents.{
  apply_agent_detected, apply_agent_status, detected_pane, status_pane,
}
use herdr_client.SessionCache.Focus.{focus_workspace, focus_tab, focus_pane, focus_layout_of}
use herdr_client.SessionCache.Apply.{apply}
use herdr_client.SessionCache.Consistent.{IsConsistent, Keyed}

pub set_workspace_twice :
    (w : WorkspaceInfo) (c : SessionCache) → set_workspace w (set_workspace w c) ≡ set_workspace w c
set_workspace_twice w c =
    ap (λ o. record c { workspaces = o }) (set_twice w.workspace_id w w c.workspaces)

pub set_tab_twice : (t : TabInfo) (c : SessionCache) → set_tab t (set_tab t c) ≡ set_tab t c
set_tab_twice t c = ap (λ o. record c { tabs = o }) (set_twice t.tab_id t t c.tabs)

pub set_pane_twice : (p : PaneInfo) (c : SessionCache) → set_pane p (set_pane p c) ≡ set_pane p c
unfolding set_pane merge_agent
set_pane_twice p c = elim (Option-cases (get c.agents p.pane_id)) [
  | inl absent ↦
      rw absent (rw absent (ap (λ o. record c { panes = o }) (set_twice p.pane_id p p c.panes)))
  | inr (a, found) ↦ rw found (
      rw get-set_self (λ i. record c {
        panes = set_twice p.pane_id p p c.panes i;
        agents = set_twice p.pane_id (merge_agent a p) (merge_agent a p) c.agents i;
      }))
]

pub close_pane_twice :
    (id : String) (c : SessionCache) → close_pane id (close_pane id c) ≡ close_pane id c
unfolding close_pane
close_pane_twice id c =
    λ i. record c { panes = delete_twice id c.panes i; agents = delete_twice id c.agents i }

module _ {c : SessionCache} (h : IsConsistent c) where
  pub close_tab_twice : (id : String) → close_tab id (close_tab id c) ≡ close_tab id c
  unfolding close_tab
  close_tab_twice id = λ i. record c {
    tabs = delete_twice id c.tabs i;
    layouts = delete_twice id c.layouts i;
    panes = delete_where_twice (λ p. p.tab_id == id) c.panes h.panes i;
    agents = delete_where_twice (λ a. a.tab_id == id) c.agents h.agents i;
  }

  pub close_workspace_twice :
      (id : String) → close_workspace id (close_workspace id c) ≡ close_workspace id c
  unfolding close_workspace
  close_workspace_twice id = λ i. record c {
    workspaces = delete_twice id c.workspaces i;
    tabs = delete_where_twice (λ t. t.workspace_id == id) c.tabs h.tabs i;
    panes = delete_where_twice (λ p. p.workspace_id == id) c.panes h.panes i;
    agents = delete_where_twice (λ a. a.workspace_id == id) c.agents h.agents i;
    layouts = delete_where_twice (λ l. l.workspace_id == id) c.layouts h.layouts i;
  }

  pub focus_workspace_twice :
      (id : String) → focus_workspace id (focus_workspace id c) ≡ focus_workspace id c
  unfolding focus_workspace
  focus_workspace_twice id =
      ap (λ o. record c { workspaces = o })
        (update_twice (λ j w. record w { focused = j == id }) c.workspaces (λ j w. refl)
          h.workspaces
          (update-IsIndexed (Keyed workspace_key) _ c.workspaces (λ j w e. e) h.workspaces))

  pub focus_tab_twice : (id : String) → focus_tab id (focus_tab id c) ≡ focus_tab id c
  unfolding focus_tab
  focus_tab_twice id =
      ap (λ o. record c { tabs = o })
        (update_twice (λ j t. record t { focused = j == id }) c.tabs (λ j w. refl) h.tabs
          (update-IsIndexed (Keyed tab_key) _ c.tabs (λ j w e. e) h.tabs))

  pub rename_workspace_twice :
      (e : WorkspaceRenamedEvent)
      → apply (workspace_renamed e) (apply (workspace_renamed e) c) ≡ apply (workspace_renamed e) c
  unfolding apply
  rename_workspace_twice e = elim (Option-cases (get c.workspaces e.workspace_id)) [
    | inl absent ↦ rw absent (rw absent refl)
    | inr (w, found) ↦ rw found (
        rw get-set_self
          (ap (λ o. record c { workspaces = o }) (set_twice e.workspace_id _ _ c.workspaces)))
  ]

  pub rename_tab_twice :
      (e : TabRenamedEvent)
      → apply (tab_renamed e) (apply (tab_renamed e) c) ≡ apply (tab_renamed e) c
  unfolding apply
  rename_tab_twice e = elim (Option-cases (get c.tabs e.tab_id)) [
    | inl absent ↦ rw absent (rw absent refl)
    | inr (w, found) ↦
        rw found (rw get-set_self (ap (λ o. record c { tabs = o }) (set_twice e.tab_id _ _ c.tabs)))
  ]

get-set_pane :
    (q : PaneInfo) (c : SessionCache) (j : String)
    → get (set_pane q c).panes j ≡ (if q.pane_id == j then some q else get c.panes j)
unfolding set_pane
get-set_pane q c j = elim (Option-cases (get c.agents q.pane_id)) [
  | inl absent ↦ rw absent (get-set q.pane_id q c.panes j)
  | inr (a, found) ↦ rw found (get-set q.pane_id q c.panes j)
]

abbrev pub revise_pane : (PaneInfo → PaneInfo) → String → SessionCache → SessionCache
revise_pane f id c = when_some (get c.panes id) (λ p. set_pane (f p)) c

pub revise_pane_twice :
    (f : PaneInfo → PaneInfo) (id : String) (c : SessionCache)
    → ((p : PaneInfo) → (f p).pane_id ≡ p.pane_id)
    → ((p : PaneInfo) → f (f p) ≡ f p)
    → IsConsistent c
    → revise_pane f id (revise_pane f id c) ≡ revise_pane f id c
unfolding get
revise_pane_twice f id c keyed idem h = elim (Option-cases (get c.panes id)) [
  | inl absent ↦ rw absent (rw absent refl)
  | inr (p, found) ↦
      let same : (f p).pane_id ≡ id = keyed p ∙ h.panes.holds id p found in
      let there : get (set_pane (f p) c).panes id ≡ some (f p) =
        get-set_pane (f p) c id ∙ ground (arith, eq_iff (f p).pane_id id) in
      rw found (rw there (rw (idem p) (set_pane_twice (f p) c)))
]

module _ (e : PaneAgentStatusChangedEvent) where
  status_pane_twice : (p : PaneInfo) → status_pane e (status_pane e p) ≡ status_pane e p
  unfolding status_pane
  status_pane_twice p = ground arith

  pub status_twice :
      (c : SessionCache) → apply_agent_status e (apply_agent_status e c) ≡ apply_agent_status e c
  unfolding apply_agent_status merge_agent
  status_twice c = elim (Option-cases (get c.panes e.pane_id)) [
    | inl absent ↦ elim (Option-cases (get c.agents e.pane_id)) [
      | inl gone ↦ rw (absent, gone) (rw (absent, gone) refl)
      | inr (a, found) ↦
          rw (absent, found)
            (rw (absent, get-set_self)
              (ap (λ o. record c { agents = o }) (set_twice e.pane_id _ _ c.agents)))
    ]
    | inr (p, there) ↦ elim (Option-cases (get c.agents e.pane_id)) [
      | inl gone ↦
          rw (there, gone)
            (rw (get-set_self, gone)
              (rw (status_pane_twice p)
                (ap (λ o. record c { panes = o }) (set_twice e.pane_id _ _ c.panes))))
      | inr (a, found) ↦
          rw (there, found)
            (rw (get-set_self, get-set_self)
              (rw (status_pane_twice p) (λ i. record c {
                panes = set_twice e.pane_id (status_pane e p) (status_pane e p) c.panes i;
                agents =
                    set_twice e.pane_id (merge_agent a (status_pane e p))
                      (merge_agent a (status_pane e p)) c.agents i;
              })))
    ]
  ]

module _ (e : PaneAgentDetectedEvent) where
  detected_pane_twice : (p : PaneInfo) → detected_pane e (detected_pane e p) ≡ detected_pane e p
  unfolding detected_pane
  detected_pane_twice p = ground arith

  pub detected_twice :
      (c : SessionCache)
      → apply_agent_detected e (apply_agent_detected e c) ≡ apply_agent_detected e c
  unfolding apply_agent_detected merge_agent
  detected_twice c = elim (Option-cases (get c.panes e.pane_id)) [
    | inl absent ↦ elim (Bool-cases (Optional.value_or_zero e.released)) [
      | inl released ↦
          rw (absent, released)
            (rw (absent, released)
              (ap (λ o. record c { agents = o }) (delete_twice e.pane_id c.agents)))
      | inr kept ↦ rw (absent, kept) (rw (absent, kept) refl)
    ]
    | inr (p, there) ↦ elim (Bool-cases (Optional.value_or_zero e.released)) [
      | inl released ↦
          rw (there, released)
            (rw (get-set_self, released)
              (rw (detected_pane_twice p) (λ i. record c {
                panes = set_twice e.pane_id (detected_pane e p) (detected_pane e p) c.panes i;
                agents = delete_twice e.pane_id c.agents i;
              })))
      | inr kept ↦
          let merged =
            merge_agent (value_or agent_zero.zero_value (get c.agents e.pane_id))
              (detected_pane e p) in
          rw (there, kept)
            (rw (get-set_self, kept, get-set_self)
              (rw (detected_pane_twice p) (λ i. record c {
                panes = set_twice e.pane_id (detected_pane e p) (detected_pane e p) c.panes i;
                agents = set_twice e.pane_id merged merged c.agents i;
              })))
    ]
  ]

module _ {c : SessionCache} (h : IsConsistent c) where
  refocus_twice :
      (id : String)
      → (r : SessionCache)
      → r.panes ≡ OrderedCollection.update (λ j p. record p { focused = j == id }) c.panes
      → r.agents ≡ OrderedCollection.update (λ j a. record a { focused = j == id }) c.agents
      → focus_pane id r ≡ focus_layout_of id (get r.panes id) r
  unfolding focus_pane
  refocus_twice id r ps as_ = λ i.
      focus_layout_of id (get (again i) id) (record r { panes = again i; agents = again_agents i })
    where
      again : OrderedCollection.update (λ j p. record p { focused = j == id }) r.panes ≡ r.panes
      again = rw ps (
          update_twice (λ j p. record p { focused = j == id }) c.panes (λ j p. refl) h.panes
            (update-IsIndexed (Keyed pane_key) _ c.panes (λ j w e. e) h.panes))

      again_agents :
          OrderedCollection.update (λ j a. record a { focused = j == id }) r.agents ≡ r.agents
      again_agents = rw as_ (
          update_twice (λ j a. record a { focused = j == id }) c.agents (λ j p. refl) h.agents
            (update-IsIndexed (Keyed agent_key) _ c.agents (λ j w e. e) h.agents))

  pub focus_pane_twice : (id : String) → focus_pane id (focus_pane id c) ≡ focus_pane id c
  focus_pane_twice id = elim (Option-cases (get panes' id)) [
    | inl absent ↦
        ap (focus_pane id) (settled absent)
        ∙ refocus_twice id c1 refl refl
        ∙ rw absent (sym (settled absent))
    | inr (p, there) ↦ elim (Option-cases (get c.layouts p.tab_id)) [
      | inl gone ↦
          ap (focus_pane id) (no_layout p there gone)
          ∙ refocus_twice id c1 refl refl
          ∙ rw (there, gone) (sym (no_layout p there gone))
      | inr (l, found) ↦
          ap (focus_pane id) (with_layout p there l found)
          ∙ refocus_twice id (laid_out p l) refl refl
          ∙ rw there (
              rw get-set_self (
                ap (λ o. record c1 { layouts = o }) (set_twice p.tab_id _ _ c.layouts)
                ∙ sym (with_layout p there l found)))
    ]
  ]
    where
      panes' : OrderedCollection PaneInfo
      panes' = OrderedCollection.update (λ j p. record p { focused = j == id }) c.panes

      c1 : SessionCache
      c1 = record c {
        panes = panes';
        agents = OrderedCollection.update (λ j a. record a { focused = j == id }) c.agents;
      }

      laid_out : PaneInfo → PaneLayoutSnapshot → SessionCache
      laid_out p l = record c1 {
        layouts = OrderedCollection.set p.tab_id (record l { focused_pane_id = id }) c.layouts;
      }

      settled : get panes' id ≡ none → focus_pane id c ≡ c1
      settled absent = unfold focus_pane in rw absent refl

      no_layout :
          (p : PaneInfo)
          → get panes' id ≡ some p
          → get c.layouts p.tab_id ≡ none
          → focus_pane id c ≡ c1
      no_layout p there gone = unfold focus_pane in rw (there, gone) refl

      with_layout :
          (p : PaneInfo)
          → get panes' id ≡ some p
          → (l : PaneLayoutSnapshot) → get c.layouts p.tab_id ≡ some l
          → focus_pane id c ≡ laid_out p l
      with_layout p there l found = unfold focus_pane in rw (there, found) refl
