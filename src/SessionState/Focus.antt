-- ===== src/SessionState/Focus.antt =====
-- herdr/session_state.go: the ids that `Snapshot` reports as focused, after a focus event.
use herdr_client.Prelude.{
  Zero, String, ◌==◌, eq_iff, eq_refl, ◌≡◌, refl, ap, ◌∙◌, Bool, true, Option, none, some, List, [],
  ◌∷◌, contains, string_zero, arith, if◌then◌else◌, Option-cases, ◌⊎◌, inl, inr,
}
use herdr_client.Optional
use herdr_client.Optional.{Optional}
use herdr_client.OrderedCollection
use herdr_client.OrderedCollection.{OrderedCollection, Entries, values_of, values, get}
use herdr_client.OrderedCollection.Index.{IsIndexed}
use herdr_client.OrderedCollection.Laws.{get-update, map_entry}
use herdr_client.Wire.{
  clone, PaneInfo, workspace_zero, tab_zero, pane_zero, agent_zero, layout_zero,
}
use herdr_client.Wire.Events.{workspace_focused, tab_focused, pane_focused}
use herdr_client.SessionCache.State.{SessionCache, workspace_key, tab_key, pane_key}
use herdr_client.SessionCache.Focus.{focus_workspace, focus_tab, focus_pane, focus_layout_of}
use herdr_client.SessionCache.Apply.{apply}
use herdr_client.SessionCache.Consistent.{IsConsistent, Keyed}
use herdr_client.SessionState.{clone_each, snapshot, focused_id}
use herdr_client.SessionState.RoundTrip.{clone_each-clone}

module _ {ℓ} {T : Type ℓ} ⦃z : Zero T⦄ (key : T → String) (focused : T → Bool) (id : String) where
  -- An entry under each of the ids, which carries its id and has the flag just if it is `id`.
  abbrev HoldsFocus : Entries T → List String → Type ℓ
  HoldsFocus m ids =
      (j : String)
      → contains ids j ≡ true
      → (v : T) × (m j ≡ some v) × (key v ≡ j) × (focused v ≡ (j == id))

  focused_id-values :
      (m : Entries T) (ids : List String)
      → HoldsFocus m ids
      → focused_id (values_of ids m) (λ v. (key v, focused v))
        ≡ (if contains ids id then Optional.some_value id else Optional.absent_value)
  unfolding focused_id values_of
  focused_id-values m [] h = refl
  focused_id-values m (j ∷ ids) h = ground (
    arith,
    h j (rw eq_refl refl),
    eq_iff j id,
    focused_id-values m ids (λ k c. h k (ground arith)),
  )

  focused_id-update :
      (f : String → T → T) (o : OrderedCollection T)
      → ((j : String) (v : T) → key (f j v) ≡ key v)
      → ((j : String) (v : T) → focused (f j v) ≡ (j == id))
      → IsIndexed (Keyed key) o
      → focused_id
          (clone_each (values (OrderedCollection.update f o)) clone)
          (λ v. (key v, focused v))
        ≡ (if contains o.ids id then Optional.some_value id else Optional.absent_value)
  unfolding values get OrderedCollection.update
  focused_id-update f o keyed flagged h =
      rw (clone_each-clone (values (OrderedCollection.update f o))) (
        focused_id-values (OrderedCollection.update f o).entries o.ids
          λ j c. held j c (Option-cases (o.entries j)))
    where
      held :
          (j : String)
          → contains o.ids j ≡ true
          → (o.entries j ≡ none) ⊎ ((v : T) × (o.entries j ≡ some v))
          → (v : T) × ((OrderedCollection.update f o).entries j ≡ some v)
            × (key v ≡ j)
            × (focused v ≡ (j == id))
      held j c (inl absent) = absurd (ground (arith, h.listed j))
      held j c (inr (v, there)) = (
        f j v,
        get-update f o j h ∙ ap (map_entry (f j)) there,
        keyed j v ∙ h.holds j v there,
        flagged j v,
      )

abbrev if_held {ℓ} : {T : Type ℓ} → String → OrderedCollection T → Optional String
if_held id o = if contains o.ids id then Optional.some_value id else Optional.absent_value

-- After workspace.focused the snapshot names that workspace as the focused one, and none if the
-- mirror does not hold it.
pub focused_workspace_id-focus :
    (id : String) (c : SessionCache)
    → IsConsistent c
    → (snapshot (record { cache = apply (workspace_focused id) c })).focused_workspace_id
      ≡ if_held id c.workspaces
unfolding snapshot apply focus_workspace
focused_workspace_id-focus id c h =
    focused_id-update workspace_key (λ w. w.focused) id (λ j w. record w { focused = j == id })
      c.workspaces (λ j w. refl) (λ j w. refl) h.workspaces

-- After tab.focused the snapshot names that tab as the focused one, and none if the mirror does
-- not hold it.
pub focused_tab_id-focus :
    (id workspace_id : String) (c : SessionCache)
    → IsConsistent c
    → (snapshot (record { cache = apply (tab_focused id workspace_id) c })).focused_tab_id
      ≡ if_held id c.tabs
unfolding snapshot apply focus_tab
focused_tab_id-focus id workspace_id c h =
    focused_id-update tab_key (λ t. t.focused) id (λ j t. record t { focused = j == id }) c.tabs
      (λ j t. refl) (λ j t. refl) h.tabs

panes-focus_layout_of :
    (id : String) (o : Option PaneInfo) (c : SessionCache)
    → (focus_layout_of id o c).panes ≡ c.panes
panes-focus_layout_of id none c = refl
panes-focus_layout_of id (some p) c = elim (Option-cases (get c.layouts p.tab_id)) [
  | inl absent ↦ rw absent refl
  | inr (l, there) ↦ rw there refl
]

panes-focus_pane :
    (id : String) (c : SessionCache)
    → (focus_pane id c).panes
      ≡ OrderedCollection.update (λ j p. record p { focused = j == id }) c.panes
unfolding focus_pane
panes-focus_pane id c = panes-focus_layout_of id _ _

-- After pane.focused the snapshot names that pane as the focused one, and none if the mirror does
-- not hold it.
pub focused_pane_id-focus :
    (id workspace_id : String) (c : SessionCache)
    → IsConsistent c
    → (snapshot (record { cache = apply (pane_focused id workspace_id) c })).focused_pane_id
      ≡ if_held id c.panes
unfolding snapshot apply
focused_pane_id-focus id workspace_id c h =
    ap (λ (ps : List PaneInfo). focused_id ps (λ p. (p.pane_id, p.focused)))
      (ap (λ (o : OrderedCollection PaneInfo). clone_each (values o) clone) (panes-focus_pane id c))
    ∙ focused_id-update pane_key (λ p. p.focused) id (λ j p. record p { focused = j == id }) c.panes
        (λ j p. refl) (λ j p. refl) h.panes
