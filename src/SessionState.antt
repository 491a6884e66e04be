-- ===== src/SessionState.antt =====
-- herdr/session_state.go: the state behind the lock, its replacement and the accessors. Every
-- method holds the lock for its whole body, so each is one step on the cache.
pub mod RoundTrip
pub mod Focus
use herdr_client.Prelude.{
  String, Bool, Option, none, some, List, [], ◌∷◌, string_zero, if◌then◌else◌,
}
use herdr_client.Optional
use herdr_client.Optional.{Optional}
use herdr_client.OrderedCollection
use herdr_client.Wire.{
  WorkspaceInfo, TabInfo, PaneInfo, AgentInfo, PaneLayoutSnapshot, SessionSnapshot, clone,
  workspace_zero, tab_zero, pane_zero, agent_zero, layout_zero,
}
use herdr_client.Wire.Events.{Event}
use herdr_client.SessionCache.State.{SessionCache}
use herdr_client.SessionCache.Apply

pub record SessionState : Type 0 where
  pub cache : SessionCache

unfoldable pub replace : SessionCache → SessionState → SessionState
replace cache s = record s { cache = cache }

unfoldable pub apply : Event → SessionState → SessionState
apply event s = record s { cache = Apply.apply event s.cache }

-- herdr/session_clone.go
unfoldable pub clone_each {ℓ} : {T : Type ℓ} → List T → (T → T) → List T
clone_each [] f = []
clone_each (v ∷ vs) f = f v ∷ clone_each vs f

unfoldable pub workspaces : SessionState → List WorkspaceInfo
unfolding clone_each
workspaces s = clone_each (OrderedCollection.values s.cache.workspaces) clone

unfoldable pub tabs : SessionState → List TabInfo
unfolding clone_each
tabs s = clone_each (OrderedCollection.values s.cache.tabs) clone

unfoldable pub agents : SessionState → List AgentInfo
unfolding clone_each
agents s = clone_each (OrderedCollection.values s.cache.agents) clone

abbrev cloned {ℓ} : {T : Type ℓ} → Option T → Option T
cloned none = none
cloned (some v) = some (clone v)

unfoldable pub pane : String → SessionState → Option PaneInfo
pane pane_id s = cloned (OrderedCollection.get s.cache.panes pane_id)

unfoldable pub layout : String → SessionState → Option PaneLayoutSnapshot
layout tab_id s = cloned (OrderedCollection.get s.cache.layouts tab_id)

unfoldable pub focused_id {ℓ} : {T : Type ℓ} → List T → (T → String × Bool) → Optional String
focused_id [] read = Optional.absent_value
focused_id (v ∷ vs) read =
    let (id, focused) = read v in
    let rest = focused_id vs read in if focused then Optional.some_value id else rest

unfoldable pub snapshot : SessionState → SessionSnapshot
unfolding clone_each focused_id
snapshot s =
    let workspaces = clone_each (OrderedCollection.values s.cache.workspaces) clone in
    let tabs = clone_each (OrderedCollection.values s.cache.tabs) clone in
    let panes = clone_each (OrderedCollection.values s.cache.panes) clone in
    record {
      version = s.cache.version;
      protocol = s.cache.protocol;
      workspaces = workspaces;
      tabs = tabs;
      panes = panes;
      agents = clone_each (OrderedCollection.values s.cache.agents) clone;
      layouts = clone_each (OrderedCollection.values s.cache.layouts) clone;
      focused_workspace_id = focused_id workspaces (λ w. (w.workspace_id, w.focused));
      focused_tab_id = focused_id tabs (λ t. (t.tab_id, t.focused));
      focused_pane_id = focused_id panes (λ p. (p.pane_id, p.focused));
    }
