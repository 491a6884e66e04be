-- ===== src/SessionState/RoundTrip.antt =====
-- herdr/session_state.go: what `Snapshot` reads back of the snapshot that the mirror was built
-- from, and of the focus.
use herdr_client.Prelude.{◌≡◌, refl, ap, ◌∙◌, true, List, [], ◌∷◌, map, distinct, string_zero}
use herdr_client.OrderedCollection.Reset.{values-reset}
use herdr_client.Wire.{
  SessionSnapshot, clone, workspace_zero, tab_zero, pane_zero, agent_zero, layout_zero,
}
use herdr_client.SessionCache.State.{
  new_session_cache, workspace_key, tab_key, pane_key, agent_key, layout_key,
}
use herdr_client.SessionState.{snapshot, clone_each}

-- In each list of the snapshot no id stands twice.
pub record HasDistinctIds (s : SessionSnapshot) : Type 0 where
  pub workspaces : distinct (map workspace_key s.workspaces) ≡ true
  pub tabs : distinct (map tab_key s.tabs) ≡ true
  pub panes : distinct (map pane_key s.panes) ≡ true
  pub agents : distinct (map agent_key s.agents) ≡ true
  pub layouts : distinct (map layout_key s.layouts) ≡ true

pub clone_each-clone {ℓ} : {T : Type ℓ} (vs : List T) → clone_each vs clone ≡ vs
unfolding clone_each
clone_each-clone [] = refl
clone_each-clone (v ∷ vs) = ap (◌∷◌ v) (clone_each-clone vs)

map-clone {ℓ} : {T : Type ℓ} (vs : List T) → map clone vs ≡ vs
map-clone [] = refl
map-clone (v ∷ vs) = ap (◌∷◌ v) (map-clone vs)

abbrev pub SameLists : SessionSnapshot → SessionSnapshot → Type 0
SameLists a b =
    (a.workspaces ≡ b.workspaces)
    × (a.tabs ≡ b.tabs)
    × (a.panes ≡ b.panes)
    × (a.agents ≡ b.agents)
    × (a.layouts ≡ b.layouts)
    × (a.version ≡ b.version)
    × (a.protocol ≡ b.protocol)

-- The snapshot of a mirror that was just built has the lists of the snapshot that it was built
-- from, in their order, its version and its protocol, if no list of it repeats an id.
pub snapshot-new_session_cache :
    (s : SessionSnapshot)
    → HasDistinctIds s
    → SameLists (snapshot (record { cache = new_session_cache s })) s
unfolding snapshot new_session_cache
snapshot-new_session_cache s d = (
  clone_each-clone _ ∙ values-reset workspace_key clone s.workspaces d.workspaces ∙ map-clone _,
  clone_each-clone _ ∙ values-reset tab_key clone s.tabs d.tabs ∙ map-clone _,
  clone_each-clone _ ∙ values-reset pane_key clone s.panes d.panes ∙ map-clone _,
  clone_each-clone _ ∙ values-reset agent_key clone s.agents d.agents ∙ map-clone _,
  clone_each-clone _ ∙ values-reset layout_key clone s.layouts d.layouts ∙ map-clone _,
  refl,
  refl,
)
