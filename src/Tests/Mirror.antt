-- ===== src/Tests/Mirror.antt =====
-- The theorems on herdr/session_cache.go and herdr/session_state.go at the sample server.
use herdr_client.Prelude.{
  ◌≡◌, refl, ◌==◌, [], ◌∷◌, Bool-cases, inl, inr, arith, nat_zero, string_zero, bool_zero, map_zero,
}
use herdr_client.Optional.{some_value, absent_value}
use herdr_client.OrderedCollection
use herdr_client.OrderedCollection.{get, values, set, delete, delete_where, update, insert_at}
use herdr_client.OrderedCollection.Items.{items, items-set, upsert}
use herdr_client.Wire.{workspace_zero, tab_zero, pane_zero, agent_zero, layout_zero}
use herdr_client.Wire.Events.{
  Event, PaneMovedEvent, pane_moved, pane_updated, workspace_closed, tab_closed,
}
use herdr_client.SessionCache.State.{new_session_cache, merge_agent}
use herdr_client.SessionCache.Apply.{apply}
use herdr_client.SessionCache.Consistent.{IsConsistent, new_session_cache-IsConsistent}
use herdr_client.SessionCache.Invariant.{apply-IsConsistent, apply_all, mirror-IsConsistent}
use herdr_client.SessionCache.Replay.{apply_twice}
use herdr_client.SessionCache.Closing.{WorkspaceClosed, workspace_closed-drops}
use herdr_client.SessionCache.Shared.{merge_agent-SharesFields}
use herdr_client.SessionCache.Agreement.{Agrees, apply-Agrees}
use herdr_client.SessionState.{snapshot}
use herdr_client.SessionState.RoundTrip.{HasDistinctIds, SameLists, snapshot-new_session_cache}
use herdr_client.Tests.Samples

cache-IsConsistent : IsConsistent Samples.cache
cache-IsConsistent = new_session_cache-IsConsistent Samples.snapshot

abbrev moves : Event
moves = pane_moved (record {
  closed_tab_id = some_value "t1";
  closed_workspace_id = absent_value;
  created_tab = some_value (Samples.tab "t9" "w2");
  created_workspace = absent_value;
  pane = record Samples.pane { pane_id = "p9"; tab_id = "t9"; workspace_id = "w2" };
  previous_pane_id = "p1";
  previous_tab_id = "t1";
  previous_workspace_id = "w1";
})

apply-IsConsistent_example : IsConsistent (apply moves Samples.cache)
apply-IsConsistent_example = apply-IsConsistent moves cache-IsConsistent

mirror-IsConsistent_example :
    IsConsistent
      (apply_all (moves ∷ tab_closed "t2" "w1" ∷ []) (new_session_cache Samples.snapshot))
mirror-IsConsistent_example =
    mirror-IsConsistent Samples.snapshot (moves ∷ tab_closed "t2" "w1" ∷ [])

abbrev revised : Event
revised = pane_updated (record Samples.pane { agent_status = "idle" })

apply_twice_example : apply revised (apply revised Samples.cache) ≡ apply revised Samples.cache
apply_twice_example = apply_twice revised Samples.cache cache-IsConsistent tt

workspace_closed-drops_example : WorkspaceClosed "w1" Samples.cache (
    apply
      (workspace_closed (record { workspace = absent_value; workspace_id = "w1" }))
      Samples.cache)
workspace_closed-drops_example =
    workspace_closed-drops (record { workspace = absent_value; workspace_id = "w1" }) Samples.cache
      cache-IsConsistent

cache-Agrees : Agrees Samples.cache
unfolding OrderedCollection.get OrderedCollection.put new_session_cache OrderedCollection.reset
    OrderedCollection.set merge_agent
cache-Agrees id = elim (Bool-cases ("p1" == id)) [
  | inl same ↦ rw same (
      merge_agent-SharesFields (record agent_zero.zero_value { name = some_value "helper" })
        Samples.pane)
  | inr other ↦ rw other tt
]

revised-not_moved : (m : PaneMovedEvent) → revised ≡ pane_moved m → ⊥
revised-not_moved m e = ground arith

apply-Agrees_example : Agrees (apply revised Samples.cache)
apply-Agrees_example =
    apply-Agrees revised Samples.cache cache-IsConsistent cache-Agrees revised-not_moved

snapshot-HasDistinctIds : HasDistinctIds Samples.snapshot
snapshot-HasDistinctIds = record {
  workspaces = refl;
  tabs = refl;
  panes = refl;
  agents = refl;
  layouts = refl;
}

snapshot-new_session_cache_example :
    SameLists (snapshot (record { cache = new_session_cache Samples.snapshot })) Samples.snapshot
snapshot-new_session_cache_example =
    snapshot-new_session_cache Samples.snapshot snapshot-HasDistinctIds

items-set_example :
    items (set "t2" (Samples.tab "t2" "w2") Samples.cache.tabs)
    ≡ upsert "t2" (Samples.tab "t2" "w2") (items Samples.cache.tabs)
items-set_example =
    items-set "t2" (Samples.tab "t2" "w2") Samples.cache.tabs cache-IsConsistent.tabs
