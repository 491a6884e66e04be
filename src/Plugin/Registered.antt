-- ===== src/Plugin/Registered.antt =====
-- plugin/registry.go: Registered, the names that a plugin has handlers for, in order.
use herdr_client.Prelude.{String, ◌≡◌, refl, Bool, Option, some, is_some, List, contains, arith}
use herdr_client.Sorting.{sort_names}
use herdr_client.Wire.Events.{Event}
use herdr_client.Plugin.Environment.{Env}
use herdr_client.Plugin.Registry.{
  registered, Effect, Handler, Table, Plugin, store, new_plugin, startup, action, pane, on_event,
}
use herdr_client.Plugin.Binding.{action_leaves, pane_leaves, event_leaves}

pub record Registered : Type 0 where
  pub startup : Bool
  pub actions : List String
  pub panes : List String
  pub events : List String

unfoldable pub registered_names : {W X : Type 0} → Plugin W X → Registered
registered_names p = record {
  startup = is_some p.startup;
  actions = sort_names p.actions.keys;
  panes = sort_names p.panes.keys;
  events = sort_names p.events.keys;
}

pub data Built {W X : Type 0} : Plugin W X → Type 1 where
  built_new : Built new_plugin
  built_startup :
      {p q : Plugin W X} (h : Handler W X) → Built p → startup (some h) p ≡ registered q → Built q
  built_action :
      {p q : Plugin W X} (id : String) (h : Handler W X)
      → Built p
      → action id (some h) p ≡ registered q
      → Built q
  built_pane :
      {p q : Plugin W X} (id : String) (h : Handler W X)
      → Built p
      → pane id (some h) p ≡ registered q
      → Built q
  built_event :
      {p q : Plugin W X} {E : Type 0} (name : String) (as_type : Event → Option E)
      (h : Env → E → Effect W X)
      → Built p
      → on_event name as_type (some h) p ≡ registered q
      → Built q

-- the keys are those that have a value
abbrev pub IsTable {ℓ} : {H : Type ℓ} → Table H → Type 0
IsTable t = (k : String) → contains t.keys k ≡ is_some (t.find k)

store-IsTable {ℓ} :
    {H : Type ℓ} (id : String) (h : H) (t : Table H) → IsTable t → IsTable (store id h t)
unfolding store
store-IsTable id h t w k = ground (arith, w k)

-- Every name that the registry lists has a handler, and every handler has its name listed.
pub record IsRegistry {W X : Type 0} (p : Plugin W X) : Type 0 where
  pub actions : IsTable p.actions
  pub panes : IsTable p.panes
  pub events : IsTable p.events

startup_leaves :
    {W X : Type 0} (h : Handler W X) (p q : Plugin W X)
    → startup (some h) p ≡ registered q
    → q ≡ record p { startup = some h }
unfolding startup
startup_leaves h p q e = ground arith

pub Built-IsRegistry : {W X : Type 0} {p : Plugin W X} → Built p → IsRegistry p
unfolding new_plugin
Built-IsRegistry built_new = record { actions = λ k. refl; panes = λ k. refl; events = λ k. refl }
Built-IsRegistry (built_startup {p} {q} h b e) =
    let w = Built-IsRegistry b in
    rw (startup_leaves h p q e) (record { actions = w.actions; panes = w.panes; events = w.events })
Built-IsRegistry (built_action {p} {q} id h b e) =
    let w = Built-IsRegistry b in
    rw (action_leaves id h p q e) (record {
      actions = store-IsTable id h p.actions w.actions;
      panes = w.panes;
      events = w.events;
    })
Built-IsRegistry (built_pane {p} {q} id h b e) =
    let w = Built-IsRegistry b in
    rw (pane_leaves id h p q e) (record {
      actions = w.actions;
      panes = store-IsTable id h p.panes w.panes;
      events = w.events;
    })
Built-IsRegistry (built_event {p} {q} name as_type h b e) =
    let w = Built-IsRegistry b in
    rw (event_leaves name as_type h p q e) (record {
      actions = w.actions;
      panes = w.panes;
      events = store-IsTable name _ p.events w.events;
    })
