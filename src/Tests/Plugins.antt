-- ===== src/Tests/Plugins.antt =====
-- The theorems on the plugin runtime at a plugin with an action, a pane and an event hook. A handler
-- adds to a number, its world.
use herdr_client.Prelude.{
  ℕ, ◌+◌, ◌≡◌, refl, String, ◌==◌, Bool, true, false, Option, none, some, if◌then◌else◌,
}
use herdr_client.Wire.Events.{Event, tab_closed}
use herdr_client.Plugin.Environment.{Env, EntryKind, kind_event, load_from, loaded, environment}
use herdr_client.Plugin.Registry.{
  EventEnvelope, Bound, unbound, no_registration, Effect, Handler, Plugin, new_plugin, action, pane,
  on_event, store, register, registered, typed_binder, bind, empty_table,
}
use herdr_client.Plugin.Run.{run, run_plugin, dispatch}
use herdr_client.Plugin.Exit.{exit_of, run-dispatch, run-untouched}
use herdr_client.Plugin.Binding.{on_event-binds, event_bound}

abbrev lookup : String → String × Bool
lookup key =
    if key == "HERDR_ENV"
    then ("1", true)
    else if key == "HERDR_PLUGIN_ID"
    then ("acme.runner", true)
    else if key == "HERDR_PLUGIN_ACTION_ID"
    then ("start", true)
    else if key == "HERDR_PLUGIN_ENTRYPOINT_ID"
    then ("log", true)
    else if key == "HERDR_PLUGIN_EVENT"
    then ("tab.closed", true)
    else if key == "HERDR_PLUGIN_EVENT_JSON"
    then ("{}", true)
    else ("", false)

abbrev env : Env
env = environment lookup

abbrev decode : String → Option EventEnvelope
decode text = some (record { event = "tab_closed"; payload = some (tab_closed "t1" "w1") })

abbrev handler : Handler ℕ String
handler e w = (none, w + 1)

abbrev as_tab_closed : Event → Option (String × String)
as_tab_closed (tab_closed tab workspace) = some (tab, workspace)
as_tab_closed _ = none

abbrev on_tab_closed : Env → String × String → Effect ℕ String
on_tab_closed e ids w = (some ids.0, w + 1)

abbrev with_action : Plugin ℕ String
with_action = record {
  startup = none;
  actions = store "start" handler empty_table;
  panes = empty_table;
  events = empty_table;
}

abbrev with_pane : Plugin ℕ String
with_pane = record {
  startup = none;
  actions = empty_table;
  panes = store "log" handler empty_table;
  events = empty_table;
}

abbrev with_event : Plugin ℕ String
with_event = record {
  startup = none;
  actions = empty_table;
  panes = empty_table;
  events =
      store "tab.closed"
        (λ e payload. typed_binder "tab.closed" on_tab_closed e (as_tab_closed payload))
        empty_table;
}

action-registers :
    action "start" (some handler) (new_plugin {W = ℕ} {X = String}) ≡ registered with_action
unfolding action register new_plugin
action-registers = refl

pane-registers : pane "log" (some handler) (new_plugin {W = ℕ} {X = String}) ≡ registered with_pane
unfolding pane register new_plugin
pane-registers = refl

event-registers :
    on_event "tab.closed" as_tab_closed (some on_tab_closed) (new_plugin {W = ℕ} {X = String})
    ≡ registered with_event
unfolding on_event new_plugin
event-registers = refl

on_event-binds_example :
    bind decode with_event env kind_event
    ≡ event_bound decode "tab.closed" as_tab_closed on_tab_closed env
on_event-binds_example =
    on_event-binds decode new_plugin with_event "tab.closed" as_tab_closed on_tab_closed env
      kind_event event-registers

lookup-loads : load_from lookup ≡ loaded env
unfolding load_from
lookup-loads = refl

run-dispatch_example :
    run_plugin decode with_action lookup 7 ≡ exit_of env (dispatch decode with_action env 7)
run-dispatch_example = run-dispatch decode with_action lookup env 7 lookup-loads

abbrev unregistered : Env → EntryKind → Bound (Effect ℕ String)
unregistered e kind = unbound (no_registration kind e.action_id)

unregistered-code : (run unregistered lookup 7).code ≡ 2
unfolding run load_from
unregistered-code = refl

run-untouched_example : (run unregistered lookup 7).world ≡ 7
run-untouched_example = run-untouched unregistered lookup 7 unregistered-code
