-- ===== src/Plugin/Run.antt =====
-- plugin/run.go, and Dispatch of plugin/registry.go: from a process environment to an exit code.
-- What a failing run prints to stderr is a value of the result.
use herdr_client.Prelude.{ℕ, String, Bool, Option, none, some}
use herdr_client.Plugin.Environment.{
  Env, EntryKind, kind_unknown, kind_startup, kind_action, kind_event, kind_pane, entry_kind,
  Loaded, loaded, load_from,
}
use herdr_client.Plugin.Registry.{
  EventEnvelope, BindError, no_handler, unknown_kind, Bound, unbound, bound, Effect, Plugin, bind,
  event_envelope,
}

abbrev pub exit_ok : ℕ
exit_ok = 0

abbrev pub exit_handler_error : ℕ
exit_handler_error = 1

abbrev pub exit_runtime_error : ℕ
exit_runtime_error = 2

pub data Report (X : Type 0) : Type 0 where
  no_environment : Loaded → Report X
  no_binding : BindError → Report X
  -- the plugin's id, the kind, and the handler's error
  handler_failed : String → EntryKind → X → Report X

pub record Exit (W X : Type 0) : Type 0 where
  pub code : ℕ
  pub report : Option (Report X)
  pub world : W

module _ {W X : Type 0} where
  abbrev pub finish : Env → EntryKind → Option X × W → Exit W X
  finish env kind (none, w) = record { code = exit_ok; report = none; world = w }
  finish env kind (some x, w) = record {
    code = exit_handler_error;
    report = some (handler_failed env.plugin_id kind x);
    world = w;
  }

  abbrev pub run_bound : Env → EntryKind → Bound (Effect W X) → W → Exit W X
  run_bound env kind (unbound why) w = record {
    code = exit_runtime_error;
    report = some (no_binding why);
    world = w;
  }
  run_bound env kind (bound handler) w = finish env kind (handler w)

  abbrev pub run_loaded : (Env → EntryKind → Bound (Effect W X)) → Loaded → W → Exit W X
  run_loaded binder (loaded env) w = run_bound env (entry_kind env) (binder env (entry_kind env)) w
  run_loaded binder refused w = record {
    code = exit_runtime_error;
    report = some (no_environment refused);
    world = w;
  }

  unfoldable pub run :
      (Env → EntryKind → Bound (Effect W X)) → (String → String × Bool) → W → Exit W X
  run binder lookup w = run_loaded binder (load_from lookup) w

pub data DispatchError (X : Type 0) : Type 0 where
  refused : BindError → DispatchError X
  returned : X → DispatchError X

module _ {W X : Type 0} where
  abbrev pub returns : Option X × W → Option (DispatchError X) × W
  returns (none, w) = (none, w)
  returns (some x, w) = (some (returned x), w)

  abbrev pub dispatch_bound : Bound (Effect W X) → W → Option (DispatchError X) × W
  dispatch_bound (unbound why) w = (some (refused why), w)
  dispatch_bound (bound handler) w = returns (handler w)

module _ {W X : Type 0} (decode : String → Option EventEnvelope) where
  unfoldable pub dispatch : Plugin W X → Env → W → Option (DispatchError X) × W
  dispatch p env w = dispatch_bound (bind decode p env (entry_kind env)) w

  -- (*Plugin).Run
  unfoldable pub run_plugin : Plugin W X → (String → String × Bool) → W → Exit W X
  unfolding run
  run_plugin p lookup w = run (bind decode p) lookup w

-- The four functions of a plugin that does not register by id.
pub record Handlers (W X : Type 0) : Type 0 where
  pub startup : Option (Env → Effect W X)
  pub action : Option (Env → String → Effect W X)
  pub event : Option (Env → EventEnvelope → Effect W X)
  pub pane : Option (Env → String → Effect W X)

abbrev handled : {H F : Type 0} → EntryKind → Option H → (H → Bound F) → Bound F
handled kind none next = unbound (no_handler kind)
handled kind (some h) next = next h

module _ {W X : Type 0} (decode : String → Option EventEnvelope) where
  unfoldable pub bind_handlers : Handlers W X → Env → EntryKind → Bound (Effect W X)
  bind_handlers h env kind_startup = handled kind_startup h.startup (λ f. bound (f env))
  bind_handlers h env kind_action = handled kind_action h.action (λ f. bound (f env env.action_id))
  bind_handlers h env kind_event =
      handled kind_event h.event
        (λ f. event_envelope decode env (λ envelope. bound (f env envelope)))
  bind_handlers h env kind_pane = handled kind_pane h.pane (λ f. bound (f env env.entrypoint_id))
  bind_handlers h env kind_unknown = unbound (unknown_kind kind_unknown)
