-- ===== src/Plugin/Exit.antt =====
-- plugin/run.go and plugin/registry.go: what the exit code of a plugin process says.
use herdr_client.Prelude.{String, Bool, Option, none, some, ◌≡◌, refl, arith}
use herdr_client.Plugin.Environment.{
  Env, EntryKind, entry_kind, Loaded, not_plugin_process, missing_plugin_id, loaded, load_from,
}
use herdr_client.Plugin.Registry.{EventEnvelope, Bound, unbound, bound, Effect, Plugin, bind}
use herdr_client.Plugin.Run.{
  finish, returns, run_bound, dispatch_bound, run_loaded, no_binding, handler_failed, Exit, run,
  DispatchError, refused, returned, dispatch, run_plugin,
}

-- The exit that the result of Dispatch stands for.
abbrev pub exit_of : {W X : Type 0} → Env → Option (DispatchError X) × W → Exit W X
exit_of env (none, w) = record { code = 0; report = none; world = w }
exit_of env (some (returned x), w) = record {
  code = 1;
  report = some (handler_failed env.plugin_id (entry_kind env) x);
  world = w;
}
exit_of env (some (refused why), w) = record { code = 2; report = some (no_binding why); world = w }

module _ {W X : Type 0} where
  finish-returns :
      (env : Env) (r : Option X × W) → finish env (entry_kind env) r ≡ exit_of env (returns r)
  finish-returns env (none, w) = refl
  finish-returns env (some x, w) = refl

  run_bound-dispatch_bound :
      (env : Env) (b : Bound (Effect W X)) (w : W)
      → run_bound env (entry_kind env) b w ≡ exit_of env (dispatch_bound b w)
  run_bound-dispatch_bound env (unbound why) w = refl
  run_bound-dispatch_bound env (bound handler) w = finish-returns env (handler w)

  -- Run of a plugin whose environment loads does what Dispatch does on that environment: the same
  -- change of the world, exit code 0 where Dispatch returns no error, 1 where the handler returned
  -- one and 2 where no handler was bound.
  pub run-dispatch :
      (decode : String → Option EventEnvelope) (p : Plugin W X) (lookup : String → String × Bool)
      (env : Env) (w : W)
      → load_from lookup ≡ loaded env
      → run_plugin decode p lookup w ≡ exit_of env (dispatch decode p env w)
  unfolding run_plugin run dispatch
  run-dispatch decode p lookup env w e =
      rw e (run_bound-dispatch_bound env (bind decode p env (entry_kind env)) w)

  code_of-finish :
      (env : Env) (kind : EntryKind) (r : Option X × W) → (finish env kind r).code ≡ 2 → ⊥
  code_of-finish env kind (none, w) e = omega (arith, e)
  code_of-finish env kind (some x, w) e = omega (arith, e)

  run_loaded-untouched :
      (binder : Env → EntryKind → Bound (Effect W X)) (l : Loaded) (w : W)
      → (run_loaded binder l w).code ≡ 2
      → (run_loaded binder l w).world ≡ w
  run_loaded-untouched binder not_plugin_process w e = refl
  run_loaded-untouched binder missing_plugin_id w e = refl
  run_loaded-untouched binder (loaded env) w e = go (binder env (entry_kind env)) e
    where
      go :
          (b : Bound (Effect W X))
          → (run_bound env (entry_kind env) b w).code ≡ 2
          → (run_bound env (entry_kind env) b w).world ≡ w
      go (unbound why) e' = refl
      go (bound handler) e' = absurd (code_of-finish env (entry_kind env) (handler w) e')

  -- A run that exits with the code of a runtime error leaves the world as it was, whichever way
  -- handlers are bound.
  pub run-untouched :
      (binder : Env → EntryKind → Bound (Effect W X)) (lookup : String → String × Bool) (w : W)
      → (run binder lookup w).code ≡ 2
      → (run binder lookup w).world ≡ w
  unfolding run
  run-untouched binder lookup w e = run_loaded-untouched binder (load_from lookup) w e
