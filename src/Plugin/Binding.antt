-- ===== src/Plugin/Binding.antt =====
-- plugin/registry.go: what a registration changes. The handler that was registered is bound to
-- exactly the environments that name it, and every other environment is bound as before.
use herdr_client.Prelude.{String, ◌==◌, ◌≡◌, refl, Bool, false, Option, some, if◌then◌else◌, arith}
use herdr_client.Wire.Events.{Event}
use herdr_client.Plugin.Environment.{
  Env, EntryKind, kind_unknown, kind_startup, kind_action, kind_event, kind_pane,
}
use herdr_client.Plugin.Registry.{
  EventEnvelope, registered, Bound, bound, Effect, Handler, Plugin, store, register, action, pane,
  on_event, bind_by_id, bind_event, bind_payload, typed_binder, bind_startup, bind, event_envelope,
}

abbrev pub names_action : String → Env → EntryKind → Bool
names_action id env kind_action = id == env.action_id
names_action id env _ = false

abbrev pub names_pane : String → Env → EntryKind → Bool
names_pane id env kind_pane = id == env.entrypoint_id
names_pane id env _ = false

abbrev pub names_event : String → Env → EntryKind → Bool
names_event name env kind_event = name == env.event
names_event name env _ = false

module _ {W X : Type 0} where
  registered_inj : (a b : Plugin W X) → registered a ≡ registered b → a ≡ b
  registered_inj a b e = ground arith

  pub action_leaves :
      (id : String) (h : Handler W X) (p q : Plugin W X)
      → action id (some h) p ≡ registered q
      → q ≡ record p { actions = store id h p.actions }
  unfolding action register
  action_leaves id h p q e = ground arith

  pub pane_leaves :
      (id : String) (h : Handler W X) (p q : Plugin W X)
      → pane id (some h) p ≡ registered q
      → q ≡ record p { panes = store id h p.panes }
  unfolding pane register
  pane_leaves id h p q e = ground arith

  pub event_leaves :
      {E : Type 0} (name : String) (as_type : Event → Option E) (h : Env → E → Effect W X)
      (p q : Plugin W X)
      → on_event name as_type (some h) p ≡ registered q
      → q ≡ record p {
        events = store name (λ env payload. typed_binder name h env (as_type payload)) p.events;
      }
  unfolding on_event
  event_leaves name as_type h p q e = ground arith

module _ {W X : Type 0} (decode : String → Option EventEnvelope) where
  -- What a plugin with a handler for an event is bound to, given the text of the envelope.
  abbrev pub event_bound :
      {E : Type 0} → String → (Event → Option E) → (Env → E → Effect W X) → Env → Bound (Effect W X)
  event_bound name as_type h env = event_envelope decode env (λ envelope.
      bind_payload env (λ env' payload. typed_binder name h env' (as_type payload))
        envelope.payload)

module _ {W X : Type 0} (decode : String → Option EventEnvelope) (p q : Plugin W X) where
  -- If an action is registered, its handler is bound to the invocations of that action, and every
  -- other environment is bound as before.
  pub action-binds :
      (id : String) (h : Handler W X) (env : Env) (kind : EntryKind)
      → action id (some h) p ≡ registered q
      → bind decode q env kind
        ≡ (if names_action id env kind then bound (h env) else bind decode p env kind)
  unfolding store bind bind_by_id bind_startup bind_event
  action-binds id h env kind_action e = rw (action_leaves id h p q e) (ground arith)
  action-binds id h env kind_startup e = rw (action_leaves id h p q e) refl
  action-binds id h env kind_pane e = rw (action_leaves id h p q e) refl
  action-binds id h env kind_event e = rw (action_leaves id h p q e) refl
  action-binds id h env kind_unknown e = refl

  -- If a pane is registered, its handler is bound to the processes of that pane, and every other
  -- environment is bound as before.
  pub pane-binds :
      (id : String) (h : Handler W X) (env : Env) (kind : EntryKind)
      → pane id (some h) p ≡ registered q
      → bind decode q env kind
        ≡ (if names_pane id env kind then bound (h env) else bind decode p env kind)
  unfolding store bind bind_by_id bind_startup bind_event
  pane-binds id h env kind_pane e = rw (pane_leaves id h p q e) (ground arith)
  pane-binds id h env kind_startup e = rw (pane_leaves id h p q e) refl
  pane-binds id h env kind_action e = rw (pane_leaves id h p q e) refl
  pane-binds id h env kind_event e = rw (pane_leaves id h p q e) refl
  pane-binds id h env kind_unknown e = refl

  -- If an event hook is registered, its handler is bound to the processes of that event and gets
  -- the payload of the envelope in the event's type, and every other environment is bound as
  -- before.
  pub on_event-binds :
      {E : Type 0} (name : String) (as_type : Event → Option E) (h : Env → E → Effect W X)
      (env : Env) (kind : EntryKind)
      → on_event name as_type (some h) p ≡ registered q
      → bind decode q env kind ≡ (
          if names_event name env kind
          then event_bound decode name as_type h env
          else bind decode p env kind)
  unfolding store bind bind_by_id bind_startup bind_event event_envelope
  on_event-binds name as_type h env kind_event e =
      rw (event_leaves name as_type h p q e) (ground arith)
  on_event-binds name as_type h env kind_startup e = rw (event_leaves name as_type h p q e) refl
  on_event-binds name as_type h env kind_action e = rw (event_leaves name as_type h p q e) refl
  on_event-binds name as_type h env kind_pane e = rw (event_leaves name as_type h p q e) refl
  on_event-binds name as_type h env kind_unknown e = refl
