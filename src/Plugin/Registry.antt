-- ===== src/Plugin/Registry.antt =====
-- plugin/registry.go: the handlers that a plugin registers, and the one that an environment is bound
-- to. A handler is a function on a world `W`, what it can read and change, and returns an error of
-- type `X` or none; a nil handler is `none`. A panic of a
-- registration is a value. `decode`, a parameter, is json.Unmarshal into an EventEnvelope.
use herdr_client.Prelude.{String, ◌==◌, Option, none, some, is_some, List, [], ◌∷◌, if◌then◌else◌}
use herdr_client.Wire.Events.{Event}
use herdr_client.Plugin.Environment.{
  Env, EntryKind, kind_unknown, kind_startup, kind_action, kind_event, kind_pane,
}

-- herdr.EventEnvelope: the name of the event and its decoded payload
pub record EventEnvelope : Type 0 where
  pub event : String
  pub payload : Option Event

pub data BindError : Type 0 where
  no_handler : EntryKind → BindError
  no_registration : EntryKind → String → BindError
  unknown_kind : EntryKind → BindError
  -- ErrNoEventEnvelope and a decoding error, under the name of the event
  no_event_envelope undecodable_envelope : String → BindError
  no_payload wrong_payload : String → BindError

pub data Panic : Type 0 where
  nil_handler empty_id already_registered : Panic

pub data Registering (P : Type 0) : Type 0 where
  panicked : Panic → Registering P
  registered : P → Registering P

pub data Bound (F : Type 0) : Type 0 where
  unbound : BindError → Bound F
  bound : F → Bound F

abbrev pub Effect : Type 0 → Type 0 → Type 0
Effect W X = W → Option X × W

abbrev pub Handler : Type 0 → Type 0 → Type 0
Handler W X = Env → Effect W X

abbrev pub EventBinder : Type 0 → Type 0 → Type 0
EventBinder W X = Env → Event → Bound (Effect W X)

-- a Go map: the keys in the order in which they were put in, and the values
pub record Table {ℓ} (H : Type ℓ) : Type ℓ where
  pub keys : List String
  pub find : String → Option H

abbrev pub empty_table {ℓ} : {H : Type ℓ} → Table H
empty_table = record { keys = []; find = λ id. none }

pub record Plugin (W X : Type 0) : Type 0 where
  pub startup : Option (Handler W X)
  pub actions : Table (Handler W X)
  pub panes : Table (Handler W X)
  pub events : Table (EventBinder W X)

-- putting in a key that is not there
unfoldable pub store {ℓ} : {H : Type ℓ} → String → H → Table H → Table H
store id h handlers = record {
  keys = id ∷ handlers.keys;
  find = λ k. if id == k then some h else handlers.find k;
}

module _ (decode : String → Option EventEnvelope) where
  abbrev decoded : {F : Type 0} → Env → Option EventEnvelope → (EventEnvelope → Bound F) → Bound F
  decoded env none next = unbound (undecodable_envelope env.event)
  decoded env (some envelope) next = next envelope

  -- Env.eventEnvelope, and what its caller does with the envelope
  unfoldable pub event_envelope : {F : Type 0} → Env → (EventEnvelope → Bound F) → Bound F
  event_envelope env next =
      if env.event_json == ""
      then unbound (no_event_envelope env.event)
      else decoded env (decode env.event_json) next

module _ {W X : Type 0} where
  unfoldable pub new_plugin : Plugin W X
  new_plugin = record {
    startup = none;
    actions = empty_table;
    panes = empty_table;
    events = empty_table;
  }

  -- requireHandler, the empty id, the id that is taken, and the handlers that are left
  unfoldable pub register :
      Table (Handler W X) → String → Option (Handler W X) → Registering (Table (Handler W X))
  unfolding store
  register handlers id none = panicked nil_handler
  register handlers id (some h) =
      if id == ""
      then panicked empty_id
      else if is_some (handlers.find id)
      then panicked already_registered
      else registered (store id h handlers)

  abbrev with_actions : Plugin W X → Registering (Table (Handler W X)) → Registering (Plugin W X)
  with_actions p (panicked why) = panicked why
  with_actions p (registered handlers) = registered (record p { actions = handlers })

  abbrev with_panes : Plugin W X → Registering (Table (Handler W X)) → Registering (Plugin W X)
  with_panes p (panicked why) = panicked why
  with_panes p (registered handlers) = registered (record p { panes = handlers })

  unfoldable pub startup : Option (Handler W X) → Plugin W X → Registering (Plugin W X)
  startup none p = panicked nil_handler
  startup (some h) p =
      if is_some p.startup
      then panicked already_registered
      else registered (record p { startup = some h })

  unfoldable pub action : String → Option (Handler W X) → Plugin W X → Registering (Plugin W X)
  unfolding register
  action id h p = with_actions p (register p.actions id h)

  unfoldable pub pane : String → Option (Handler W X) → Plugin W X → Registering (Plugin W X)
  unfolding register
  pane id h p = with_panes p (register p.panes id h)

  abbrev pub typed_binder :
      {E : Type 0} → String → (Env → E → Effect W X) → Env → Option E → Bound (Effect W X)
  typed_binder name h env none = unbound (wrong_payload name)
  typed_binder name h env (some e) = bound (h env e)

  -- An event type E of OnEvent is its EventName and the type assertion from an Event.
  unfoldable pub on_event :
      {E : Type 0}
      → String
      → (Event → Option E)
      → Option (Env → E → Effect W X)
      → Plugin W X
      → Registering (Plugin W X)
  unfolding store
  on_event name as_type none p = panicked nil_handler
  on_event name as_type (some h) p =
      if is_some (p.events.find name)
      then panicked already_registered
      else registered (record p {
        events = store name (λ env payload. typed_binder name h env (as_type payload)) p.events;
      })

  unfoldable pub bind_by_id : Table (Handler W X) → Env → EntryKind → String → Bound (Effect W X)
  bind_by_id handlers env kind id = go (handlers.find id)
    where
      go : Option (Handler W X) → Bound (Effect W X)
      go none = unbound (no_registration kind id)
      go (some h) = bound (h env)

  abbrev pub bind_payload : Env → EventBinder W X → Option Event → Bound (Effect W X)
  bind_payload env binder none = unbound (no_payload env.event)
  bind_payload env binder (some payload) = binder env payload

  module _ (decode : String → Option EventEnvelope) where
    unfoldable pub bind_event : Env → Option (EventBinder W X) → Bound (Effect W X)
    unfolding event_envelope
    bind_event env none = unbound (no_registration kind_event env.event)
    bind_event env (some binder) =
        event_envelope decode env (λ envelope. bind_payload env binder envelope.payload)

    unfoldable pub bind_startup : Env → Option (Handler W X) → Bound (Effect W X)
    bind_startup env none = unbound (no_handler kind_startup)
    bind_startup env (some h) = bound (h env)

    unfoldable pub bind : Plugin W X → Env → EntryKind → Bound (Effect W X)
    unfolding bind_startup bind_by_id bind_event
    bind p env kind_startup = bind_startup env p.startup
    bind p env kind_action = bind_by_id p.actions env kind_action env.action_id
    bind p env kind_pane = bind_by_id p.panes env kind_pane env.entrypoint_id
    bind p env kind_event = bind_event env (p.events.find env.event)
    bind p env kind_unknown = unbound (unknown_kind kind_unknown)
