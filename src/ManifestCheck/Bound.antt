-- ===== src/ManifestCheck/Bound.antt =====
-- plugin/plugintest/manifest.go: behind a check that reports nothing, every declared entry is bound
-- to a handler.
use herdr_client.Prelude.{
  String, eq_iff, ◌≡◌, refl, sym, ap, ◌∙◌, Bool, true, false, ◌&&◌, Option, is_some, List, [], ◌∷◌,
  all, contains, arith, Option-cases, inl, inr,
}
use herdr_client.Manifest.Types.{Manifest}
use herdr_client.Manifest.Validate.{Warning}
use herdr_client.Plugin.Environment.{Env, kind_action, kind_pane}
use herdr_client.Plugin.Registry.{
  EventEnvelope, Bound, bound, Effect, Plugin, bind, bind_by_id, bind_event, bind_startup,
}
use herdr_client.Plugin.Registered.{Registered, registered_names, Built, Built-IsRegistry}
use herdr_client.Sorting.{contains-sort_names}
use herdr_client.ManifestCheck.{
  parsed, parse, check_manifest, check_parsed, declared_actions, declared_panes,
}
use herdr_client.ManifestCheck.Agreement.{nothing, agrees, check_parsed-clean}

-- a name that one list holds is held by another that holds all of it
all-contains :
    (ds rs : List String) (k : String)
    → all (contains rs) ds ≡ true
    → contains ds k ≡ true
    → contains rs k ≡ true
all-contains [] rs k a h = absurd (ground (arith, h))
all-contains (d ∷ ds) rs k a h = ground (arith, all-contains ds rs k, eq_iff d k)

both : (a b : Bool) → (a && b) ≡ true → (a ≡ true) × (b ≡ true)
both true b e = (refl, e)
both false b e = absurd (ground (arith, e))

-- what agreement says of actions and panes
agreed :
    (m : Manifest) (ws : List Warning) (r : Registered)
    → agrees m ws r ≡ true
    → (all (contains r.actions) (declared_actions m.actions) ≡ true)
      × (all (contains r.panes) (declared_panes m.panes) ≡ true)
agreed m ws r e =
    let (actions, others) = both _ _ (both _ _ e).1 in
    ((both _ _ actions).0, (both _ _ (both _ _ others).0).0)

module _ {W X : Type 0} (decode : String → Option EventEnvelope) (p : Plugin W X) where
  abbrev pub IsBound : Bound (Effect W X) → Type 0
  IsBound b = (f : Effect W X) × (b ≡ bound f)

  action-IsBound :
      (env : Env)
      → is_some (p.actions.find env.action_id) ≡ true
      → IsBound (bind decode p env kind_action)
  unfolding bind bind_by_id bind_event bind_startup
  action-IsBound env h = elim (Option-cases (p.actions.find env.action_id)) [
    | inl absent ↦ absurd (ground (arith, h, absent))
    | inr (f, there) ↦ (f env, rw there refl)
  ]

  pane-IsBound :
      (env : Env)
      → is_some (p.panes.find env.entrypoint_id) ≡ true
      → IsBound (bind decode p env kind_pane)
  unfolding bind bind_by_id bind_event bind_startup
  pane-IsBound env h = elim (Option-cases (p.panes.find env.entrypoint_id)) [
    | inl absent ↦ absurd (ground (arith, h, absent))
    | inr (f, there) ↦ (f env, rw there refl)
  ]

  module _ (compiles : String → Bool) (decode_toml : String → Option Manifest)
      (file : Option String) (m : Manifest) (ws : List Warning) where
    checked :
        check_manifest compiles decode_toml file p ≡ []
        → parse compiles decode_toml file ≡ parsed m ws
        → agrees m ws (registered_names p) ≡ true
    unfolding check_manifest
    checked c e =
        sym (check_parsed-clean (parsed m ws) (registered_names p))
        ∙ ap (λ q. nothing (check_parsed q (registered_names p))) (sym e)
        ∙ ap nothing c

    -- If CheckManifest reports nothing on a plugin that New and the registrations made, then an
    -- invocation of any action that the manifest declares is bound to a handler.
    pub check_manifest-binds_actions :
        (env : Env)
        → Built p
        → check_manifest compiles decode_toml file p ≡ []
        → parse compiles decode_toml file ≡ parsed m ws
        → contains (declared_actions m.actions) env.action_id ≡ true
        → IsBound (bind decode p env kind_action)
    unfolding registered_names
    check_manifest-binds_actions env b c e d = action-IsBound env (
        sym ((Built-IsRegistry b).actions env.action_id)
        ∙ sym (contains-sort_names p.actions.keys env.action_id)
        ∙ all-contains (declared_actions m.actions) _ env.action_id
            (agreed m ws (registered_names p) (checked c e)).0 d)

    -- If CheckManifest reports nothing on a plugin that New and the registrations made, then a
    -- process of any pane that the manifest declares is bound to a handler.
    pub check_manifest-binds_panes :
        (env : Env)
        → Built p
        → check_manifest compiles decode_toml file p ≡ []
        → parse compiles decode_toml file ≡ parsed m ws
        → contains (declared_panes m.panes) env.entrypoint_id ≡ true
        → IsBound (bind decode p env kind_pane)
    unfolding registered_names
    check_manifest-binds_panes env b c e d = pane-IsBound env (
        sym ((Built-IsRegistry b).panes env.entrypoint_id)
        ∙ sym (contains-sort_names p.panes.keys env.entrypoint_id)
        ∙ all-contains (declared_panes m.panes) _ env.entrypoint_id
            (agreed m ws (registered_names p) (checked c e)).1 d)
