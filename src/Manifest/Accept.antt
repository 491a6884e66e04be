-- ===== src/Manifest/Accept.antt =====
-- plugin/manifest/validate.go: which manifests pass, stated without the order of the tests and
-- without the loops' sets of ids seen.
use herdr_client.Prelude.{
  ℕ, ◌+◌, ◌≡◌, refl, String, ◌==◌, Bool, true, false, not, ◌&&◌, ◌||◌, Option, none, some, List, [],
  ◌∷◌, map, any, all, contains, distinct, is_some, arith, ap, eq_iff,
}
use herdr_client.GoText.{trim_space}
use herdr_client.Manifest.Types.{Build, Startup, Action, EventHook, Pane, LinkHandler, Manifest}
use herdr_client.Manifest.Fits.{
  platforms_fit, command_fits, build_fits, startup_fits, action_id, action_fits, event_fits,
  pane_id, pane_fits, link_id, link_fits, fits,
}
use herdr_client.Manifest.Validate.{
  Place, Code, Verdict, pass, fail, ◌>>◌, require, valid_local_id, is_blank, known_platform,
  platforms_loop, validate_platforms, command_loop, validate_command, validate_min_herdr_version,
  build_loop, startup_loop, known_context, contexts_loop, actions_loop, validate_actions,
  events_loop, validate_events, known_placement, panes_loop, validate_panes, has_action, links_loop,
  validate_link_handlers, validate,
}

abbrev pub accepted {ℓ} : {A : Type ℓ} → Verdict A → Bool
accepted (pass a) = true
accepted (fail e) = false

abbrev pub fresh : List String → List String → Bool
fresh seen [] = true
fresh seen (x ∷ xs) = not (contains seen x) && fresh (x ∷ seen) xs

accepted-require : (b : Bool) (code : Code) (place : Place) → accepted (require b code place) ≡ b
accepted-require true code place = refl
accepted-require false code place = refl

accepted-then {ℓ} :
    {B : Type ℓ} (m : Verdict (Unit {0})) (k : Verdict B)
    → accepted (m >> k) ≡ (accepted m && accepted k)
accepted-then (pass tt) k = refl
accepted-then (fail e) k = refl

platforms_loop-all :
    (ps : List String) (place : Place) → accepted (platforms_loop ps place) ≡ all known_platform ps
unfolding platforms_loop
platforms_loop-all [] place = refl
platforms_loop-all (p ∷ ps) place =
    simp (accepted-then, accepted-require, platforms_loop-all ps place)

validate_platforms-fit :
    (ps : Option (List String)) (place : Place)
    → accepted (validate_platforms ps place) ≡ platforms_fit ps
unfolding validate_platforms
validate_platforms-fit none place = refl
validate_platforms-fit (some []) place = refl
validate_platforms-fit (some (p ∷ ps)) place = platforms_loop-all (p ∷ ps) place

command_loop-all :
    (args : List String) (place : Place)
    → accepted (command_loop args place) ≡ all (λ a. not (a == "")) args
unfolding command_loop
command_loop-all [] place = refl
command_loop-all (arg ∷ args) place =
    simp (accepted-then, accepted-require, command_loop-all args place)

validate_command-fits :
    (args : List String) (place : Place)
    → accepted (validate_command args place) ≡ command_fits args
unfolding validate_command
validate_command-fits [] place = refl
validate_command-fits (arg ∷ args) place = command_loop-all (arg ∷ args) place

contexts_loop-all :
    (cs : List String) (place : Place) → accepted (contexts_loop cs place) ≡ all known_context cs
unfolding contexts_loop
contexts_loop-all [] place = refl
contexts_loop-all (c ∷ cs) place =
    simp (accepted-then, accepted-require, contexts_loop-all cs place)

any-contains :
    (xs : List Action) (id : String)
    → any (λ action. trim_space action.id == id) xs ≡ contains (map action_id xs) id
any-contains [] id = refl
any-contains (x ∷ xs) id = ap (λ b. trim_space x.id == id || b) (any-contains xs id)

has_action-contains :
    (m : Manifest) (id : String) → has_action m id ≡ contains (map action_id m.actions) id
unfolding has_action
has_action-contains m id = any-contains m.actions id

and_assoc : (a b c : Bool) → ((a && b) && c) ≡ (a && (b && c))
and_assoc true b c = refl
and_assoc false b c = refl

and_true : (a : Bool) → (a && true) ≡ a
and_true true = refl
and_true false = refl

-- the end of the tests of a pane: its size, then its id among those before
pane_end :
    (popup w h new a f : Bool)
    → (not (not popup && (w || h)) && (new && (a && f)))
      ≡ ((popup || not w && not h) && (a && (new && f)))
pane_end popup w h new a f = ground arith

ruleset steps = (
  accepted-then, accepted-require, validate_platforms-fit, validate_command-fits, contexts_loop-all,
)

build_loop-all : (i : ℕ) (bs : List Build) → accepted (build_loop i bs) ≡ all build_fits bs
unfolding build_loop
build_loop-all i [] = refl
build_loop-all i (b ∷ bs) = simp (steps, build_loop-all (i + 1) bs) (ground arith)

startup_loop-all : (i : ℕ) (ss : List Startup) → accepted (startup_loop i ss) ≡ all startup_fits ss
unfolding startup_loop
startup_loop-all i [] = refl
startup_loop-all i (s ∷ ss) = simp (steps, startup_loop-all (i + 1) ss) (ground arith)

actions_loop-all :
    (i : ℕ) (seen : List String) (rest : List Action)
    → accepted (actions_loop i seen rest)
      ≡ (all action_fits rest && fresh seen (map action_id rest))
unfolding actions_loop
actions_loop-all i seen [] = refl
actions_loop-all i seen (a ∷ rest) =
    simp (steps, actions_loop-all (i + 1) (action_id a ∷ seen) rest) (ground arith)

events_loop-all : (i : ℕ) (es : List EventHook) → accepted (events_loop i es) ≡ all event_fits es
unfolding events_loop
events_loop-all i [] = refl
events_loop-all i (e ∷ es) = simp (steps, events_loop-all (i + 1) es) (ground arith)

panes_loop-all :
    (i : ℕ) (seen : List String) (rest : List Pane)
    → accepted (panes_loop i seen rest) ≡ (all pane_fits rest && fresh seen (map pane_id rest))
unfolding panes_loop
panes_loop-all i seen [] = refl
panes_loop-all i seen (p ∷ rest) =
    simp (steps, panes_loop-all (i + 1) (pane_id p ∷ seen) rest, and_assoc)
      (ap
        (λ b.
          valid_local_id (pane_id p)
          && (not (is_blank p.title)
              && (known_placement p.placement
                  && (platforms_fit p.platforms && (command_fits p.command && b)))))
        (pane_end (p.placement == "popup") (is_some p.width) (is_some p.height)
          (not (contains seen (pane_id p))) (all pane_fits rest)
          (fresh (pane_id p ∷ seen) (map pane_id rest))))

-- With nothing seen before, the test of each id against the ids before it is that of all ids.
none_of : List String → List String → Bool
none_of seen xs = all (λ x. not (contains seen x)) xs

none_of-cons :
    (seen xs : List String) (y : String)
    → none_of (y ∷ seen) xs ≡ (not (contains xs y) && none_of seen xs)
unfolding none_of
none_of-cons seen [] y = refl
none_of-cons seen (x ∷ xs) y = ground (arith, none_of-cons seen xs y, eq_iff x y, eq_iff y x)

fresh-distinct : (seen xs : List String) → fresh seen xs ≡ (distinct xs && none_of seen xs)
unfolding none_of
fresh-distinct seen [] = refl
fresh-distinct seen (x ∷ xs) = ground (arith, fresh-distinct (x ∷ seen) xs, none_of-cons seen xs x)

none_of_none : (xs : List String) → none_of [] xs ≡ true
unfolding none_of
none_of_none [] = refl
none_of_none (x ∷ xs) = none_of_none xs

fresh_none : (xs : List String) → fresh [] xs ≡ distinct xs
fresh_none xs = ground (arith, fresh-distinct [] xs, none_of_none xs)

module _ (compiles : String → Bool) where
  links_loop-all :
      (m : Manifest) (i : ℕ) (seen : List String) (rest : List LinkHandler)
      → accepted (links_loop compiles m i seen rest)
        ≡ (all (link_fits compiles m) rest && fresh seen (map link_id rest))
  unfolding links_loop
  links_loop-all m i seen [] = refl
  links_loop-all m i seen (h ∷ rest) =
      simp (steps, has_action-contains, links_loop-all m (i + 1) (link_id h ∷ seen) rest)
        (ground arith)

  -- A manifest is loaded if and only if every part of it fits and no two actions, no two panes and
  -- no two link handlers have one id, spaces at the ends aside.
  pub validate-fits : (m : Manifest) → accepted (validate compiles m) ≡ fits compiles m
  unfolding validate validate_actions validate_events validate_panes validate_link_handlers
      validate_min_herdr_version
  validate-fits m = simp (
    steps,
    build_loop-all,
    startup_loop-all,
    actions_loop-all,
    events_loop-all,
    panes_loop-all,
    links_loop-all m,
    fresh_none,
    and_assoc,
    and_true,
  )
