-- ===== src/Manifest/Validate.antt =====
-- plugin/manifest/validate.go: every rule that herdr applies when it loads a manifest, in order.
-- An error carries its code and the place that its message names; the rest of the message, which
-- quotes the offending value, is not modelled. Whether a link pattern compiles is regexp.Compile's
-- answer, a parameter.
use herdr_client.Prelude.{
  ℕ, ◌+◌, String, ◌==◌, Bool, true, false, not, ◌&&◌, ◌||◌, Option, none, some, List, [], ◌∷◌, ◌++◌,
  any, contains, is_some, leb, ltb, eqb, if◌then◌else◌,
}
use herdr_client.GoText.{trim_space, trim_prefix, split, parse_uint, rune_count, all_codes}
use herdr_client.Manifest.Types.{Build, Startup, Action, EventHook, Pane, LinkHandler, Manifest}
use herdr_client.Manifest.Hooks.{is_hook_event_name}

abbrev pub id_max_chars : ℕ
id_max_chars = 120

pub data Code : Type 0 where
  invalid_plugin_id invalid_plugin_name invalid_plugin_version : Code
  invalid_plugin_min_herdr_version invalid_plugin_platform invalid_plugin_command : Code
  invalid_plugin_action_id invalid_plugin_action_title invalid_plugin_action_context : Code
  duplicate_plugin_action_id invalid_plugin_event invalid_plugin_pane_id : Code
  invalid_plugin_pane_title invalid_plugin_pane_placement invalid_plugin_pane_size : Code
  duplicate_plugin_pane_id invalid_plugin_link_handler_id : Code
  invalid_plugin_link_handler_title invalid_plugin_link_handler_pattern : Code
  invalid_plugin_link_handler_action duplicate_plugin_link_handler_id : Code

-- the `where` of a message: the manifest, or an entry of one of its arrays
pub data Place : Type 0 where
  whole : Place
  build startup actions events panes link_handlers : ℕ → Place

pub record Error : Type 0 where
  pub code : Code
  pub place : Place

-- what a rule answers: the manifest passes it, or Validate returns this error
pub data Verdict {ℓ} (R : Type ℓ) : Type ℓ where
  fail : Error → Verdict R
  pass : R → Verdict R

-- the early return of `if err != nil`
infixl 5 ◌>>=◌ ◌>>◌
abbrev pub ◌>>=◌ {ℓ κ} : {R : Type ℓ} {S : Type κ} → Verdict R → (R → Verdict S) → Verdict S
fail why >>= next = fail why
pass result >>= next = next result

abbrev pub ◌>>◌ {ℓ} : {S : Type ℓ} → Verdict (Unit {0}) → Verdict S → Verdict S
rule >> next = rule >>= λ _. next

-- `if !test { return newError(code, …) }`
abbrev pub require : Bool → Code → Place → Verdict (Unit {0})
require true code place = pass tt
require false code place = fail (record { code = code; place = place })

unfoldable pub identifier_code : Bool → ℕ → Bool
identifier_code allow_dot c =
    leb b'a' c && leb c b'z'
    || leb b'A' c && leb c b'Z'
    || leb b'0' c && leb c b'9'
    || eqb c b':'
    || eqb c b'_'
    || eqb c b'-'
    || eqb c b'.' && allow_dot

unfoldable pub valid_identifier : String → Bool → Bool
valid_identifier value allow_dot =
    let trimmed = trim_space value in
    if trimmed == "" || ltb id_max_chars (rune_count trimmed)
    then false
    else all_codes (identifier_code allow_dot) trimmed

unfoldable pub valid_plugin_id : String → Bool
valid_plugin_id value = valid_identifier value true

unfoldable pub valid_local_id : String → Bool
valid_local_id value = valid_identifier value false

-- `strings.TrimSpace(value) == ""`
abbrev pub is_blank : String → Bool
is_blank value = trim_space value == ""

abbrev pub known_platform : String → Bool
known_platform p = p == "linux" || p == "macos" || p == "windows"

unfoldable pub platforms_loop : List String → Place → Verdict (Unit {0})
platforms_loop [] place = pass tt
platforms_loop (p ∷ ps) place = do
  require (known_platform p) invalid_plugin_platform place
  platforms_loop ps place

unfoldable pub validate_platforms : Option (List String) → Place → Verdict (Unit {0})
unfolding platforms_loop
validate_platforms none place = pass tt
validate_platforms (some []) place = require false invalid_plugin_platform place
validate_platforms (some (p ∷ ps)) place = platforms_loop (p ∷ ps) place

unfoldable pub command_loop : List String → Place → Verdict (Unit {0})
command_loop [] place = pass tt
command_loop (arg ∷ args) place = do
  require (not (arg == "")) invalid_plugin_command place
  command_loop args place

unfoldable pub validate_command : List String → Place → Verdict (Unit {0})
unfolding command_loop
validate_command [] place = require false invalid_plugin_command place
validate_command (arg ∷ args) place = command_loop (arg ∷ args) place

abbrev pub is_number_part : String → Bool
is_number_part part = is_some (parse_uint part 32)

abbrev pub three_numbers : List String → Bool
three_numbers (a ∷ b ∷ c ∷ []) = is_number_part a && is_number_part b && is_number_part c
three_numbers _ = false

unfoldable pub validate_min_herdr_version : String → Verdict (Unit {0})
validate_min_herdr_version raw = do
  let value = trim_space raw
  require (not (value == "")) invalid_plugin_min_herdr_version whole
  require (three_numbers (split b'.' (trim_prefix b'v' value))) invalid_plugin_min_herdr_version
      whole

unfoldable pub build_loop : ℕ → List Build → Verdict (Unit {0})
build_loop i [] = pass tt
build_loop i (b ∷ bs) = do
  validate_platforms b.platforms (build i)
  validate_command b.command (build i)
  build_loop (i + 1) bs

unfoldable pub startup_loop : ℕ → List Startup → Verdict (Unit {0})
startup_loop i [] = pass tt
startup_loop i (s ∷ ss) = do
  validate_platforms s.platforms (startup i)
  validate_command s.command (startup i)
  startup_loop (i + 1) ss

abbrev pub known_context : String → Bool
known_context c = c == "global" || c == "workspace" || c == "tab" || c == "pane" || c == "selection"

unfoldable pub contexts_loop : List String → Place → Verdict (Unit {0})
contexts_loop [] place = pass tt
contexts_loop (c ∷ cs) place = do
  require (known_context c) invalid_plugin_action_context place
  contexts_loop cs place

-- `seen` holds the ids of the entries before
unfoldable pub actions_loop : ℕ → List String → List Action → Verdict (Unit {0})
actions_loop i seen [] = pass tt
actions_loop i seen (action ∷ rest) = do
  let id = trim_space action.id
  require (valid_local_id id) invalid_plugin_action_id (actions i)
  require (not (is_blank action.title)) invalid_plugin_action_title (actions i)
  contexts_loop action.contexts (actions i)
  validate_platforms action.platforms (actions i)
  validate_command action.command (actions i)
  require (not (contains seen id)) duplicate_plugin_action_id whole
  actions_loop (i + 1) (id ∷ seen) rest

unfoldable pub validate_actions : Manifest → Verdict (Unit {0})
unfolding actions_loop contexts_loop
validate_actions m = actions_loop 0 [] m.actions

unfoldable pub events_loop : ℕ → List EventHook → Verdict (Unit {0})
events_loop i [] = pass tt
events_loop i (event ∷ rest) = do
  require (not (is_blank event.on)) invalid_plugin_event (events i)
  validate_platforms event.platforms (events i)
  validate_command event.command (events i)
  events_loop (i + 1) rest

unfoldable pub validate_events : Manifest → Verdict (Unit {0})
unfolding events_loop
validate_events m = events_loop 0 m.events

abbrev pub known_placement : String → Bool
known_placement p =
    p == "" || p == "overlay" || p == "popup" || p == "split" || p == "tab" || p == "zoomed"

unfoldable pub panes_loop : ℕ → List String → List Pane → Verdict (Unit {0})
panes_loop i seen [] = pass tt
panes_loop i seen (pane ∷ rest) = do
  let id = trim_space pane.id
  require (valid_local_id id) invalid_plugin_pane_id (panes i)
  require (not (is_blank pane.title)) invalid_plugin_pane_title (panes i)
  require (known_placement pane.placement) invalid_plugin_pane_placement (panes i)
  validate_platforms pane.platforms (panes i)
  validate_command pane.command (panes i)
  require (not (not (pane.placement == "popup") && (is_some pane.width || is_some pane.height)))
      invalid_plugin_pane_size (panes i)
  require (not (contains seen id)) duplicate_plugin_pane_id whole
  panes_loop (i + 1) (id ∷ seen) rest

unfoldable pub validate_panes : Manifest → Verdict (Unit {0})
unfolding panes_loop
validate_panes m = panes_loop 0 [] m.panes

unfoldable pub has_action : Manifest → String → Bool
has_action m id = any (λ action. trim_space action.id == id) m.actions

pub data Warning : Type 0 where
  unknown_event : String → Warning
  platforms_undeclared : Warning

event_warnings : List EventHook → List Warning
event_warnings [] = []
event_warnings (event ∷ rest) =
    let name = trim_space event.on in
    let more = event_warnings rest in
    if is_hook_event_name name then more else unknown_event name ∷ more

unfoldable pub manifest_warnings : Manifest → List Warning
unfolding event_warnings
manifest_warnings m =
    event_warnings m.events ++ (if is_some m.platforms then [] else platforms_undeclared ∷ [])

module _ (compiles : String → Bool) where
  unfoldable pub links_loop : Manifest → ℕ → List String → List LinkHandler → Verdict (Unit {0})
  links_loop m i seen [] = pass tt
  links_loop m i seen (handler ∷ rest) = do
    let id = trim_space handler.id
    require (valid_local_id id) invalid_plugin_link_handler_id (link_handlers i)
    require (not (is_blank handler.title)) invalid_plugin_link_handler_title (link_handlers i)
    let pattern_text = trim_space handler.pattern_text
    require (not (pattern_text == "")) invalid_plugin_link_handler_pattern (link_handlers i)
    require (compiles pattern_text) invalid_plugin_link_handler_pattern (link_handlers i)
    let action = trim_space handler.action
    require (valid_local_id action) invalid_plugin_link_handler_action (link_handlers i)
    require (has_action m action) invalid_plugin_link_handler_action whole
    validate_platforms handler.platforms (link_handlers i)
    require (not (contains seen id)) duplicate_plugin_link_handler_id whole
    links_loop m (i + 1) (id ∷ seen) rest

  unfoldable pub validate_link_handlers : Manifest → Verdict (Unit {0})
  unfolding links_loop
  validate_link_handlers m = links_loop m 0 [] m.link_handlers

  unfoldable pub validate : Manifest → Verdict (List Warning)
  unfolding build_loop startup_loop
  validate m = do
    require (valid_plugin_id m.id) invalid_plugin_id whole
    require (not (is_blank m.name)) invalid_plugin_name whole
    require (not (is_blank m.version)) invalid_plugin_version whole
    validate_min_herdr_version m.min_herdr_version
    validate_platforms m.platforms whole
    build_loop 0 m.build
    startup_loop 0 m.startup
    validate_actions m
    validate_events m
    validate_panes m
    validate_link_handlers m
    pass (manifest_warnings m)
