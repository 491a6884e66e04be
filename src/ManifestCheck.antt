-- ===== src/ManifestCheck.antt =====
-- plugin/plugintest/manifest.go: CheckManifest, which compares a manifest with the handlers that a
-- plugin registers. What it says through testing.TB is a list of reports. `read_file` and
-- `decode_toml`, parameters, are os.ReadFile of the path and the TOML decoder of
-- plugin/manifest/manifest.go.
pub mod Agreement
pub mod Bound
use herdr_client.Prelude.{
  String, Bool, true, false, not, ◌&&◌, Option, none, some, List, [], ◌∷◌, ◌++◌, map, contains,
  if◌then◌else◌,
}
use herdr_client.GoText.{trim_space}
use herdr_client.Manifest.Types.{Manifest, Action, EventHook, Pane}
use herdr_client.Manifest.Hooks.{hook_event_names}
use herdr_client.Manifest.Validate.{Verdict, fail, pass, Warning, validate}
use herdr_client.Manifest.Validate
use herdr_client.Plugin.Registry.{Plugin}
use herdr_client.Plugin.Registered.{Registered, registered_names}
use herdr_client.Sorting.{sort_names}

-- the result of manifest.Parse
pub data Parsed : Type 0 where
  unreadable undecodable : Parsed
  invalid : Validate.Error → Parsed
  parsed : Manifest → List Warning → Parsed

pub data Report : Type 0 where
  fatal : Parsed → Report
  warned : Warning → Report
  -- of an action or a pane, by what it is, or of an event
  no_handler_for no_declaration_of : String → String → Report
  never_fired : String → Report
  startup_without_handler handler_without_startup : Report

abbrev of_verdict : Manifest → Verdict (List Warning) → Parsed
of_verdict m (fail e) = invalid e
of_verdict m (pass warnings) = parsed m warnings

unfoldable pub parse : (String → Bool) → (String → Option Manifest) → Option String → Parsed
parse compiles decode_toml none = unreadable
parse compiles decode_toml (some text) = decoded (decode_toml text)
  where
    decoded : Option Manifest → Parsed
    decoded none = undecodable
    decoded (some m) = of_verdict m (validate compiles m)

unfoldable pub declared_actions : List Action → List String
declared_actions [] = []
declared_actions (a ∷ rest) = trim_space a.id ∷ declared_actions rest

unfoldable pub declared_panes : List Pane → List String
declared_panes [] = []
declared_panes (p ∷ rest) = trim_space p.id ∷ declared_panes rest

unfoldable pub declared_events : List EventHook → List String
declared_events [] = []
declared_events (e ∷ rest) = trim_space e.on ∷ declared_events rest

unfoldable pub unhandled : String → List String → List String → List Report
unhandled what registered [] = []
unhandled what registered (id ∷ ids) =
    let rest = unhandled what registered ids in
    if not (contains registered id) then no_handler_for what id ∷ rest else rest

unfoldable pub undeclared : String → List String → List String → List Report
undeclared what declared [] = []
undeclared what declared (id ∷ ids) =
    let rest = undeclared what declared ids in
    if not (contains declared id) then no_declaration_of what id ∷ rest else rest

unfoldable pub compare_names : String → List String → List String → List Report
unfolding unhandled undeclared
compare_names what declared registered =
    let sorted = sort_names declared in
    unhandled what registered sorted ++ undeclared what sorted registered

unfoldable pub undeclared_events : List String → List String → List Report
undeclared_events declared [] = []
undeclared_events declared (name ∷ names) =
    let rest = undeclared_events declared names in
    if contains declared name
    then rest
    else if not (contains hook_event_names name)
    then never_fired name ∷ rest
    else no_declaration_of "event" name ∷ rest

unfoldable pub compare_events : List String → List String → List Report
unfolding unhandled undeclared_events
compare_events declared registered =
    let sorted = sort_names declared in
    unhandled "event" registered sorted ++ undeclared_events sorted registered

abbrev pub compare_startup : Bool → Bool → List Report
compare_startup true false = startup_without_handler ∷ []
compare_startup false true = handler_without_startup ∷ []
compare_startup declared registered = []

abbrev pub some_entries {ℓ} : {A : Type ℓ} → List A → Bool
some_entries [] = false
some_entries (x ∷ xs) = true

unfoldable pub check_parsed : Parsed → Registered → List Report
unfolding compare_names compare_events
check_parsed (parsed m warnings) r =
    map warned warnings
    ++ (compare_names "action" (declared_actions m.actions) r.actions
        ++ (compare_names "pane" (declared_panes m.panes) r.panes
            ++ (compare_events (declared_events m.events) r.events
                ++ compare_startup (some_entries m.startup) r.startup)))
check_parsed failed r = fatal failed ∷ []

unfoldable pub check_manifest :
    {W X : Type 0}
    → (String → Bool)
    → (String → Option Manifest)
    → Option String
    → Plugin W X
    → List Report
unfolding parse check_parsed
check_manifest compiles decode_toml read_file p =
    check_parsed (parse compiles decode_toml read_file) (registered_names p)
