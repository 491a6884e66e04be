-- ===== src/Manifest/Fits.antt =====
-- plugin/manifest/validate.go: what every rule asks of a manifest, without an order of the tests and
-- without the errors.
use herdr_client.Prelude.{
  String, ◌==◌, Bool, true, false, not, ◌&&◌, ◌||◌, Option, none, some, List, [], ◌∷◌, map, all,
  contains, distinct, is_some,
}
use herdr_client.GoText.{trim_space, trim_prefix, split}
use herdr_client.Manifest.Types.{Build, Startup, Action, EventHook, Pane, LinkHandler, Manifest}
use herdr_client.Manifest.Validate.{
  valid_plugin_id, valid_local_id, is_blank, known_platform, three_numbers, known_context,
  known_placement,
}

abbrev pub platforms_fit : Option (List String) → Bool
platforms_fit none = true
platforms_fit (some []) = false
platforms_fit (some (p ∷ ps)) = all known_platform (p ∷ ps)

abbrev pub command_fits : List String → Bool
command_fits [] = false
command_fits (arg ∷ args) = all (λ a. not (a == "")) (arg ∷ args)

abbrev pub build_fits : Build → Bool
build_fits b = platforms_fit b.platforms && command_fits b.command

abbrev pub startup_fits : Startup → Bool
startup_fits s = platforms_fit s.platforms && command_fits s.command

abbrev pub action_id : Action → String
action_id a = trim_space a.id

abbrev pub action_fits : Action → Bool
action_fits a =
    valid_local_id (action_id a)
    && not (is_blank a.title)
    && all known_context a.contexts
    && platforms_fit a.platforms
    && command_fits a.command

abbrev pub event_fits : EventHook → Bool
event_fits e = not (is_blank e.on) && platforms_fit e.platforms && command_fits e.command

abbrev pub pane_id : Pane → String
pane_id p = trim_space p.id

-- only a popup has a size
abbrev pub size_fits : Pane → Bool
size_fits p = p.placement == "popup" || not (is_some p.width) && not (is_some p.height)

abbrev pub pane_fits : Pane → Bool
pane_fits p =
    valid_local_id (pane_id p)
    && not (is_blank p.title)
    && known_placement p.placement
    && platforms_fit p.platforms
    && command_fits p.command
    && size_fits p

abbrev pub link_id : LinkHandler → String
link_id h = trim_space h.id

abbrev pub version_fits : String → Bool
version_fits raw =
    not (is_blank raw) && three_numbers (split b'.' (trim_prefix b'v' (trim_space raw)))

module _ (compiles : String → Bool) where
  abbrev pub link_fits : Manifest → LinkHandler → Bool
  link_fits m h =
      valid_local_id (link_id h)
      && not (is_blank h.title)
      && not (is_blank h.pattern_text)
      && compiles (trim_space h.pattern_text)
      && valid_local_id (trim_space h.action)
      && contains (map action_id m.actions) (trim_space h.action)
      && platforms_fit h.platforms

  abbrev pub fits : Manifest → Bool
  fits m =
      valid_plugin_id m.id
      && not (is_blank m.name)
      && not (is_blank m.version)
      && version_fits m.min_herdr_version
      && platforms_fit m.platforms
      && all build_fits m.build
      && all startup_fits m.startup
      && all action_fits m.actions
      && distinct (map action_id m.actions)
      && all event_fits m.events
      && all pane_fits m.panes
      && distinct (map pane_id m.panes)
      && all (link_fits m) m.link_handlers
      && distinct (map link_id m.link_handlers)
