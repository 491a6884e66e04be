-- ===== src/Tests/Loading.antt =====
-- The theorems on plugin/manifest/validate.go and plugin/manifest/size.go: a manifest with two
-- actions, a popup and a link handler, where every pattern compiles, and a size.
use herdr_client.Prelude.{◌↔◌, ◌≡◌, refl, String, true, none, some, [], ◌∷◌}
use herdr_client.Manifest.Types.{Manifest, Action}
use herdr_client.Manifest.Validate.{validate}
use herdr_client.GoText.{cut_suffix, parse_uint}
use herdr_client.Manifest.Size.{unmarshal_toml, text, decodes, Denotes, unmarshal_toml_iff}
use herdr_client.Manifest.Accept.{accepted, validate-fits}
use herdr_client.Manifest.Fits.{fits}

abbrev action : String → Action
action id = record {
  id = id;
  title = "Run";
  description = "";
  contexts = "global" ∷ [];
  command = "run" ∷ id ∷ [];
  platforms = none;
}

abbrev manifest : String → Manifest
manifest second = record {
  id = "acme.runner";
  name = "Runner";
  version = "1.0.0";
  min_herdr_version = "v0.9.0";
  description = "";
  platforms = some ("linux" ∷ []);
  build = [];
  startup = [];
  actions = action "start" ∷ action second ∷ [];
  events = [];
  panes =
      record {
        id = "log";
        title = "Log";
        description = "";
        placement = "popup";
        width = some (record { cells = 0; percent = 80 });
        height = none;
        command = "tail" ∷ [];
        platforms = none;
      }
      ∷ [];
  link_handlers =
      record {
        id = "open";
        title = "Open";
        pattern_text = "^https://";
        action = " start";
        platforms = none;
      }
      ∷ [];
}

validate-fits_example :
    accepted (validate (λ p. true) (manifest "stop")) ≡ fits (λ p. true) (manifest "stop")
validate-fits_example = validate-fits (λ p. true) (manifest "stop")

eighty-decodes : unmarshal_toml (text "80%") ≡ decodes (record { cells = 0; percent = 80 })
unfolding unmarshal_toml cut_suffix parse_uint
eighty-decodes = refl

unmarshal_toml_iff_example :
    (unmarshal_toml (text "80%") ≡ decodes (record { cells = 0; percent = 80 }))
    ↔ Denotes (text "80%") (record { cells = 0; percent = 80 })
unmarshal_toml_iff_example = unmarshal_toml_iff (text "80%") (record { cells = 0; percent = 80 })
