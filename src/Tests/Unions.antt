-- ===== src/Tests/Unions.antt =====
-- The theorems on herdr/unions_manual.go at a size, at a number and at a context.
use herdr_client.Prelude.{◌≡◌, refl, String, ◌==◌, eq_iff, Option, none, some, if◌then◌else◌, arith}
use herdr_client.Json.{Json, Members, no_member, member}
use herdr_client.Unions.{
  PopupSize, marshal_popup, unmarshal_popup, AgentViewValue, marshal_value, unmarshal_value,
}
use herdr_client.Unions.RoundTrip.{reread, popup-reread, value-reread}

abbrev half : PopupSize
half = record { cells = 40; percent = 50 }

popup-reread_example :
    reread unmarshal_popup (marshal_popup half) ≡ some (record { cells = 0; percent = 50 })
popup-reread_example = popup-reread half (omega arith) (omega arith)

-- a decoder that takes the first member of that name
abbrev find_first : String → Members → Option Json
find_first key no_member = none
find_first key (member k j ms) = if k == key then some j else find_first key ms

find_first-one : (key : String) (j : Json) → find_first key (member key j no_member) ≡ some j
find_first-one key j = ground (arith, eq_iff key key)

abbrev pane_of_view : AgentViewValue
pane_of_view = record {
  text_value = none;
  bool_value = none;
  uint_value = none;
  context = some "focused_workspace";
}

value-reread_example :
    reread (unmarshal_value find_first) (marshal_value pane_of_view) ≡ some pane_of_view
value-reread_example = value-reread find_first find_first-one pane_of_view refl refl
