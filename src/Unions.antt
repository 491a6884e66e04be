-- ===== src/Unions.antt =====
-- herdr/unions_manual.go: the unions without a discriminator, and how they are written as JSON and read
-- again. `find_member` is how json.Unmarshal finds the member for a field of a struct; of it is assumed
-- that it finds the one member of an object of that name.
pub mod RoundTrip
use Prim.Native.String.{◌++◌ as join_text}
use herdr_client.Prelude.{
  ℕ, zero, suc, ◌+◌, ◌-◌, ◌/◌, ◌%◌, ◌^◌, ◌≤◌, ◌<◌, ◌≡◌, ◌≢◌, refl, String, ◌==◌, eq_iff, Bool, true,
  false, not, ◌&&◌, ◌||◌, Option, none, some, is_some, List, [], ◌∷◌, leb, ltb, eqb, if_case,
  if◌then◌else◌, arith,
}
use herdr_client.GoText.{parse_uint, cut_suffix, format_uint}
use herdr_client.Json.{
  Json, null, boolean, number, other_number, text, array, object, Members, object_of, to_text,
}

-- PopupSize, with Cells of 16 bits and Percent of 8
pub record PopupSize : Type 0 where
  pub cells : ℕ
  pub percent : ℕ

unfoldable pub is_percent : PopupSize → Bool
is_percent s = not (eqb s.percent 0)

unfoldable pub popup_text : PopupSize → String
unfolding is_percent
popup_text s = if is_percent s then join_text (format_uint s.percent) "%" else format_uint s.cells

-- MarshalJSON, which fails with `none`
unfoldable pub marshal_popup : PopupSize → Option Json
unfolding is_percent popup_text
marshal_popup s =
    if is_percent s
    then if ltb 100 s.percent then none else some (text (popup_text s))
    else some (number s.cells)

abbrev pub percent_in_range : Option ℕ → Option PopupSize
percent_in_range none = none
percent_in_range (some p) =
    if ltb p 1 || ltb 100 p then none else some (record { cells = 0; percent = p })

abbrev pub percent_of : Option String → Option PopupSize
percent_of none = none
percent_of (some digits) = percent_in_range (parse_uint digits 8)

-- json.Unmarshal into a uint64, which a null leaves 0
unfoldable pub to_uint : Json → Option ℕ
to_uint null = some 0
to_uint (number n) = if ltb n (2 ^ 64) then some n else none
to_uint _ = none

abbrev pub cells_of : Option ℕ → Option PopupSize
cells_of none = none
cells_of (some n) = if ltb 65535 n then none else some (record { cells = n; percent = 0 })

unfoldable pub unmarshal_popup : Json → Option PopupSize
unfolding to_uint
unmarshal_popup (text s) = percent_of (cut_suffix b'%' s)
unmarshal_popup j = cells_of (to_uint j)

-- AgentViewValue: a field that is nil is `none`
pub record AgentViewValue : Type 0 where
  pub text_value : Option String
  pub bool_value : Option Bool
  pub uint_value : Option ℕ
  pub context : Option String

abbrev pub no_value : AgentViewValue
no_value = record { text_value = none; bool_value = none; uint_value = none; context = none }

unfoldable pub agent_view_text : String → AgentViewValue
agent_view_text t = record no_value { text_value = some t }

unfoldable pub agent_view_bool : Bool → AgentViewValue
agent_view_bool b = record no_value { bool_value = some b }

unfoldable pub agent_view_uint : ℕ → AgentViewValue
agent_view_uint n = record no_value { uint_value = some n }

unfoldable pub agent_view_context_value : String → AgentViewValue
agent_view_context_value c = record no_value { context = some c }

abbrev pub one_if_some {ℓ} : {A : Type ℓ} → Option A → ℕ
one_if_some none = 0
one_if_some (some a) = 1

abbrev pub count_set : AgentViewValue → ℕ
count_set v =
    one_if_some v.text_value
    + one_if_some v.bool_value
    + one_if_some v.uint_value
    + one_if_some v.context

-- the switch of MarshalJSON: a text, a Boolean, a number, or a context
abbrev pub set_field : Option String → Option Bool → Option ℕ → Option String → Option Json
set_field (some t) b u c = some (text t)
set_field none (some b) u c = some (boolean b)
set_field none none (some n) c = some (number n)
set_field none none none (some c) = some (object_of "context" (text c))
set_field none none none none = none

unfoldable pub marshal_value : AgentViewValue → Option Json
marshal_value v =
    if not (eqb (count_set v) 1)
    then none
    else set_field v.text_value v.bool_value v.uint_value v.context

-- json.Unmarshal into a pointer to a string, which is nil for a null or for no member
abbrev pub to_pointer : Option Json → Option (Option String)
to_pointer none = some none
to_pointer (some null) = some none
to_pointer (some (text s)) = some (some s)
to_pointer (some j) = none

abbrev pub needed : Option (Option String) → Option String
needed (some (some s)) = some s
needed o = none

abbrev pub map_some {ℓ κ} : {A : Type ℓ} {B : Type κ} → (A → B) → Option A → Option B
map_some f none = none
map_some f (some a) = some (f a)

-- AgentViewField and AgentViewSortField, which differ in the names of the built-in fields alone
pub record ViewField : Type 0 where
  pub builtin : String
  pub token : String

abbrev pub named_field : String → ViewField
named_field b = record { builtin = b; token = "" }

abbrev pub token_field : String → ViewField
token_field t = record { builtin = ""; token = t }

unfoldable pub marshal_field : ViewField → Option Json
marshal_field f =
    if not (f.token == "")
    then some (object_of "token" (text f.token))
    else if f.builtin == ""
    then none
    else some (text f.builtin)

module _ (find_member : String → Members → Option Json) where
  unfoldable pub unmarshal_value : Json → Option AgentViewValue
  unfolding to_uint agent_view_text agent_view_bool agent_view_uint agent_view_context_value
  unmarshal_value (text s) = some (agent_view_text s)
  unmarshal_value (boolean b) = some (agent_view_bool b)
  unmarshal_value (object ms) =
      map_some agent_view_context_value (needed (to_pointer (find_member "context" ms)))
  unmarshal_value j = map_some agent_view_uint (to_uint j)

  -- unmarshalFieldOrToken
  unfoldable pub unmarshal_field : Json → Option ViewField
  unmarshal_field (text s) = some (named_field s)
  unmarshal_field (object ms) = map_some token_field (needed (to_pointer (find_member "token" ms)))
  unmarshal_field j = none
