-- ===== src/Unions/RoundTrip.antt =====
-- herdr/unions_manual.go: what is written is read as it was.
use herdr_client.Prelude.{
  ℕ, zero, suc, ◌+◌, ◌≤◌, ◌<◌, ◌^◌, ◌≡◌, refl, sym, ap, ◌∙◌, String, ◌==◌, Bool, true, false, ◌&&◌,
  ◌||◌, Option, none, some, ltb, eqb, if◌then◌else◌, arith,
}
use herdr_client.GoText.{parse_uint, cut_suffix, format_uint}
use herdr_client.Json.{Json, number, text, Members, member, no_member, object_of}
use herdr_client.Unions.{
  PopupSize, is_percent, popup_text, marshal_popup, unmarshal_popup, cells_of, map_some, needed,
  to_pointer, to_uint, AgentViewValue, one_if_some, count_set, marshal_value, unmarshal_value,
  ViewField, named_field, token_field, marshal_field, unmarshal_field, agent_view_text,
  agent_view_bool, agent_view_uint, agent_view_context_value,
}

-- what is written and read again, or `none` where writing fails
abbrev pub reread {ℓ} : {A : Type ℓ} → (Json → Option A) → Option Json → Option A
reread read none = none
reread read (some j) = read j

abbrev all_below : ℕ → (ℕ → Bool) → Bool
all_below zero p = true
all_below (suc n) p = p n && all_below n p

all_below-lt : (n : ℕ) (p : ℕ → Bool) (x : ℕ) → all_below n p ≡ true → x < n → p x ≡ true
all_below-lt zero p x h lt = absurd (omega arith)
all_below-lt (suc n) p x h lt = ground (arith, all_below-lt n p x)

abbrev is_size : ℕ → Option PopupSize → Bool
is_size p none = false
is_size p (some s) = eqb s.cells 0 && eqb s.percent p

abbrev percent_again : ℕ → Option PopupSize
percent_again p = unmarshal_popup (text (popup_text (record { cells = 0; percent = p })))

-- the hundred percentages, one by one
percents : all_below 101 (λ p. eqb p 0 || is_size p (percent_again p)) ≡ true
unfolding unmarshal_popup popup_text format_uint parse_uint cut_suffix
percents = refl

abbrev size_of : ℕ → ℕ → PopupSize
size_of c p = record { cells = c; percent = p }

is_size-fields : (p c q : ℕ) → c ≡ 0 → q ≡ p → some (size_of c q) ≡ some (size_of 0 p)
is_size-fields p c q hc hq = cc

is_size-some : (p : ℕ) (o : Option PopupSize) → is_size p o ≡ true → o ≡ some (size_of 0 p)
is_size-some p none h = absurd (ground arith)
is_size-some p (some s) h = is_size-fields p s.cells s.percent (ground arith) (ground arith)

-- a cell count is written as a number, a percentage as a text without the cells
abbrev pub written : PopupSize → PopupSize
written s = if eqb s.percent 0 then s else record { cells = 0; percent = s.percent }

percent-again : (p : ℕ) → p ≤ 100 → eqb p 0 ≡ false → percent_again p ≡ some (size_of 0 p)
percent-again p h z = is_size-some p (percent_again p) (
    ground (
      arith,
      all_below-lt 101 (λ p. eqb p 0 || is_size p (percent_again p)) p percents (omega arith),
    ))

abbrev pub fits_uint : Option ℕ → Bool
fits_uint none = true
fits_uint (some n) = ltb n (2 ^ 64)

to_uint-number : (n : ℕ) → fits_uint (some n) ≡ true → to_uint (number n) ≡ some n
unfolding to_uint
to_uint-number n f = ground arith

popup_cells :
    (c : ℕ) → c < 2 ^ 16 → reread unmarshal_popup (marshal_popup (size_of c 0)) ≡ some (size_of c 0)
unfolding marshal_popup is_percent unmarshal_popup
popup_cells c h = ap cells_of (to_uint-number c (ground arith)) ∙ cells_of-fits
  where
    cells_of-fits : cells_of (some c) ≡ some (size_of c 0)
    cells_of-fits = ground arith

marshal-percent :
    (c p : ℕ)
    → p ≤ 100
    → eqb p 0 ≡ false
    → marshal_popup (size_of c p) ≡ some (text (popup_text (size_of 0 p)))
unfolding marshal_popup popup_text is_percent
marshal-percent c p h z = ground arith

written-percent : (c p : ℕ) → eqb p 0 ≡ false → some (written (size_of c p)) ≡ some (size_of 0 p)
written-percent c p z = ground arith

popup_fields :
    (c p : ℕ)
    → c < 2 ^ 16
    → p ≤ 100
    → reread unmarshal_popup (marshal_popup (size_of c p)) ≡ some (written (size_of c p))
popup_fields c zero hc hp = popup_cells c hc
popup_fields c (suc p) hc hp =
    ap (reread unmarshal_popup) (marshal-percent c (suc p) hp (ground arith))
    ∙ percent-again (suc p) hp (ground arith)
    ∙ sym (written-percent c (suc p) (ground arith))

-- A popup size whose cells fit 16 bits and whose percentage is at most 100 is written, and read back as
-- it was, without the cells where it is a percentage.
pub popup-reread :
    (s : PopupSize)
    → s.cells < 2 ^ 16
    → s.percent ≤ 100
    → reread unmarshal_popup (marshal_popup s) ≡ some (written s)
unfolding marshal_popup is_percent unmarshal_popup to_uint
popup-reread s c p = popup_fields s.cells s.percent c p

abbrev pub value_of : Option String → Option Bool → Option ℕ → Option String → AgentViewValue
value_of t b u c = record { text_value = t; bool_value = b; uint_value = u; context = c }

abbrev view_field : String → String → ViewField
view_field b t = record { builtin = b; token = t }

module _ (find_member : String → Members → Option Json)
    (finds : (key : String) (j : Json) → find_member key (member key j no_member) ≡ some j) where
  fields :
      (t : Option String) (b : Option Bool) (u : Option ℕ) (c : Option String)
      → one_if_some t + one_if_some b + one_if_some u + one_if_some c ≡ 1
      → fits_uint u ≡ true
      → reread (unmarshal_value find_member) (marshal_value (value_of t b u c))
        ≡ some (value_of t b u c)
  unfolding marshal_value unmarshal_value to_uint agent_view_text agent_view_bool agent_view_uint
      agent_view_context_value
  fields (some t) none none none h f = refl
  fields none (some b) none none h f = refl
  fields none none (some n) none h f = ap (map_some agent_view_uint) (to_uint-number n f)
  fields none none none (some c) h f =
      ap (λ o. map_some agent_view_context_value (needed (to_pointer o))) (finds "context" (text c))
  fields none none none none h f = absurd (omega arith)
  fields (some t) (some b) u c h f = absurd (omega arith)
  fields (some t) none (some n) c h f = absurd (omega arith)
  fields (some t) none none (some c) h f = absurd (omega arith)
  fields none (some b) (some n) c h f = absurd (omega arith)
  fields none (some b) none (some c) h f = absurd (omega arith)
  fields none none (some n) (some c) h f = absurd (omega arith)

  -- With a decoder that finds the one member of an object by its name, an agent view value with exactly one
  -- field set, whose number fits 64 bits, is written, and read back as it was.
  pub value-reread :
      (v : AgentViewValue)
      → count_set v ≡ 1
      → fits_uint v.uint_value ≡ true
      → reread (unmarshal_value find_member) (marshal_value v) ≡ some v
  unfolding marshal_value unmarshal_value to_uint agent_view_text agent_view_bool agent_view_uint
      agent_view_context_value
  value-reread v c f = fields v.text_value v.bool_value v.uint_value v.context c f

  -- a view field that names a token is read back without its built-in field
  token-reread :
      (b t : String)
      → (t == "") ≡ false
      → reread (unmarshal_field find_member) (marshal_field (view_field b t)) ≡ some (token_field t)
  unfolding marshal_field unmarshal_field
  token-reread b t h = ap (reread (unmarshal_field find_member)) written_token ∙ found
    where
      written_token : marshal_field (view_field b t) ≡ some (object_of "token" (text t))
      written_token = ground arith

      found : unmarshal_field find_member (object_of "token" (text t)) ≡ some (token_field t)
      found = ap (λ o. map_some token_field (needed (to_pointer o))) (finds "token" (text t))

  -- a view field that names a built-in field alone is read back as it was
  builtin-reread :
      (b t : String)
      → (t == "") ≡ true
      → (b == "") ≡ false
      → reread (unmarshal_field find_member) (marshal_field (view_field b t)) ≡ some (named_field b)
  unfolding marshal_field unmarshal_field
  builtin-reread b t h k = ap (reread (unmarshal_field find_member)) written_name
    where
      written_name : marshal_field (view_field b t) ≡ some (text b)
      written_name = ground arith
