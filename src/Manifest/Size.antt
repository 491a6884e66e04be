-- ===== src/Manifest/Size.antt =====
-- plugin/manifest/size.go: a dimension of a popup, decoded from a value that the TOML library hands
-- over. An int64 is a natural number or, for `negative n`, minus n minus 1; an integer that is too
-- large for an int64 never gets here.
use herdr_client.Prelude.{
  ℕ, ◌≤◌, ◌<◌, ◌^◌, ◌≡◌, ◌↔◌, refl, sym, ap, ◌∙◌, subst, String, Bool, not, ◌||◌, Option, none,
  some, ltb, eqb, if_case, if◌then◌else◌, arith,
}
use Prim.Native.String.{◌++◌ as join_text}
use herdr_client.GoText.{cut_suffix, parse_uint}
use herdr_client.GoText.Suffix.{cut_suffix-join, join-cut_suffix}
use herdr_client.Manifest.Types.{PopupSize}

pub data Int64 : Type 0 where
  natural negative : ℕ → Int64

pub data TomlValue : Type 0 where
  integer : Int64 → TomlValue
  text : String → TomlValue
  other : TomlValue

pub data SizeError : Type 0 where
  out_of_range no_percentage not_a_percentage wrong_type : SizeError

pub data Decoded : Type 0 where
  refuses : SizeError → Decoded
  decodes : PopupSize → Decoded

unfoldable pub is_percent : PopupSize → Bool
is_percent s = not (eqb s.percent 0)

abbrev pub max_uint16 : ℕ
max_uint16 = 65535

abbrev of_percent : Option ℕ → Decoded
of_percent none = refuses not_a_percentage
of_percent (some percent) =
    if ltb percent 1 || ltb 100 percent
    then refuses not_a_percentage
    else decodes (record { cells = 0; percent = percent })

abbrev of_digits : Option String → Decoded
of_digits none = refuses no_percentage
of_digits (some digits) = of_percent (parse_uint digits 8)

unfoldable pub unmarshal_toml : TomlValue → Decoded
unmarshal_toml (integer (negative n)) = refuses out_of_range
unmarshal_toml (integer (natural n)) =
    if ltb max_uint16 n then refuses out_of_range else decodes (record { cells = n; percent = 0 })
unmarshal_toml (text value) = of_digits (cut_suffix b'%' value)
unmarshal_toml other = refuses wrong_type

-- What a value of a manifest denotes: an integer from 0 to 65535 is a count of cells, and a text of
-- digits before a percent sign is a percentage where the number is from 1 to 100.
pub data Denotes : TomlValue → PopupSize → Type 0 where
  cell_count :
      (n : ℕ) → n < 2 ^ 16 → Denotes (integer (natural n)) (record { cells = n; percent = 0 })
  percentage :
      (digits : String) (p : ℕ)
      → parse_uint digits 8 ≡ some p
      → 1 ≤ p
      → p ≤ 100
      → Denotes (text (join_text digits "%")) (record { cells = 0; percent = p })

abbrev size_of : ℕ → ℕ → PopupSize
size_of c p = record { cells = c; percent = p }

abbrev size_or : PopupSize → Decoded → PopupSize
size_or s (decodes t) = t
size_or s (refuses e) = s

decodes_inj : (s t : PopupSize) → decodes s ≡ decodes t → s ≡ t
decodes_inj s t e = ap (size_or s) e

of_percent-Denotes :
    (digits : String) (o : Option ℕ) (s : PopupSize)
    → parse_uint digits 8 ≡ o
    → of_percent o ≡ decodes s
    → Denotes (text (join_text digits "%")) s
of_percent-Denotes digits none s h e = absurd (ground (arith, e))
of_percent-Denotes digits (some p) s h e =
    if_case {A = Decoded} (λ r. r ≡ decodes s → Denotes (text (join_text digits "%")) s)
      (ltb p 1 || ltb 100 p) (λ t e'. absurd (ground (arith, e')))
      (λ f e'.
        subst (Denotes (text (join_text digits "%"))) (decodes_inj (size_of 0 p) s e')
          (percentage digits p h (ground arith) (ground arith)))
      e

of_digits-Denotes :
    (value : String) (o : Option String) (s : PopupSize)
    → cut_suffix b'%' value ≡ o
    → of_digits o ≡ decodes s
    → Denotes (text value) s
of_digits-Denotes value none s h e = absurd (ground (arith, e))
of_digits-Denotes value (some digits) s h e =
    subst (λ t. Denotes (text t) s) (sym (cut_suffix-join value digits h))
      (of_percent-Denotes digits (parse_uint digits 8) s refl e)

decoded-Denotes :
    (value : TomlValue) (s : PopupSize) → unmarshal_toml value ≡ decodes s → Denotes value s
unfolding unmarshal_toml
decoded-Denotes (integer (negative n)) s e = absurd (ground (arith, e))
decoded-Denotes (integer (natural n)) s e =
    if_case {A = Decoded} (λ r. r ≡ decodes s → Denotes (integer (natural n)) s) (ltb max_uint16 n)
      (λ t e'. absurd (ground (arith, e')))
      (λ f e'.
        subst (Denotes (integer (natural n))) (decodes_inj (size_of n 0) s e')
          (cell_count n (ground arith)))
      e
decoded-Denotes (text value) s e = of_digits-Denotes value (cut_suffix b'%' value) s refl e
decoded-Denotes other s e = absurd (ground (arith, e))

Denotes-decoded :
    {value : TomlValue} {s : PopupSize} → Denotes value s → unmarshal_toml value ≡ decodes s
unfolding unmarshal_toml
Denotes-decoded (cell_count n h) = ground arith
Denotes-decoded (percentage digits p parsed low high) =
    ap of_digits (join-cut_suffix digits) ∙ ap of_percent parsed ∙ in_range
  where
    in_range : of_percent (some p) ≡ decodes (record { cells = 0; percent = p })
    in_range = ground arith

-- UnmarshalTOML succeeds with a size if and only if the value denotes it: an integer from 0 to 65535 as
-- a count of cells, or a text of digits before a percent sign as a percentage from 1 to 100.
pub unmarshal_toml_iff :
    (value : TomlValue) (s : PopupSize) → (unmarshal_toml value ≡ decodes s) ↔ Denotes value s
unmarshal_toml_iff value s = (decoded-Denotes value s, Denotes-decoded)
