-- ===== src/GoText.antt =====
-- The functions of Go's strings, strconv and unicode packages that the sources call. A string is
-- the list of its code points, as a valid UTF-8 string is; a loop over bytes that only looks for
-- ASCII bytes sees the same over code points, since no byte of a longer encoding is ASCII.
pub mod Suffix
pub mod Split
use Prim.Native.Char.{Char, code}
use Prim.Native.String.{◌++◌ as join_text}
use herdr_client.Prelude.{
  ℕ, zero, suc, ◌+◌, ◌-◌, ◌*◌, ◌/◌, ◌%◌, ◌^◌, String, ◌==◌, Bool, true, false, ◌&&◌, ◌||◌, Option,
  none, some, List, [], ◌∷◌, leb, ltb, eqb, if◌then◌else◌,
}

-- unicode.IsSpace
unfoldable pub is_space : ℕ → Bool
is_space c =
    leb 9 c && leb c 13
    || eqb c 32
    || eqb c 0x85
    || eqb c 0xa0
    || eqb c 0x1680
    || leb 0x2000 c && leb c 0x200a
    || eqb c 0x2028
    || eqb c 0x2029
    || eqb c 0x202f
    || eqb c 0x205f
    || eqb c 0x3000

unfoldable pub trim_left : String → String
unfolding is_space
trim_left String.[] = ""
trim_left (String.◌∷◌ c s) =
    let rest = trim_left s in if is_space (code c) then rest else String.◌∷◌ c s

abbrev drop_if_last : Bool → Char → String → String
drop_if_last b c String.[] = if b then "" else String.◌∷◌ c ""
drop_if_last b c (String.◌∷◌ d s) = String.◌∷◌ c (String.◌∷◌ d s)

unfoldable pub trim_right : String → String
unfolding is_space
trim_right String.[] = ""
trim_right (String.◌∷◌ c s) = drop_if_last (is_space (code c)) c (trim_right s)

-- strings.TrimSpace
unfoldable pub trim_space : String → String
unfolding trim_left trim_right
trim_space s = trim_right (trim_left s)

-- strings.TrimRight with the cutset "\r\n"
unfoldable pub trim_line_end : String → String
trim_line_end String.[] = ""
trim_line_end (String.◌∷◌ c s) =
    drop_if_last (eqb (code c) 13 || eqb (code c) 10) c (trim_line_end s)

-- utf8.RuneCountInString
abbrev pub rune_count : String → ℕ
rune_count String.[] = 0
rune_count (String.◌∷◌ c s) = suc (rune_count s)

-- every code point passes the test
abbrev pub all_codes : (ℕ → Bool) → String → Bool
all_codes p String.[] = true
all_codes p (String.◌∷◌ c s) = p (code c) && all_codes p s

-- strings.TrimPrefix for a prefix of one code point
unfoldable pub trim_prefix : ℕ → String → String
trim_prefix p String.[] = ""
trim_prefix p (String.◌∷◌ c s) = if eqb (code c) p then s else String.◌∷◌ c s

abbrev pub onto_head : Char → List String → List String
onto_head c [] = String.◌∷◌ c "" ∷ []
onto_head c (part ∷ parts) = String.◌∷◌ c part ∷ parts

-- strings.Split for a separator of one code point
unfoldable pub split : ℕ → String → List String
split sep String.[] = "" ∷ []
split sep (String.◌∷◌ c s) =
    let parts = split sep s in if eqb (code c) sep then "" ∷ parts else onto_head c parts

abbrev pub dot : Char
dot = "."

-- strings.Replace(s, "_", ".", 1)
unfoldable pub dot_name : String → String
dot_name String.[] = ""
dot_name (String.◌∷◌ c s) =
    let rest = dot_name s in if eqb (code c) b'_' then String.◌∷◌ dot s else String.◌∷◌ c rest

-- strings.Contains(s, ".")
unfoldable pub has_dot : String → Bool
has_dot String.[] = false
has_dot (String.◌∷◌ c s) = eqb (code c) b'.' || has_dot s

abbrev pub is_digit : ℕ → Bool
is_digit c = leb b'0' c && leb c b'9'

unfoldable pub digits_value : ℕ → String → Option ℕ
digits_value n String.[] = some n
digits_value n (String.◌∷◌ c s) =
    let rest = digits_value (n * 10 + (code c - b'0')) s in if is_digit (code c) then rest else none

abbrev within : ℕ → Option ℕ → Option ℕ
within bits none = none
within bits (some n) = if ltb n (2 ^ bits) then some n else none

-- strconv.ParseUint(s, 10, bits): a syntax error and a value out of range are both `none`.
unfoldable pub parse_uint : String → ℕ → Option ℕ
unfolding digits_value
parse_uint s bits = if s == "" then none else within bits (digits_value 0 s)

abbrev pub cut_last : ℕ → Char → String → Option String → Option String
cut_last p c String.[] rest = if eqb (code c) p then some "" else none
cut_last p c (String.◌∷◌ d s) none = none
cut_last p c (String.◌∷◌ d s) (some rest) = some (String.◌∷◌ c rest)

-- strings.CutSuffix for a suffix of one code point
unfoldable pub cut_suffix : ℕ → String → Option String
cut_suffix p String.[] = none
cut_suffix p (String.◌∷◌ c s) = cut_last p c s (cut_suffix p s)

abbrev pub digit_text : ℕ → String
digit_text zero = "0"
digit_text (suc zero) = "1"
digit_text (suc (suc zero)) = "2"
digit_text (suc (suc (suc zero))) = "3"
digit_text (suc (suc (suc (suc zero)))) = "4"
digit_text (suc (suc (suc (suc (suc zero))))) = "5"
digit_text (suc (suc (suc (suc (suc (suc zero)))))) = "6"
digit_text (suc (suc (suc (suc (suc (suc (suc zero))))))) = "7"
digit_text (suc (suc (suc (suc (suc (suc (suc (suc zero)))))))) = "8"
digit_text n = "9"

unfoldable pub format_digits : ℕ → ℕ → String
format_digits zero n = ""
format_digits (suc places) n =
    let more = join_text (format_digits places (n / 10)) (digit_text (n % 10)) in
    if ltb n 10 then digit_text n else more

-- strconv.FormatUint(n, 10), for a number of 64 bits, which has 20 digits at most
unfoldable pub format_uint : ℕ → String
unfolding format_digits
format_uint n = format_digits 20 n
