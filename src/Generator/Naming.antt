-- ===== src/Generator/Naming.antt =====
-- internal/gen/naming.go: Go names from wire names. Those are ASCII, so that a byte is a character, and
-- strings.ToUpper and strings.ToLower change the ASCII letters.
use Prim.Native.Char.{Char, code}
use Prim.Native.String.{◌++◌ as join_text}
use herdr_client.Prelude.{
  String, ◌==◌, Bool, true, false, ◌||◌, Option, none, some, List, [], ◌∷◌, eqb, if◌then◌else◌,
}

-- the character at the place of another one in a second alphabet
abbrev pub translate : String → String → Char → Char
translate String.[] t c = c
translate (String.◌∷◌ a s) String.[] c = c
translate (String.◌∷◌ a s) (String.◌∷◌ b t) c =
    let rest = translate s t c in if eqb (code a) (code c) then b else rest

abbrev pub lower_letters : String
lower_letters = "abcdefghijklmnopqrstuvwxyz"

abbrev pub upper_letters : String
upper_letters = "ABCDEFGHIJKLMNOPQRSTUVWXYZ"

-- strings.ToLower
unfoldable pub to_lower : String → String
to_lower String.[] = ""
to_lower (String.◌∷◌ c s) = String.◌∷◌ (translate upper_letters lower_letters c) (to_lower s)

unfoldable pub initialism : String → Option String
initialism s =
    if s == "ansi"
    then some "ANSI"
    else if s == "api"
    then some "API"
    else if s == "cli"
    then some "CLI"
    else if s == "id"
    then some "ID"
    else if s == "json"
    then some "JSON"
    else if s == "ok"
    then some "OK"
    else if s == "os"
    then some "OS"
    else if s == "pid"
    then some "PID"
    else if s == "tty"
    then some "TTY"
    else if s == "ttl"
    then some "TTL"
    else if s == "ui"
    then some "UI"
    else if s == "url"
    then some "URL"
    else none

abbrev pub is_word_boundary : Char → Bool
is_word_boundary c = eqb (code c) b'_' || eqb (code c) b'-' || eqb (code c) b'.'

abbrev pub onto_word : Char → Bool → List String → List String
onto_word c starts [] = String.◌∷◌ c "" ∷ []
onto_word c true words = String.◌∷◌ c "" ∷ words
onto_word c false (w ∷ words) = String.◌∷◌ c w ∷ words

abbrev pub ends_word : String → Bool
ends_word String.[] = true
ends_word (String.◌∷◌ c s) = is_word_boundary c

-- strings.FieldsFunc gives no empty word
unfoldable pub split_words : String → List String
split_words String.[] = []
split_words (String.◌∷◌ c s) =
    let words = split_words s in
    if is_word_boundary c then words else onto_word c (ends_word s) words

abbrev pub capitalised : String → String
capitalised String.[] = ""
capitalised (String.◌∷◌ c s) = String.◌∷◌ (translate lower_letters upper_letters c) s

abbrev pub word_name : String → Option String → String
word_name word (some up) = up
word_name word none = capitalised word

abbrev pub join_words : List String → String
join_words [] = ""
join_words (w ∷ ws) = join_text (word_name w (initialism (to_lower w))) (join_words ws)

unfoldable pub pascal : String → String
pascal s = join_words (split_words s)

unfoldable pub enum_const_name : String → String → String
enum_const_name type_name value = join_text type_name (pascal value)
