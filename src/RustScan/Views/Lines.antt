-- ===== src/RustScan/Views/Lines.antt =====
-- internal/cmd/herdrsource/rust.go: `lineAt`, on a text and on its views.
use herdr_client.Prelude.{
  ℕ, zero, suc, ◌+◌, ◌≡◌, refl, ap, Bool, true, false, Option, none, some, length, take, eqb,
  if◌then◌else◌, arith,
}
use mathlib.Core.Path.{ap₂}
use herdr_client.RustScan.Bytes.{Bytes, count_newlines}
use herdr_client.RustScan.Views.Ranges.{
  ByteSplit, in_production, in_tests, Complement, nothing, byte, blank_byte,
}
use herdr_client.RustScan.Views.Spans.{split, production, tests, Views, Views-Complement}

unfoldable pub line_at : Bytes → ℕ → ℕ
unfolding count_newlines
line_at src index = count_newlines (take index src) + 1

-- a view with the length of the text and its line numbers
abbrev pub SameLines : Bytes → Option Bytes → Type 0
SameLines text none = ⊥
SameLines text (some v) =
    (length v ≡ length text) × ((index : ℕ) → line_at v index ≡ line_at text index)

blank_newline : (c : ℕ) → eqb (blank_byte c) 10 ≡ eqb c 10
blank_newline c = ground (arith)

split_newline : {c p t : ℕ} → ByteSplit c p t → (eqb p 10 ≡ eqb c 10) × (eqb t 10 ≡ eqb c 10)
split_newline {c} in_production = (refl, blank_newline c)
split_newline {c} in_tests = (blank_newline c, refl)

lengths :
    {text p t : Bytes} → Complement text p t → (length p ≡ length text) × (length t ≡ length text)
lengths nothing = (refl, refl)
lengths (byte b h) = (ap suc (lengths h).0, ap suc (lengths h).1)

newlines :
    (index : ℕ) {text p t : Bytes}
    → Complement text p t
    → (count_newlines (take index p) ≡ count_newlines (take index text))
      × (count_newlines (take index t) ≡ count_newlines (take index text))
unfolding count_newlines
newlines zero h = (refl, refl)
newlines (suc n) nothing = (refl, refl)
newlines (suc n) (byte b h) = (
  ap₂ (λ here later. (if here then 1 else 0) + later) (split_newline b).0 (newlines n h).0,
  ap₂ (λ here later. (if here then 1 else 0) + later) (split_newline b).1 (newlines n h).1,
)

-- Each view of a text comes to an end, is as long as the text, and gives every index the line number
-- that the text gives it.
pub split-SameLines : (keep_tests : Bool) (text : Bytes) → SameLines text (split keep_tests text)
unfolding production tests line_at
split-SameLines false text = go (split false text) (split true text) (Views-Complement text)
  where
    go : (p t : Option Bytes) → Views text p t → SameLines text p
    go none w h = elim h [ ]
    go (some p) none h = elim h [ ]
    go (some p) (some t) h = ((lengths h).0, λ n. ap (λ k. k + 1) (newlines n h).0)
split-SameLines true text = go (split false text) (split true text) (Views-Complement text)
  where
    go : (p t : Option Bytes) → Views text p t → SameLines text t
    go none w h = elim h [ ]
    go (some p) none h = elim h [ ]
    go (some p) (some t) h = ((lengths h).1, λ n. ap (λ k. k + 1) (newlines n h).1)
