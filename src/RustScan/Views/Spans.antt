-- ===== src/RustScan/Views/Spans.antt =====
-- internal/cmd/herdrsource/rust.go: `source.split`, which looks for the test modules of a text.
use herdr_client.Prelude.{
  ℕ, zero, suc, ◌+◌, ◌≤◌, ◌<◌, Bool, true, false, Option, none, some, length, drop, if_case, arith,
}
use herdr_client.RustScan.Bytes.{
  Bytes, ascii, index_byte, index_of, index_of-Within, Within, length-drop,
}
use herdr_client.RustScan.Walk.{Walked, stops, ends, out_of_fuel, StopsAt, walk-StopsAt}
use herdr_client.RustScan.Skip.{byte_at}
use herdr_client.RustScan.Balanced.{Group, balanced, block_at, group_to, is_byte, count_delimiter}
use herdr_client.RustScan.Views.Ranges.{
  blank_range, copy_range, Complement, Complement-start, Complement-move,
}

abbrev pub test_mark : Bytes
test_mark = ascii "#[cfg(test)]"

-- from where to where a test module goes
abbrev pub Span : Type 0
Span = ℕ × ℕ

abbrev pub span_to : ℕ → Option Group → Option Span
span_to found none = none
span_to found (some g) = some (found, g.1)

abbrev pub span_block : Bytes → ℕ → Option ℕ → Option Span
span_block text found none = none
span_block text found (some brace) = span_to found (block_at text (found + brace))

abbrev pub span_mark : Bytes → ℕ → Option ℕ → Option Span
span_mark text at none = none
span_mark text at (some n) = span_block text (at + n) (index_byte b'{' (drop (at + n) text))

-- the next test module at or behind an index, or `none` where the loop breaks
unfoldable pub next_span : Bytes → ℕ → Option Span
next_span text at = span_mark text at (index_of test_mark (drop at text))

-- a turn of the loop on what is left of the fuel
abbrev pub split_turn :
    Bool → Bytes → (ℕ → Bytes → Option Bytes) → Bytes → Option Span → Option Bytes
split_turn keep_tests text next out none = some out
split_turn true text next out (some s) = next s.1 (copy_range s.0 s.1 text out)
split_turn false text next out (some s) = next s.1 (blank_range s.0 s.1 out)

unfoldable pub split_loop : ℕ → Bool → Bytes → ℕ → Bytes → Option Bytes
split_loop zero keep_tests text at out = none
split_loop (suc fuel) keep_tests text at out =
    split_turn keep_tests text (λ end o. split_loop fuel keep_tests text end o) out
      (next_span text at)

abbrev pub split_start : Bool → Bytes → Bytes
split_start true text = blank_range 0 (length text) text
split_start false text = text

unfoldable pub split : Bool → Bytes → Option Bytes
unfolding split_loop
split keep_tests text = split_loop (length text + 1) keep_tests text 0 (split_start keep_tests text)

unfoldable pub production : Bytes → Option Bytes
unfolding split
production text = split false text

unfoldable pub tests : Bytes → Option Bytes
unfolding split
tests text = split true text

-- a span ends behind an index of the text
abbrev pub Later : Bytes → ℕ → Option Span → Type 0
Later text at none = Unit {0}
Later text at (some s) = (at < s.1) × (at < length text)

abbrev pub Behind : ℕ → Option Group → Type 0
Behind at none = Unit {0}
Behind at (some g) = at < g.1

block_at-Behind : (src : Bytes) (at : ℕ) → Behind at (block_at src at)
unfolding block_at balanced
block_at-Behind src at =
    if_case (Behind at) (is_byte b'{' (byte_at at src))
      (λ opens. go _ (walk-StopsAt (count_delimiter b'{' b'}') (length src) 0 at (drop at src)))
      (λ other. tt)
  where
    go :
        (w : Walked)
        → StopsAt (count_delimiter b'{' b'}') at (drop at src) w
        → Behind at (group_to src at w)
    go ends h = tt
    go out_of_fuel h = tt
    go (stops j) h = omega (arith, h.0)

span_to-Later :
    (text : Bytes) (at found brace : ℕ) (o : Option Group)
    → at ≤ found
    → at < length text
    → Behind (found + brace) o
    → Later text at (span_to found o)
span_to-Later text at found brace none le inside h = tt
span_to-Later text at found brace (some g) le inside h = (omega (arith, le, h), inside)

next_span-Later : (text : Bytes) (at : ℕ) → Later text at (next_span text at)
unfolding next_span
next_span-Later text at =
    mark (index_of test_mark (drop at text)) (index_of-Within test_mark (drop at text))
  where
    block :
        (found : ℕ) (o : Option ℕ)
        → at ≤ found
        → at < length text
        → Later text at (span_block text found o)
    block found none le inside = tt
    block found (some brace) le inside =
        span_to-Later text at found brace (block_at text (found + brace)) le inside
          (block_at-Behind text (found + brace))

    mark :
        (o : Option ℕ) → Within 12 (length (drop at text)) o → Later text at (span_mark text at o)
    mark none h = tt
    mark (some n) h =
        block (at + n) (index_byte b'{' (drop (at + n) text)) (omega arith)
          (omega (arith, h, length-drop at text))

-- both views come to an end, and stand to the text as they should
abbrev pub Views : Bytes → Option Bytes → Option Bytes → Type 0
Views text none w = ⊥
Views text (some p) none = ⊥
Views text (some p) (some t) = Complement text p t

split_turn-Views :
    (text out_p out_t : Bytes) (next_p next_t : ℕ → Bytes → Option Bytes) (at fuel : ℕ)
    (o : Option Span)
    → Later text at o
    → length text < fuel + 1 + at
    → Complement text out_p out_t
    → ((end : ℕ) (p t : Bytes)
        → 0 < fuel
        → length text < fuel + end
        → Complement text p t
        → Views text (next_p end p) (next_t end t))
    → Views text (split_turn false text next_p out_p o) (split_turn true text next_t out_t o)
split_turn-Views text out_p out_t next_p next_t at fuel none later enough h more = h
split_turn-Views text out_p out_t next_p next_t at fuel (some s) later enough h more =
    more s.1 _ _ (omega (arith, later.1, enough)) (omega (arith, later.0, enough))
      (Complement-move s.0 s.1 h)

split_loop-Views :
    (fuel : ℕ) (text : Bytes) (at : ℕ) (out_p out_t : Bytes)
    → 0 < fuel
    → length text < fuel + at
    → Complement text out_p out_t
    → Views text (split_loop fuel false text at out_p) (split_loop fuel true text at out_t)
unfolding split_loop
split_loop-Views zero text at out_p out_t some_fuel enough h = omega (arith, some_fuel)
split_loop-Views (suc fuel) text at out_p out_t some_fuel enough h =
    split_turn-Views text out_p out_t _ _ at fuel (next_span text at) (next_span-Later text at)
      (omega (arith, enough)) h (λ end p t k e c. split_loop-Views fuel text end p t k e c)

-- Both views of a text come to an end; they are as long as the text, and each of its bytes stands in
-- one of them at its place, with a space, or a line feed for a line feed, at that place of the other.
pub Views-Complement : (text : Bytes) → Views text (production text) (tests text)
unfolding production tests split
Views-Complement text =
    split_loop-Views (length text + 1) text 0 _ _ (omega arith) (omega arith)
      (Complement-start text)
