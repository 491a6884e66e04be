-- ===== src/RustScan/Arms.antt =====
-- internal/cmd/herdrsource/rust.go: the code that a match arm, a `matches!` guard or an `if let` runs.
-- The tests of what lies between two tokens look for delimiters in it, which trimming the space at its
-- ends does not remove, so strings.TrimSpace is left out.
use herdr_client.Prelude.{
  ℕ, ◌+◌, ◌-◌, Option, none, some, [], ◌∷◌, length, take, drop, leb, is_some, if◌then◌else◌,
}
use herdr_client.RustScan.Bytes.{
  Bytes, ascii, has_prefix, index_byte, index_of, last_index, contains_any, count_blanks,
}
use herdr_client.RustScan.Skip.{byte_at}
use herdr_client.RustScan.Balanced.{Group, block_at, group_at, until_arm_comma, is_byte}

abbrev pub body_of : Option Group → Option Bytes
body_of none = none
body_of (some g) = some g.0

-- `if !ok { return "", false }`
unfoldable pub when_found {ℓ} : {A : Type ℓ} → Option A → (A → Option Bytes) → Option Bytes
when_found none next = none
when_found (some a) next = next a

-- the body behind `=>`
unfoldable pub arm_expression : Bytes → ℕ → Option Bytes
arm_expression src start =
    if leb (length src) start
    then none
    else if is_byte b'{' (byte_at start src)
    then body_of (block_at src start)
    else until_arm_comma src start

unfoldable pub arm_body : Bytes → ℕ → Option Bytes
unfolding arm_expression
arm_body src at = when_found (group_at src at) λ g.
    let rest = drop g.1 src in
    when_found (index_of (ascii "=>") rest) λ arrow.
      if contains_any (ascii ";{}") (take arrow rest)
      then none
      else let start = g.1 + arrow + 2 in arm_expression src (start + count_blanks (drop start src))

unfoldable pub guarded_block : Bytes → ℕ → Option Bytes
guarded_block src index = when_found (last_index (ascii "matches!") (take index src)) λ start.
    if is_some (index_of (b'\n' ∷ (b'\n' ∷ [])) (drop start (take index src)))
    then none
    else when_found (index_byte b'(' (drop start src)) λ opening.
      when_found (group_at src (start + opening)) λ g.
        let rest = drop g.1 src in
        when_found (index_byte b'{' rest) λ brace.
          if contains_any (ascii ";=") (take brace rest)
          then none
          else body_of (block_at src (g.1 + brace))

unfoldable pub bound_block : Bytes → ℕ → Option Bytes
bound_block src at = when_found (group_at src at) λ g.
    let rest = drop g.1 src in
    when_found (index_byte b'=' rest) λ eq.
      if has_prefix (ascii "=>") (drop eq rest)
      then none
      else if contains_any (ascii ";{}") (take eq rest)
      then none
      else when_found (index_byte b'{' (drop eq rest)) λ brace.
        if contains_any (ascii ";}") (take (brace - 1) (drop (eq + 1) rest))
        then none
        else body_of (block_at src (g.1 + eq + brace))
