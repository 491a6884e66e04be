-- ===== src/RustScan/Advance.antt =====
-- internal/cmd/herdrsource/rust.go: a jump over a comment or a literal goes forward, and not past the
-- end.
use herdr_client.Prelude.{
  ℕ, zero, suc, ◌+◌, ◌-◌, ◌≤◌, ◌<◌, ◌≡◌, refl, subst, true, ◌||◌, Option, none, some, [], ◌∷◌,
  length, drop, eqb, leb, if_case, arith,
}
use herdr_client.RustScan.Bytes.{
  Bytes, Within, has_prefix, index_byte, index_of, index_byte-Within, index_of-Within, length-drop,
}
use herdr_client.RustScan.Skip.{
  or_end, skip_line_comment, skip_block_comment, skip_string_loop, skip_string, count_hashes,
  hashes, or_all, raw_quoted, skip_raw_string, byte_at, is_quote, escaped, skip_char, skip_non_code,
}

-- forward, and to the end at most
abbrev pub Jumps : Bytes → ℕ → Type 0
Jumps s n = (0 < n) × (n ≤ length s)

abbrev pub MayJump : Bytes → Option ℕ → Type 0
MayJump s none = Unit {0}
MayJump s (some n) = Jumps s n

skip_line_comment-Jumps : (s : Bytes) → 0 < length s → Jumps s (skip_line_comment s)
unfolding skip_line_comment
skip_line_comment-Jumps s h = go (index_byte b'\n' s) (index_byte-Within b'\n' s)
  where
    go : (o : Option ℕ) → Within 1 (length s) o → Jumps s (or_end s o)
    go none w = (h, omega arith)
    go (some n) w = (omega arith, w)

skip_block_comment-le : (depth : ℕ) (s : Bytes) → skip_block_comment depth s ≤ length s
unfolding skip_block_comment
skip_block_comment-le depth [] = omega arith
skip_block_comment-le depth (c ∷ []) = omega arith
skip_block_comment-le depth (c ∷ d ∷ s) = ground (
  arith,
  skip_block_comment-le (depth + 1) s,
  skip_block_comment-le (depth - 1) s,
  skip_block_comment-le depth (d ∷ s),
)

skip_block_comment-pos : (depth : ℕ) (s : Bytes) → 0 < length s → 0 < skip_block_comment depth s
unfolding skip_block_comment
skip_block_comment-pos depth [] h = h
skip_block_comment-pos depth (c ∷ []) h = omega arith
skip_block_comment-pos depth (c ∷ d ∷ s) h = ground arith

skip_string_loop-le : (s : Bytes) → skip_string_loop s ≤ length s
unfolding skip_string_loop
skip_string_loop-le [] = omega arith
skip_string_loop-le (c ∷ []) = omega arith
skip_string_loop-le (c ∷ d ∷ s) = ground (arith, skip_string_loop-le s, skip_string_loop-le (d ∷ s))

skip_string-Jumps : (s : Bytes) → 0 < length s → Jumps s (skip_string s)
unfolding skip_string
skip_string-Jumps [] h = absurd (omega (arith, h))
skip_string-Jumps (c ∷ s) h = (omega arith, omega (arith, skip_string_loop-le s))

count_hashes-le : (s : Bytes) → count_hashes s ≤ length s
unfolding count_hashes
count_hashes-le [] = omega arith
count_hashes-le (c ∷ s) = ground (arith, count_hashes-le s)

length-hashes : (n : ℕ) → length (hashes n) ≡ n
length-hashes zero = refl
length-hashes (suc n) = omega (arith, length-hashes n)

or_all-Jumps :
    (s : Bytes) (n : ℕ) (rest : Bytes) (o : Option ℕ)
    → length s ≡ 1 + n + 1 + length rest
    → Within (1 + n) (length rest) o
    → Jumps s (or_all s (1 + n + 1) (1 + n) o)
or_all-Jumps s n rest none e w = (omega (arith, e), omega arith)
or_all-Jumps s n rest (some k) e w = (omega arith, omega (arith, e, w))

raw_quoted-MayJump :
    (s : Bytes) (n : ℕ) (t : Bytes)
    → 0 < length s
    → length t ≡ length s - (1 + n)
    → MayJump s (raw_quoted s n t)
raw_quoted-MayJump s n [] h e = tt
raw_quoted-MayJump s n (q ∷ rest) h e =
    if_case (MayJump s) (eqb q b'"')
      (λ quote. or_all-Jumps s n rest (index_of (b'"' ∷ hashes n) rest) (omega (arith, e)) (
        subst (λ k. Within k (length rest) (index_of (b'"' ∷ hashes n) rest))
          (omega (arith, length-hashes n)) (index_of-Within (b'"' ∷ hashes n) rest)))
      (λ other. tt)

skip_raw_string-MayJump : (s : Bytes) → 0 < length s → MayJump s (skip_raw_string s)
unfolding skip_raw_string
skip_raw_string-MayJump s h =
    let n = count_hashes (drop 1 s) in
    raw_quoted-MayJump s n (drop (1 + n) s) h (length-drop (1 + n) s)

byte_at-lt : (n : ℕ) (s : Bytes) → is_quote (byte_at n s) ≡ true → n < length s
byte_at-lt n [] h = absurd (ground (arith, h))
byte_at-lt zero (c ∷ s) h = omega arith
byte_at-lt (suc n) (c ∷ s) h = omega (arith, byte_at-lt n s h)

skip_char-MayJump : (s : Bytes) → 0 < length s → MayJump s (skip_char s)
unfolding skip_char
skip_char-MayJump [] h = absurd (omega (arith, h))
skip_char-MayJump (c ∷ s) h =
    if_case Fits (has_prefix (b'\\' ∷ []) s)
      (λ escape. escapes (index_byte b'\'' s) (index_byte-Within b'\'' s))
      λ plain.
        if_case Fits (is_quote (byte_at 1 s)) (λ q. (omega arith, omega (arith, byte_at-lt 1 s q)))
          λ n1.
            if_case Fits (is_quote (byte_at 2 s))
              (λ q. (omega arith, omega (arith, byte_at-lt 2 s q)))
              λ n2.
                if_case Fits (is_quote (byte_at 3 s))
                  (λ q. (omega arith, omega (arith, byte_at-lt 3 s q)))
                  λ n3.
                    if_case Fits (is_quote (byte_at 4 s))
                      (λ q. (omega arith, omega (arith, byte_at-lt 4 s q))) λ n4. tt
  where
    Fits : Option ℕ → Type 0
    Fits o = MayJump (c ∷ s) o

    escapes : (o : Option ℕ) → Within 1 (length s) o → Fits (escaped o)
    escapes none w = tt
    escapes (some n) w =
        if_case Fits (leb n 5) (λ near. (omega arith, omega (arith, w))) (λ far. tt)

-- skipNonCode goes forward by at least one byte, and not past the end of the source.
pub skip_non_code-MayJump : (s : Bytes) → 0 < length s → MayJump s (skip_non_code s)
unfolding skip_non_code
skip_non_code-MayJump s h =
    if_case (MayJump s) (has_prefix (b'/' ∷ (b'/' ∷ [])) s) (λ t. skip_line_comment-Jumps s h)
      λ t1.
        if_case (MayJump s) (has_prefix (b'/' ∷ (b'*' ∷ [])) s)
          (λ t. (skip_block_comment-pos 0 s h, skip_block_comment-le 0 s))
          λ t2.
            if_case (MayJump s)
              (has_prefix (b'r' ∷ (b'"' ∷ [])) s || has_prefix (b'r' ∷ (b'#' ∷ [])) s)
              (λ t. skip_raw_string-MayJump s h)
              λ t3.
                if_case (MayJump s) (has_prefix (b'"' ∷ []) s) (λ t. skip_string-Jumps s h)
                  λ t4.
                    if_case (MayJump s) (has_prefix (b'\'' ∷ []) s) (λ t. skip_char-MayJump s h)
                      λ t5. tt
