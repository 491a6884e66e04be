-- ===== src/RustScan/Skip.antt =====
-- internal/cmd/herdrsource/rust.go: comments, strings and character literals, which the scanner jumps
-- over. A function of the source that takes `src` and an index `i` is here a function of `src[i:]`,
-- and the index that it returns is how far it lies behind `i`; `none` stands for `i, false`.
use herdr_client.Prelude.{
  ℕ, zero, suc, ◌+◌, ◌-◌, Bool, false, ◌&&◌, ◌||◌, Option, none, some, [], ◌∷◌, length, drop, eqb,
  leb, if◌then◌else◌,
}
use herdr_client.RustScan.Bytes.{Bytes, has_prefix, index_byte, index_of}

abbrev pub or_end : Bytes → Option ℕ → ℕ
or_end s none = length s
or_end s (some n) = n + 1

-- `//`: to behind the end of the line
unfoldable pub skip_line_comment : Bytes → ℕ
skip_line_comment s = or_end s (index_byte b'\n' s)

-- `/*`, at a nesting depth: the comments nest
unfoldable pub skip_block_comment : ℕ → Bytes → ℕ
skip_block_comment depth [] = 0
skip_block_comment depth (c ∷ []) = 1
skip_block_comment depth (c ∷ d ∷ s) =
    let deeper = skip_block_comment (depth + 1) s in
    let shallower = skip_block_comment (depth - 1) s in
    let further = skip_block_comment depth (d ∷ s) in
    if eqb c b'/' && eqb d b'*'
    then 2 + deeper
    else if eqb c b'*' && eqb d b'/'
    then if eqb (depth - 1) 0 then 2 else 2 + shallower
    else 1 + further

-- the loop of skipString, behind the opening quote
unfoldable pub skip_string_loop : Bytes → ℕ
skip_string_loop [] = 0
skip_string_loop (c ∷ []) = 1
skip_string_loop (c ∷ d ∷ s) =
    let past = skip_string_loop s in
    let further = skip_string_loop (d ∷ s) in
    if eqb c b'\\' then 2 + past else if eqb c b'"' then 1 else 1 + further

unfoldable pub skip_string : Bytes → ℕ
unfolding skip_string_loop
skip_string s = 1 + skip_string_loop (drop 1 s)

unfoldable pub count_hashes : Bytes → ℕ
count_hashes [] = 0
count_hashes (c ∷ s) = let rest = count_hashes s in if eqb c b'#' then suc rest else 0

abbrev pub hashes : ℕ → Bytes
hashes zero = []
hashes (suc n) = b'#' ∷ hashes n

abbrev pub or_all : Bytes → ℕ → ℕ → Option ℕ → ℕ
or_all s start size none = length s
or_all s start size (some n) = start + n + size

-- behind the `r` and n hashes
abbrev pub raw_quoted : Bytes → ℕ → Bytes → Option ℕ
raw_quoted s n [] = none
raw_quoted s n (q ∷ rest) =
    if eqb q b'"'
    then some (or_all s (1 + n + 1) (1 + n) (index_of (b'"' ∷ hashes n) rest))
    else none

-- r"...", r#"..."# and further counts of hashes
unfoldable pub skip_raw_string : Bytes → Option ℕ
unfolding count_hashes
skip_raw_string s = let n = count_hashes (drop 1 s) in raw_quoted s n (drop (1 + n) s)

abbrev pub byte_at : ℕ → Bytes → Option ℕ
byte_at n [] = none
byte_at zero (c ∷ s) = some c
byte_at (suc n) (c ∷ s) = byte_at n s

abbrev pub is_quote : Option ℕ → Bool
is_quote none = false
is_quote (some c) = eqb c b'\''

-- the quote of an escape such as '\n', which must come within six bytes
abbrev pub escaped : Option ℕ → Option ℕ
escaped none = none
escaped (some n) = if leb n 5 then some (1 + n + 1) else none

unfoldable pub skip_char : Bytes → Option ℕ
skip_char s =
    let rest = drop 1 s in
    if has_prefix (b'\\' ∷ []) rest
    then escaped (index_byte b'\'' rest)
    else if is_quote (byte_at 1 rest)
    then some 3
    else if is_quote (byte_at 2 rest)
    then some 4
    else if is_quote (byte_at 3 rest)
    then some 5
    else if is_quote (byte_at 4 rest)
    then some 6
    else none

unfoldable pub skip_non_code : Bytes → Option ℕ
unfolding skip_line_comment skip_block_comment skip_raw_string skip_string skip_char has_prefix
skip_non_code s =
    if has_prefix (b'/' ∷ (b'/' ∷ [])) s
    then some (skip_line_comment s)
    else if has_prefix (b'/' ∷ (b'*' ∷ [])) s
    then some (skip_block_comment 0 s)
    else if has_prefix (b'r' ∷ (b'"' ∷ [])) s || has_prefix (b'r' ∷ (b'#' ∷ [])) s
    then skip_raw_string s
    else if has_prefix (b'"' ∷ []) s
    then some (skip_string s)
    else if has_prefix (b'\'' ∷ []) s
    then skip_char s
    else none
