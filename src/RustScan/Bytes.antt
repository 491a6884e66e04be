-- ===== src/RustScan/Bytes.antt =====
-- The functions of Go's strings package that internal/cmd/herdrsource/rust.go calls, on bytes. A
-- function that returns -1 for "not there" returns `none`.
use Prim.Native.Char.{code}
use herdr_client.Prelude.{
  ℕ, zero, suc, ◌+◌, ◌-◌, ◌≤◌, ◌≡◌, String, Bool, true, false, ◌&&◌, ◌||◌, Option, none, some, List,
  [], ◌∷◌, length, drop, any, eqb, if_case, if◌then◌else◌, arith,
}

abbrev pub Bytes : Type 0
Bytes = List ℕ

-- the bytes of an ASCII text
abbrev pub ascii : String → Bytes
ascii String.[] = []
ascii (String.◌∷◌ c s) = code c ∷ ascii s

abbrev pub one_later : Option ℕ → Option ℕ
one_later none = none
one_later (some n) = some (suc n)

-- strings.HasPrefix(s, p)
unfoldable pub has_prefix : Bytes → Bytes → Bool
has_prefix [] s = true
has_prefix (b ∷ p) [] = false
has_prefix (b ∷ p) (c ∷ s) = eqb b c && has_prefix p s

-- strings.IndexByte(s, b)
unfoldable pub index_byte : ℕ → Bytes → Option ℕ
index_byte b [] = none
index_byte b (c ∷ s) = let rest = one_later (index_byte b s) in if eqb c b then some 0 else rest

-- strings.Index(s, p), where p is not empty
unfoldable pub index_of : Bytes → Bytes → Option ℕ
unfolding has_prefix
index_of p [] = none
index_of p (c ∷ s) =
    let rest = one_later (index_of p s) in if has_prefix p (c ∷ s) then some 0 else rest

-- strings.ContainsAny(s, chars)
unfoldable pub contains_any : Bytes → Bytes → Bool
contains_any chars s = any (λ c. any (eqb c) chars) s

-- strings.Count(s, "\n")
unfoldable pub count_newlines : Bytes → ℕ
count_newlines [] = 0
count_newlines (c ∷ s) = (if eqb c 10 then 1 else 0) + count_newlines s

pub length-drop {ℓ} : {A : Type ℓ} (n : ℕ) (xs : List A) → length (drop n xs) ≡ length xs - n
length-drop zero xs = omega arith
length-drop (suc n) [] = omega arith
length-drop (suc n) (x ∷ xs) = omega (arith, length-drop n xs)

-- a position that is found, with what is found there, ends within a length
abbrev pub Within : ℕ → ℕ → Option ℕ → Type 0
Within size len none = Unit {0}
Within size len (some n) = n + size ≤ len

one_later-Within :
    (size len : ℕ) (o : Option ℕ) → Within size len o → Within size (suc len) (one_later o)
one_later-Within size len none h = tt
one_later-Within size len (some n) h = omega (arith, h)

pub index_byte-Within : (b : ℕ) (s : Bytes) → Within 1 (length s) (index_byte b s)
unfolding index_byte
index_byte-Within b [] = tt
index_byte-Within b (c ∷ s) =
    if_case (Within 1 (suc (length s))) (eqb c b) (λ found. omega arith)
      (λ other. one_later-Within 1 (length s) (index_byte b s) (index_byte-Within b s))

pub has_prefix-le : (p s : Bytes) → has_prefix p s ≡ true → length p ≤ length s
unfolding has_prefix
has_prefix-le [] s h = omega arith
has_prefix-le (b ∷ p) [] h = absurd (ground (arith, h))
has_prefix-le (b ∷ p) (c ∷ s) h = ground (arith, h, has_prefix-le p s)

pub index_of-Within : (p s : Bytes) → Within (length p) (length s) (index_of p s)
unfolding index_of
index_of-Within p [] = tt
index_of-Within p (c ∷ s) =
    if_case (Within (length p) (suc (length s))) (has_prefix p (c ∷ s))
      (λ here. omega (arith, has_prefix-le p (c ∷ s) here))
      (λ later. one_later-Within (length p) (length s) (index_of p s) (index_of-Within p s))

abbrev pub latest : Bool → Option ℕ → Option ℕ
latest here (some n) = some (suc n)
latest true none = some 0
latest false none = none

-- strings.LastIndex(s, p), where p is not empty
unfoldable pub last_index : Bytes → Bytes → Option ℕ
unfolding has_prefix
last_index p [] = none
last_index p (c ∷ s) = latest (has_prefix p (c ∷ s)) (last_index p s)

abbrev pub is_blank_byte : ℕ → Bool
is_blank_byte c = eqb c b' ' || eqb c b'\n' || eqb c b'\t' || eqb c b'\r'

-- how many blanks a text begins with
unfoldable pub count_blanks : Bytes → ℕ
count_blanks [] = 0
count_blanks (c ∷ s) = let rest = count_blanks s in if is_blank_byte c then suc rest else 0
