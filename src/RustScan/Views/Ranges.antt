-- ===== src/RustScan/Views/Ranges.antt =====
-- internal/cmd/herdrsource/rust.go: the writes of `source.split`, and how the two views of a text
-- stand to it.
use herdr_client.Prelude.{ℕ, zero, suc, ◌≡◌, sym, subst, [], ◌∷◌, length, eqb, if◌then◌else◌, arith}
use herdr_client.RustScan.Bytes.{Bytes}

-- what `blank` leaves of a byte: a line feed stays
abbrev pub blank_byte : ℕ → ℕ
blank_byte c = if eqb c b'\n' then c else b' '

-- `blank(from, to)`
unfoldable pub blank_range : ℕ → ℕ → Bytes → Bytes
blank_range zero zero out = out
blank_range (suc n) zero out = out
blank_range zero (suc m) [] = []
blank_range zero (suc m) (c ∷ out) = blank_byte c ∷ blank_range zero m out
blank_range (suc n) (suc m) [] = []
blank_range (suc n) (suc m) (c ∷ out) = c ∷ blank_range n m out

-- `copy(out[from:to], text[from:to])`
unfoldable pub copy_range : ℕ → ℕ → Bytes → Bytes → Bytes
copy_range zero zero text out = out
copy_range (suc n) zero text out = out
copy_range zero (suc m) [] out = out
copy_range zero (suc m) (t ∷ text) [] = []
copy_range zero (suc m) (t ∷ text) (c ∷ out) = t ∷ copy_range zero m text out
copy_range (suc n) (suc m) [] out = out
copy_range (suc n) (suc m) (t ∷ text) [] = []
copy_range (suc n) (suc m) (t ∷ text) (c ∷ out) = c ∷ copy_range n m text out

-- one byte of a text, and what the two views have at its place
pub data ByteSplit (c : ℕ) : ℕ → ℕ → Type 0 where
  in_production : ByteSplit c c (blank_byte c)
  in_tests : ByteSplit c (blank_byte c) c

-- a text and its two views, byte by byte: each byte stands in one and is blank in the other
pub data Complement : Bytes → Bytes → Bytes → Type 0 where
  nothing : Complement [] [] []
  byte :
      {c p t : ℕ} {cs ps ts : Bytes}
      → ByteSplit c p t
      → Complement cs ps ts
      → Complement (c ∷ cs) (p ∷ ps) (t ∷ ts)

blank_twice : (c : ℕ) → blank_byte (blank_byte c) ≡ blank_byte c
blank_twice c = ground (arith)

to_tests : {c p t : ℕ} → ByteSplit c p t → ByteSplit c (blank_byte p) c
to_tests in_production = in_tests
to_tests {c} in_tests = subst (λ p. ByteSplit c p c) (sym (blank_twice c)) in_tests

pub Complement-start : (text : Bytes) → Complement text text (blank_range 0 (length text) text)
unfolding blank_range
Complement-start [] = nothing
Complement-start (c ∷ text) = byte in_production (Complement-start text)

pub Complement-move :
    (from to : ℕ) {text production tests : Bytes}
    → Complement text production tests
    → Complement text (blank_range from to production) (copy_range from to text tests)
unfolding blank_range copy_range
Complement-move zero zero h = h
Complement-move (suc n) zero h = h
Complement-move zero (suc m) nothing = nothing
Complement-move zero (suc m) (byte b h) = byte (to_tests b) (Complement-move zero m h)
Complement-move (suc n) (suc m) nothing = nothing
Complement-move (suc n) (suc m) (byte b h) = byte b (Complement-move n m h)
