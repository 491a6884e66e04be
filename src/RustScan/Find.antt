-- ===== src/RustScan/Find.antt =====
-- The searches of Go's strings package in internal/cmd/herdrsource/rust.go: what stands before, at and
-- behind the place that is found.
use herdr_client.Prelude.{
  ℕ, zero, suc, ◌≡◌, refl, ap, Bool, true, false, Option, none, some, [], ◌∷◌, ◌++◌, length, take,
  drop, all, eqb, if_case, arith,
}
use herdr_client.RustScan.Bytes.{
  Bytes, has_prefix, index_byte, index_of, one_later, latest, last_index, contains_any,
  is_blank_byte, count_blanks,
}

pub drop-after : (n : ℕ) (s x : Bytes) → s ≡ take n s ++ x → drop n s ≡ x
drop-after zero s x h = h
drop-after (suc n) [] x h = h
drop-after (suc n) (c ∷ s) x h = drop-after n s x (ap (drop 1) h)

-- a byte that is found stands there, and not before
abbrev pub ByteFound : ℕ → Bytes → Option ℕ → Type 0
ByteFound b s none = Unit {0}
ByteFound b s (some n) =
    (s ≡ take n s ++ b ∷ drop (suc n) s) × (contains_any (b ∷ []) (take n s) ≡ false)

one_later-ByteFound :
    (b c : ℕ) (s : Bytes) (o : Option ℕ)
    → eqb c b ≡ false
    → ByteFound b s o
    → ByteFound b (c ∷ s) (one_later o)
unfolding contains_any
one_later-ByteFound b c s none e h = tt
one_later-ByteFound b c s (some n) e (h, k) = (ap (◌∷◌ c) h, ground (arith, e, k))

pub index_byte-ByteFound : (b : ℕ) (s : Bytes) → ByteFound b s (index_byte b s)
unfolding index_byte contains_any
index_byte-ByteFound b [] = tt
index_byte-ByteFound b (c ∷ s) =
    if_case (ByteFound b (c ∷ s)) (eqb c b) (λ t. (ground (arith, t), refl))
      (λ f. one_later-ByteFound b c s (index_byte b s) f (index_byte-ByteFound b s))

has_prefix-drop : (p s : Bytes) → has_prefix p s ≡ true → s ≡ p ++ drop (length p) s
unfolding has_prefix
has_prefix-drop [] s h = refl
has_prefix-drop (b ∷ p) [] h = absurd (ground (arith, h))
has_prefix-drop (b ∷ p) (c ∷ s) h = ground (arith, h, has_prefix-drop p s)

pub has_prefix-take : (p s : Bytes) (n : ℕ) → has_prefix p (take n s) ≡ true → has_prefix p s ≡ true
unfolding has_prefix
has_prefix-take [] s n h = refl
has_prefix-take (b ∷ p) s zero h = absurd (ground (arith, h))
has_prefix-take (b ∷ p) [] (suc n) h = absurd (ground (arith, h))
has_prefix-take (b ∷ p) (c ∷ s) (suc n) h = ground (arith, h, has_prefix-take p s n)

-- a text that is found stands there, and not before
abbrev pub TextFound : Bytes → Bytes → Option ℕ → Type 0
TextFound p s none = Unit {0}
TextFound p s (some n) =
    (s ≡ take n s ++ (p ++ drop (length p) (drop n s))) × (index_of p (take n s) ≡ none)

one_later-none : (o : Option ℕ) → o ≡ none → one_later o ≡ none
one_later-none o h = ap one_later h

index_of-none :
    (p : Bytes) (c : ℕ) (s : Bytes)
    → has_prefix p (c ∷ s) ≡ false
    → index_of p s ≡ none
    → index_of p (c ∷ s) ≡ none
unfolding index_of
index_of-none p c s h k =
    if_case (λ o. o ≡ none) (has_prefix p (c ∷ s)) (λ t. absurd (ground (arith, h, t)))
      (λ f. one_later-none (index_of p s) k)

absent-take : (p s : Bytes) (n : ℕ) → has_prefix p s ≡ false → has_prefix p (take n s) ≡ false
absent-take p s n h = ground (arith, h, has_prefix-take p s n)

one_later-TextFound :
    (p : Bytes) (c : ℕ) (s : Bytes) (o : Option ℕ)
    → has_prefix p (c ∷ s) ≡ false
    → TextFound p s o
    → TextFound p (c ∷ s) (one_later o)
one_later-TextFound p c s none e h = tt
one_later-TextFound p c s (some n) e (h, k) =
    (ap (◌∷◌ c) h, index_of-none p c (take n s) (absent-take p (c ∷ s) (suc n) e) k)

pub index_of-TextFound : (p s : Bytes) → TextFound p s (index_of p s)
unfolding index_of
index_of-TextFound p [] = tt
index_of-TextFound p (c ∷ s) =
    if_case (TextFound p (c ∷ s)) (has_prefix p (c ∷ s)) (λ t. (has_prefix-drop p (c ∷ s) t, refl))
      (λ f. one_later-TextFound p c s (index_of p s) f (index_of-TextFound p s))

-- a text that is found last stands there, and not behind
abbrev pub LastFound : Bytes → Bytes → Option ℕ → Type 0
LastFound p s none = index_of p s ≡ none
LastFound p s (some n) = (has_prefix p (drop n s) ≡ true) × (index_of p (drop (suc n) s) ≡ none)

latest-LastFound :
    (p : Bytes) (c : ℕ) (s : Bytes) (b : Bool) (o : Option ℕ)
    → has_prefix p (c ∷ s) ≡ b
    → LastFound p s o
    → LastFound p (c ∷ s) (latest b o)
latest-LastFound p c s b (some n) e h = h
latest-LastFound p c s true none e h = (e, h)
latest-LastFound p c s false none e h = index_of-none p c s e h

pub last_index-LastFound : (p s : Bytes) → LastFound p s (last_index p s)
unfolding last_index index_of
last_index-LastFound p [] = refl
last_index-LastFound p (c ∷ s) =
    latest-LastFound p c s (has_prefix p (c ∷ s)) (last_index p s) refl (last_index-LastFound p s)

abbrev pub starts_blank : Bytes → Bool
starts_blank [] = false
starts_blank (c ∷ s) = is_blank_byte c

abbrev BlanksTo : Bytes → ℕ → Type 0
BlanksTo s n = (all is_blank_byte (take n s) ≡ true) × (starts_blank (drop n s) ≡ false)

pub count_blanks-BlanksTo : (s : Bytes) → BlanksTo s (count_blanks s)
unfolding count_blanks
count_blanks-BlanksTo [] = (refl, refl)
count_blanks-BlanksTo (c ∷ s) =
    if_case (BlanksTo (c ∷ s)) (is_blank_byte c)
      (λ t. (ground (arith, t, (count_blanks-BlanksTo s).0), (count_blanks-BlanksTo s).1))
      (λ f. (refl, f))
