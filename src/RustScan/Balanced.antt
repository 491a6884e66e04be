-- ===== src/RustScan/Balanced.antt =====
-- internal/cmd/herdrsource/rust.go: groups and blocks. A function that takes `src` and an index takes
-- both here, and "", false is `none`.
use herdr_client.Prelude.{
  ℕ, zero, suc, ◌+◌, ◌-◌, ◌%◌, ◌^◌, ◌≤◌, ◌<◌, ◌≡◌, ◌≢◌, refl, sym, ap, ◌∙◌, Bool, true, false, ◌||◌,
  Option, none, some, List, [], ◌∷◌, ◌++◌, length, take, drop, eqb, if_case, if◌then◌else◌, arith,
}
use herdr_client.RustScan.Bytes.{Bytes}
use herdr_client.RustScan.Skip.{byte_at}
use herdr_client.RustScan.Walk.{
  byte_at-drop, Walked, stops, ends, out_of_fuel, walk, walk-StopsAt, StopsAt,
}

-- what a group holds, and the index behind it
abbrev pub Group : Type 0
Group = Bytes × ℕ

-- the loop returns where the depth is 0 again
abbrev pub closed_to : ℕ → Option ℕ
closed_to depth = if eqb depth 0 then none else some depth

-- the switch of `balanced`: one delimiter opens and one closes. The depth is an int of 64 bits, kept
-- modulo 2 ^ 64, since a closing one at depth 0 takes it below 0.
unfoldable pub count_delimiter : ℕ → ℕ → ℕ → ℕ → Option ℕ
count_delimiter oc cc depth c =
    if eqb c oc
    then some ((depth + 1) % 2 ^ 64)
    else if eqb c cc
    then closed_to ((depth + (2 ^ 64 - 1)) % 2 ^ 64)
    else some depth

-- the switch of `untilArmComma`
unfoldable pub count_arm : ℕ → ℕ → Option ℕ
count_arm depth c =
    if eqb c b'(' || eqb c b'[' || eqb c b'{'
    then some (depth + 1)
    else if eqb c b')' || eqb c b']' || eqb c b'}'
    then if eqb depth 0 then none else some (depth - 1)
    else if eqb c b','
    then if eqb depth 0 then none else some depth
    else some depth

abbrev pub group_to : Bytes → ℕ → Walked → Option Group
group_to src at (stops j) = some (take (j - (at + 1)) (drop (at + 1) src), j + 1)
group_to src at w = none

abbrev pub is_byte : ℕ → Option ℕ → Bool
is_byte b none = false
is_byte b (some c) = eqb c b

unfoldable pub balanced : Bytes → ℕ → ℕ → ℕ → Option Group
balanced src at oc cc =
    if is_byte oc (byte_at at src)
    then group_to src at (walk (count_delimiter oc cc) (length src) 0 at (drop at src))
    else none

unfoldable pub block_at : Bytes → ℕ → Option Group
unfolding balanced
block_at src at = balanced src at b'{' b'}'

unfoldable pub group_at : Bytes → ℕ → Option Group
unfolding balanced
group_at src at = balanced src at b'(' b')'

abbrev pub text_to : Bytes → ℕ → Walked → Option Bytes
text_to src start (stops j) = some (take (j - start) (drop start src))
text_to src start w = none

unfoldable pub until_arm_comma : Bytes → ℕ → Option Bytes
until_arm_comma src start = text_to src start (walk count_arm (length src) 0 start (drop start src))

count_delimiter-stops : (oc cc depth c : ℕ) → count_delimiter oc cc depth c ≡ none → c ≡ cc
unfolding count_delimiter
count_delimiter-stops oc cc depth c e = ground (arith, e)

-- a text around the byte at an index
pub take-byte_at-drop :
    (n : ℕ) (s : Bytes) (c : ℕ) → byte_at n s ≡ some c → s ≡ take n s ++ c ∷ drop (suc n) s
take-byte_at-drop n [] c e = absurd (ground (arith, e))
take-byte_at-drop zero (d ∷ s) c e = ground (arith, e)
take-byte_at-drop (suc n) (d ∷ s) c e = ap (◌∷◌ d) (take-byte_at-drop n s c e)

drop_none {ℓ} : {A : Type ℓ} (n : ℕ) → drop {A = A} n [] ≡ []
drop_none zero = refl
drop_none (suc n) = refl

pub drop-drop {ℓ} : {A : Type ℓ} (n m : ℕ) (s : List A) → drop m (drop n s) ≡ drop (n + m) s
drop-drop zero m s = ap (λ k. drop k s) (zero_left m)
  where
    zero_left : (a : ℕ) → a ≡ 0 + a
    zero_left a = omega arith
drop-drop (suc n) m [] = drop_none m ∙ sym (drop_none (suc n + m))
drop-drop (suc n) m (c ∷ s) = drop-drop n m s ∙ ap (λ k. drop k (c ∷ s)) (suc_later n m)
  where
    suc_later : (a b : ℕ) → suc (a + b) ≡ suc a + b
    suc_later a b = omega arith

-- the group stands in the source between its two delimiters
abbrev pub Encloses : Bytes → ℕ → ℕ → ℕ → Option Group → Type 0
Encloses src at oc cc none = Unit {0}
Encloses src at oc cc (some g) = src ≡ take at src ++ oc ∷ (g.0 ++ cc ∷ drop g.1 src)

some_inj : (a b : ℕ) → some a ≡ some b → a ≡ b
some_inj a b e = ground (arith, e)

group_to-Encloses :
    (src : Bytes) (at oc cc : ℕ) (w : Walked)
    → oc ≢ cc
    → byte_at at src ≡ some oc
    → StopsAt (count_delimiter oc cc) at (drop at src) w
    → Encloses src at oc cc (group_to src at w)
group_to-Encloses src at oc cc ends apart h k = tt
group_to-Encloses src at oc cc out_of_fuel apart h k = tt
group_to-Encloses src at oc cc (stops j) apart h (le, (c, (here, (depth, stopped)))) =
    take-byte_at-drop at src oc h
    ∙ ap (λ t. take at src ++ oc ∷ t)
        (take-byte_at-drop (j - (at + 1)) (drop (suc at) src) cc behind
          ∙ ap (λ t. take (j - (at + 1)) (drop (suc at) src) ++ cc ∷ t)
              (drop-drop (suc at) (suc (j - (at + 1))) src ∙ ap (λ k. drop k src) past)
          ∙ ap (λ k. take (j - (at + 1)) (drop k src) ++ cc ∷ drop (j + 1) src) (next at))
  where
    next : (n : ℕ) → suc n ≡ n + 1
    next n = omega arith

    at_j : byte_at j src ≡ some cc
    at_j =
        ap (λ k. byte_at k src) (sym (whole le))
        ∙ sym (byte_at-drop at (j - at) src)
        ∙ here
        ∙ ap some (count_delimiter-stops oc cc depth c stopped)
      where
        whole : at ≤ j → at + (j - at) ≡ j
        whole l = omega arith

    later : at < j
    later = ground (arith, le, distinct_places)
      where
        distinct_places : at ≢ j
        distinct_places e = apart (some_inj oc cc (sym h ∙ ap (λ k. byte_at k src) e ∙ at_j))

    past : suc at + suc (j - (at + 1)) ≡ j + 1
    past = omega (arith, later)

    behind : byte_at (j - (at + 1)) (drop (suc at) src) ≡ some cc
    behind =
        byte_at-drop (suc at) (j - (at + 1)) src
        ∙ ap (λ k. byte_at k src) (omega (arith, later))
        ∙ at_j

is_byte-some : (b : ℕ) (o : Option ℕ) → is_byte b o ≡ true → o ≡ some b
is_byte-some b none h = absurd (ground (arith, h))
is_byte-some b (some c) h = ground (arith, h)

-- Where `balanced` finds the group of two different delimiters, the source is what stands before the
-- opening one, the opening one, what the group holds, the closing one, and the rest from the index
-- that it returns.
pub balanced-Encloses :
    (src : Bytes) (at oc cc : ℕ) → oc ≢ cc → Encloses src at oc cc (balanced src at oc cc)
unfolding balanced
balanced-Encloses src at oc cc apart =
    if_case (Encloses src at oc cc) (is_byte oc (byte_at at src))
      (λ opens.
        group_to-Encloses src at oc cc _ apart (is_byte-some oc (byte_at at src) opens)
          (walk-StopsAt (count_delimiter oc cc) (length src) 0 at (drop at src)))
      (λ other. tt)
