-- ===== src/Prelude/Lists.antt =====
-- Lists measured by native numbers, and lists of names.
use Prim.Native.Nat.{ℕ, zero, suc}
use Prim.Native.String.{String}
use mathlib.Core.Path.{◌≡◌, refl}
use mathlib.Core.Bool.{Bool, true, false, not, ◌&&◌, ◌||◌}
use mathlib.Core.List.{List, [], ◌∷◌, ◌++◌, append-nil}
use native.Mathlib.Omega.{arith}
use text.Mathlib.Text.{◌==◌}
use text.Mathlib.TextEquality.{eq_iff}
use herdr_client.Prelude.Tests.{if◌then◌else◌}

module _ {ℓ} {A : Type ℓ} where
  abbrev pub length : List A → ℕ
  length [] = 0
  length (x ∷ xs) = suc (length xs)

  abbrev pub take : ℕ → List A → List A
  take zero xs = []
  take (suc n) [] = []
  take (suc n) (x ∷ xs) = x ∷ take n xs

  abbrev pub drop : ℕ → List A → List A
  drop zero xs = xs
  drop (suc n) [] = []
  drop (suc n) (x ∷ xs) = drop n xs

  -- The library's `any` and `all` do not compute in tests.
  abbrev pub any : (A → Bool) → List A → Bool
  any p [] = false
  any p (x ∷ xs) = p x || any p xs

  abbrev pub all : (A → Bool) → List A → Bool
  all p [] = true
  all p (x ∷ xs) = p x && all p xs

  abbrev pub All {κ} : (A → Type κ) → List A → Type κ
  All P [] = Unit
  All P (x ∷ xs) = P x × All P xs

-- slices.Contains
abbrev pub contains : List String → String → Bool
contains [] s = false
contains (x ∷ xs) s = x == s || contains xs s

-- no name stands twice
abbrev pub distinct : List String → Bool
distinct [] = true
distinct (x ∷ xs) = not (contains xs x) && distinct xs

-- the list without every occurrence of a name
abbrev pub without : String → List String → List String
without s [] = []
without s (x ∷ xs) = let rest = without s xs in if x == s then rest else x ∷ rest

pub contains-append :
    (xs ys : List String) (s : String) → contains (xs ++ ys) s ≡ (contains xs s || contains ys s)
contains-append [] ys s = ground arith
contains-append (x ∷ xs) ys s = ground (arith, contains-append xs ys s)

pub contains-without :
    (xs : List String) (k s : String)
    → contains (without k xs) s ≡ (if k == s then false else contains xs s)
contains-without [] k s = ground arith
contains-without (x ∷ xs) k s =
    ground (arith, contains-without xs k s, eq_iff x k, eq_iff x s, eq_iff k s)

pub distinct-without :
    (xs : List String) (k : String) → distinct xs ≡ true → distinct (without k xs) ≡ true
distinct-without [] k h = ground arith
distinct-without (x ∷ xs) k h =
    ground (arith, distinct-without xs k, contains-without xs k x, eq_iff x k)

pub distinct-snoc :
    (xs : List String) (s : String)
    → distinct xs ≡ true
    → contains xs s ≡ false
    → distinct (xs ++ s ∷ []) ≡ true
distinct-snoc [] s d h = ground arith
distinct-snoc (x ∷ xs) s d h =
    ground (arith, distinct-snoc xs s, contains-append xs (s ∷ []) x, eq_iff x s, eq_iff s x)

pub distinct-middle :
    (xs ys : List String) (s : String)
    → distinct (xs ++ s ∷ ys) ≡ (not (contains (xs ++ ys) s) && distinct (xs ++ ys))
distinct-middle [] ys s = refl
distinct-middle (x ∷ xs) ys s = ground (
  arith,
  distinct-middle xs ys s,
  contains-append xs (s ∷ ys) x,
  contains-append xs ys x,
  eq_iff x s,
  eq_iff s x,
)

-- The order of two parts makes no difference to whether a name stands twice.
pub distinct_comm : (xs ys : List String) → distinct (xs ++ ys) ≡ distinct (ys ++ xs)
distinct_comm [] ys = rw append-nil
distinct_comm (x ∷ xs) ys = ground (
  arith,
  distinct_comm xs ys,
  distinct-middle ys xs x,
  contains-append xs ys x,
  contains-append ys xs x,
)

-- A list put in at a position holds the names of both, and each once if no name stands in both.
pub contains-splice :
    (n : ℕ) (xs ys : List String) (s : String)
    → contains (take n xs ++ (ys ++ drop n xs)) s ≡ (contains xs s || contains ys s)
contains-splice zero xs ys s = ground (arith, contains-append ys xs s)
contains-splice (suc n) [] ys s = ground (arith, contains-append ys [] s)
contains-splice (suc n) (x ∷ xs) ys s = ground (arith, contains-splice n xs ys s)

pub distinct-splice :
    (n : ℕ) (xs ys : List String) → distinct (take n xs ++ (ys ++ drop n xs)) ≡ distinct (xs ++ ys)
distinct-splice zero xs ys = distinct_comm ys xs
distinct-splice (suc n) [] ys = rw append-nil
distinct-splice (suc n) (x ∷ xs) ys =
    ground (arith, distinct-splice n xs ys, contains-splice n xs ys x, contains-append xs ys x)
