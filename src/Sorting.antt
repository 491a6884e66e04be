-- ===== src/Sorting.antt =====
-- slices.Sort, slices.Sorted and sort.Strings, which the plugin runtime and the generator call, on names.
use Prim.Native.Char.{code}
use herdr_client.Prelude.{
  String, ◌==◌, ◌≡◌, refl, ap, ◌∙◌, Bool, true, false, ◌&&◌, ◌||◌, List, [], ◌∷◌, all, contains,
  ltb, eqb, if◌then◌else◌, arith,
}

-- the order of Go's strings, by code points as by the bytes of their encoding
unfoldable pub text_before : String → String → Bool
text_before String.[] t = true
text_before (String.◌∷◌ c s) String.[] = false
text_before (String.◌∷◌ c s) (String.◌∷◌ d t) =
    let rest = text_before s t in ltb (code c) (code d) || eqb (code c) (code d) && rest

unfoldable pub insert_name : String → List String → List String
insert_name x [] = x ∷ []
insert_name x (y ∷ ys) =
    let rest = insert_name x ys in if text_before x y then x ∷ (y ∷ ys) else y ∷ rest

unfoldable pub sort_names : List String → List String
unfolding insert_name
sort_names [] = []
sort_names (x ∷ xs) = insert_name x (sort_names xs)

contains-insert_name :
    (x : String) (ys : List String) (k : String)
    → contains (insert_name x ys) k ≡ (x == k || contains ys k)
unfolding insert_name
contains-insert_name x [] k = refl
contains-insert_name x (y ∷ ys) k = ground (arith, contains-insert_name x ys k)

pub contains-sort_names :
    (xs : List String) (k : String) → contains (sort_names xs) k ≡ contains xs k
unfolding sort_names
contains-sort_names [] k = refl
contains-sort_names (x ∷ xs) k =
    contains-insert_name x (sort_names xs) k ∙ ap (λ b. x == k || b) (contains-sort_names xs k)

all-insert_name :
    (p : String → Bool) (x : String) (ys : List String)
    → all p (insert_name x ys) ≡ (p x && all p ys)
unfolding insert_name
all-insert_name p x [] = refl
all-insert_name p x (y ∷ ys) = ground (arith, all-insert_name p x ys)

pub all-sort_names : (p : String → Bool) (xs : List String) → all p (sort_names xs) ≡ all p xs
unfolding sort_names
all-sort_names p [] = refl
all-sort_names p (x ∷ xs) =
    all-insert_name p x (sort_names xs) ∙ ap (λ b. p x && b) (all-sort_names p xs)

-- The plugins that New and the registrations make.
