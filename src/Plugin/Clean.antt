-- ===== src/Plugin/Clean.antt =====
-- plugin/state.go: the elements of a path that filepath.Clean returns.
use herdr_client.Prelude.{
  ◌≡◌, refl, String, ◌==◌, Bool, true, false, not, ◌&&◌, ◌||◌, some, List, [], ◌∷◌, ◌++◌,
  if◌then◌else◌, arith,
}
use herdr_client.GoText.{split}
use herdr_client.GoText.Split.{no_slash, all_no_slash, split-all_no_slash}
use herdr_client.Plugin.Paths.{
  is_rooted, climb, clean_element, turned, clean_elements, clean, escapes,
}

-- no element climbs
abbrev pub plain : List String → Bool
plain [] = true
plain (x ∷ xs) = not (x == "..") && plain xs

-- every element is a name: not empty, not one dot, and without a slash
abbrev pub all_names : List String → Bool
all_names [] = true
all_names (x ∷ xs) = (not (x == "" || x == ".") && no_slash x) && all_names xs

climb-all_names :
    (rooted : Bool) (done : List String)
    → all_names done ≡ true
    → all_names (climb rooted done) ≡ true
climb-all_names true [] h = refl
climb-all_names false [] h = refl
climb-all_names rooted (x ∷ xs) h = ground (arith)

clean_element-all_names :
    (rooted : Bool) (e : String) (done : List String)
    → no_slash e ≡ true
    → all_names done ≡ true
    → all_names (clean_element rooted e done) ≡ true
clean_element-all_names rooted e done n h = ground (arith, climb-all_names rooted done h)

turned-all_names :
    (xs ys : List String)
    → all_names xs ≡ true
    → all_names ys ≡ true
    → all_names (turned xs ys) ≡ true
turned-all_names [] ys h k = k
turned-all_names (x ∷ xs) ys h k = turned-all_names xs (x ∷ ys) (ground arith) (ground arith)

clean_elements-all_names :
    (rooted : Bool) (done es : List String)
    → all_names done ≡ true
    → all_no_slash es ≡ true
    → all_names (clean_elements rooted done es) ≡ true
unfolding clean_elements
clean_elements-all_names rooted done [] h n = turned-all_names done [] h refl
clean_elements-all_names rooted done (e ∷ es) h n =
    clean_elements-all_names rooted (clean_element rooted e done) es
      (clean_element-all_names rooted e done (ground arith) h) (ground arith)

pub clean-all_names : (text : String) → all_names (clean text).elements ≡ true
unfolding clean
clean-all_names text =
    clean_elements-all_names (is_rooted text) [] (split b'/' text) refl (split-all_no_slash text)

-- every element climbs
abbrev all_dots : List String → Bool
all_dots [] = true
all_dots (x ∷ xs) = x == ".." && all_dots xs

-- only elements at the start climb
abbrev pub normal : List String → Bool
normal [] = true
normal (x ∷ xs) = if x == ".." then normal xs else plain xs

-- the same of a path with its last element first
abbrev turned_normal : List String → Bool
turned_normal [] = true
turned_normal (x ∷ xs) = if x == ".." then all_dots xs else turned_normal xs

all_dots-turned_normal : (xs : List String) → all_dots xs ≡ true → turned_normal xs ≡ true
all_dots-turned_normal [] h = refl
all_dots-turned_normal (x ∷ xs) h = ground (arith)

plain-normal : (xs : List String) → plain xs ≡ true → normal xs ≡ true
plain-normal [] h = refl
plain-normal (x ∷ xs) h = ground (arith)

normal-tail : (x : String) (xs : List String) → normal (x ∷ xs) ≡ true → normal xs ≡ true
normal-tail x xs h = ground (arith, plain-normal xs)

climb-turned_normal :
    (rooted : Bool) (done : List String)
    → turned_normal done ≡ true
    → turned_normal (climb rooted done) ≡ true
climb-turned_normal true [] h = refl
climb-turned_normal false [] h = refl
climb-turned_normal rooted (x ∷ xs) h = ground (arith)

clean_element-turned_normal :
    (rooted : Bool) (e : String) (done : List String)
    → turned_normal done ≡ true
    → turned_normal (clean_element rooted e done) ≡ true
clean_element-turned_normal rooted e done h = ground (arith, climb-turned_normal rooted done h)

turned-normal :
    (xs ys : List String)
    → turned_normal xs ≡ true
    → normal ys ≡ true
    → (all_dots xs || plain ys) ≡ true
    → normal (turned xs ys) ≡ true
turned-normal [] ys h n k = n
turned-normal (x ∷ xs) ys h n k =
    turned-normal xs (x ∷ ys) (ground (arith, all_dots-turned_normal xs)) (ground arith)
      (ground arith)

clean_elements-normal :
    (rooted : Bool) (done es : List String)
    → turned_normal done ≡ true
    → normal (clean_elements rooted done es) ≡ true
unfolding clean_elements
clean_elements-normal rooted done [] h = turned-normal done [] h refl (ground arith)
clean_elements-normal rooted done (e ∷ es) h =
    clean_elements-normal rooted (clean_element rooted e done) es
      (clean_element-turned_normal rooted e done h)

pub clean-normal : (text : String) → normal (clean text).elements ≡ true
unfolding clean
clean-normal text = clean_elements-normal (is_rooted text) [] (split b'/' text) refl

pub append-normal : (bs rest : List String) → normal (bs ++ rest) ≡ true → normal rest ≡ true
append-normal [] rest h = h
append-normal (b ∷ bs) rest h = append-normal bs rest (normal-tail b (bs ++ rest) h)

pub stays-plain :
    (rest : List String) → normal rest ≡ true → escapes (some rest) ≡ false → plain rest ≡ true
stays-plain [] n h = refl
stays-plain (x ∷ xs) n h = ground (arith)
