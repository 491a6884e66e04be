-- ===== src/GoText/Split.antt =====
-- strings.Split for a slash: no part has one.
use Prim.Native.Char.{Char, code}
use Prim.Native.String.{◌++◌ as join_text}
use Prim.Native.String.append
use herdr_client.Prelude.{
  ℕ, ◌≡◌, refl, ap, ◌∙◌, String, Bool, true, false, not, ◌&&◌, List, [], ◌∷◌, eqb, if_case, arith,
}
use herdr_client.GoText.{split, onto_head, all_codes}

abbrev is_no_slash : ℕ → Bool
is_no_slash c = not (eqb c b'/')

-- a text without a slash
abbrev pub no_slash : String → Bool
no_slash s = all_codes is_no_slash s

abbrev pub all_no_slash : List String → Bool
all_no_slash [] = true
all_no_slash (x ∷ xs) = no_slash x && all_no_slash xs

onto_head-all_no_slash :
    (c : Char) (parts : List String)
    → eqb (code c) b'/' ≡ false
    → all_no_slash parts ≡ true
    → all_no_slash (onto_head c parts) ≡ true
onto_head-all_no_slash c [] n h = ground arith
onto_head-all_no_slash c (p ∷ ps) n h = ground arith

pub split-all_no_slash : (s : String) → all_no_slash (split b'/' s) ≡ true
unfolding split
split-all_no_slash String.[] = refl
split-all_no_slash (String.◌∷◌ c s) =
    if_case {A = List String} (λ ps. all_no_slash ps ≡ true) (eqb (code c) b'/')
      (λ t. split-all_no_slash s)
      (λ f. onto_head-all_no_slash c (split b'/' s) f (split-all_no_slash s))

split-cons :
    (c : Char) (s : String)
    → eqb (code c) b'/' ≡ false
    → split b'/' (String.◌∷◌ c s) ≡ onto_head c (split b'/' s)
unfolding split
split-cons c s f = ground arith

-- a text without a slash is one part
pub split-no_slash : (x : String) → no_slash x ≡ true → split b'/' x ≡ x ∷ []
unfolding split
split-no_slash String.[] h = refl
split-no_slash (String.◌∷◌ c x) h =
    split-cons c x (ground arith) ∙ ap (onto_head c) (split-no_slash x (ground arith))

pub split-slash : (s : String) → split b'/' (join_text "/" s) ≡ "" ∷ split b'/' s
unfolding split
split-slash s =
    ap (split b'/') ((λ i. append.cons "/" "" s i) ∙ ap (String.◌∷◌ "/") (λ i. append.nil s i))

-- a text without a slash before a slash is the first part
pub split-join :
    (x s : String)
    → no_slash x ≡ true
    → split b'/' (join_text x (join_text "/" s)) ≡ x ∷ split b'/' s
split-join String.[] s h = ap (split b'/') (λ i. append.nil (join_text "/" s) i) ∙ split-slash s
split-join (String.◌∷◌ c x) s h =
    ap (split b'/') (λ i. append.cons c x (join_text "/" s) i)
    ∙ split-cons c (join_text x (join_text "/" s)) (ground arith)
    ∙ ap (onto_head c) (split-join x s (ground arith))
