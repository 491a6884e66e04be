-- ===== src/Plugin/Below.antt =====
-- plugin/state.go: the paths that joinInside returns.
use herdr_client.Prelude.{
  ◌≡◌, refl, sym, ap, ◌∙◌, subst, String, ◌==◌, eq_iff, Bool, true, false, not, ◌||◌, Option, none,
  some, List, [], ◌∷◌, ◌++◌, if_case, if◌then◌else◌, arith,
}
use Prim.Native.String.{◌++◌ as join_text}
use herdr_client.GoText.{split}
use herdr_client.GoText.Split.{split-no_slash, split-slash, split-join}
use herdr_client.Plugin.Paths.{
  CleanPath, clean, slashed, path_text, climbing, relative, escapes, Joined, joined, refused,
  leaves_at_once, same_kind, checked_path, join_inside,
}
use herdr_client.Plugin.Clean.{
  plain, all_names, clean-all_names, normal, clean-normal, append-normal, stays-plain,
}

-- a way that starts where two paths part escapes
parting-escapes :
    (b : String) (ts : List String) → escapes (if b == ".." then none else some (".." ∷ ts)) ≡ true
parting-escapes b ts =
    if_case {A = Option (List String)} (λ o. escapes o ≡ true) (b == "..") (λ t. refl) (λ f. refl)

abbrev HasStart : List String → List String → Type 0
HasStart bs ts = (rest : List String) × ((ts ≡ bs ++ rest) × (escapes (some rest) ≡ false))

abbrev StaysBelow : List String → List String → Option (List String) → Type 0
StaysBelow bs ts o = escapes o ≡ false → HasStart bs ts

both-HasStart :
    (b t : String) (bs ts : List String)
    → (b == t) ≡ true
    → HasStart bs ts
    → HasStart (b ∷ bs) (t ∷ ts)
both-HasStart b t bs ts e (rest, (h, k)) = (rest, (heads rest ((eq_iff b t).0 e) h, k))
  where
    heads : (rest : List String) → b ≡ t → ts ≡ bs ++ rest → (t ∷ ts) ≡ (b ∷ bs) ++ rest
    heads rest e h = cc

relative-StaysBelow : (bs ts : List String) → StaysBelow bs ts (relative bs ts)
unfolding relative
relative-StaysBelow [] ts = λ h. (ts, (refl, h))
relative-StaysBelow (b ∷ bs) [] = λ h. absurd (ground (arith, parting-escapes b (climbing bs [])))
relative-StaysBelow (b ∷ bs) (t ∷ ts) =
    if_case {A = Option (List String)} (StaysBelow (b ∷ bs) (t ∷ ts)) (b == t)
      (λ e h. both-HasStart b t bs ts e (relative-StaysBelow bs ts h))
      (λ e h. absurd (ground (arith, parting-escapes b (climbing bs (t ∷ ts)))))

-- The path of a text, below a directory: its elements are names, those of the cleaned directory first,
-- and none of those behind them is two dots.
pub record IsBelow (dir text : String) : Type 0 where
  pub path : CleanPath
  pub is_text : text ≡ path_text path
  pub kind : path.rooted ≡ (clean dir).rooted
  pub rest : List String
  pub below : path.elements ≡ (clean dir).elements ++ rest
  pub stays : plain rest ≡ true
  pub names : all_names path.elements ≡ true

split-slashed :
    (x : String) (xs : List String)
    → all_names (x ∷ xs) ≡ true
    → split b'/' (slashed (x ∷ xs)) ≡ x ∷ xs
split-slashed x [] h = split-no_slash x (ground arith)
split-slashed x (y ∷ ys) h =
    split-join x (slashed (y ∷ ys)) (ground arith) ∙ ap (◌∷◌ x) (split-slashed y ys (ground arith))

-- the elements of an absolute path of names are the parts of its text
pub split-path_text :
    (p : CleanPath) (x : String) (xs : List String)
    → p.rooted ≡ true
    → p.elements ≡ x ∷ xs
    → all_names p.elements ≡ true
    → split b'/' (path_text p) ≡ "" ∷ x ∷ xs
unfolding path_text
split-path_text p x xs r e n =
    ap (split b'/') text
    ∙ split-slash (slashed (x ∷ xs))
    ∙ ap (◌∷◌ "") (split-slashed x xs (ap all_names (sym e) ∙ n))
  where
    text : path_text p ≡ join_text "/" (slashed (x ∷ xs))
    text = if_of p.rooted r ∙ ap (λ es. join_text "/" (slashed es)) e
      where
        if_of :
            (b : Bool)
            → b ≡ true
            → (if b
                then join_text "/" (slashed p.elements)
                else if slashed p.elements == ""
                then "."
                else slashed p.elements)
              ≡ join_text "/" (slashed p.elements)
        if_of true t = refl
        if_of false t = absurd (ground arith)

abbrev StandsBelow : String → Joined → Type 0
StandsBelow dir (refused e) = Unit {0}
StandsBelow dir (joined text) = IsBelow dir text

same_kind-same : (a b : Bool) → same_kind a b ≡ true → b ≡ a
same_kind-same a b h = ground arith

checked_path-StandsBelow :
    (dir : String) (path : CleanPath)
    → normal path.elements ≡ true
    → all_names path.elements ≡ true
    → StandsBelow dir (checked_path (clean dir) path)
checked_path-StandsBelow dir path n names =
    if_case {A = Joined} (StandsBelow dir)
      (not (same_kind (clean dir).rooted path.rooted)
        || escapes (relative (clean dir).elements path.elements))
      (λ t. tt)
      (λ f.
        to_below (relative-StaysBelow (clean dir).elements path.elements (ground arith))
          (ground arith))
  where
    to_below :
        HasStart (clean dir).elements path.elements
        → path.rooted ≡ (clean dir).rooted
        → IsBelow dir (path_text path)
    to_below (rest, (h, e)) k = record {
      path = path;
      is_text = refl;
      kind = k;
      rest = rest;
      below = h;
      stays =
          stays-plain rest
            (append-normal (clean dir).elements rest (subst (λ ts. normal ts ≡ true) h n)) e;
      names = names;
    }

-- A path that joinInside returns for a name is the text of a path of the kind of the directory, absolute
-- or not, whose elements are those of the cleaned directory with others behind them; every element is
-- a name without a slash, not empty and not one dot, and none of the others is two dots.
pub join_inside-IsBelow :
    (dir : String) (n : String) (ns : List String) (text : String)
    → join_inside dir (n ∷ ns) ≡ joined text
    → IsBelow dir text
unfolding join_inside
join_inside-IsBelow dir n ns text h = subst (StandsBelow dir) h (below)
  where
    below : StandsBelow dir (join_inside dir (n ∷ ns))
    below =
        if_case {A = Joined} (StandsBelow dir) (dir == "") (λ t. tt)
          (λ f.
            if_case {A = Joined} (StandsBelow dir) (leaves_at_once (n ∷ ns)) (λ t. tt)
              (λ g.
                checked_path-StandsBelow dir (clean (slashed (dir ∷ n ∷ ns)))
                  (clean-normal (slashed (dir ∷ n ∷ ns)))
                  (clean-all_names (slashed (dir ∷ n ∷ ns)))))
