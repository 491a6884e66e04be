-- ===== src/Generator/Reach/Fuel.antt =====
-- internal/gen/ir.go: a search through n names visits no more than n names for the first time.
use herdr_client.Prelude.{
  ℕ, zero, suc, ◌+◌, ◌≤◌, ◌<◌, ◌≡◌, ◌≢◌, refl, sym, subst, String, ◌==◌, eq_iff, Bool, true, false,
  List, [], ◌∷◌, length, contains, if◌then◌else◌, arith,
}
use herdr_client.Generator.Reach.Search.{
  Visited, reached, exhausted, searched, Route, then_visit, visit_each, visit_turn, visit,
  is_reached, reaches,
}
use herdr_client.Generator.Reach.Closed.{
  Within, Explored, visit-Explored, searched-no_Route, one_member,
}

-- how many of the names have not been seen
abbrev pub unseen : List String → List String → ℕ
unseen [] seen = 0
unseen (x ∷ xs) seen = (if contains seen x then 0 else 1) + unseen xs seen

unseen-le : (xs seen later : List String) → Within seen later → unseen xs later ≤ unseen xs seen
unseen-le [] seen later h = omega arith
unseen-le (x ∷ xs) seen later h = ground (arith, unseen-le xs seen later h, h x)

-- a name that is seen for the first time
unseen-lt :
    (xs : List String) (x : String) (seen : List String)
    → contains xs x ≡ true
    → contains seen x ≡ false
    → unseen xs (x ∷ seen) < unseen xs seen
unseen-lt [] x seen h k = absurd (ground (arith, h))
unseen-lt (y ∷ ys) x seen h k =
    ground
      (arith, h, k, eq_iff y x, eq_iff x y, unseen-lt ys x seen, unseen-le ys seen (x ∷ seen) more)
  where
    more : Within seen (x ∷ seen)
    more z e = ground (arith, e)

unseen-length : (xs : List String) → unseen xs [] ≤ length xs
unseen-length [] = omega arith
unseen-length (x ∷ xs) = ground (arith, unseen-length xs)

module _ (graph : String → List String) (want : String) (names : List String)
    (inside : (x : String) → Within (graph x) names) where
  visit_each-total :
      (next : List String → String → Visited) (room : ℕ)
      → ((seen : List String) (x : String)
          → contains names x ≡ true
          → unseen names seen ≤ room
          → next seen x ≢ exhausted)
      → ((seen : List String) (x : String) → Explored graph want seen (x ∷ []) (next seen x))
      → (seen ys : List String) → Within ys names
      → unseen names seen ≤ room
      → visit_each graph want next seen ys ≢ exhausted
  visit_each-total next room one grows seen [] h le = λ e. ground (arith, e)
  visit_each-total next room one grows seen (y ∷ ys) h le =
      go (next seen y) (one seen y (h y (ground (arith, eq_iff y y))) le) (grows seen y) (λ later k.
        visit_each-total next room one grows later ys (λ x e. h x (ground (arith, e))) k)
    where
      go :
          (v : Visited)
          → v ≢ exhausted
          → Explored graph want seen (y ∷ []) v
          → ((later : List String)
              → unseen names later ≤ room
              → visit_each graph want next later ys ≢ exhausted)
          → then_visit (λ later. visit_each graph want next later ys) v ≢ exhausted
      go reached n g more = n
      go exhausted n g more = n
      go (searched later) n g more =
          more later (omega (arith, unseen-le names seen later g.0.0, le))

  visit-total :
      (fuel : ℕ) (seen : List String) (x : String)
      → contains names x ≡ true
      → unseen names seen < fuel
      → visit graph want fuel seen x ≢ exhausted
  unfolding visit
  visit-total zero seen x h lt = λ e. omega (arith, lt)
  visit-total (suc fuel) seen x h lt =
      turn (λ s y k l. visit-total fuel s y k l) (x == want) (contains seen x) refl
    where
      next : List String → String → Visited
      next s n = visit graph want fuel s n

      turn :
          ((s : List String) (y : String)
            → contains names y ≡ true
            → unseen names s < fuel
            → next s y ≢ exhausted)
          → (wanted known : Bool) → contains seen x ≡ known
          → visit_turn graph want next seen x wanted known ≢ exhausted
      turn more true known k = λ e. ground (arith, e)
      turn more false true k = λ e. ground (arith, e)
      turn more false false k =
          visit_each-total next (unseen names (x ∷ seen))
            (λ s y m l. more s y m (omega (arith, l, lt, unseen-lt names x seen h k)))
            (λ s y. visit-Explored graph want fuel s y) (x ∷ seen) (graph x) (inside x)
            (omega arith)

-- Between names of a list, `reaches` with the length of the list says whether a way leads from the
-- first one to the other.
pub reaches_iff :
    (graph : String → List String) (names : List String) (from want : String)
    → ((x : String) → Within (graph x) names)
    → contains names from ≡ true
    → (reaches (length names) graph from want ≡ true → Route graph want from)
      × (Route graph want from → reaches (length names) graph from want ≡ true)
unfolding reaches
reaches_iff graph names from want inside h =
    go (visit graph want (length names + 1) [] from)
      (visit-Explored graph want (length names + 1) [] from)
      (visit-total graph want names inside (length names + 1) [] from h
        (omega (arith, unseen-length names)))
  where
    go :
        (v : Visited)
        → Explored graph want [] (from ∷ []) v
        → v ≢ exhausted
        → (is_reached v ≡ true → Route graph want from)
          × (Route graph want from → is_reached v ≡ true)
    go reached e n =
        (λ b. subst (Route graph want) (sym (one_member e.0 from e.1.0)) e.1.1, λ r. refl)
    go exhausted e n = absurd (n refl)
    go (searched later) e n = (
      λ b. absurd (ground (arith, b)),
      λ r. absurd (
          searched-no_Route graph want later e.0 from (e.1 from (ground (arith, eq_iff from from)))
            r),
    )
