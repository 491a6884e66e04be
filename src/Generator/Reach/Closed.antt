-- ===== src/Generator/Reach/Closed.antt =====
-- internal/gen/ir.go: what `reaches` has seen when it ends.
use herdr_client.Prelude.{
  ℕ, zero, suc, ◌≡◌, ◌≢◌, ◌⊎◌, inl, inr, refl, sym, subst, String, ◌==◌, eq_iff, Bool, true, false,
  List, [], ◌∷◌, contains, arith,
}
use herdr_client.Generator.Reach.Search.{
  Visited, reached, exhausted, searched, Route, arrived, via, then_visit, visit_each, visit_turn,
  visit,
}

-- every name of the first list stands in the second
abbrev pub Within : List String → List String → Type 0
Within xs ys = (x : String) → contains xs x ≡ true → contains ys x ≡ true

pub member_cons :
    (x y : String) (ys : List String)
    → contains (y ∷ ys) x ≡ true
    → (y ≡ x) ⊎ (contains ys x ≡ true)
member_cons x y ys h = ground (arith, h, eq_iff y x)

member_head :
    (x y : String) (ys : List String) → contains (y ∷ []) x ≡ true → contains (y ∷ ys) x ≡ true
member_head x y ys h = ground (arith, h)

pub member_tail :
    (x y : String) (ys : List String) → contains ys x ≡ true → contains (y ∷ ys) x ≡ true
member_tail x y ys h = ground (arith, h)

pub member_one : (x y : String) → y ≡ x → contains (y ∷ []) x ≡ true
member_one x y h = ground (arith, (eq_iff y x).1 h)

pub one_member : (x y : String) → contains (y ∷ []) x ≡ true → y ≡ x
one_member x y h = ground (arith, h, eq_iff y x)

module _ (graph : String → List String) (want : String) where
  -- a name that has been left behind: it is not the one looked for, and its successors have been seen
  abbrev pub Left : List String → String → Type 0
  Left later x = (x ≢ want) × Within (graph x) later

  -- what is seen later includes what was seen, and the new names have been left behind
  abbrev pub Grown : List String → List String → Type 0
  Grown seen later =
      Within seen later
      × ((x : String) → contains later x ≡ true → (contains seen x ≡ true) ⊎ Left later x)

  Grown-refl : (seen : List String) → Grown seen seen
  Grown-refl seen = (λ x h. h, λ x h. inl h)

  Grown-trans : (a b c : List String) → Grown a b → Grown b c → Grown a c
  Grown-trans a b c (ab, new_b) (bc, new_c) = (λ x h. bc x (ab x h), λ x h. later x (new_c x h))
    where
      earlier : (x : String) → (contains a x ≡ true) ⊎ Left b x → (contains a x ≡ true) ⊎ Left c x
      earlier x (inl h) = inl h
      earlier x (inr (apart, h)) = inr (apart, λ y k. bc y (h y k))

      later : (x : String) → (contains b x ≡ true) ⊎ Left c x → (contains a x ≡ true) ⊎ Left c x
      later x (inl h) = earlier x (new_b x h)
      later x (inr l) = inr l

  -- the outcome of a visit of these names
  abbrev pub Explored : List String → List String → Visited → Type 0
  Explored seen names reached = (x : String) × ((contains names x ≡ true) × Route graph want x)
  Explored seen names exhausted = Unit {0}
  Explored seen names (searched later) = Grown seen later × Within names later

  visit_each-Explored :
      (next : List String → String → Visited)
      → ((seen : List String) (x : String) → Explored seen (x ∷ []) (next seen x))
      → (seen names : List String) → Explored seen names (visit_each graph want next seen names)
  visit_each-Explored next one seen [] = (Grown-refl seen, λ x h. absurd (ground (arith, h)))
  visit_each-Explored next one seen (y ∷ ys) =
      go (next seen y) (one seen y) (λ later. visit_each-Explored next one later ys)
    where
      go :
          (v : Visited)
          → Explored seen (y ∷ []) v
          → ((later : List String) → Explored later ys (visit_each graph want next later ys))
          → Explored seen (y ∷ ys) (then_visit (λ later. visit_each graph want next later ys) v)
      go reached h more = (h.0, (member_head h.0 y ys h.1.0, h.1.1))
      go exhausted h more = tt
      go (searched b) h more = after (visit_each graph want next b ys) (more b)
        where
          after : (v : Visited) → Explored b ys v → Explored seen (y ∷ ys) v
          after reached k = (k.0, (member_tail k.0 y ys k.1.0, k.1.1))
          after exhausted k = tt
          after (searched c) k =
              (Grown-trans seen b c h.0 k.0, λ x e. both x (member_cons x y ys e))
            where
              both : (x : String) → (y ≡ x) ⊎ (contains ys x ≡ true) → contains c x ≡ true
              both x (inl e) = k.0.0 x (h.1 x (member_one x y e))
              both x (inr e) = k.1 x e

  visit_turn-Explored :
      (next : List String → String → Visited)
      → ((seen : List String) (x : String) → Explored seen (x ∷ []) (next seen x))
      → (seen : List String) (name : String) (wanted known : Bool) → (name == want) ≡ wanted
      → contains seen name ≡ known
      → Explored seen (name ∷ []) (visit_turn graph want next seen name wanted known)
  visit_turn-Explored next one seen name true known w k =
      (name, (member_one name name refl, at_want name ((eq_iff name want).0 w)))
    where
      at_want : (x : String) → x ≡ want → Route graph want x
      at_want x e = subst (Route graph want) (sym e) arrived
  visit_turn-Explored next one seen name false true w k =
      (Grown-refl seen, λ x h. subst (λ n. contains seen n ≡ true) (one_member x name h) k)
  visit_turn-Explored next one seen name false false w k =
      go (visit_each graph want next (name ∷ seen) (graph name))
        (visit_each-Explored next one (name ∷ seen) (graph name))
    where
      go : (v : Visited) → Explored (name ∷ seen) (graph name) v → Explored seen (name ∷ []) v
      go reached h = (name, (member_one name name refl, via name h.0 h.1.0 h.1.1))
      go exhausted h = tt
      go (searched later) h = (
        (λ x e. h.0.0 x (member_tail x name seen e), λ x e. new x (h.0.1 x e)),
        λ x e.
            subst (λ n. contains later n ≡ true) (one_member x name e)
              (h.0.0 name (member_head name name seen (member_one name name refl))),
      )
        where
          cons :
              (x : String)
              → (name ≡ x) ⊎ (contains seen x ≡ true)
              → (contains seen x ≡ true) ⊎ Left later x
          cons x (inl e) =
              inr (subst (Left later) e ((λ e'. ground (arith, w, (eq_iff name want).1 e')), h.1))
          cons x (inr e) = inl e

          new :
              (x : String)
              → (contains (name ∷ seen) x ≡ true) ⊎ Left later x
              → (contains seen x ≡ true) ⊎ Left later x
          new x (inl m) = cons x (member_cons x name seen m)
          new x (inr l) = inr l

  pub visit-Explored :
      (fuel : ℕ) (seen : List String) (name : String)
      → Explored seen (name ∷ []) (visit graph want fuel seen name)
  unfolding visit
  visit-Explored zero seen name = tt
  visit-Explored (suc fuel) seen name =
      visit_turn-Explored (λ s n. visit graph want fuel s n) (λ s n. visit-Explored fuel s n) seen
        name (name == want) (contains seen name) refl refl

  -- where the search has ended without the name that it looked for, no way leads there
  pub searched-no_Route :
      (later : List String)
      → Grown [] later
      → (x : String) → contains later x ≡ true
      → Route graph want x
      → ⊥
  searched-no_Route later g x h arrived = apart (g.1 want h)
    where
      apart : (contains [] want ≡ true) ⊎ Left later want → ⊥
      apart (inl e) = ground (arith, e)
      apart (inr l) = l.0 refl
  searched-no_Route later g x h (via _ y e r) = searched-no_Route later g y (next (g.1 x h)) r
    where
      next : (contains [] x ≡ true) ⊎ Left later x → contains later y ≡ true
      next (inl k) = absurd (ground (arith, k))
      next (inr l) = l.1 y e
