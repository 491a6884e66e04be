-- ===== src/Generator/Reach/Search.antt =====
-- internal/gen/ir.go: `reaches`, the search that breakOptionalStructCycles makes through the structs
-- that stand in each other. `seen` is passed from one visit to the next. A visit takes fuel.
use herdr_client.Prelude.{
  ℕ, zero, suc, ◌+◌, ◌≡◌, String, ◌==◌, Bool, true, false, List, [], ◌∷◌, contains,
}

pub data Visited : Type 0 where
  reached exhausted : Visited
  -- the search from here has ended with these names seen
  searched : List String → Visited

-- the rest of a loop over the successors, unless a visit returns true
abbrev pub then_visit : (List String → Visited) → Visited → Visited
then_visit rest reached = reached
then_visit rest exhausted = exhausted
then_visit rest (searched later) = rest later

module _ (graph : String → List String) (want : String) where
  -- a way along the edges
  pub data Route : String → Type 0 where
    arrived : Route want
    via : (x y : String) → contains (graph x) y ≡ true → Route y → Route x

  abbrev pub visit_each : (List String → String → Visited) → List String → List String → Visited
  visit_each next seen [] = searched seen
  visit_each next seen (y ∷ ys) = then_visit (λ later. visit_each next later ys) (next seen y)

  -- by whether the name is the one that is looked for, and whether it has been seen
  abbrev pub visit_turn :
      (List String → String → Visited) → List String → String → Bool → Bool → Visited
  visit_turn next seen name true known = reached
  visit_turn next seen name false true = searched seen
  visit_turn next seen name false false = visit_each next (name ∷ seen) (graph name)

  unfoldable pub visit : ℕ → List String → String → Visited
  visit zero seen name = exhausted
  visit (suc fuel) seen name =
      visit_turn (λ s n. visit fuel s n) seen name (name == want) (contains seen name)

abbrev pub is_reached : Visited → Bool
is_reached reached = true
is_reached v = false

-- a search with one visit more than there are names
unfoldable pub reaches : ℕ → (String → List String) → String → String → Bool
unfolding visit
reaches names graph from want = is_reached (visit graph want (names + 1) [] from)
