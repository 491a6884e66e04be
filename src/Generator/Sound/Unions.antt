-- ===== src/Generator/Sound/Unions.antt =====
-- internal/gen/ir.go: the discriminator of a union.
use herdr_client.Prelude.{
  ℕ, suc, ◌+◌, ◌≤◌, ◌≡◌, refl, String, ◌==◌, eq_iff, Bool, true, false, ◌&&◌, Option, none, some,
  is_some, List, [], ◌∷◌, ◌++◌, contains, distinct, eqb, if_case, if◌then◌else◌, arith,
}
use herdr_client.Generator.Schema.{
  NodeMap, no_entry, entry, NodeList, no_nodes, more_nodes, keywords, properties, find_node,
  node_names, Outcome, done, failed,
}
use herdr_client.Generator.Fields.{
  const_names, count_nodes, count_name, counted, in_every, one_found, discriminator, pointed,
  const_in, tag_of,
}
use herdr_client.Generator.Outcomes.{Ensures}

-- the names of the properties of each variant are different, as those of a map are
abbrev pub AreMaps : NodeList → Type 0
AreMaps no_nodes = Unit {0}
AreMaps (more_nodes n ns) = (distinct (node_names (properties n)) ≡ true) × AreMaps ns

-- a property of a variant carries a const
abbrev pub is_tagged : NodeMap → String → Bool
is_tagged m d = contains (const_names m) d

abbrev pub all_tagged : NodeList → String → Bool
all_tagged no_nodes d = true
all_tagged (more_nodes n ns) d = is_tagged (properties n) d && all_tagged ns d

const_names-node_names :
    (m : NodeMap) (d : String) → is_tagged m d ≡ true → contains (node_names m) d ≡ true
unfolding const_names
const_names-node_names no_entry d h = absurd (ground (arith, h))
const_names-node_names (entry name n rest) d h = ground (arith, h, const_names-node_names rest d)

count_name-append :
    (xs ys : List String) (k : String) → count_name (xs ++ ys) k ≡ count_name xs k + count_name ys k
count_name-append [] ys k = omega arith
count_name-append (x ∷ xs) ys k = omega (arith, count_name-append xs ys k)

count_name-absent : (xs : List String) (k : String) → contains xs k ≡ false → count_name xs k ≡ 0
count_name-absent [] k h = refl
count_name-absent (x ∷ xs) k h = ground (arith, h, count_name-absent xs k)

-- in one variant a name is counted once if it carries a const there, and not at all if it does not
count_name-const_names :
    (m : NodeMap) (d : String)
    → distinct (node_names m) ≡ true
    → count_name (const_names m) d ≡ (if is_tagged m d then 1 else 0)
unfolding const_names
count_name-const_names no_entry d h = refl
count_name-const_names (entry name n rest) d h = ground (
  arith,
  h,
  count_name-const_names rest d,
  const_names-node_names rest d,
  eq_iff name d,
  count_name-absent (const_names rest) d,
)

abbrev AllCounted : NodeList → String → Type 0
AllCounted vs d =
    (count_name (counted vs) d ≤ count_nodes vs)
    × ((count_name (counted vs) d ≡ count_nodes vs → all_tagged vs d ≡ true)
        × (all_tagged vs d ≡ true → count_name (counted vs) d ≡ count_nodes vs))

counted-AllCounted : (vs : NodeList) (d : String) → AreMaps vs → AllCounted vs d
unfolding counted
counted-AllCounted no_nodes d h = (omega arith, (λ e. refl, λ e. refl))
counted-AllCounted (more_nodes n ns) d (h, hs) =
    let e = count_name-append (const_names (properties n)) (counted ns) d in
    let one = count_name-const_names (properties n) d h in
    let (le, (if_all, all_if)) = counted-AllCounted ns d hs in
    (
      ground (arith, e, one, le),
      (ground (arith, e, one, le, if_all), ground (arith, e, one, le, all_if)),
    )

in_every-contains :
    (k : ℕ) (names xs : List String) (d : String)
    → contains (in_every k names xs) d ≡ (eqb (count_name names d) k && contains xs d)
unfolding in_every
in_every-contains k names [] d = ground arith
in_every-contains k names (x ∷ xs) d = ground (arith, in_every-contains k names xs d, eq_iff x d)

count_name-contains :
    (xs : List String) (k : String) (n : ℕ) → count_name xs k ≡ suc n → contains xs k ≡ true
count_name-contains [] k n h = absurd (omega arith)
count_name-contains (x ∷ xs) k n h = ground (arith, h, count_name-contains xs k n)

-- the one property that carries a const in every variant
abbrev pub IsDiscriminator : NodeList → String → Type 0
IsDiscriminator vs d = (all_tagged vs d ≡ true) × ((e : String) → all_tagged vs e ≡ true → e ≡ d)

one_found-only :
    (xs : List String)
    → Ensures
        (λ d. (contains xs d ≡ true) × ((e : String) → contains xs e ≡ true → e ≡ d))
        (one_found xs)
one_found-only [] = tt
one_found-only (x ∷ []) = (ground (arith, eq_iff x x), λ e h. ground (arith, h, eq_iff x e))
one_found-only (x ∷ y ∷ ys) = tt

-- A name that `discriminator` returns is that of a property which carries a const in every variant of the
-- union, and of the only such property.
pub discriminator-IsDiscriminator :
    (vs : NodeList) → AreMaps vs → Ensures (IsDiscriminator vs) (discriminator vs)
unfolding discriminator
discriminator-IsDiscriminator no_nodes h = tt
discriminator-IsDiscriminator (more_nodes n ns) h =
    go (one_found (in_every k names names)) (one_found-only (in_every k names names))
  where
    names : List String
    names = counted (more_nodes n ns)

    k : ℕ
    k = count_nodes (more_nodes n ns)

    Only : String → Type 0
    Only d =
        (contains (in_every k names names) d ≡ true)
        × ((e : String) → contains (in_every k names names) e ≡ true → e ≡ d)

    there :
        (d : String)
        → contains (in_every k names names) d ≡ true
        → all_tagged (more_nodes n ns) d ≡ true
    there d c =
        (counted-AllCounted (more_nodes n ns) d h).1.0
          (ground (arith, c, in_every-contains k names names d))

    found :
        (d : String)
        → all_tagged (more_nodes n ns) d ≡ true
        → contains (in_every k names names) d ≡ true
    found d a =
        let e = (counted-AllCounted (more_nodes n ns) d h).1.1 a in
        ground (
          arith,
          in_every-contains k names names d,
          e,
          count_name-contains names d (count_nodes ns) e,
        )

    go : (o : Outcome String) → Ensures Only o → Ensures (IsDiscriminator (more_nodes n ns)) o
    go (done d) o = (there d o.0, λ e a. o.1 e (found e a))
    go (failed r) o = tt

-- a tagged property is found with its const
abbrev pub HasTag : Outcome String → Type 0
HasTag (done c) = Unit {0}
HasTag (failed e) = ⊥

find_node-tagged :
    (m : NodeMap) (d : String)
    → distinct (node_names m) ≡ true
    → is_tagged m d ≡ true
    → HasTag (const_in (find_node m d))
unfolding const_names find_node
find_node-tagged no_entry d h t = absurd (ground (arith, t))
find_node-tagged (entry name n rest) d h t =
    if_case (λ o. HasTag (const_in o)) (name == d)
      (λ this.
        has (keywords n).const
          (ground (arith, h, t, this, eq_iff name d, const_names-node_names rest d)))
      (λ other. find_node-tagged rest d (ground (arith, h)) (ground (arith, t, other)))
  where
    has : (o : Option String) → is_some o ≡ true → HasTag (pointed o)
    has none e = absurd (ground (arith, e))
    has (some c) e = tt

abbrev pub AllHaveTags : NodeList → String → Type 0
AllHaveTags no_nodes d = Unit {0}
AllHaveTags (more_nodes n ns) d = HasTag (tag_of n d) × AllHaveTags ns d

tags : (vs : NodeList) (d : String) → AreMaps vs → all_tagged vs d ≡ true → AllHaveTags vs d
unfolding tag_of
tags no_nodes d h a = tt
tags (more_nodes n ns) d (h, hs) a =
    (find_node-tagged (properties n) d h (ground (arith, a)), tags ns d hs (ground (arith, a)))

-- The pointer that buildEvents, buildResults and buildUnion follow to the tag of a variant is never nil.
pub discriminator-tags : (vs : NodeList) → AreMaps vs → Ensures (AllHaveTags vs) (discriminator vs)
discriminator-tags vs h = go (discriminator vs) (discriminator-IsDiscriminator vs h)
  where
    go : (o : Outcome String) → Ensures (IsDiscriminator vs) o → Ensures (AllHaveTags vs) o
    go (done d) (a, only) = tags vs d h a
    go (failed r) w = tt
