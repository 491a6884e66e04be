-- ===== src/Generator/Cycles/Finite.antt =====
-- internal/gen/ir.go: what breakOptionalStructCycles leaves has no cycle.
use herdr_client.Prelude.{
  ℕ, zero, suc, ◌+◌, ◌≡◌, ◌⊎◌, inl, inr, refl, sym, subst, String, true, false, Option, none, some,
  List, [], ◌∷◌, contains, if_case, arith,
}
use herdr_client.Generator.Ir.{GoType}
use herdr_client.Generator.Reach.{Route, member_cons}
use herdr_client.Generator.Cycles.Break.{
  edges, type_names, struct_reaches, cycle_target, cycle_or, check_cycles, Broken, broken,
  value_cycle, out_of_fuel, again, break_loop, break_types, must_point,
  break_optional_struct_cycles, count_fields,
}
use herdr_client.Generator.Cycles.Graph.{
  struct_reaches_iff, edges-from, edges-has_struct, has_struct-type_names,
}

-- no struct stands in itself by value
abbrev pub Acyclic : List GoType → Type 0
Acyclic types =
    (owner target : String)
    → contains (edges types owner) target ≡ true
    → Route (edges types) owner target
    → ⊥

cycle_target-none :
    (types : List GoType) (owner : String) (ns : List String)
    → cycle_target types owner ns ≡ none
    → (n : String) → contains ns n ≡ true
    → struct_reaches types n owner ≡ false
cycle_target-none types owner [] h n m = absurd (ground (arith, m))
cycle_target-none types owner (k ∷ ks) h n m =
    if_case (λ o. o ≡ none → struct_reaches types n owner ≡ false) (struct_reaches types k owner)
      (λ yes e. absurd (ground (arith, e)))
      (λ other e. go other (λ m'. cycle_target-none types owner ks e n m') (member_cons n k ks m)) h
  where
    go :
        struct_reaches types k owner ≡ false
        → (contains ks n ≡ true → struct_reaches types n owner ≡ false)
        → (k ≡ n) ⊎ (contains ks n ≡ true)
        → struct_reaches types n owner ≡ false
    go other more (inl e) = subst (λ z. struct_reaches types z owner ≡ false) e other
    go other more (inr m) = more m

-- what the check leaves behind
abbrev pub Checked : List GoType → List String → Broken → Type 0
Checked types owners (broken us) =
    (us ≡ types)
    × ((owner : String)
        → contains owners owner ≡ true
        → (n : String) → contains (edges types owner) n ≡ true
        → struct_reaches types n owner ≡ false)
Checked types owners b = Unit {0}

check_cycles-Checked :
    (types : List GoType) (owners : List String) → Checked types owners (check_cycles types owners)
unfolding check_cycles
check_cycles-Checked types [] = (refl, λ owner m. absurd (ground (arith, m)))
check_cycles-Checked types (o ∷ os) =
    go (cycle_target types o (edges types o)) (check_cycles types os) refl
      (check_cycles-Checked types os)
  where
    go :
        (found : Option String) (rest : Broken)
        → cycle_target types o (edges types o) ≡ found
        → Checked types os rest
        → Checked types (o ∷ os) (cycle_or o found rest)
    go (some t) rest e k = tt
    go none (broken us) e k = (k.0, λ owner m n h. both owner n h (member_cons owner o os m))
      where
        both :
            (owner n : String)
            → contains (edges types owner) n ≡ true
            → (o ≡ owner) ⊎ (contains os owner ≡ true)
            → struct_reaches types n owner ≡ false
        both owner n h (inl eq) =
            subst (λ w. contains (edges types w) n ≡ true → struct_reaches types n w ≡ false) eq
              (cycle_target-none types o (edges types o) e n) h
        both owner n h (inr m) = k.1 owner m n h
    go none (value_cycle a b) e k = tt
    go none out_of_fuel e k = tt

abbrev pub AcyclicIf : Broken → Type 0
AcyclicIf (broken us) = Acyclic us
AcyclicIf b = Unit {0}

Checked-Acyclic :
    (types : List GoType) (b : Broken) → Checked types (type_names types) b → AcyclicIf b
Checked-Acyclic types (broken us) (e, none_reach) = subst Acyclic (sym e) acyclic
  where
    acyclic : Acyclic types
    acyclic owner target h r = absurd (
        ground (
          arith,
          none_reach owner (has_struct-type_names types owner (edges-from types owner target h))
              target h,
          (struct_reaches_iff types target owner (edges-has_struct types owner target h)).1 r,
        ))
Checked-Acyclic types (value_cycle a b) h = tt
Checked-Acyclic types out_of_fuel h = tt

break_loop-Acyclic : (fuel : ℕ) (types : List GoType) → AcyclicIf (break_loop fuel types)
unfolding break_loop
break_loop-Acyclic zero types = tt
break_loop-Acyclic (suc fuel) types =
    go (break_types (must_point types) types) (λ us. break_loop-Acyclic fuel us)
  where
    go :
        (o : Option (List GoType))
        → ((us : List GoType) → AcyclicIf (break_loop fuel us))
        → AcyclicIf (again (λ us. break_loop fuel us) types o)
    go none more = Checked-Acyclic types _ (check_cycles-Checked types (type_names types))
    go (some us) more = more us

-- In the types that breakOptionalStructCycles leaves, where it returns no error, no struct stands in
-- itself by value, not even through other structs.
pub break_optional_struct_cycles-Acyclic :
    (types : List GoType) → AcyclicIf (break_optional_struct_cycles types)
unfolding break_optional_struct_cycles
break_optional_struct_cycles-Acyclic types = break_loop-Acyclic (count_fields types + 1) types
