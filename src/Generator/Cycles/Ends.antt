-- ===== src/Generator/Cycles/Ends.antt =====
-- internal/gen/ir.go: breakOptionalStructCycles comes to an end, and what it leaves as it was.
use herdr_client.Prelude.{
  ℕ, zero, suc, ◌+◌, ◌<◌, ◌≡◌, ◌≢◌, refl, sym, subst, ap, ◌∙◌, String, Bool, true, Option, none,
  some, List, [], ◌∷◌, if◌then◌else◌, arith, fun_ext, map,
}
use herdr_client.Generator.Ir.{Field, GoType}
use herdr_client.Generator.Cycles.Break.{
  has_struct, point, must_point, cycle_or, cycle_target, check_cycles, again, break_types,
  break_loop, Broken, broken, value_cycle, out_of_fuel, type_names, break_optional_struct_cycles,
  count_fields, edges,
}
use herdr_client.Generator.Cycles.Steps.{
  FieldStep, this_field, later_field, TypeStep, this_type, later_type, TypeStepIf,
  break_types-TypeStep, TypeStep-has_struct, all_pointable, all_pointable-count_fields, Unstarred,
  TypeStep-pointable,
}

must_point-optional :
    (types : List GoType) (t : GoType) (f : Field)
    → must_point types t f ≡ true
    → (f.optional ≡ true) × (has_struct types f.value_type ≡ true)
unfolding must_point
must_point-optional types t f h = (ground (arith, h), ground (arith, h))

check_cycles-total :
    (types : List GoType) (owners : List String) → check_cycles types owners ≢ out_of_fuel
unfolding check_cycles
check_cycles-total types [] = λ e. ground (arith, e)
check_cycles-total types (o ∷ os) =
    go (cycle_target types o (edges types o)) (check_cycles-total types os)
  where
    go :
        (found : Option String)
        → check_cycles types os ≢ out_of_fuel
        → cycle_or o found (check_cycles types os) ≢ out_of_fuel
    go none h = h
    go (some t) h = λ e. ground (arith, e)

break_loop-total :
    (fuel : ℕ) (types : List GoType)
    → Unstarred (has_struct types)
    → all_pointable (has_struct types) types < fuel
    → break_loop fuel types ≢ out_of_fuel
unfolding break_loop
break_loop-total zero types plain enough = λ e. omega (arith, enough)
break_loop-total (suc fuel) types plain enough =
    go (break_types (must_point types) types) (break_types-TypeStep (must_point types) types)
      (λ us. break_loop-total fuel us)
  where
    go :
        (o : Option (List GoType))
        → TypeStepIf (must_point types) types o
        → ((us : List GoType)
            → Unstarred (has_struct us)
            → all_pointable (has_struct us) us < fuel
            → break_loop fuel us ≢ out_of_fuel)
        → again (λ us. break_loop fuel us) types o ≢ out_of_fuel
    go none step more = check_cycles-total types (type_names types)
    go (some us) step more =
        more us (λ v. same (String.◌∷◌ "*" v) ∙ plain v)
          (subst (λ k. all_pointable k us < fuel) (sym (fun_ext same))
            (omega (
              arith,
              enough,
              TypeStep-pointable (has_struct types) plain (must_point-optional types) step,
            )))
      where
        same : (n : String) → has_struct us n ≡ has_struct types n
        same n = TypeStep-has_struct n step

-- Where no struct has a name that begins with a star, breakOptionalStructCycles comes to an end.
pub break_optional_struct_cycles-total :
    (types : List GoType)
    → Unstarred (has_struct types)
    → break_optional_struct_cycles types ≢ out_of_fuel
unfolding break_optional_struct_cycles
break_optional_struct_cycles-total types plain =
    break_loop-total (count_fields types + 1) types plain
      (omega (arith, all_pointable-count_fields (has_struct types) types))

-- a field without the Go types that an optional field is written with
abbrev pub forget_type : Field → Field
forget_type f = if f.optional then record f { type = ""; value_type = "" } else f

abbrev pub forget_types : GoType → GoType
forget_types t = record t { fields = map forget_type t.fields }

FieldStep-forget :
    {p : Field → Bool} {fs gs : List Field}
    → ((f : Field) → p f ≡ true → f.optional ≡ true)
    → FieldStep p fs gs
    → map forget_type gs ≡ map forget_type fs
unfolding point
FieldStep-forget ok (this_field {f} {fs} h) = ap (λ g. g ∷ map forget_type fs) (pointed f (ok f h))
  where
    pointed : (f : Field) → f.optional ≡ true → forget_type (point f) ≡ forget_type f
    pointed f e = simp (e)
FieldStep-forget ok (later_field {f} s) = ap (◌∷◌ (forget_type f)) (FieldStep-forget ok s)

TypeStep-forget :
    {p : GoType → Field → Bool} {ts us : List GoType}
    → ((t : GoType) (f : Field) → p t f ≡ true → f.optional ≡ true)
    → TypeStep p ts us
    → map forget_types us ≡ map forget_types ts
TypeStep-forget ok (this_type {t} {ts} s) =
    ap (λ fs. record t { fields = fs } ∷ map forget_types ts) (FieldStep-forget (ok t) s)
TypeStep-forget ok (later_type {t} s) = ap (◌∷◌ (forget_types t)) (TypeStep-forget ok s)

abbrev pub Keeps : List GoType → Broken → Type 0
Keeps types (broken us) = map forget_types us ≡ map forget_types types
Keeps types b = Unit {0}

check_cycles-Keeps :
    (types : List GoType) (owners : List String) → Keeps types (check_cycles types owners)
unfolding check_cycles
check_cycles-Keeps types [] = refl
check_cycles-Keeps types (o ∷ os) =
    go (cycle_target types o (edges types o)) (check_cycles-Keeps types os)
  where
    go :
        (found : Option String)
        → Keeps types (check_cycles types os)
        → Keeps types (cycle_or o found (check_cycles types os))
    go none h = h
    go (some t) h = tt

Keeps-trans :
    (ts us : List GoType) (b : Broken)
    → map forget_types us ≡ map forget_types ts
    → Keeps us b
    → Keeps ts b
Keeps-trans ts us (broken vs) e h = h ∙ e
Keeps-trans ts us (value_cycle a b) e h = tt
Keeps-trans ts us out_of_fuel e h = tt

break_loop-Keeps : (fuel : ℕ) (types : List GoType) → Keeps types (break_loop fuel types)
unfolding break_loop
break_loop-Keeps zero types = tt
break_loop-Keeps (suc fuel) types =
    go (break_types (must_point types) types) (break_types-TypeStep (must_point types) types)
      (λ us. break_loop-Keeps fuel us)
  where
    go :
        (o : Option (List GoType))
        → TypeStepIf (must_point types) types o
        → ((us : List GoType) → Keeps us (break_loop fuel us))
        → Keeps types (again (λ us. break_loop fuel us) types o)
    go none step more = check_cycles-Keeps types (type_names types)
    go (some us) step more =
        Keeps-trans types us _ (TypeStep-forget (λ t f h. (must_point-optional types t f h).0) step)
          (more us)

-- Where breakOptionalStructCycles returns no error, it has changed nothing but the Go types that
-- optional fields are written with.
pub break_optional_struct_cycles-Keeps :
    (types : List GoType) → Keeps types (break_optional_struct_cycles types)
unfolding break_optional_struct_cycles
break_optional_struct_cycles-Keeps types = break_loop-Keeps (count_fields types + 1) types
