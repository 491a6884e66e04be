-- ===== src/Generator/Sound/Whole.antt =====
-- internal/gen/ir.go: what Build returns.
use herdr_client.Prelude.{
  ℕ, ◌≡◌, refl, sym, ap, ◌∙◌, subst, String, ◌==◌, Bool, true, ◌&&◌, ◌||◌, List, [], ◌∷◌, map, any,
  all, contains, distinct, arith,
}
use herdr_client.Generator.Schema.{NodeMap, no_entry}
use herdr_client.Generator.Ir.{
  GoType, MethodKind, method_single, method_multi, method_stream, Method, Package,
}
use herdr_client.Generator.Cycles.{
  type_names, Acyclic, AcyclicIf, Broken, broken, value_cycle, out_of_fuel,
  break_optional_struct_cycles, break_optional_struct_cycles-Acyclic,
  break_optional_struct_cycles-Keeps, Keeps, forget_types,
}
use herdr_client.Generator.Methods.{MethodTable, build_methods}
use herdr_client.Generator.Builder.{collect_defs, subscription_events}
use herdr_client.Generator.Build.{
  insert_type, sort_types, unbroken, registered_types, event_kinds, build,
}
use herdr_client.Generator.Outcomes.{Ensures, then_do-Ensures, chain-Ensures}
use herdr_client.Generator.Sound.Unique.{IsUnique, registered_types-IsUnique}
use herdr_client.Generator.Sound.Sorted.{
  sort_types-IsUnique, sort_types-Acyclic, contains-sort_types,
}
use herdr_client.Generator.Sound.Wrappers.{wrapper_ok, one_kind, AllOk, build_methods-ok}

names-forget_types : (ts : List GoType) → type_names (map forget_types ts) ≡ type_names ts
names-forget_types [] = refl
names-forget_types (t ∷ ts) = ap (◌∷◌ t.name) (names-forget_types ts)

-- breaking the cycles keeps the names and leaves no cycle
abbrev Plain : List GoType → Type 0
Plain types = IsUnique types × Acyclic types

unbroken-Plain :
    (ts : List GoType) → IsUnique ts → Ensures Plain (unbroken (break_optional_struct_cycles ts))
unbroken-Plain ts u =
    go (break_optional_struct_cycles ts) (break_optional_struct_cycles-Keeps ts)
      (break_optional_struct_cycles-Acyclic ts)
  where
    go : (b : Broken) → Keeps ts b → AcyclicIf b → Ensures Plain (unbroken b)
    go (broken us) k a = (
      subst (λ ns. distinct ns ≡ true)
          (sym (names-forget_types ts) ∙ ap type_names (sym k) ∙ names-forget_types us) u,
      a,
    )
    go (value_cycle owner target) k a = tt
    go out_of_fuel k a = tt

-- the order of the types makes no difference to the wrappers
any-insert_type :
    (p : GoType → Bool) (t : GoType) (us : List GoType)
    → any p (insert_type t us) ≡ (p t || any p us)
unfolding insert_type
any-insert_type p t [] = refl
any-insert_type p t (u ∷ us) = ground (arith, any-insert_type p t us)

any-sort_types : (p : GoType → Bool) (ts : List GoType) → any p (sort_types ts) ≡ any p ts
unfolding sort_types
any-sort_types p [] = refl
any-sort_types p (t ∷ ts) =
    any-insert_type p t (sort_types ts) ∙ ap (λ b. p t || b) (any-sort_types p ts)

all-contains-sort_types :
    (ts : List GoType) (ns : List String)
    → all (contains (type_names (sort_types ts))) ns ≡ all (contains (type_names ts)) ns
all-contains-sort_types ts [] = refl
all-contains-sort_types ts (n ∷ ns) =
    ground (arith, all-contains-sort_types ts ns, contains-sort_types ts n)

wrapper_ok-sort_types :
    (ts : List GoType) (k : MethodKind) (m : Method)
    → wrapper_ok (sort_types ts) k m ≡ wrapper_ok ts k m
wrapper_ok-sort_types ts method_single m =
    any-sort_types (λ t. t.name == m.result_type && t.result_tag == m.result_tag) ts
wrapper_ok-sort_types ts method_stream m = any-sort_types (λ t. t.result_tag == m.result_tag) ts
wrapper_ok-sort_types ts method_multi m = all-contains-sort_types ts m.result_types

AllOk-sort_types : (ts : List GoType) (ms : List Method) → AllOk ts ms → AllOk (sort_types ts) ms
AllOk-sort_types ts [] h = refl
AllOk-sort_types ts (m ∷ ms) h =
    ground (arith, h, AllOk-sort_types ts ms, wrapper_ok-sort_types ts m.kind m)

-- the types have different names, no struct stands in itself by value, and each wrapper names types of
-- the package
pub record IsSoundPackage (pkg : Package) : Type 0 where
  pub unique : distinct (type_names pkg.types) ≡ true
  pub acyclic : Acyclic pkg.types
  pub wrappers : AllOk pkg.types pkg.methods

-- Where Build succeeds with a method table whose entries each name a result or a stream, not both, the
-- types of its package have different names, no struct stands in itself by value, not even through
-- other structs, and each wrapper returns types of the package.
pub build-IsSoundPackage :
    (quote : String → String) (protocol : ℕ) (sections : NodeMap) (table : MethodTable)
    (name : String)
    → one_kind table ≡ true
    → Ensures IsSoundPackage (build quote protocol sections table name)
unfolding build
build-IsSoundPackage quote protocol sections table name one =
    then_do-Ensures IsSoundPackage (collect_defs quote sections no_entry) _ λ defs e.
      chain-Ensures IsUnique IsSoundPackage (registered_types defs) _
        (registered_types-IsUnique defs)
        λ order u.
          chain-Ensures Plain IsSoundPackage (unbroken (break_optional_struct_cycles order)) _
            (unbroken-Plain order u)
            λ types p.
              chain-Ensures (AllOk types) IsSoundPackage (build_methods sections table types) _
                (build_methods-ok sections table types one)
                λ methods w. then_do-Ensures IsSoundPackage (event_kinds defs) _ λ kinds e'.
                  then_do-Ensures IsSoundPackage (subscription_events defs) _ λ pairs e''. record {
                    unique = sort_types-IsUnique types p.0;
                    acyclic = sort_types-Acyclic types p.0 p.1;
                    wrappers = AllOk-sort_types types methods w;
                  }
