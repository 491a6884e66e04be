-- ===== src/Generator/Sound/Unique.antt =====
-- internal/gen/ir.go: no two types that the builder registers have one name.
use herdr_client.Prelude.{
  ◌≡◌, refl, sym, ap, subst, String, ◌==◌, true, not, Option, none, some, List, [], ◌∷◌, ◌++◌,
  contains, distinct, distinct-snoc, if_case,
}
use herdr_client.Generator.Schema.{
  Node, NodeMap, no_entry, entry, NodeList, no_nodes, more_nodes, keywords, one_of, find_node,
}
use herdr_client.Generator.Ir.{GoType, EventRef}
use herdr_client.Generator.Resolve.{
  DefKind, def_enum, def_struct, def_union, def_manual, def_special,
}
use herdr_client.Generator.Cycles.{type_names}
use herdr_client.Generator.Fields.{discriminator, tag_of, same_fields}
use herdr_client.Generator.Builder.{register, subscription_events, classify}
use herdr_client.Generator.Types.{
  add_variant, find_type, event_type, event_variants, subscription_type, subscribe_type,
  subscription_types, build_events, result_type, result_variants, build_results, variant_type,
  union_variants, build_union, struct_type, build_kind, pair_types, build_each, build_remaining,
}
use herdr_client.Generator.Build.{registered_types}
use herdr_client.Generator.Outcomes.{
  Ensures, chain-Ensures, then_do-Ensures, needs-Ensures, guard-Ensures,
}

-- the names of the types are different
abbrev pub IsUnique : List GoType → Type 0
IsUnique types = distinct (type_names types) ≡ true

type_names-snoc :
    (types : List GoType) (t : GoType)
    → type_names (types ++ t ∷ []) ≡ type_names types ++ t.name ∷ []
type_names-snoc [] t = refl
type_names-snoc (u ∷ us) t = ap (◌∷◌ u.name) (type_names-snoc us t)

register-IsUnique :
    (t : GoType) (types : List GoType) → IsUnique types → Ensures IsUnique (register t types)
unfolding register
register-IsUnique t types u =
    if_case (Ensures IsUnique) (contains (type_names types) t.name) (λ there. tt)
      (λ absent.
        subst (λ ns. distinct ns ≡ true) (sym (type_names-snoc types t))
          (distinct-snoc (type_names types) t.name u absent))

type_names-add_variant :
    (union v : String) (types : List GoType)
    → type_names (add_variant union v types) ≡ type_names types
unfolding add_variant
type_names-add_variant union v [] = refl
type_names-add_variant union v (t ∷ ts) =
    if_case (λ us. type_names us ≡ t.name ∷ type_names ts) (t.name == union) (λ this. refl)
      (λ other. ap (◌∷◌ t.name) (type_names-add_variant union v ts))

add_variant-IsUnique :
    (union v : String) (types : List GoType) → IsUnique types → IsUnique (add_variant union v types)
add_variant-IsUnique union v types u =
    subst (λ ns. distinct ns ≡ true) (sym (type_names-add_variant union v types)) u

module _ (defs : NodeMap) (kinds : String → Option DefKind) where
  event_variants-IsUnique :
      (known : List String) (disc : String) (vs : NodeList) (types : List GoType)
      → IsUnique types
      → Ensures IsUnique (event_variants defs kinds known disc vs types)
  unfolding event_variants
  event_variants-IsUnique known disc no_nodes types u = u
  event_variants-IsUnique known disc (more_nodes v vs) types u =
      then_do-Ensures IsUnique (tag_of v disc) _ λ tag e.
        guard-Ensures IsUnique (not (contains known tag)) _ _ (
          then_do-Ensures IsUnique (event_type defs kinds v disc tag) _ λ t e'.
            chain-Ensures IsUnique IsUnique (register t types) _ (register-IsUnique t types u)
              (λ more w. event_variants-IsUnique known disc vs more w))

  subscribe_type-IsUnique :
      (pair : EventRef) (t : GoType) (o : Option GoType) (types : List GoType)
      → IsUnique types
      → Ensures IsUnique (subscribe_type defs kinds pair t o types)
  subscribe_type-IsUnique pair t none types u = register-IsUnique t types u
  subscribe_type-IsUnique pair t (some existing) types u =
      if_case (Ensures IsUnique) (not (existing.event_name == pair.name)) (λ other. tt)
        λ same.
          if_case (Ensures IsUnique) (not (same_fields existing.fields t.fields)) (λ differ. tt)
            (λ agree. u)

  subscription_types-IsUnique :
      (pairs : List EventRef) (types : List GoType)
      → IsUnique types
      → Ensures IsUnique (subscription_types defs kinds pairs types)
  unfolding subscription_types
  subscription_types-IsUnique [] types u = u
  subscription_types-IsUnique (pair ∷ pairs) types u =
      needs-Ensures IsUnique pair.type (find_node defs pair.type) _ λ def.
        then_do-Ensures IsUnique (subscription_type defs kinds pair def) _ λ t e.
          chain-Ensures IsUnique IsUnique
            (subscribe_type defs kinds pair t (find_type types pair.type) types) _
            (subscribe_type-IsUnique pair t (find_type types pair.type) types u)
            (λ more w. subscription_types-IsUnique pairs more w)

  build_events-IsUnique :
      (types : List GoType) → IsUnique types → Ensures IsUnique (build_events defs kinds types)
  unfolding build_events
  build_events-IsUnique types u =
      needs-Ensures IsUnique "EventKind" (find_node defs "EventKind") _ λ kind.
        needs-Ensures IsUnique "EventData" (find_node defs "EventData") _ λ payload.
          then_do-Ensures IsUnique (discriminator (one_of payload)) _ λ disc e.
            chain-Ensures IsUnique IsUnique
              (event_variants defs kinds (keywords kind).enum disc (one_of payload) types) _
              (event_variants-IsUnique _ disc (one_of payload) types u)
              λ more w.
                then_do-Ensures IsUnique (subscription_events defs) _
                  (λ pairs e'. subscription_types-IsUnique pairs more w)

  result_variants-IsUnique :
      (disc : String) (vs : NodeList) (types : List GoType)
      → IsUnique types
      → Ensures IsUnique (result_variants defs kinds disc vs types)
  unfolding result_variants
  result_variants-IsUnique disc no_nodes types u = u
  result_variants-IsUnique disc (more_nodes v vs) types u =
      then_do-Ensures IsUnique (tag_of v disc) _ λ tag e.
        then_do-Ensures IsUnique (result_type defs kinds v disc tag) _ λ t e'.
          chain-Ensures IsUnique IsUnique (register t types) _ (register-IsUnique t types u)
            (λ more w. result_variants-IsUnique disc vs more w)

  build_results-IsUnique :
      (types : List GoType) → IsUnique types → Ensures IsUnique (build_results defs kinds types)
  unfolding build_results
  build_results-IsUnique types u =
      needs-Ensures IsUnique "ResponseResult" (find_node defs "ResponseResult") _ λ def.
        then_do-Ensures IsUnique (discriminator (one_of def)) _
          (λ disc e. result_variants-IsUnique disc (one_of def) types u)

  union_variants-IsUnique :
      (name disc : String) (vs : NodeList) (types : List GoType)
      → IsUnique types
      → Ensures IsUnique (union_variants defs kinds name disc vs types)
  unfolding union_variants
  union_variants-IsUnique name disc no_nodes types u = u
  union_variants-IsUnique name disc (more_nodes v vs) types u =
      then_do-Ensures IsUnique (tag_of v disc) _ λ tag e.
        then_do-Ensures IsUnique (variant_type defs kinds name v disc tag) _ λ t e'.
          chain-Ensures IsUnique IsUnique (register t types) _ (register-IsUnique t types u)
            (λ more w.
              union_variants-IsUnique name disc vs _ (add_variant-IsUnique name t.name more w))

  build_kind-IsUnique :
      (name : String) (def : Node) (o : Option DefKind) (types : List GoType)
      → IsUnique types
      → Ensures IsUnique (build_kind defs kinds name def o types)
  unfolding build_union
  build_kind-IsUnique name def (some def_manual) types u = u
  build_kind-IsUnique name def (some def_special) types u = u
  build_kind-IsUnique name def (some def_enum) types u = register-IsUnique _ types u
  build_kind-IsUnique name def (some def_union) types u =
      then_do-Ensures IsUnique (discriminator (one_of def)) _ λ disc e.
        chain-Ensures IsUnique IsUnique (register _ types) _ (register-IsUnique _ types u)
          (λ more w. union_variants-IsUnique name disc (one_of def) more w)
  build_kind-IsUnique name def (some def_struct) types u =
      then_do-Ensures IsUnique (struct_type defs kinds name def) _
        (λ t e. register-IsUnique t types u)
  build_kind-IsUnique name def none types u =
      then_do-Ensures IsUnique (struct_type defs kinds name def) _
        (λ t e. register-IsUnique t types u)

  build_each-IsUnique :
      (handled : List String) (ds : NodeMap) (types : List GoType)
      → IsUnique types
      → Ensures IsUnique (build_each defs kinds handled ds types)
  unfolding build_each
  build_each-IsUnique handled no_entry types u = u
  build_each-IsUnique handled (entry name def rest) types u =
      if_case (Ensures IsUnique) (contains handled name)
        (λ h. build_each-IsUnique handled rest types u)
        λ h.
          chain-Ensures IsUnique IsUnique (build_kind defs kinds name def (kinds name) types) _
            (build_kind-IsUnique name def (kinds name) types u)
            (λ more w. build_each-IsUnique handled rest more w)

  build_remaining-IsUnique :
      (types : List GoType) → IsUnique types → Ensures IsUnique (build_remaining defs kinds types)
  unfolding build_remaining
  build_remaining-IsUnique types u =
      then_do-Ensures IsUnique (subscription_events defs) _
        (λ pairs e. build_each-IsUnique (pair_types pairs) defs types u)

-- The types that the builder has registered, where it has not failed, have different names.
pub registered_types-IsUnique : (defs : NodeMap) → Ensures IsUnique (registered_types defs)
unfolding registered_types
registered_types-IsUnique defs =
    chain-Ensures IsUnique IsUnique (build_events defs (classify defs) []) _
      (build_events-IsUnique defs (classify defs) [] refl)
      λ events u.
        chain-Ensures IsUnique IsUnique (build_results defs (classify defs) events) _
          (build_results-IsUnique defs (classify defs) events u)
          (λ results w. build_remaining-IsUnique defs (classify defs) results w)
