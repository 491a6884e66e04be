-- ===== src/Generator/Builder.antt =====
-- internal/gen/ir.go: the builder, which registers a type for each definition that the API uses. Its
-- map of types holds what its list `order` holds, so the list stands for both; a write through a
-- pointer to a registered type is a write at its name.
use herdr_client.Prelude.{
  String, ◌==◌, Bool, true, false, not, Option, none, some, List, [], ◌∷◌, ◌++◌, length, contains,
  eqb, if◌then◌else◌,
}
use herdr_client.Sorting.{text_before}
use herdr_client.Generator.Schema.{
  Node, NodeMap, no_entry, entry, NodeList, no_nodes, more_nodes, keywords, one_of, any_of,
  definitions, find_node, Outcome, done, failed, then_do, missing_definition, differing_definition,
  duplicate_type, subscription_counts, variant_without_ref,
}
use herdr_client.Generator.Ir.{GoType, EventRef}
use herdr_client.Generator.Canonical.{canonical}
use herdr_client.Generator.Resolve.{
  DefKind, def_enum, def_struct, def_union, def_manual, def_special, has_nodes,
}
use herdr_client.Generator.Cycles.{type_names}
use herdr_client.Generator.Fields.{count_nodes}

abbrev pub file_results : String
file_results = "results"

abbrev pub file_events : String
file_events = "events"

abbrev pub manual_defs : List String
manual_defs = "AgentViewField" ∷ "AgentViewSortField" ∷ "AgentViewValue" ∷ "PopupSize" ∷ []

abbrev pub special_defs : List String
special_defs =
    "EventData" ∷ "EventEnvelope" ∷ "EventKind" ∷ "ResponseResult" ∷ "SubscriptionEventData"
    ∷ "SubscriptionEventKind" ∷ []

-- a write to a map whose names are kept in order
unfoldable pub insert_node : String → Node → NodeMap → NodeMap
insert_node k n no_entry = entry k n no_entry
insert_node k n (entry name m rest) =
    let later = insert_node k n rest in
    if k == name
    then entry k n rest
    else if text_before k name
    then entry k n (entry name m rest)
    else entry name m later

module _ (quote : String → String) where
  -- `seen` holds the canonical text of what `defs` holds
  abbrev pub collect_one : String → Node → NodeMap → Option Node → Outcome NodeMap
  collect_one name n defs none = done (insert_node name n defs)
  collect_one name n defs (some prev) =
      if not (canonical quote prev == canonical quote n)
      then failed (differing_definition name)
      else done defs

  unfoldable pub collect_section : NodeMap → NodeMap → Outcome NodeMap
  collect_section no_entry defs = done defs
  collect_section (entry name n rest) defs =
      then_do (collect_one name n defs (find_node defs name)) (λ more. collect_section rest more)

  -- the definitions of the sections, one after the other
  unfoldable pub collect_defs : NodeMap → NodeMap → Outcome NodeMap
  unfolding collect_section
  collect_defs no_entry defs = done defs
  collect_defs (entry section n rest) defs =
      then_do (collect_section (definitions n) defs) (λ more. collect_defs rest more)

abbrev pub some_strings : List String → Bool
some_strings [] = false
some_strings (x ∷ xs) = true

abbrev pub kind_of : String → Option Node → Option DefKind
kind_of name none = none
kind_of name (some def) =
    if contains manual_defs name
    then some def_manual
    else if contains special_defs name
    then some def_special
    else if some_strings (keywords def).enum
    then some def_enum
    else if has_nodes (one_of def)
    then some def_union
    else some def_struct

-- `b.kinds`
unfoldable pub classify : NodeMap → String → Option DefKind
classify defs name = kind_of name (find_node defs name)

-- `b.register`
unfoldable pub register : GoType → List GoType → Outcome (List GoType)
register t types =
    if contains (type_names types) t.name
    then failed (duplicate_type t.name)
    else done (types ++ t ∷ [])

abbrev pub ref_pairs : List String → NodeList → Outcome (List EventRef)
ref_pairs [] vs = done []
ref_pairs (name ∷ names) no_nodes = done []
ref_pairs (name ∷ names) (more_nodes v vs) =
    if (keywords v).ref == ""
    then failed variant_without_ref
    else then_do (ref_pairs names vs)
        (λ pairs. done (record { name = name; type = (keywords v).ref } ∷ pairs))

abbrev pub needs : {A : Type 0} → String → Option Node → (Node → Outcome A) → Outcome A
needs name none next = failed (missing_definition name)
needs name (some n) next = next n

-- the dotted names of the subscriptions with the definitions of their payloads
unfoldable pub subscription_events : NodeMap → Outcome (List EventRef)
subscription_events defs =
    needs "SubscriptionEventKind" (find_node defs "SubscriptionEventKind") λ kind.
      needs "SubscriptionEventData" (find_node defs "SubscriptionEventData") λ payload.
        if not (eqb (length (keywords kind).enum) (count_nodes (any_of payload)))
        then failed subscription_counts
        else ref_pairs (keywords kind).enum (any_of payload)
