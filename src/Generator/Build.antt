-- ===== src/Generator/Build.antt =====
-- internal/gen/ir.go: Build, from a parsed schema and a method table to all that the emitters need.
use herdr_client.Prelude.{ℕ, String, ◌==◌, true, false, is_some, List, [], ◌∷◌, if◌then◌else◌}
use herdr_client.Sorting.{text_before}
use herdr_client.Generator.Schema.{
  NodeMap, no_entry, keywords, find_node, Outcome, done, failed, then_do, cycle, too_few_turns,
}
use herdr_client.Generator.Ir.{
  kind_enum, kind_struct, kind_union, EnumValue, Field, GoType, Method, EventRef, Package,
}
use herdr_client.Generator.Builder.{
  manual_defs, collect_defs, classify, subscription_events, needs, file_results, file_events,
}
use herdr_client.Generator.Fields.{empty_type}
use herdr_client.Generator.Types.{enum_values, build_events, build_results, build_remaining}
use herdr_client.Generator.Methods.{MethodTable, build_methods}
use herdr_client.Generator.Cycles.{
  Broken, broken, value_cycle, out_of_fuel, break_optional_struct_cycles,
}

-- sort.Slice by name
unfoldable pub insert_type : GoType → List GoType → List GoType
insert_type t [] = t ∷ []
insert_type t (u ∷ us) =
    let rest = insert_type t us in if text_before t.name u.name then t ∷ (u ∷ us) else u ∷ rest

unfoldable pub sort_types : List GoType → List GoType
unfolding insert_type
sort_types [] = []
sort_types (t ∷ ts) = insert_type t (sort_types ts)

abbrev pub in_file : String → List GoType → List GoType
in_file file [] = []
in_file file (t ∷ ts) = let rest = in_file file ts in if t.file == file then t ∷ rest else rest

-- `TypesIn`
unfoldable pub types_in : List GoType → String → List GoType
unfolding sort_types
types_in types file = sort_types (in_file file types)

abbrev pub names_of : List GoType → List String
names_of [] = []
names_of (t ∷ ts) = t.name ∷ names_of ts

abbrev pub envelope_field : String → String → String → Field
envelope_field name type json = record {
  name = name;
  json = json;
  type = type;
  value_type = type;
  doc = "";
  required = true;
  nullable = false;
  optional = false;
  omit_empty = false;
  union = "";
  union_slice = false;
}

abbrev pub auxiliary : List GoType → List GoType
auxiliary types =
    empty_type "EventKind" kind_enum ""
    ∷ record (empty_type "Event" kind_union "") { variants = names_of (types_in types file_events) }
    ∷ record (empty_type "Result" kind_union "") {
      variants = names_of (types_in types file_results);
    }
    ∷ record (empty_type "EventEnvelope" kind_struct "") {
      doc = "EventEnvelope is one event line pushed on a subscription connection.";
      fields =
          envelope_field "Event" "EventKind" "event" ∷ envelope_field "Data" "Event" "data" ∷ [];
    }
    ∷ []

abbrev pub present : NodeMap → List String → List String
present defs [] = []
present defs (n ∷ ns) =
    let rest = present defs ns in if is_some (find_node defs n) then n ∷ rest else rest

abbrev pub unbroken : Broken → Outcome (List GoType)
unbroken (broken types) = done types
unbroken (value_cycle owner target) = failed (cycle owner target)
unbroken out_of_fuel = failed too_few_turns

-- `b.order` before breakOptionalStructCycles
unfoldable pub registered_types : NodeMap → Outcome (List GoType)
registered_types defs =
    let kinds = classify defs in
    then_do (build_events defs kinds []) λ events.
      then_do (build_results defs kinds events) λ results. build_remaining defs kinds results

abbrev pub event_kinds : NodeMap → Outcome (List EnumValue)
event_kinds defs =
    needs "EventKind" (find_node defs "EventKind")
      λ kind. done (enum_values "EventKind" (keywords kind).enum)

abbrev pub package_of :
    String → ℕ → NodeMap → List GoType → List Method → List EnumValue → List EventRef → Package
package_of name protocol defs types methods kinds pairs = record {
  name = name;
  protocol = protocol;
  types = sort_types types;
  event_kind = kinds;
  subscriptions = pairs;
  methods = methods;
  manual_types = present defs manual_defs;
  auxiliary_types = auxiliary types;
}

-- Build, of a document's protocol and sections
unfoldable pub build : (String → String) → ℕ → NodeMap → MethodTable → String → Outcome Package
unfolding registered_types
build quote protocol sections table name = then_do (collect_defs quote sections no_entry) λ defs.
    then_do (registered_types defs) λ order.
      then_do (unbroken (break_optional_struct_cycles order)) λ types.
        then_do (build_methods sections table types) λ methods. then_do (event_kinds defs) λ kinds.
          then_do (subscription_events defs)
            λ pairs. done (package_of name protocol defs types methods kinds pairs)
