-- ===== src/Tests/Schemas.antt =====
-- A small schema, with one event, one method, one result and a struct that may hold itself, and the theorems
-- on internal/gen at it.
use herdr_client.Prelude.{◌≡◌, refl, String, Option, none, some, List, [], ◌∷◌}
use herdr_client.Generator.Schema.{
  Keywords, Node, node, NodeMap, no_entry, entry, MaybeNode, no_node, a_node, NodeList, no_nodes,
  more_nodes, keywords, properties, one_of, Outcome, done, failed,
}
use herdr_client.Generator.Ir.{Package}
use herdr_client.Generator.Resolve.{DefKind, def_struct}
use herdr_client.Generator.Canonical.{canonical, shape, canonical-shape}
use herdr_client.Generator.Methods.{MethodTable, MethodResult}
use herdr_client.Generator.Fields.{discriminator, build_struct}
use herdr_client.Generator.Builder.{collect_defs}
use herdr_client.Generator.Build.{build}
use herdr_client.Generator.Cycles.{
  type_names, Broken, break_optional_struct_cycles, break_optional_struct_cycles-total,
  break_optional_struct_cycles-Acyclic, AcyclicIf, Unstarred, has_struct,
}
use herdr_client.Generator.Outcomes.{Ensures}
use herdr_client.Generator.Sound.Whole.{IsSoundPackage, build-IsSoundPackage}
use herdr_client.Generator.Sound.Unions.{IsDiscriminator, discriminator-IsDiscriminator}
use herdr_client.Generator.Sound.Structs.{CoversType, build_struct-Covers}
use herdr_client.Generator.Sound.Definitions.{HoldsSections, collect_defs-HoldsSections}

abbrev plain : Keywords
plain = record {
  path = "/";
  always = none;
  ref = "";
  types = [];
  format = "";
  description = "";
  default = "";
  enum = [];
  const = none;
  required = [];
}

abbrev leaf : Keywords → Node
leaf k = node k no_entry no_node no_node no_nodes no_nodes no_entry

abbrev text_node : Node
text_node = leaf (record plain { types = "string" ∷ [] })

abbrev const_node : String → Node
const_node c = leaf (record plain { types = "string" ∷ []; const = some c })

abbrev ref_node : String → Node
ref_node name = leaf (record plain { ref = name })

abbrev enum_node : List String → Node
enum_node vs = leaf (record plain { types = "string" ∷ []; enum = vs })

abbrev object_node : List String → NodeMap → Node
object_node required ps =
    node (record plain { types = "object" ∷ []; required = required }) ps no_node no_node no_nodes
      no_nodes no_entry

abbrev union_node : NodeList → Node
union_node vs = node plain no_entry no_node no_node vs no_nodes no_entry

abbrev section_node : NodeList → NodeMap → Node
section_node vs defs = node plain no_entry no_node no_node vs no_nodes defs

abbrev pane_target : Node
pane_target = object_node ("pane_id" ∷ []) (entry "pane_id" text_node no_entry)

abbrev pane_info : Node
pane_info =
    object_node ("pane_id" ∷ [])
      (entry "pane_id" text_node (entry "parent" (ref_node "PaneInfo") no_entry))

abbrev results : NodeList
results =
    more_nodes
      (object_node ("type" ∷ "pane" ∷ [])
        (entry "pane" (ref_node "PaneInfo") (entry "type" (const_node "pane_info") no_entry)))
      no_nodes

abbrev events : NodeList
events =
    more_nodes
      (object_node ("type" ∷ "pane_id" ∷ [])
        (entry "pane_id" text_node (entry "type" (const_node "pane_closed") no_entry)))
      no_nodes

abbrev requests : NodeList
requests =
    more_nodes
      (object_node ("method" ∷ "params" ∷ [])
        (entry "method" (const_node "pane.get") (entry "params" (ref_node "PaneTarget") no_entry)))
      no_nodes

abbrev sections : NodeMap
sections =
    entry "event"
      (section_node no_nodes (
        entry "EventData" (union_node events) (
          entry "EventKind" (enum_node ("pane_closed" ∷ [])) (
            entry "SubscriptionEventData" (union_node no_nodes)
              (entry "SubscriptionEventKind" (enum_node []) no_entry)))))
      (entry "request" (section_node requests (entry "PaneTarget" pane_target no_entry)) (
        entry "response"
          (section_node no_nodes
            (entry "PaneInfo" pane_info (entry "ResponseResult" (union_node results) no_entry)))
          no_entry))

abbrev table : MethodTable
table = ("pane.get", record { result = "pane_info"; results = []; stream = "" }) ∷ []

abbrev quote : String → String
quote s = s

abbrev type_names_of : Outcome Package → List String
type_names_of (done p) = type_names p.types
type_names_of (failed e) = []

sample-builds :
    type_names_of (build quote 1 sections table "herdr")
    ≡ "PaneClosedEvent" ∷ ("PaneInfo" ∷ ("PaneInfoResponse" ∷ ("PaneTarget" ∷ [])))
unfolding build collect_defs discriminator build_struct canonical break_optional_struct_cycles
    has_struct herdr_client.Sorting.text_before herdr_client.Sorting.insert_name
    herdr_client.Sorting.sort_names herdr_client.GoText.dot_name
    herdr_client.Generator.Schema.find_node herdr_client.Generator.Builder.insert_node
    herdr_client.Generator.Types.build_events herdr_client.Generator.Fields.in_every
    herdr_client.Generator.Fields.counted herdr_client.Generator.Fields.const_names
    herdr_client.Generator.Fields.tag_of herdr_client.Generator.Schema.base_type
    herdr_client.Generator.Fields.field herdr_client.Generator.Resolve.resolve
    herdr_client.Generator.Resolve.resolve_base herdr_client.Generator.Builder.register
    herdr_client.Generator.Types.build_results herdr_client.Generator.Resolve.resolve_ref
    herdr_client.Generator.Build.insert_type herdr_client.Generator.Build.registered_types
    herdr_client.Generator.Build.sort_types herdr_client.Generator.Build.types_in
    herdr_client.Generator.Builder.classify herdr_client.Generator.Builder.collect_section
    herdr_client.Generator.Builder.subscription_events herdr_client.Generator.Cycles.break_fields
    herdr_client.Generator.Cycles.break_loop herdr_client.Generator.Cycles.break_types
    herdr_client.Generator.Cycles.check_cycles herdr_client.Generator.Cycles.edges
    herdr_client.Generator.Cycles.find_struct herdr_client.Generator.Cycles.must_point
    herdr_client.Generator.Cycles.point herdr_client.Generator.Cycles.struct_reaches
    herdr_client.Generator.Fields.build_fields herdr_client.Generator.Fields.same_fields
    herdr_client.Generator.Methods.build_methods herdr_client.Generator.Methods.check_entries
    herdr_client.Generator.Methods.find_entry herdr_client.Generator.Methods.method_of
    herdr_client.Generator.Methods.missing herdr_client.Generator.Methods.params_of
    herdr_client.Generator.Methods.requests herdr_client.Generator.Methods.result_type_of
    herdr_client.Generator.Methods.unknown herdr_client.Generator.Methods.validate_table
    herdr_client.Generator.Naming.enum_const_name herdr_client.Generator.Naming.initialism
    herdr_client.Generator.Naming.pascal herdr_client.Generator.Naming.split_words
    herdr_client.Generator.Naming.to_lower herdr_client.Generator.Reach.reaches
    herdr_client.Generator.Reach.visit herdr_client.Generator.Resolve.elem_type
    herdr_client.Generator.Resolve.integer_type herdr_client.Generator.Resolve.is_null
    herdr_client.Generator.Schema.is_required herdr_client.Generator.Schema.nullable
    herdr_client.Generator.Types.add_variant herdr_client.Generator.Types.build_each
    herdr_client.Generator.Types.build_remaining herdr_client.Generator.Types.build_union
    herdr_client.Generator.Types.event_variants herdr_client.Generator.Types.find_type
    herdr_client.Generator.Types.result_variants herdr_client.Generator.Types.subscription_types
    herdr_client.Generator.Types.union_variants
sample-builds = refl

build-IsSoundPackage_example : Ensures IsSoundPackage (build quote 1 sections table "herdr")
build-IsSoundPackage_example = build-IsSoundPackage quote 1 sections table "herdr" refl

discriminator-IsDiscriminator_example : Ensures (IsDiscriminator results) (discriminator results)
discriminator-IsDiscriminator_example = discriminator-IsDiscriminator results (refl, tt)

abbrev kinds : String → Option DefKind
kinds name = some def_struct

build_struct-Covers_example :
    Ensures
      (CoversType (keywords pane_info) (properties pane_info) "")
      (build_struct kinds "PaneInfo" pane_info "")
build_struct-Covers_example = build_struct-Covers kinds "PaneInfo" pane_info ""

collect_defs-HoldsSections_example :
    Ensures (HoldsSections quote sections) (collect_defs quote sections no_entry)
collect_defs-HoldsSections_example = collect_defs-HoldsSections quote sections

-- the same definition in two sections
abbrev elsewhere : Node
elsewhere =
    node
      (record plain {
        path = "/response/$defs/PaneTarget";
        description = "A pane.";
        types = "object" ∷ [];
        required = "pane_id" ∷ [];
      })
      (entry "pane_id" text_node no_entry) no_node no_node no_nodes no_nodes no_entry

same-shape : shape elsewhere ≡ shape pane_target
unfolding shape
same-shape = refl

canonical-shape_example : canonical quote elsewhere ≡ canonical quote pane_target
canonical-shape_example = canonical-shape quote elsewhere pane_target same-shape
