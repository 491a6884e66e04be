-- ===== src/Generator/Types.antt =====
-- internal/gen/ir.go: the types that the builder registers for the events, the results and all other
-- definitions.
use Prim.Native.String.{◌++◌ as join_text}
use herdr_client.Prelude.{
  String, ◌==◌, not, Option, none, some, List, [], ◌∷◌, ◌++◌, contains, if◌then◌else◌,
}
use herdr_client.GoText.{dot_name}
use herdr_client.Generator.Schema.{
  Node, NodeMap, no_entry, entry, NodeList, no_nodes, more_nodes, keywords, one_of, find_node,
  Outcome, done, failed, then_do, unknown_event, subscription_name, subscription_fields,
}
use herdr_client.Generator.Ir.{kind_enum, kind_union, EnumValue, GoType, EventRef}
use herdr_client.Generator.Naming.{pascal, enum_const_name}
use herdr_client.Generator.Resolve.{
  DefKind, def_enum, def_struct, def_union, def_manual, def_special,
}
use herdr_client.Generator.Fields.{
  build_struct, discriminator, tag_of, same_fields, empty_type, file_types,
}
use herdr_client.Generator.Builder.{file_results, file_events, register, needs, subscription_events}

abbrev pub enum_values : String → List String → List EnumValue
enum_values name [] = []
enum_values name (v ∷ vs) =
    record { name = enum_const_name name v; value = v } ∷ enum_values name vs

-- `b.types[name]`
unfoldable pub find_type : List GoType → String → Option GoType
find_type [] k = none
find_type (t ∷ ts) k = let later = find_type ts k in if t.name == k then some t else later

-- a write of `union.Variants` through the pointer to a registered union
unfoldable pub add_variant : String → String → List GoType → List GoType
add_variant union variant [] = []
add_variant union variant (t ∷ ts) =
    let rest = t ∷ add_variant union variant ts in
    if t.name == union then record t { variants = t.variants ++ variant ∷ [] } ∷ ts else rest

abbrev pub pair_types : List EventRef → List String
pair_types [] = []
pair_types (p ∷ ps) = p.type ∷ pair_types ps

module _ (defs : NodeMap) (kinds : String → Option DefKind) where
  abbrev pub event_type : Node → String → String → Outcome GoType
  event_type variant disc tag =
      then_do (build_struct kinds (join_text (pascal tag) "Event") variant disc) λ t.
        done (record t {
          file = file_events;
          tag_field = disc;
          tag_value = tag;
          event_name = dot_name tag;
          doc = (keywords variant).description;
        })

  -- the loop over the variants of EventData
  unfoldable pub event_variants :
      List String → String → NodeList → List GoType → Outcome (List GoType)
  event_variants known disc no_nodes types = done types
  event_variants known disc (more_nodes v vs) types = then_do (tag_of v disc) λ tag.
      if not (contains known tag)
      then failed (unknown_event tag)
      else then_do (event_type v disc tag)
          λ t. then_do (register t types) (λ more. event_variants known disc vs more)

  abbrev pub subscription_type : EventRef → Node → Outcome GoType
  subscription_type pair def = then_do (build_struct kinds pair.type def "") λ t.
      done
        (record t { file = file_events; event_name = pair.name; doc = (keywords def).description })

  -- a payload that is a variant of EventData too is registered already
  abbrev pub subscribe_type :
      EventRef → GoType → Option GoType → List GoType → Outcome (List GoType)
  subscribe_type pair t none types = register t types
  subscribe_type pair t (some existing) types =
      if not (existing.event_name == pair.name)
      then failed (subscription_name pair.type)
      else if not (same_fields existing.fields t.fields)
      then failed (subscription_fields pair.type)
      else done types

  unfoldable pub subscription_types : List EventRef → List GoType → Outcome (List GoType)
  unfolding find_type
  subscription_types [] types = done types
  subscription_types (pair ∷ pairs) types = needs pair.type (find_node defs pair.type) λ def.
      then_do (subscription_type pair def) λ t.
        then_do (subscribe_type pair t (find_type types pair.type) types)
          (λ more. subscription_types pairs more)

  -- `buildEvents`, of which the package keeps the values of EventKind and the pairs
  unfoldable pub build_events : List GoType → Outcome (List GoType)
  unfolding event_variants subscription_types subscription_events
  build_events types = needs "EventKind" (find_node defs "EventKind") λ kind.
      needs "EventData" (find_node defs "EventData") λ payload.
        then_do (discriminator (one_of payload)) λ disc.
          then_do (event_variants (keywords kind).enum disc (one_of payload) types)
            λ more. then_do (subscription_events defs) (λ pairs. subscription_types pairs more)

  abbrev pub result_type : Node → String → String → Outcome GoType
  result_type variant disc tag =
      then_do (build_struct kinds (join_text (pascal tag) "Response") variant disc) λ t.
        done (record t {
          file = file_results;
          tag_field = disc;
          tag_value = tag;
          result_tag = tag;
          doc = (keywords variant).description;
        })

  unfoldable pub result_variants : String → NodeList → List GoType → Outcome (List GoType)
  result_variants disc no_nodes types = done types
  result_variants disc (more_nodes v vs) types = then_do (tag_of v disc) λ tag.
      then_do (result_type v disc tag)
        λ t. then_do (register t types) (λ more. result_variants disc vs more)

  unfoldable pub build_results : List GoType → Outcome (List GoType)
  unfolding result_variants
  build_results types =
      needs "ResponseResult" (find_node defs "ResponseResult") λ def.
        then_do (discriminator (one_of def)) (λ disc. result_variants disc (one_of def) types)

  -- variantNamers, or the union's name before the tag
  abbrev pub variant_name : String → String → String
  variant_name name tag =
      if name == "Subscription"
      then join_text (pascal tag) "Subscription"
      else join_text name (pascal tag)

  abbrev pub variant_type : String → Node → String → String → Outcome GoType
  variant_type name variant disc tag =
      then_do (build_struct kinds (variant_name name tag) variant disc) λ t. done (record t {
        file = file_types;
        tag_field = disc;
        tag_value = tag;
        union_name = name;
        doc = (keywords variant).description;
      })

  unfoldable pub union_variants : String → String → NodeList → List GoType → Outcome (List GoType)
  union_variants name disc no_nodes types = done types
  union_variants name disc (more_nodes v vs) types = then_do (tag_of v disc) λ tag.
      then_do (variant_type name v disc tag) λ t.
        then_do (register t types)
          (λ more. union_variants name disc vs (add_variant name t.name more))

  unfoldable pub build_union : String → Node → List GoType → Outcome (List GoType)
  unfolding union_variants
  build_union name def types = then_do (discriminator (one_of def)) λ disc.
      then_do
        (register
          (record (empty_type name kind_union file_types) {
            doc = (keywords def).description;
            discriminator = disc;
          })
          types)
        (λ more. union_variants name disc (one_of def) more)

  abbrev pub struct_type : String → Node → Outcome GoType
  struct_type name def =
      then_do (build_struct kinds name def "")
        λ t. done (record t { file = file_types; doc = (keywords def).description })

  -- the switch on the kind of a definition
  abbrev pub build_kind : String → Node → Option DefKind → List GoType → Outcome (List GoType)
  build_kind name def (some def_manual) types = done types
  build_kind name def (some def_special) types = done types
  build_kind name def (some def_enum) types =
      register
        (record (empty_type name kind_enum file_types) {
          doc = (keywords def).description;
          values = enum_values name (keywords def).enum;
        })
        types
  build_kind name def (some def_union) types = build_union name def types
  build_kind name def (some def_struct) types =
      then_do (struct_type name def) (λ t. register t types)
  build_kind name def none types = then_do (struct_type name def) (λ t. register t types)

  unfoldable pub build_each : List String → NodeMap → List GoType → Outcome (List GoType)
  unfolding build_union
  build_each handled no_entry types = done types
  build_each handled (entry name def rest) types =
      if contains handled name
      then build_each handled rest types
      else then_do (build_kind name def (kinds name) types) (λ more. build_each handled rest more)

  unfoldable pub build_remaining : List GoType → Outcome (List GoType)
  unfolding build_each subscription_events
  build_remaining types =
      then_do (subscription_events defs) (λ pairs. build_each (pair_types pairs) defs types)
