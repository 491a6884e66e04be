-- ===== src/Generator/Resolve.antt =====
-- internal/gen/ir.go: the Go type of a schema node.
use Prim.Native.String.{◌++◌ as join_text}
use herdr_client.Prelude.{
  String, ◌==◌, Bool, true, false, not, ◌&&◌, ◌||◌, Option, none, some, List, [], ◌∷◌,
  if◌then◌else◌,
}
use herdr_client.Generator.Schema.{
  Keywords, Node, node, MaybeNode, no_node, a_node, NodeList, no_nodes, more_nodes, keywords,
  Outcome, done, failed, then_do, rejects_every_value, unsupported_any_of, inline_one_of,
  inline_enum, array_without_items, union_in_map, inline_object, integer_format, number_format,
  unsupported_type, unknown_ref, special_ref, nullable, base_type,
}

pub data DefKind : Type 0 where
  def_enum def_struct def_union def_manual def_special : DefKind

pub data Category : Type 0 where
  cat_string cat_enum cat_bool cat_int cat_float cat_struct cat_slice cat_map cat_raw cat_union :
      Category

pub record Resolved : Type 0 where
  pub go : String
  pub cat : Category
  pub nullable : Bool
  pub union : String
  pub elem_union : String

abbrev pub plain : String → Category → Bool → Resolved
plain go cat n = record { go = go; cat = cat; nullable = n; union = ""; elem_union = "" }

abbrev pub ref_of_kind : String → String → Option DefKind → Outcome Resolved
ref_of_kind path ref none = failed (unknown_ref path ref)
ref_of_kind path ref (some def_enum) = done (plain ref cat_enum false)
ref_of_kind path ref (some def_struct) = done (plain ref cat_struct false)
ref_of_kind path ref (some def_manual) = done (plain ref cat_struct false)
ref_of_kind path ref (some def_union) =
    done (record { go = ref; cat = cat_union; nullable = false; union = ref; elem_union = "" })
ref_of_kind path ref (some def_special) =
    if ref == "EventEnvelope"
    then done (plain "EventEnvelope" cat_struct false)
    else failed (special_ref path ref)

unfoldable pub resolve_ref : (String → Option DefKind) → String → String → Outcome Resolved
resolve_ref kinds path ref = ref_of_kind path ref (kinds ref)

-- the categories that a nil of Go stands for already
abbrev pub has_nil : Category → Bool
has_nil cat_slice = true
has_nil cat_map = true
has_nil cat_raw = true
has_nil cat_union = true
has_nil c = false

unfoldable pub elem_type : Resolved → String
elem_type r = if r.nullable && not (has_nil r.cat) then join_text "*" r.go else r.go

unfoldable pub integer_type : String → String → Outcome String
integer_type path format =
    if format == ""
    then done "int64"
    else if format == "uint"
    then done "uint64"
    else if format == "uint8"
        || format == "uint16"
        || format == "uint32"
        || format == "uint64"
        || format == "int8"
        || format == "int16"
        || format == "int32"
        || format == "int64"
    then done format
    else failed (integer_format path format)

unfoldable pub is_null : Node → Bool
is_null n = only_null (keywords n).types
  where
    only_null : List String → Bool
    only_null (t ∷ []) = t == "null"
    only_null ts = false

-- AnyOf: not given, a schema or null, or another one
pub data Choice : Type 0 where
  no_choice other_choice : Choice
  or_null : Outcome Resolved → Choice

-- Items and AddProps: not given, or what they resolve to
pub data Inner : Type 0 where
  not_given : Inner
  given : Outcome Resolved → Inner

abbrev pub as_nullable : Resolved → Resolved
as_nullable r = record r { nullable = true }

abbrev pub slice_of : Bool → Resolved → Resolved
slice_of n elem = record {
  go = join_text "[]" (elem_type elem);
  cat = cat_slice;
  nullable = n;
  union = "";
  elem_union = elem.union;
}

abbrev pub map_of : String → Bool → Resolved → Outcome Resolved
map_of path n value =
    if value.union == ""
    then done (plain (join_text "map[string]" (elem_type value)) cat_map n)
    else failed (union_in_map path)

abbrev pub array_type : Keywords → Inner → Outcome Resolved
array_type k not_given = failed (array_without_items k.path)
array_type k (given o) = then_do o (λ elem. done (slice_of (nullable k) elem))

abbrev pub object_type : Keywords → Inner → Outcome Resolved
object_type k not_given = failed (inline_object k.path)
object_type k (given o) = then_do o (map_of k.path (nullable k))

abbrev pub no_strings : List String → Bool
no_strings [] = true
no_strings (s ∷ ss) = false

-- the switch on the base type
unfoldable pub resolve_base : Keywords → Inner → Inner → String → Outcome Resolved
resolve_base k items add base =
    if base == "string"
    then if no_strings k.enum
      then done (plain "string" cat_string (nullable k))
      else failed (inline_enum k.path)
    else if base == "boolean"
    then done (plain "bool" cat_bool (nullable k))
    else if base == "integer"
    then then_do (integer_type k.path k.format) (λ go. done (plain go cat_int (nullable k)))
    else if base == "number"
    then if k.format == "" || k.format == "float" || k.format == "double"
      then done (plain "float64" cat_float (nullable k))
      else failed (number_format k.path k.format)
    else if base == "array"
    then array_type k items
    else if base == "object"
    then object_type k add
    else failed (unsupported_type k.path base)

-- the tests before the switch, from the one on AnyOf
abbrev pub resolve_choice : Keywords → Inner → Inner → Bool → Choice → Outcome Resolved
resolve_choice k items add one_of other_choice = failed (unsupported_any_of k.path)
resolve_choice k items add one_of (or_null o) = then_do o (λ r. done (as_nullable r))
resolve_choice k items add true no_choice = failed (inline_one_of k.path)
resolve_choice k items add false no_choice = then_do (base_type k) (resolve_base k items add)

abbrev pub resolve_node :
    (String → Option DefKind)
    → Keywords
    → Inner
    → Inner
    → Bool
    → Choice
    → Option Bool
    → Outcome Resolved
resolve_node kinds k items add one_of any_of (some false) = failed (rejects_every_value k.path)
resolve_node kinds k items add one_of any_of (some true) =
    done (plain "json.RawMessage" cat_raw false)
resolve_node kinds k items add one_of any_of none =
    if k.ref == "" then resolve_choice k items add one_of any_of else resolve_ref kinds k.path k.ref

abbrev pub has_nodes : NodeList → Bool
has_nodes no_nodes = false
has_nodes (more_nodes n ns) = true

unfoldable mutual
  pub resolve : (String → Option DefKind) → Node → Outcome Resolved
  resolve kinds (node k ps items add one any defs) =
      resolve_node kinds k (resolve_inner kinds items) (resolve_inner kinds add) (has_nodes one)
        (resolve_any kinds any) k.always

  pub resolve_inner : (String → Option DefKind) → MaybeNode → Inner
  resolve_inner kinds no_node = not_given
  resolve_inner kinds (a_node n) = given (resolve kinds n)

  -- AnyOf of two schemas, the second one null
  pub resolve_any : (String → Option DefKind) → NodeList → Choice
  resolve_any kinds no_nodes = no_choice
  resolve_any kinds (more_nodes n no_nodes) = other_choice
  resolve_any kinds (more_nodes n (more_nodes m no_nodes)) =
      let r = resolve kinds n in if is_null m then or_null r else other_choice
  resolve_any kinds (more_nodes n (more_nodes m (more_nodes l ns))) = other_choice
