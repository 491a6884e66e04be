-- ===== src/Generator/Schema.antt =====
-- internal/gen/schema.go: the parsed schema. A map of nodes is the list of its names and nodes in the
-- order of the names, which is the order that PropertyNames and sortedKeys give them.
use herdr_client.Prelude.{
  String, ◌==◌, Bool, Option, none, some, List, [], ◌∷◌, contains, if◌then◌else◌,
}

-- what a node has besides other nodes: Path, Always, Ref, Types, Format, Description,
-- Default as its text, Enum, Const, Required
pub record Keywords : Type 0 where
  pub path : String
  pub always : Option Bool
  pub ref : String
  pub types : List String
  pub format : String
  pub description : String
  pub default : String
  pub enum : List String
  pub const : Option String
  pub required : List String

-- Node, with its Properties, Items, AddProps, OneOf, AnyOf and Defs
mutual
  pub data Node : Type 0 where
    node : Keywords → NodeMap → MaybeNode → MaybeNode → NodeList → NodeList → NodeMap → Node

  pub data NodeMap : Type 0 where
    no_entry : NodeMap
    entry : String → Node → NodeMap → NodeMap

  pub data MaybeNode : Type 0 where
    no_node : MaybeNode
    a_node : Node → MaybeNode

  pub data NodeList : Type 0 where
    no_nodes : NodeList
    more_nodes : Node → NodeList → NodeList

abbrev pub keywords : Node → Keywords
keywords (node k ps items add one any defs) = k

abbrev pub properties : Node → NodeMap
properties (node k ps items add one any defs) = ps

abbrev pub one_of : Node → NodeList
one_of (node k ps items add one any defs) = one

abbrev pub any_of : Node → NodeList
any_of (node k ps items add one any defs) = any

abbrev pub definitions : Node → NodeMap
definitions (node k ps items add one any defs) = defs

-- the names of a map, in order: PropertyNames and sortedKeys
abbrev pub node_names : NodeMap → List String
node_names no_entry = []
node_names (entry name n rest) = name ∷ node_names rest

unfoldable pub find_node : NodeMap → String → Option Node
find_node no_entry k = none
find_node (entry name n rest) k =
    let later = find_node rest k in if name == k then some n else later

-- what the generator refuses, with the path of the node
pub data SchemaError : Type 0 where
  rejects_every_value unsupported_any_of inline_one_of type_union inline_enum : String → SchemaError
  array_without_items union_in_map inline_object : String → SchemaError
  integer_format number_format unsupported_type unknown_ref special_ref not_an_object :
      String → String → SchemaError
  -- of the unions: without a variant, without a property that is a constant in each, with several
  no_variants no_discriminator several_discriminators : SchemaError
  -- a definition that is missing or differs, a type name that stands twice, an event of no kind
  missing_definition differing_definition duplicate_type unknown_event : String → SchemaError
  missing_event_kinds missing_event_data : SchemaError
  -- of the subscriptions: other counts, a variant without a $ref, another name, other fields
  subscription_counts variant_without_ref : SchemaError
  subscription_name subscription_fields : String → SchemaError
  -- of the requests and of the method table
  missing_request no_methods : SchemaError
  without_method_const without_params_ref : String → SchemaError
  no_entry_for unknown_method : List String → SchemaError
  unknown_result : String → String → SchemaError
  cycle : String → String → SchemaError
  -- a nil pointer that the source follows, and a loop of the model that has used up its fuel
  nil_pointer too_few_turns : SchemaError

pub data Outcome (A : Type 0) : Type 0 where
  done : A → Outcome A
  failed : SchemaError → Outcome A

abbrev pub then_do : {A B : Type 0} → Outcome A → (A → Outcome B) → Outcome B
then_do (done a) next = next a
then_do (failed e) next = failed e

infixl 5 ◌>>=◌
abbrev pub ◌>>=◌ : {A B : Type 0} → Outcome A → (A → Outcome B) → Outcome B
◌>>=◌ = then_do

-- `Nullable`
unfoldable pub nullable : Keywords → Bool
nullable k = contains k.types "null"

abbrev pub base_of : String → String → List String → Outcome String
base_of path base [] = done base
base_of path base (t ∷ ts) =
    let rest = base_of path base ts in
    let first = base_of path t ts in
    if t == "null" then rest else if base == "" then first else failed (type_union path)

-- `BaseType`
unfoldable pub base_type : Keywords → Outcome String
base_type k = base_of k.path "" k.types

-- `IsRequired`
unfoldable pub is_required : Keywords → String → Bool
is_required k name = contains k.required name
