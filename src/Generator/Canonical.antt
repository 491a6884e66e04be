-- ===== src/Generator/Canonical.antt =====
-- internal/gen/schema.go: `canonical`, the text by which two definitions of one shape compare equal.
-- `quote` is strconv.Quote, by which fmt prints %q. fmt prints a list by %v between brackets, with a space
-- between its elements.
use Prim.Native.String.{◌++◌ as join_text}
use herdr_client.Prelude.{
  String, ◌==◌, ◌≡◌, refl, sym, ap, ◌∙◌, Bool, true, false, Option, none, some, List, [], ◌∷◌,
  if◌then◌else◌,
}
use mathlib.Core.Path.{ap₂}
use herdr_client.Sorting.{sort_names}
use herdr_client.Generator.Schema.{
  Keywords, Node, node, NodeMap, no_entry, entry, MaybeNode, no_node, a_node, NodeList, no_nodes,
  more_nodes,
}

abbrev pub texts : List String → String
texts [] = ""
texts (t ∷ ts) = join_text t (texts ts)

abbrev spaced : List String → String
spaced [] = ""
spaced (t ∷ ts) = join_text " " (join_text t (spaced ts))

-- a list by %v
abbrev pub list_text : List String → String
list_text [] = "[]"
list_text (t ∷ ts) = texts ("[" ∷ t ∷ spaced ts ∷ "]" ∷ [])

abbrev pub bool_text : Bool → String
bool_text true = "true"
bool_text false = "false"

module _ (quote : String → String) where
  abbrev pub const_text : Option String → String
  const_text none = ""
  const_text (some c) = texts ("const=" ∷ quote c ∷ "," ∷ [])

  abbrev pub default_text : String → String
  default_text d = if d == "" then "" else texts ("default=" ∷ d ∷ "," ∷ [])

  -- what is written of a node before its properties
  abbrev pub keywords_text : Keywords → String
  keywords_text k = texts (
      "ref="
      ∷ quote k.ref
      ∷ ","
      ∷ "types="
      ∷ list_text k.types
      ∷ ","
      ∷ "format="
      ∷ quote k.format
      ∷ ","
      ∷ "enum="
      ∷ list_text k.enum
      ∷ ","
      ∷ const_text k.const
      ∷ default_text k.default
      ∷ "required="
      ∷ list_text (sort_names k.required)
      ∷ ","
      ∷ [])

  abbrev pub node_text :
      Option Bool → Keywords → String → String → String → String → String → String
  node_text (some always) k ps items add one any = bool_text always
  node_text none k ps items add one any = texts (
      "{"
      ∷ keywords_text k
      ∷ "properties={"
      ∷ ps
      ∷ "},items="
      ∷ items
      ∷ ",addProps="
      ∷ add
      ∷ ",oneOf=["
      ∷ one
      ∷ "],anyOf=["
      ∷ any
      ∷ "]}"
      ∷ [])

  unfoldable mutual
    pub canonical : Node → String
    canonical (node k ps items add one any defs) =
        node_text k.always k (canonical_properties ps) (canonical_maybe items) (canonical_maybe add)
          (canonical_list one) (canonical_list any)

    pub canonical_properties : NodeMap → String
    canonical_properties no_entry = ""
    canonical_properties (entry name n rest) =
        texts (quote name ∷ ":" ∷ canonical n ∷ "," ∷ canonical_properties rest ∷ [])

    pub canonical_maybe : MaybeNode → String
    canonical_maybe no_node = "null"
    canonical_maybe (a_node n) = canonical n

    pub canonical_list : NodeList → String
    canonical_list no_nodes = ""
    canonical_list (more_nodes n ns) = texts (canonical n ∷ "," ∷ canonical_list ns ∷ [])

-- the shape of a node: all that stands in it but where it stands, its description and its $defs
abbrev pub shape_keywords : Keywords → Keywords
shape_keywords k = record k { path = ""; description = "" }

unfoldable mutual
  pub shape : Node → Node
  shape (node k ps items add one any defs) =
      node (shape_keywords k) (shape_map ps) (shape_maybe items) (shape_maybe add) (shape_list one)
        (shape_list any) no_entry

  pub shape_map : NodeMap → NodeMap
  shape_map no_entry = no_entry
  shape_map (entry name n rest) = entry name (shape n) (shape_map rest)

  pub shape_maybe : MaybeNode → MaybeNode
  shape_maybe no_node = no_node
  shape_maybe (a_node n) = a_node (shape n)

  pub shape_list : NodeList → NodeList
  shape_list no_nodes = no_nodes
  shape_list (more_nodes n ns) = more_nodes (shape n) (shape_list ns)

shape-node_text :
    (quote : String → String) (o : Option Bool) (k : Keywords) {a b c d e a' b' c' d' e' : String}
    → a ≡ a'
    → b ≡ b'
    → c ≡ c'
    → d ≡ d'
    → e ≡ e'
    → node_text quote o k a b c d e ≡ node_text quote o (shape_keywords k) a' b' c' d' e'
shape-node_text quote (some b) k p q r s t = refl
shape-node_text quote none k p q r s t = λ i. node_text quote none k (p i) (q i) (r i) (s i) (t i)

module _ (quote : String → String) where
  mutual
    unfolding canonical canonical_properties canonical_maybe canonical_list shape shape_map
        shape_maybe shape_list

    same_text : (n : Node) → canonical quote n ≡ canonical quote (shape n)
    same_text (node k ps items add one any defs) =
        shape-node_text quote k.always k (same_map ps) (same_maybe items) (same_maybe add)
          (same_list one) (same_list any)

    same_map :
        (m : NodeMap) → canonical_properties quote m ≡ canonical_properties quote (shape_map m)
    same_map no_entry = refl
    same_map (entry name n rest) =
        ap₂ (λ t u. texts (quote name ∷ ":" ∷ t ∷ "," ∷ u ∷ [])) (same_text n) (same_map rest)

    same_maybe : (m : MaybeNode) → canonical_maybe quote m ≡ canonical_maybe quote (shape_maybe m)
    same_maybe no_node = refl
    same_maybe (a_node n) = same_text n

    same_list : (ns : NodeList) → canonical_list quote ns ≡ canonical_list quote (shape_list ns)
    same_list no_nodes = refl
    same_list (more_nodes n ns) = ap₂ (λ t u. texts (t ∷ "," ∷ u ∷ [])) (same_text n) (same_list ns)

  -- Two definitions that differ only in paths, descriptions and $defs, at any depth, have the same
  -- canonical text.
  pub canonical-shape : (n m : Node) → shape n ≡ shape m → canonical quote n ≡ canonical quote m
  canonical-shape n m e = same_text n ∙ ap (canonical quote) e ∙ sym (same_text m)
