-- ===== src/Generator/Fields.antt =====
-- internal/gen/ir.go: the fields of a struct, and the discriminator of a union.
use Prim.Native.String.{◌++◌ as join_text}
use herdr_client.Prelude.{
  ℕ, suc, ◌+◌, String, ◌==◌, Bool, true, false, not, ◌&&◌, Option, none, some, is_some, List, [],
  ◌∷◌, ◌++◌, contains, eqb, if◌then◌else◌,
}
use herdr_client.Generator.Schema.{
  Keywords, Node, NodeMap, no_entry, entry, NodeList, no_nodes, more_nodes, keywords, properties,
  find_node, Outcome, done, failed, ◌>>=◌, then_do, is_required, base_type, not_an_object,
  no_variants, no_discriminator, several_discriminators, nil_pointer,
}
use herdr_client.Generator.Ir.{TypeKind, kind_struct, Field, GoType}
use herdr_client.Generator.Naming.{pascal}
use herdr_client.Generator.Resolve.{
  DefKind, Category, cat_slice, cat_map, cat_raw, cat_union, Resolved, resolve,
}

-- the switch on the category of a field's type
abbrev pub set_type : Category → Resolved → Field → Field
set_type cat_union r f = record f { type = r.go; union = r.union }
set_type cat_slice r f = record f {
  type = r.go;
  union = r.elem_union;
  union_slice = not (r.elem_union == "");
}
set_type cat_map r f = record f { type = r.go }
set_type cat_raw r f = record f { type = r.go }
set_type cat r f =
    if f.required && r.nullable
    then record f { type = join_text "*" r.go; value_type = join_text "*" r.go }
    else record f { type = r.go }

abbrev pub wrap_optional : Field → Field
wrap_optional f =
    if f.optional then record f { type = join_text "Optional[" (join_text f.value_type "]") } else f

abbrev pub new_field : String → String → Bool → Resolved → Field
new_field name doc required r = record {
  name = pascal name;
  json = name;
  type = "";
  value_type = r.go;
  doc = doc;
  required = required;
  nullable = r.nullable;
  optional = not required;
  omit_empty = false;
  union = "";
  union_slice = false;
}

abbrev pub field_of : String → String → Bool → Resolved → Field
field_of name doc required r = wrap_optional (set_type r.cat r (new_field name doc required r))

-- `field`, of a property that the owner has
unfoldable pub field : (String → Option DefKind) → Keywords → String → Node → Outcome Field
field kinds owner name n = do
  r ← resolve kinds n
  done (field_of name (keywords n).description (is_required owner name) r)

-- the loop over the properties of a struct
unfoldable pub build_fields :
    (String → Option DefKind) → Keywords → String → NodeMap → Outcome (List Field)
build_fields kinds owner skip no_entry = done []
build_fields kinds owner skip (entry name n rest) =
    let others = build_fields kinds owner skip rest in
    if name == skip
    then others
    else then_do (field kinds owner name n) (λ f. then_do others (λ fs. done (f ∷ fs)))

abbrev pub empty_type : String → TypeKind → String → GoType
empty_type name kind file = record {
  name = name;
  kind = kind;
  doc = "";
  file = file;
  values = [];
  fields = [];
  tag_field = "";
  tag_value = "";
  union_name = "";
  result_tag = "";
  event_name = "";
  discriminator = "";
  variants = [];
}

abbrev pub file_types : String
file_types = "types"

unfoldable pub build_struct : (String → Option DefKind) → String → Node → String → Outcome GoType
unfolding build_fields
build_struct kinds name n skip = then_do (base_type (keywords n)) λ base.
    if not (base == "") && not (base == "object")
    then failed (not_an_object (keywords n).path base)
    else then_do (build_fields kinds (keywords n) skip (properties n))
        (λ fs. done (record (empty_type name kind_struct file_types) { fields = fs }))

abbrev pub has_const : Node → Bool
has_const n = is_some (keywords n).const

-- the names of the properties that carry a const
unfoldable pub const_names : NodeMap → List String
const_names no_entry = []
const_names (entry name n rest) =
    let others = const_names rest in if has_const n then name ∷ others else others

abbrev pub count_nodes : NodeList → ℕ
count_nodes no_nodes = 0
count_nodes (more_nodes n ns) = suc (count_nodes ns)

abbrev pub count_name : List String → String → ℕ
count_name [] k = 0
count_name (x ∷ xs) k = (if x == k then 1 else 0) + count_name xs k

-- what the loop over the variants counts: a name once for each variant in which it carries a const
unfoldable pub counted : NodeList → List String
counted no_nodes = []
counted (more_nodes n ns) = const_names (properties n) ++ counted ns

-- the names that are counted as often as there are variants, each once
unfoldable pub in_every : ℕ → List String → List String → List String
in_every variants all_names [] = []
in_every variants all_names (x ∷ xs) =
    let others = in_every variants all_names xs in
    if eqb (count_name all_names x) variants && not (contains xs x) then x ∷ others else others

abbrev pub one_found : List String → Outcome String
one_found [] = failed no_discriminator
one_found (d ∷ []) = done d
one_found (d ∷ e ∷ ds) = failed several_discriminators

unfoldable pub discriminator : NodeList → Outcome String
discriminator no_nodes = failed no_variants
discriminator (more_nodes n ns) =
    let names = counted (more_nodes n ns) in
    one_found (in_every (count_nodes (more_nodes n ns)) names names)

abbrev pub pointed : Option String → Outcome String
pointed none = failed nil_pointer
pointed (some c) = done c

abbrev pub const_in : Option Node → Outcome String
const_in none = failed nil_pointer
const_in (some n) = pointed (keywords n).const

-- `*variant.Properties[disc].Const`
unfoldable pub tag_of : Node → String → Outcome String
tag_of variant disc = const_in (find_node (properties variant) disc)

abbrev pub same_bool : Bool → Bool → Bool
same_bool true b = b
same_bool false b = not b

-- the test of sameFields on two fields
abbrev pub same_field : Field → Field → Bool
same_field f g =
    f.name == g.name
    && f.json == g.json
    && (f.type == g.type && f.value_type == g.value_type)
    && (same_bool f.required g.required && same_bool f.nullable g.nullable)
    && (same_bool f.optional g.optional && same_bool f.omit_empty g.omit_empty)
    && (f.union == g.union && same_bool f.union_slice g.union_slice)

unfoldable pub same_fields : List Field → List Field → Bool
same_fields [] [] = true
same_fields [] (g ∷ gs) = false
same_fields (f ∷ fs) [] = false
same_fields (f ∷ fs) (g ∷ gs) = same_field f g && same_fields fs gs
