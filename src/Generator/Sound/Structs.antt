-- ===== src/Generator/Sound/Structs.antt =====
-- internal/gen/ir.go: the fields of a struct.
use herdr_client.Prelude.{
  ◌≡◌, refl, ◌∙◌, String, ◌==◌, true, not, ◌&&◌, Option, List, [], ◌∷◌, without, if_case, arith,
}
use herdr_client.Generator.Schema.{
  Keywords, Node, NodeMap, no_entry, entry, keywords, properties, node_names, Outcome, done, failed,
  base_type, is_required,
}
use herdr_client.Generator.Ir.{Field, GoType}
use herdr_client.Generator.Resolve.{
  DefKind, Resolved, resolve, Category, cat_slice, cat_map, cat_raw, cat_union,
}
use herdr_client.Generator.Fields.{
  field, wrap_optional, set_type, new_field, build_fields, build_struct,
}
use herdr_client.Generator.Outcomes.{Ensures, then_do-Ensures, chain-Ensures, guard-Ensures}

-- the fields of a struct, for the properties of its node
abbrev pub FieldOf : Keywords → Field → Type 0
FieldOf owner f =
    (f.required ≡ is_required owner f.json) × (f.optional ≡ not (is_required owner f.json))

abbrev pub AllFields : Keywords → List Field → Type 0
AllFields owner [] = Unit {0}
AllFields owner (f ∷ fs) = FieldOf owner f × AllFields owner fs

abbrev pub json_names : List Field → List String
json_names [] = []
json_names (f ∷ fs) = f.json ∷ json_names fs

abbrev pub Covers : Keywords → NodeMap → String → List Field → Type 0
Covers owner m skip fs = (json_names fs ≡ without skip (node_names m)) × AllFields owner fs

-- neither the switch on the category nor the wrapping changes what a field is for
set_type-FieldOf :
    (owner : Keywords) (c : Category) (r : Resolved) (f : Field)
    → FieldOf owner f
    → FieldOf owner (set_type c r f) × ((set_type c r f).json ≡ f.json)
set_type-FieldOf owner cat_union r f h = (h, refl)
set_type-FieldOf owner cat_slice r f h = (h, refl)
set_type-FieldOf owner cat_map r f h = (h, refl)
set_type-FieldOf owner cat_raw r f h = (h, refl)
set_type-FieldOf owner _ r f h =
    if_case (λ g. FieldOf owner g × (g.json ≡ f.json)) (f.required && r.nullable) (λ b. (h, refl))
      (λ b. (h, refl))

wrap_optional-FieldOf :
    (owner : Keywords) (f : Field)
    → FieldOf owner f
    → FieldOf owner (wrap_optional f) × ((wrap_optional f).json ≡ f.json)
wrap_optional-FieldOf owner f h =
    if_case (λ g. FieldOf owner g × (g.json ≡ f.json)) f.optional (λ b. (h, refl)) (λ b. (h, refl))

-- a field that stands for a property
abbrev Stands : Keywords → String → Field → Type 0
Stands owner name f = FieldOf owner f × (f.json ≡ name)

field-Stands :
    (kinds : String → Option DefKind) (owner : Keywords) (name : String) (n : Node)
    → Ensures (Stands owner name) (field kinds owner name n)
unfolding field
field-Stands kinds owner name n = then_do-Ensures (Stands owner name) (resolve kinds n) _ λ r e.
    let f = new_field name (keywords n).description (is_required owner name) r in
    let (h, j) = set_type-FieldOf owner r.cat r f (refl, refl) in
    let (h', j') = wrap_optional-FieldOf owner (set_type r.cat r f) h in (h', j' ∙ j)

build_fields-Covers :
    (kinds : String → Option DefKind) (owner : Keywords) (skip : String) (m : NodeMap)
    → Ensures (Covers owner m skip) (build_fields kinds owner skip m)
unfolding build_fields
build_fields-Covers kinds owner skip no_entry = (refl, tt)
build_fields-Covers kinds owner skip (entry name n rest) =
    if_case Good (name == skip)
      (λ skipped.
        go (build_fields kinds owner skip rest) (build_fields-Covers kinds owner skip rest) skipped)
      λ kept.
        chain-Ensures (Stands owner name) (Covers owner (entry name n rest) skip)
          (field kinds owner name n) _ (field-Stands kinds owner name n)
          λ f (h, j).
            chain-Ensures (Covers owner rest skip) (Covers owner (entry name n rest) skip)
              (build_fields kinds owner skip rest) _ (build_fields-Covers kinds owner skip rest)
              (λ fs w. (ground (arith, kept, j, w.0), (h, w.1)))
  where
    Good : Outcome (List Field) → Type 0
    Good o = Ensures (Covers owner (entry name n rest) skip) o

    go :
        (o : Outcome (List Field))
        → Ensures (Covers owner rest skip) o
        → (name == skip) ≡ true
        → Good o
    go (done fs) (e, h) s = (ground (arith, e, s), h)
    go (failed r) w s = tt

abbrev pub CoversType : Keywords → NodeMap → String → GoType → Type 0
CoversType owner m skip t = Covers owner m skip t.fields

-- A struct that buildStruct returns has one field for each property of the schema but the skipped one, in
-- their order and under their names; it is required or optional as the schema says.
pub build_struct-Covers :
    (kinds : String → Option DefKind) (name : String) (n : Node) (skip : String)
    → Ensures (CoversType (keywords n) (properties n) skip) (build_struct kinds name n skip)
unfolding build_struct
build_struct-Covers kinds name n skip = then_do-Ensures Good (base_type (keywords n)) _ λ base e.
    guard-Ensures Good (not (base == "") && not (base == "object")) _ _ (
      chain-Ensures (Covers (keywords n) (properties n) skip) Good
        (build_fields kinds (keywords n) skip (properties n)) _
        (build_fields-Covers kinds (keywords n) skip (properties n)) (λ fs w. w))
  where
    Good : GoType → Type 0
    Good = CoversType (keywords n) (properties n) skip
