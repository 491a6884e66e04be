-- ===== src/Generator/Cycles/Break.antt =====
-- internal/gen/ir.go: breakOptionalStructCycles. The types are pointed to from a list and from the map
-- `structs`; here the map is looked up in the list, so that a write is seen through both. Which of
-- several cycles the error names depends on the order of a map, and is here the first one.
use Prim.Native.String.{◌++◌ as join_text}
use herdr_client.Prelude.{
  ℕ, zero, suc, ◌+◌, String, ◌==◌, Bool, true, false, ◌&&◌, Option, none, some, is_some, List, [],
  ◌∷◌, length, if◌then◌else◌,
}
use herdr_client.Generator.Ir.{TypeKind, kind_enum, kind_struct, kind_union, Field, GoType}
use herdr_client.Generator.Reach.{reaches}

abbrev pub is_struct_kind : TypeKind → Bool
is_struct_kind kind_enum = false
is_struct_kind kind_struct = true
is_struct_kind kind_union = false

abbrev pub newer : Option GoType → Option GoType → Option GoType
newer (some t) o = some t
newer none o = o

-- `structs[name]`: of two structs of one name the later one
unfoldable pub find_struct : List GoType → String → Option GoType
find_struct [] n = none
find_struct (t ∷ ts) n =
    newer (find_struct ts n) (if is_struct_kind t.kind && t.name == n then some t else none)

unfoldable pub has_struct : List GoType → String → Bool
has_struct types n = is_some (find_struct types n)

abbrev pub struct_fields : Option GoType → List Field
struct_fields none = []
struct_fields (some t) = t.fields

abbrev pub targets : (String → Bool) → List Field → List String
targets is_key [] = []
targets is_key (f ∷ fs) =
    let rest = targets is_key fs in if is_key f.value_type then f.value_type ∷ rest else rest

-- `edges()`
unfoldable pub edges : List GoType → String → List String
edges types n = targets (has_struct types) (struct_fields (find_struct types n))

abbrev pub type_names : List GoType → List String
type_names [] = []
type_names (t ∷ ts) = t.name ∷ type_names ts

-- `reaches(graph, from, want)`
unfoldable pub struct_reaches : List GoType → String → String → Bool
struct_reaches types from want = reaches (length (type_names types)) (edges types) from want

-- the tests on a field of a type, as far as the `continue`s
unfoldable pub must_point : List GoType → GoType → Field → Bool
must_point types t f =
    f.optional && (has_struct types f.value_type && struct_reaches types f.value_type t.name)

-- the two writes to a field
unfoldable pub point : Field → Field
point f =
    let value_type = String.◌∷◌ "*" f.value_type in
    record f { value_type = value_type; type = join_text "Optional[" (join_text value_type "]") }

abbrev pub onto {ℓ} : {A : Type ℓ} → A → Option (List A) → Option (List A)
onto x none = none
onto x (some xs) = some (x ∷ xs)

-- the loop over the fields of a type, to the first one that is changed
unfoldable pub break_fields : (Field → Bool) → List Field → Option (List Field)
break_fields p [] = none
break_fields p (f ∷ fs) =
    let rest = onto f (break_fields p fs) in if p f then some (point f ∷ fs) else rest

abbrev pub with_fields : GoType → Option (List Field) → Option GoType
with_fields t none = none
with_fields t (some fs) = some (record t { fields = fs })

abbrev pub first_changed :
    GoType → List GoType → Option GoType → Option (List GoType) → Option (List GoType)
first_changed t ts (some u) rest = some (u ∷ ts)
first_changed t ts none rest = onto t rest

-- the loop over the types, to the first one that is changed
unfoldable pub break_types : (GoType → Field → Bool) → List GoType → Option (List GoType)
break_types p [] = none
break_types p (t ∷ ts) =
    let rest = break_types p ts in
    first_changed t ts (with_fields t (break_fields (p t) t.fields)) rest

-- the first target of a struct from which the struct is reached
abbrev pub cycle_target : List GoType → String → List String → Option String
cycle_target types owner [] = none
cycle_target types owner (n ∷ ns) =
    let rest = cycle_target types owner ns in if struct_reaches types n owner then some n else rest

pub data Broken : Type 0 where
  broken : List GoType → Broken
  value_cycle : String → String → Broken
  out_of_fuel : Broken

abbrev pub cycle_or : String → Option String → Broken → Broken
cycle_or owner none rest = rest
cycle_or owner (some target) rest = value_cycle owner target

-- the loop over the structs once nothing is left to change
unfoldable pub check_cycles : List GoType → List String → Broken
check_cycles types [] = broken types
check_cycles types (owner ∷ owners) =
    cycle_or owner (cycle_target types owner (edges types owner)) (check_cycles types owners)

abbrev pub again : (List GoType → Broken) → List GoType → Option (List GoType) → Broken
again next types (some us) = next us
again next types none = check_cycles types (type_names types)

unfoldable pub break_loop : ℕ → List GoType → Broken
break_loop zero types = out_of_fuel
break_loop (suc fuel) types =
    again (λ us. break_loop fuel us) types (break_types (must_point types) types)

abbrev pub count_fields : List GoType → ℕ
count_fields [] = 0
count_fields (t ∷ ts) = length t.fields + count_fields ts

-- with one turn more than there are fields
unfoldable pub break_optional_struct_cycles : List GoType → Broken
break_optional_struct_cycles types = break_loop (count_fields types + 1) types
