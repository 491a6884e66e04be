-- ===== src/Tests/Graphs.antt =====
-- The theorems on breakOptionalStructCycles of internal/gen/ir.go, at a struct that may hold itself.
use herdr_client.Prelude.{
  eq_iff, if_case, is_some, ◌≡◌, ◌≢◌, refl, String, ◌==◌, true, false, Option, List, [], ◌∷◌,
  length, if◌then◌else◌, arith,
}
use herdr_client.Generator.Ir.{Field, GoType, kind_struct}
use herdr_client.Generator.Reach.{reaches, Route, reaches_iff, Within}
use herdr_client.Generator.Cycles.{
  out_of_fuel, break_optional_struct_cycles, break_optional_struct_cycles-total, has_struct,
  Unstarred, find_struct,
}

abbrev pane_field : Field
pane_field = record {
  name = "Parent";
  json = "parent";
  type = "Optional[PaneInfo]";
  value_type = "PaneInfo";
  doc = "";
  required = false;
  nullable = false;
  optional = true;
  omit_empty = false;
  union = "";
  union_slice = false;
}

abbrev pane_type : GoType
pane_type = record {
  name = "PaneInfo";
  kind = kind_struct;
  doc = "";
  file = "types";
  values = [];
  fields = pane_field ∷ [];
  tag_field = "";
  tag_value = "";
  union_name = "";
  result_tag = "";
  event_name = "";
  discriminator = "";
  variants = [];
}

abbrev types : List GoType
types = pane_type ∷ []

no_star : Unstarred (has_struct types)
unfolding has_struct find_struct
no_star n =
    if_case {A = Option GoType} (λ o. is_some o ≡ false) ("PaneInfo" == String.◌∷◌ "*" n)
      (λ e. cc ((eq_iff "PaneInfo" (String.◌∷◌ "*" n)).0 e)) (λ e. refl)

break_optional_struct_cycles-total_example : break_optional_struct_cycles types ≢ out_of_fuel
break_optional_struct_cycles-total_example = break_optional_struct_cycles-total types no_star

abbrev graph : String → List String
graph s = if s == "a" then "b" ∷ [] else if s == "b" then "a" ∷ "c" ∷ [] else []

abbrev names : List String
names = "a" ∷ ("b" ∷ ("c" ∷ []))

graph-inside : (x : String) → Within (graph x) names
graph-inside x y h = ground (arith, h)

reaches_iff_example :
    (reaches (length names) graph "a" "c" ≡ true → Route graph "c" "a")
    × (Route graph "c" "a" → reaches (length names) graph "a" "c" ≡ true)
reaches_iff_example = reaches_iff graph names "a" "c" graph-inside refl
