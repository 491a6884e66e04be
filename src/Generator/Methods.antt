-- ===== src/Generator/Methods.antt =====
-- internal/gen/ir.go and internal/gen/methods.go: the wrappers of the API's methods.
use Prim.Native.String.{◌++◌ as join_text}
use herdr_client.Prelude.{
  String, ◌==◌, Bool, true, false, not, ◌&&◌, Option, none, some, is_some, List, [], ◌∷◌, contains,
  if◌then◌else◌,
}
use herdr_client.Sorting.{sort_names}
use herdr_client.Generator.Schema.{
  Node, NodeMap, NodeList, no_nodes, more_nodes, keywords, properties, one_of, find_node, Outcome,
  done, failed, then_do, missing_request, no_methods, without_method_const, without_params_ref,
  no_entry_for, unknown_method, unknown_result,
}
use herdr_client.Generator.Ir.{GoType, method_single, method_multi, method_stream, Method}
use herdr_client.Generator.Naming.{pascal}

-- MethodResult
pub record MethodResult : Type 0 where
  pub result : String
  pub results : List String
  pub stream : String

-- the methods of a MethodTable, which is a map, in the order of their names
abbrev pub MethodTable : Type 0
MethodTable = List (String × MethodResult)

unfoldable pub find_entry : MethodTable → String → Option MethodResult
find_entry [] k = none
find_entry ((name, r) ∷ rest) k =
    let later = find_entry rest k in if name == k then some r else later

-- the methods that the table has no entry for
unfoldable pub missing : MethodTable → List String → List String
missing table [] = []
missing table (m ∷ ms) =
    let others = missing table ms in
    if not (is_some (find_entry table m)) then m ∷ others else others

-- the entries of methods that the schema does not have
unfoldable pub unknown : List String → MethodTable → List String
unknown methods [] = []
unknown methods ((name, r) ∷ rest) =
    let others = unknown methods rest in
    if not (contains methods name) then name ∷ others else others

abbrev pub without_star : List String → List String
without_star [] = []
without_star (t ∷ ts) = let rest = without_star ts in if not (t == "*") then t ∷ rest else rest

-- the result tags that an entry names
abbrev pub entry_tags : MethodResult → List String
entry_tags r =
    if not (r.result == "")
    then r.result ∷ []
    else if not (r.stream == "")
    then r.stream ∷ []
    else without_star r.results

abbrev pub check_tags : List String → String → List String → Outcome (Unit {0}) → Outcome (Unit {0})
check_tags result_tags name [] rest = rest
check_tags result_tags name (t ∷ ts) rest =
    let later = check_tags result_tags name ts rest in
    if not (contains result_tags t) then failed (unknown_result name t) else later

unfoldable pub check_entries : List String → MethodTable → Outcome (Unit {0})
check_entries result_tags [] = done tt
check_entries result_tags ((name, r) ∷ rest) =
    check_tags result_tags name (entry_tags r) (check_entries result_tags rest)

abbrev pub none_of : List String → Bool
none_of [] = true
none_of (x ∷ xs) = false

-- `validate`
unfoldable pub validate_table : MethodTable → List String → List String → Outcome (Unit {0})
unfolding missing unknown check_entries
validate_table table methods result_tags =
    if not (none_of (missing table methods))
    then failed (no_entry_for (sort_names (missing table methods)))
    else if not (none_of (unknown methods table))
    then failed (unknown_method (sort_names (unknown methods table)))
    else check_entries result_tags table

-- `resultTags` and `resultTypes`: of two types with one tag the later one
abbrev pub result_tags : List GoType → List String
result_tags [] = []
result_tags (t ∷ ts) = if t.result_tag == "" then result_tags ts else t.result_tag ∷ result_tags ts

abbrev pub newest : Option String → Option String → Option String
newest (some name) o = some name
newest none o = o

unfoldable pub result_type_of : List GoType → String → Option String
result_type_of [] tag = none
result_type_of (t ∷ ts) tag =
    newest (result_type_of ts tag)
      (if not (t.result_tag == "") && t.result_tag == tag then some t.name else none)

abbrev pub or_empty : Option String → String
or_empty none = ""
or_empty (some s) = s

abbrev pub Request : Type 0
Request = String × String

abbrev pub given_const : String → Option String → Outcome String
given_const path none = failed (without_method_const path)
given_const path (some c) = done c

abbrev pub method_const : Node → Option Node → Outcome String
method_const v none = failed (without_method_const (keywords v).path)
method_const v (some n) = given_const (keywords v).path (keywords n).const

abbrev pub params_ref : Node → Option Node → Outcome String
params_ref v none = failed (without_params_ref (keywords v).path)
params_ref v (some n) =
    if (keywords n).ref == ""
    then failed (without_params_ref (keywords v).path)
    else done (keywords n).ref

-- the methods of the request section with their parameters
unfoldable pub requests : NodeList → Outcome (List Request)
requests no_nodes = done []
requests (more_nodes v vs) = then_do (method_const v (find_node (properties v) "method")) λ m.
    then_do (params_ref v (find_node (properties v) "params"))
      λ p. then_do (requests vs) (λ rest. done ((m, p) ∷ rest))

abbrev pub request_names : List Request → List String
request_names [] = []
request_names ((m, p) ∷ rest) = m ∷ request_names rest

-- `params[name]`: of two requests of one method the later one
unfoldable pub params_of : List Request → String → String
params_of [] k = ""
params_of ((m, p) ∷ rest) k =
    let later = params_of rest k in
    if contains (request_names rest) k then later else if m == k then p else ""

abbrev pub each_type : List GoType → List String → List String
each_type types [] = []
each_type types (t ∷ ts) = or_empty (result_type_of types t) ∷ each_type types ts

-- the loop over the results of an entry, which a star ends with none
abbrev pub result_types_of : List GoType → List String → List String
result_types_of types tags = if contains tags "*" then [] else each_type types tags

abbrev pub set_kind : List GoType → MethodResult → Method → Method
set_kind types r m =
    if not (r.stream == "")
    then record m { kind = method_stream; result_tag = r.stream }
    else if not (r.result == "")
    then record m {
      kind = method_single;
      result_tag = r.result;
      result_type = or_empty (result_type_of types r.result);
    }
    else record m { kind = method_multi; result_types = result_types_of types r.results }

-- Go's zero entry stands for a name that the table does not have
abbrev pub entry_of : Option MethodResult → MethodResult
entry_of none = record { result = ""; results = []; stream = "" }
entry_of (some r) = r

-- the method as it is before the switch on its entry
abbrev pub new_method : String → String → Method
new_method name p = record {
  name = name;
  const = join_text "Method" (pascal name);
  wrapper = pascal name;
  params = if not (p == "EmptyParams") && not (p == "PingParams") then p else "";
  kind = method_single;
  result_type = "";
  result_tag = "";
  result_types = [];
}

unfoldable pub method_of : List GoType → MethodTable → List Request → String → Method
unfolding result_type_of find_entry params_of
method_of types table reqs name =
    set_kind types (entry_of (find_entry table name)) (new_method name (params_of reqs name))

abbrev pub methods_of : List GoType → MethodTable → List Request → List String → List Method
methods_of types table reqs [] = []
methods_of types table reqs (n ∷ ns) = method_of types table reqs n ∷ methods_of types table reqs ns

abbrev pub with_request : MethodTable → List GoType → NodeList → Outcome (List Method)
with_request table types no_nodes = failed no_methods
with_request table types (more_nodes v vs) = then_do (requests (more_nodes v vs)) λ reqs.
    then_do (validate_table table (request_names reqs) (result_tags types))
      λ ok. done (methods_of types table reqs (sort_names (request_names reqs)))

abbrev pub of_section : MethodTable → List GoType → Option Node → Outcome (List Method)
of_section table types none = failed missing_request
of_section table types (some request) = with_request table types (one_of request)

unfoldable pub build_methods : NodeMap → MethodTable → List GoType → Outcome (List Method)
unfolding requests validate_table method_of
build_methods sections table types = of_section table types (find_node sections "request")
