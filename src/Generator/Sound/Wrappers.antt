-- ===== src/Generator/Sound/Wrappers.antt =====
-- internal/gen/ir.go and internal/gen/methods.go: the wrappers that buildMethods makes return types that
-- have been generated.
use herdr_client.Prelude.{
  ◌≡◌, refl, ◌∙◌, subst, String, ◌==◌, eq_iff, Bool, true, false, not, ◌&&◌, ◌||◌, Option, none,
  some, is_some, List, [], ◌∷◌, any, all, contains, if_case, if◌then◌else◌, arith,
}
use herdr_client.Sorting.{sort_names, all-sort_names}
use herdr_client.Generator.Schema.{
  Node, NodeMap, NodeList, no_nodes, more_nodes, one_of, find_node, Outcome, done, failed,
}
use herdr_client.Generator.Ir.{
  GoType, MethodKind, method_single, method_multi, method_stream, Method,
}
use herdr_client.Generator.Cycles.{type_names}
use herdr_client.Generator.Methods.{
  MethodResult, MethodTable, find_entry, missing, unknown, entry_tags, without_star, check_tags,
  check_entries, none_of, validate_table, result_tags, newest, result_type_of, or_empty, each_type,
  set_kind, entry_of, method_of, new_method, params_of, methods_of, Request, request_names,
  requests, with_request, of_section, build_methods,
}
use herdr_client.Generator.Outcomes.{Ensures, then_do-Ensures, chain-Ensures}

-- a type of a name stands for the results of a tag
abbrev pub declares : List GoType → String → String → Bool
declares types name tag = any (λ t. t.name == name && t.result_tag == tag) types

abbrev pub has_tag : List GoType → String → Bool
has_tag types tag = any (λ t. t.result_tag == tag) types

-- the types that a wrapper names have been generated
abbrev pub wrapper_ok : List GoType → MethodKind → Method → Bool
wrapper_ok types method_single m = declares types m.result_type m.result_tag
wrapper_ok types method_stream m = has_tag types m.result_tag
wrapper_ok types method_multi m = all (contains (type_names types)) m.result_types

-- an entry of the table names a result or a stream, not both
abbrev pub one_kind : MethodTable → Bool
one_kind [] = true
one_kind ((name, r) ∷ rest) = (r.result == "" || r.stream == "") && one_kind rest

tagged :
    (types : List GoType) (tag : String)
    → contains (result_tags types) tag ≡ true
    → is_some (result_type_of types tag) ≡ true
unfolding result_type_of
tagged [] tag h = absurd (ground (arith, h))
tagged (t ∷ ts) tag h = go (result_type_of ts tag) (tagged ts tag) h
  where
    go :
        (o : Option String)
        → (contains (result_tags ts) tag ≡ true → is_some o ≡ true)
        → contains (result_tags (t ∷ ts)) tag ≡ true
        → is_some (
            newest o
              (if not (t.result_tag == "") && t.result_tag == tag then some t.name else none))
          ≡ true
    go (some n) ih k = refl
    go none ih k = ground (arith, ih, k)

declared :
    (types : List GoType) (tag name : String)
    → result_type_of types tag ≡ some name
    → declares types name tag ≡ true
unfolding result_type_of
declared [] tag name h = absurd (ground (arith, h))
declared (t ∷ ts) tag name h = go (result_type_of ts tag) (declared ts tag name) h
  where
    go :
        (o : Option String)
        → (o ≡ some name → declares ts name tag ≡ true)
        → newest o (if not (t.result_tag == "") && t.result_tag == tag then some t.name else none)
          ≡ some name
        → declares (t ∷ ts) name tag ≡ true
    go (some n) ih k = ground (arith, ih k)
    go none ih k = ground (arith, k, eq_iff t.name name)

declares-or_empty :
    (types : List GoType) (tag : String)
    → contains (result_tags types) tag ≡ true
    → declares types (or_empty (result_type_of types tag)) tag ≡ true
declares-or_empty types tag h = go (result_type_of types tag) refl (tagged types tag h)
  where
    go :
        (o : Option String)
        → result_type_of types tag ≡ o
        → is_some o ≡ true
        → declares types (or_empty o) tag ≡ true
    go none e k = absurd (ground (arith, k))
    go (some name) e k = declared types tag name e

declares-type_names :
    (types : List GoType) (name tag : String)
    → declares types name tag ≡ true
    → contains (type_names types) name ≡ true
declares-type_names [] name tag h = absurd (ground (arith, h))
declares-type_names (t ∷ ts) name tag h = ground (arith, h, declares-type_names ts name tag)

declares-has_tag :
    (types : List GoType) (name tag : String)
    → declares types name tag ≡ true
    → has_tag types tag ≡ true
declares-has_tag [] name tag h = absurd (ground (arith, h))
declares-has_tag (t ∷ ts) name tag h = ground (arith, h, declares-has_tag ts name tag)

each_type-ok :
    (types : List GoType) (tags : List String)
    → all (contains (result_tags types)) tags ≡ true
    → all (contains (type_names types)) (each_type types tags) ≡ true
each_type-ok types [] h = refl
each_type-ok types (t ∷ ts) h = ground (
  arith,
  h,
  each_type-ok types ts,
  declares-or_empty types t,
  declares-type_names types (or_empty (result_type_of types t)) t,
)

without_star-same : (tags : List String) → contains tags "*" ≡ false → without_star tags ≡ tags
without_star-same [] h = refl
without_star-same (t ∷ ts) h = ground (arith, h, without_star-same ts)

-- what the table is checked for is so of each entry
check_tags-done :
    (tags : List String) (name : String) (ts : List String) (rest : Outcome (Unit {0}))
    → check_tags tags name ts rest ≡ done tt
    → (all (contains tags) ts ≡ true) × (rest ≡ done tt)
check_tags-done tags name [] rest h = (refl, h)
check_tags-done tags name (t ∷ ts) rest h = (
  ground (arith, h, check_tags-done tags name ts rest),
  ground (arith, h, check_tags-done tags name ts rest),
)

abbrev Allowed : List String → MethodResult → Type 0
Allowed tags r =
    (all (contains tags) (entry_tags r) ≡ true) × ((r.result == "" || r.stream == "") ≡ true)

check_entries-Allowed :
    (tags : List String) (table : MethodTable) (k : String) (r : MethodResult)
    → one_kind table ≡ true
    → check_entries tags table ≡ done tt
    → find_entry table k ≡ some r
    → Allowed tags r
unfolding check_entries find_entry
check_entries-Allowed tags [] k r one h e = absurd (ground (arith, e))
check_entries-Allowed tags ((name, s) ∷ rest) k r one h e =
    let (mine, others) = check_tags-done tags name (entry_tags s) (check_entries tags rest) h in
    if_case (λ o. o ≡ some r → Allowed tags r) (name == k)
      (λ this e'. subst (Allowed tags) (inj s r e') (mine, ground (arith, one)))
      (λ other e'. check_entries-Allowed tags rest k r (ground (arith, one)) others e') e
  where
    inj : (a b : MethodResult) → some a ≡ some b → a ≡ b
    inj a b e = ground (arith, e)

kind_ok :
    (types : List GoType) (r : MethodResult) (m : Method)
    → Allowed (result_tags types) r
    → wrapper_ok types (set_kind types r m).kind (set_kind types r m) ≡ true
kind_ok types r m (tags, one) =
    if_case (λ x. wrapper_ok types x.kind x ≡ true) (not (r.stream == ""))
      (λ s.
        declares-has_tag types (or_empty (result_type_of types r.stream)) r.stream
          (declares-or_empty types r.stream (ground (arith, tags, one, s))))
      λ n.
        if_case (λ x. wrapper_ok types x.kind x ≡ true) (not (r.result == ""))
          (λ s. declares-or_empty types r.result (ground (arith, tags, one, s)))
          λ n'.
            if_case (λ ns. all (contains (type_names types)) ns ≡ true) (contains r.results "*")
              (λ star. refl)
              (λ plain. each_type-ok types r.results (
                subst (λ ts. all (contains (result_tags types)) ts ≡ true)
                  (without_star-same r.results plain) (ground (arith, tags, n, n'))))

-- what validate requires
missing-none :
    (table : MethodTable) (ms : List String)
    → none_of (missing table ms) ≡ true
    → all (λ m. is_some (find_entry table m)) ms ≡ true
unfolding missing
missing-none table [] h = refl
missing-none table (m ∷ ms) h = ground (arith, h, missing-none table ms)

abbrev Valid : MethodTable → List String → List String → Unit {0} → Type 0
Valid table methods tags u =
    (all (λ m. is_some (find_entry table m)) methods ≡ true) × (check_entries tags table ≡ done u)

validate_table-Valid :
    (table : MethodTable) (methods tags : List String)
    → Ensures (Valid table methods tags) (validate_table table methods tags)
unfolding validate_table
validate_table-Valid table methods tags =
    if_case (Ensures (Valid table methods tags)) (not (none_of (missing table methods)))
      (λ some_missing. tt)
      λ none_missing.
        if_case (Ensures (Valid table methods tags)) (not (none_of (unknown methods table)))
          (λ some_unknown. tt)
          λ none_unknown.
            go (check_entries tags table)
              (missing-none table methods (ground (arith, none_missing))) refl
  where
    go :
        (o : Outcome (Unit {0}))
        → all (λ m. is_some (find_entry table m)) methods ≡ true
        → check_entries tags table ≡ o
        → Ensures (Valid table methods tags) o
    go (done u) h e = (h, e)
    go (failed r) h e = tt

module _ (types : List GoType) (table : MethodTable) (one : one_kind table ≡ true)
    (checked : check_entries (result_tags types) table ≡ done tt) where
  method_of-ok :
      (reqs : List Request) (n : String)
      → is_some (find_entry table n) ≡ true
      → wrapper_ok types (method_of types table reqs n).kind (method_of types table reqs n) ≡ true
  unfolding method_of
  method_of-ok reqs n h = go (find_entry table n) refl h (new_method n (params_of reqs n))
    where
      go :
          (o : Option MethodResult)
          → find_entry table n ≡ o
          → is_some o ≡ true
          → (m : Method)
          → wrapper_ok types (set_kind types (entry_of o) m).kind (set_kind types (entry_of o) m)
            ≡ true
      go none e k = absurd (ground (arith, k))
      go (some r) e k =
          λ m. kind_ok types r m (check_entries-Allowed (result_tags types) table n r one checked e)

  methods_of-ok :
      (reqs : List Request) (ns : List String)
      → all (λ n. is_some (find_entry table n)) ns ≡ true
      → all (λ m. wrapper_ok types m.kind m) (methods_of types table reqs ns) ≡ true
  methods_of-ok reqs [] h = refl
  methods_of-ok reqs (n ∷ ns) h = ground (arith, h, method_of-ok reqs n, methods_of-ok reqs ns)

abbrev pub AllOk : List GoType → List Method → Type 0
AllOk types ms = all (λ m. wrapper_ok types m.kind m) ms ≡ true

-- Where buildMethods succeeds with a table whose entries each name a result or a stream, not both, each
-- wrapper names types that have been generated.
pub build_methods-ok :
    (sections : NodeMap) (table : MethodTable) (types : List GoType)
    → one_kind table ≡ true
    → Ensures (AllOk types) (build_methods sections table types)
unfolding build_methods
build_methods-ok sections table types one = section (find_node sections "request")
  where
    with_variants : (vs : NodeList) → Ensures (AllOk types) (with_request table types vs)
    with_variants no_nodes = tt
    with_variants (more_nodes v vs) =
        then_do-Ensures (AllOk types) (requests (more_nodes v vs)) _ λ reqs e.
          chain-Ensures (Valid table (request_names reqs) (result_tags types)) (AllOk types) _ _
            (validate_table-Valid table (request_names reqs) (result_tags types))
            (λ u h.
              methods_of-ok types table one h.1 reqs (sort_names (request_names reqs))
                (all-sort_names (λ n. is_some (find_entry table n)) (request_names reqs) ∙ h.0))

    section : (o : Option Node) → Ensures (AllOk types) (of_section table types o)
    section none = tt
    section (some request) = with_variants (one_of request)
