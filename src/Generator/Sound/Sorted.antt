-- ===== src/Generator/Sound/Sorted.antt =====
-- internal/gen/ir.go: sorting types of different names changes neither their names nor the structs that
-- stand in each other.
use herdr_client.Prelude.{
  ◌≡◌, refl, sym, ap, ◌∙◌, subst, fun_ext, String, ◌==◌, eq_iff, true, false, not, ◌&&◌, ◌||◌,
  Option, none, some, is_some, List, [], ◌∷◌, contains, distinct, if_case, if◌then◌else◌, arith,
}
use herdr_client.Sorting.{text_before}
use herdr_client.Generator.Ir.{GoType}
use herdr_client.Generator.Cycles.{
  type_names, newer, find_struct, is_struct_kind, edges, has_struct, Acyclic, targets,
  struct_fields,
}
use herdr_client.Generator.Reach.{Route}
use herdr_client.Generator.Build.{insert_type, sort_types}
use herdr_client.Generator.Sound.Unique.{IsUnique}

contains-insert_type :
    (t : GoType) (us : List GoType) (k : String)
    → contains (type_names (insert_type t us)) k ≡ (t.name == k || contains (type_names us) k)
unfolding insert_type
contains-insert_type t [] k = refl
contains-insert_type t (u ∷ us) k =
    if_case
      (λ ts.
        contains (type_names ts) k ≡ (t.name == k || (u.name == k || contains (type_names us) k)))
      (text_before t.name u.name) (λ b. refl) (λ b. ground (arith, contains-insert_type t us k))

distinct-insert_type :
    (t : GoType) (us : List GoType)
    → distinct (type_names (insert_type t us))
      ≡ (not (contains (type_names us) t.name) && distinct (type_names us))
unfolding insert_type
distinct-insert_type t [] = refl
distinct-insert_type t (u ∷ us) =
    if_case
      (λ ts.
        distinct (type_names ts)
        ≡ (not (contains (type_names (u ∷ us)) t.name) && distinct (type_names (u ∷ us))))
      (text_before t.name u.name) (λ b. refl)
      (λ b. ground (
        arith,
        distinct-insert_type t us,
        contains-insert_type t us u.name,
        eq_iff t.name u.name,
        eq_iff u.name t.name,
      ))

pub contains-sort_types :
    (ts : List GoType) (k : String)
    → contains (type_names (sort_types ts)) k ≡ contains (type_names ts) k
unfolding sort_types
contains-sort_types [] k = refl
contains-sort_types (t ∷ ts) k =
    contains-insert_type t (sort_types ts) k ∙ ap (λ b. t.name == k || b) (contains-sort_types ts k)

pub sort_types-IsUnique : (ts : List GoType) → IsUnique ts → IsUnique (sort_types ts)
unfolding sort_types
sort_types-IsUnique [] u = refl
sort_types-IsUnique (t ∷ ts) u = ground (
  arith,
  u,
  distinct-insert_type t (sort_types ts),
  contains-sort_types ts t.name,
  sort_types-IsUnique ts,
)

-- the struct of a name, of one type
abbrev one_struct : GoType → String → Option GoType
one_struct t n = if is_struct_kind t.kind && t.name == n then some t else none

-- two types of different names are not both found
swap_newer :
    (o : Option GoType) (t u : GoType) (n : String)
    → (u.name == t.name) ≡ false
    → newer (newer o (one_struct t n)) (one_struct u n)
      ≡ newer (newer o (one_struct u n)) (one_struct t n)
swap_newer (some v) t u n e = refl
swap_newer none t u n e = ground (arith, e, eq_iff u.name t.name, eq_iff u.name n, eq_iff t.name n)

find_struct-insert_type :
    (t : GoType) (us : List GoType) (n : String)
    → contains (type_names us) t.name ≡ false
    → find_struct (insert_type t us) n ≡ find_struct (t ∷ us) n
unfolding find_struct insert_type
find_struct-insert_type t [] n h = refl
find_struct-insert_type t (u ∷ us) n h =
    if_case
      (λ ts. find_struct ts n ≡ newer (newer (find_struct us n) (one_struct u n)) (one_struct t n))
      (text_before t.name u.name) (λ b. refl)
      (λ b.
        ap (λ o. newer o (one_struct u n)) (find_struct-insert_type t us n (ground (arith, h)))
        ∙ swap_newer (find_struct us n) t u n (ground (arith, h)))

find_struct-sort_types :
    (ts : List GoType) (n : String) → IsUnique ts → find_struct (sort_types ts) n ≡ find_struct ts n
unfolding find_struct sort_types
find_struct-sort_types [] n u = refl
find_struct-sort_types (t ∷ ts) n u =
    find_struct-insert_type t (sort_types ts) n (ground (arith, u, contains-sort_types ts t.name))
    ∙ ap (λ o. newer o (one_struct t n)) (find_struct-sort_types ts n (ground (arith, u)))

edges-sort_types : (ts : List GoType) → IsUnique ts → edges (sort_types ts) ≡ edges ts
unfolding edges has_struct
edges-sort_types ts u =
    let same = fun_ext (λ n. find_struct-sort_types ts n u) in
    λ i n. targets (λ k. is_some (same i k)) (struct_fields (same i n))

pub sort_types-Acyclic : (ts : List GoType) → IsUnique ts → Acyclic ts → Acyclic (sort_types ts)
sort_types-Acyclic ts u h =
    subst
      (λ g. (owner target : String) → contains (g owner) target ≡ true → Route g owner target → ⊥)
      (sym (edges-sort_types ts u)) h
