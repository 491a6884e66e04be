-- ===== src/Generator/Cycles/Graph.antt =====
-- internal/gen/ir.go: the structs that stand in each other by value.
use herdr_client.Prelude.{
  ◌≡◌, ◌⊎◌, inl, inr, refl, subst, ap, String, ◌==◌, Bool, true, ◌&&◌, Option, none, some, is_some,
  List, [], ◌∷◌, contains, if◌then◌else◌, if_case, arith,
}
use herdr_client.Generator.Ir.{Field, GoType}
use herdr_client.Generator.Reach.{Route, reaches_iff, member_cons, member_tail}
use herdr_client.Generator.Cycles.Break.{
  is_struct_kind, newer, find_struct, has_struct, struct_fields, targets, edges, type_names,
  struct_reaches,
}

pub has_struct-type_names :
    (types : List GoType) (n : String)
    → has_struct types n ≡ true
    → contains (type_names types) n ≡ true
unfolding has_struct find_struct
has_struct-type_names [] n h = absurd (ground (arith, h))
has_struct-type_names (t ∷ ts) n h = go (find_struct ts n) refl h (has_struct-type_names ts n)
  where
    earlier : Option GoType
    earlier = if is_struct_kind t.kind && t.name == n then some t else none

    go :
        (o : Option GoType)
        → find_struct ts n ≡ o
        → is_some (newer o earlier) ≡ true
        → (is_some (find_struct ts n) ≡ true → contains (type_names ts) n ≡ true)
        → contains (t.name ∷ type_names ts) n ≡ true
    go none e k more = ground (arith, k)
    go (some u) e k more = member_tail n t.name (type_names ts) (more (ap is_some e))

targets-is_key :
    (p : String → Bool) (fs : List Field) (y : String)
    → contains (targets p fs) y ≡ true
    → p y ≡ true
targets-is_key p [] y = λ h. absurd (ground (arith, h))
targets-is_key p (f ∷ fs) y =
    if_case (λ l. contains l y ≡ true → p y ≡ true) (p f.value_type)
      (λ key h. go (targets-is_key p fs y) key (member_cons y f.value_type (targets p fs) h))
      (λ other h. targets-is_key p fs y h)
  where
    go :
        (contains (targets p fs) y ≡ true → p y ≡ true)
        → p f.value_type ≡ true
        → (f.value_type ≡ y) ⊎ (contains (targets p fs) y ≡ true)
        → p y ≡ true
    go more key (inl e) = subst (λ z. p z ≡ true) e key
    go more key (inr m) = more m

pub edges-has_struct :
    (types : List GoType) (x y : String)
    → contains (edges types x) y ≡ true
    → has_struct types y ≡ true
unfolding edges
edges-has_struct types x y h = targets-is_key (has_struct types) _ y h

-- a struct that holds a struct is one of the types
pub edges-from :
    (types : List GoType) (x y : String)
    → contains (edges types x) y ≡ true
    → has_struct types x ≡ true
unfolding edges has_struct
edges-from types x y h = go (find_struct types x) h
  where
    go :
        (o : Option GoType)
        → contains (targets (has_struct types) (struct_fields o)) y ≡ true
        → is_some o ≡ true
    go none h = absurd (ground (arith, h))
    go (some t) h = refl

-- Of two structs, `reaches` says whether the one stands, at some depth and by value, in the other.
pub struct_reaches_iff :
    (types : List GoType) (from want : String)
    → has_struct types from ≡ true
    → (struct_reaches types from want ≡ true → Route (edges types) want from)
      × (Route (edges types) want from → struct_reaches types from want ≡ true)
unfolding struct_reaches
struct_reaches_iff types from want h =
    reaches_iff (edges types) (type_names types) from want
      (λ x y k. has_struct-type_names types y (edges-has_struct types x y k))
      (has_struct-type_names types from h)
