-- ===== src/Generator/Cycles/Steps.antt =====
-- internal/gen/ir.go: a turn of the loop of breakOptionalStructCycles.
use herdr_client.Prelude.{
  ℕ, ◌+◌, ◌≤◌, ◌<◌, ◌≡◌, refl, sym, ap, ◌∙◌, String, ◌==◌, Bool, true, false, ◌&&◌, ◌||◌, Option,
  none, some, is_some, List, [], ◌∷◌, length, if◌then◌else◌, if_case, arith,
}
use herdr_client.Generator.Ir.{Field, GoType}
use herdr_client.Generator.Cycles.Break.{
  is_struct_kind, newer, find_struct, has_struct, point, onto, break_fields, with_fields,
  first_changed, break_types, count_fields,
}

-- one field for which the test holds has been written to
pub data FieldStep (p : Field → Bool) : List Field → List Field → Type 0 where
  this_field : {f : Field} {fs : List Field} → p f ≡ true → FieldStep p (f ∷ fs) (point f ∷ fs)
  later_field : {f : Field} {fs gs : List Field} → FieldStep p fs gs → FieldStep p (f ∷ fs) (f ∷ gs)

pub data TypeStep (p : GoType → Field → Bool) : List GoType → List GoType → Type 0 where
  this_type :
      {t : GoType} {ts : List GoType} {fs : List Field}
      → FieldStep (p t) t.fields fs
      → TypeStep p (t ∷ ts) (record t { fields = fs } ∷ ts)
  later_type : {t : GoType} {ts us : List GoType} → TypeStep p ts us → TypeStep p (t ∷ ts) (t ∷ us)

abbrev pub FieldStepIf : (Field → Bool) → List Field → Option (List Field) → Type 0
FieldStepIf p fs none = Unit {0}
FieldStepIf p fs (some gs) = FieldStep p fs gs

abbrev pub TypeStepIf : (GoType → Field → Bool) → List GoType → Option (List GoType) → Type 0
TypeStepIf p ts none = Unit {0}
TypeStepIf p ts (some us) = TypeStep p ts us

break_fields-FieldStep : (p : Field → Bool) (fs : List Field) → FieldStepIf p fs (break_fields p fs)
unfolding break_fields
break_fields-FieldStep p [] = tt
break_fields-FieldStep p (f ∷ fs) =
    if_case (FieldStepIf p (f ∷ fs)) (p f) (λ here. this_field here)
      (λ there. go (break_fields p fs) (break_fields-FieldStep p fs))
  where
    go : (o : Option (List Field)) → FieldStepIf p fs o → FieldStepIf p (f ∷ fs) (onto f o)
    go none h = tt
    go (some gs) h = later_field h

pub break_types-TypeStep :
    (p : GoType → Field → Bool) (ts : List GoType) → TypeStepIf p ts (break_types p ts)
unfolding break_types
break_types-TypeStep p [] = tt
break_types-TypeStep p (t ∷ ts) =
    here (break_fields (p t) t.fields) (break_fields-FieldStep (p t) t.fields) (break_types p ts)
      (break_types-TypeStep p ts)
  where
    here :
        (fs : Option (List Field))
        → FieldStepIf (p t) t.fields fs
        → (rest : Option (List GoType)) → TypeStepIf p ts rest
        → TypeStepIf p (t ∷ ts) (first_changed t ts (with_fields t fs) rest)
    here (some fs) h rest k = this_type h
    here none h none k = tt
    here none h (some us) k = later_type k

has_struct-cons :
    (t : GoType) (ts : List GoType) (n : String)
    → has_struct (t ∷ ts) n ≡ (has_struct ts n || is_struct_kind t.kind && t.name == n)
unfolding has_struct find_struct
has_struct-cons t ts n = go (find_struct ts n) (is_struct_kind t.kind && t.name == n)
  where
    go :
        (o : Option GoType) (b : Bool)
        → is_some (newer o (if b then some t else none)) ≡ (is_some o || b)
    go none true = refl
    go none false = refl
    go (some u) b = refl

-- A turn changes no name and no kind, so the structs keep their names.
pub TypeStep-has_struct :
    {p : GoType → Field → Bool} {ts us : List GoType} (n : String)
    → TypeStep p ts us
    → has_struct us n ≡ has_struct ts n
TypeStep-has_struct n (this_type {t} {ts} {fs} h) =
    has_struct-cons (record t { fields = fs }) ts n ∙ sym (has_struct-cons t ts n)
TypeStep-has_struct n (later_type {t} {ts} {us} s) =
    has_struct-cons t us n
    ∙ ap (λ b. b || is_struct_kind t.kind && t.name == n) (TypeStep-has_struct n s)
    ∙ sym (has_struct-cons t ts n)

-- how many fields could still be written to, with the names of the structs
abbrev pub pointable : (String → Bool) → List Field → ℕ
pointable is_key [] = 0
pointable is_key (f ∷ fs) =
    (if f.optional && is_key f.value_type then 1 else 0) + pointable is_key fs

abbrev pub all_pointable : (String → Bool) → List GoType → ℕ
all_pointable is_key [] = 0
all_pointable is_key (t ∷ ts) = pointable is_key t.fields + all_pointable is_key ts

pointable-length : (k : String → Bool) (fs : List Field) → pointable k fs ≤ length fs
pointable-length k [] = omega arith
pointable-length k (f ∷ fs) = ground (arith, pointable-length k fs)

pub all_pointable-count_fields :
    (k : String → Bool) (ts : List GoType) → all_pointable k ts ≤ count_fields ts
all_pointable-count_fields k [] = omega arith
all_pointable-count_fields k (t ∷ ts) =
    omega (arith, pointable-length k t.fields, all_pointable-count_fields k ts)

-- no struct has a name that begins with a star
abbrev pub Unstarred : (String → Bool) → Type 0
Unstarred is_key = (v : String) → is_key (String.◌∷◌ "*" v) ≡ false

FieldStep-pointable :
    (k : String → Bool) {p : Field → Bool} {fs gs : List Field}
    → Unstarred k
    → ((f : Field) → p f ≡ true → (f.optional ≡ true) × (k f.value_type ≡ true))
    → FieldStep p fs gs
    → pointable k gs < pointable k fs
unfolding point
FieldStep-pointable k plain ok (this_field {f} h) =
    ground (arith, plain f.value_type, (ok f h).0, (ok f h).1)
FieldStep-pointable k plain ok (later_field s) = omega (arith, FieldStep-pointable k plain ok s)

-- A turn leaves one field less that could be written to.
pub TypeStep-pointable :
    (k : String → Bool) {p : GoType → Field → Bool} {ts us : List GoType}
    → Unstarred k
    → ((t : GoType) (f : Field) → p t f ≡ true → (f.optional ≡ true) × (k f.value_type ≡ true))
    → TypeStep p ts us
    → all_pointable k us < all_pointable k ts
TypeStep-pointable k plain ok (this_type {t} s) =
    omega (arith, FieldStep-pointable k plain (ok t) s)
TypeStep-pointable k plain ok (later_type s) = omega (arith, TypeStep-pointable k plain ok s)
