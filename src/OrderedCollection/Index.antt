-- ===== src/OrderedCollection/Index.antt =====
-- The invariant of herdr/ordered_collection.go and what each method does to the map.
use herdr_client.Prelude.{
  String, ◌==◌, eq_iff, ◌≡◌, refl, inl, inr, true, some, List, [], ◌∷◌, is_some, contains, distinct,
  contains-without, distinct-without, distinct-snoc, contains-append, Bool-cases, All, arith,
  subst₂,
}
use herdr_client.OrderedCollection.{
  Entries, put, erase, OrderedCollection, empty, set, delete, set_each, reset,
}

-- No id stands twice, exactly the listed ids have an entry, and each entry satisfies `P`.
pub record IsIndexed {ℓ κ} {T : Type ℓ} (P : String → T → Type κ) (o : OrderedCollection T)
    : Type (ℓ ⊔ κ) where
  pub unique : distinct o.ids ≡ true
  pub listed : (id : String) → contains o.ids id ≡ is_some (o.entries id)
  pub holds : (id : String) (v : T) → o.entries id ≡ some v → P id v

module _ {ℓ κ} {T : Type ℓ} (P : String → T → Type κ) where
  pub empty-IsIndexed : IsIndexed P empty
  empty-IsIndexed = record { unique = refl; listed = λ id. refl; holds = λ id v h. ground arith }

  pub put-Holds :
      (id : String) (v : T) (m : Entries T)
      → P id v
      → ((j : String) (w : T) → m j ≡ some w → P j w)
      → (j : String) (w : T) → put id v m j ≡ some w
      → P j w
  unfolding put
  put-Holds id v m p h j w e = elim (Bool-cases (id == j)) [
    | inl same ↦ subst₂ P ((eq_iff id j).0 same) (ground arith) p
    | inr other ↦ h j w (rw other at e)
  ]

  pub set-IsIndexed :
      (id : String) (v : T) (o : OrderedCollection T)
      → P id v
      → IsIndexed P o
      → IsIndexed P (set id v o)
  unfolding set
  set-IsIndexed id v o p h = record {
    unique = ground (arith, h.unique, distinct-snoc o.ids id h.unique, h.listed id);
    listed = λ j.
        ground (arith, h.listed j, h.listed id, contains-append o.ids (id ∷ []) j, eq_iff id j);
    holds = put-Holds id v o.entries p h.holds;
  }

  erase-Holds :
      (id : String) (m : Entries T)
      → ((j : String) (w : T) → m j ≡ some w → P j w)
      → (j : String) (w : T) → erase id m j ≡ some w
      → P j w
  unfolding erase
  erase-Holds id m h j w e = elim (Bool-cases (id == j)) [
    | inl same ↦ absurd (ground arith)
    | inr other ↦ h j w (rw other at e)
  ]

  pub delete-IsIndexed :
      (id : String) (o : OrderedCollection T) → IsIndexed P o → IsIndexed P (delete id o)
  unfolding delete
  delete-IsIndexed id o h = elim (Bool-cases (is_some (o.entries id))) [
    | inl present ↦ rw present (record {
      unique = distinct-without o.ids id h.unique;
      listed = λ j. ground (arith, h.listed j, contains-without o.ids id j);
      holds = erase-Holds id o.entries h.holds;
    })
    | inr absent ↦ rw absent h
  ]

  pub set_each-IsIndexed :
      (key : T → String) (clone : T → T) (vs : List T) (o : OrderedCollection T)
      → All (λ v. P (key v) (clone v)) vs
      → IsIndexed P o
      → IsIndexed P (set_each key clone vs o)
  unfolding set_each
  set_each-IsIndexed key clone [] o ps h = h
  set_each-IsIndexed key clone (v ∷ vs) o ps h =
      set_each-IsIndexed key clone vs (set (key v) (clone v) o) ps.1
        (set-IsIndexed (key v) (clone v) o ps.0 h)

  pub reset-IsIndexed :
      (key : T → String) (clone : T → T) (vs : List T)
      → All (λ v. P (key v) (clone v)) vs
      → IsIndexed P (reset vs key clone)
  unfolding reset
  reset-IsIndexed key clone vs ps = set_each-IsIndexed key clone vs empty ps empty-IsIndexed
