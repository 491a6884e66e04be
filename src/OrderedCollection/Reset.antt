-- ===== src/OrderedCollection/Reset.antt =====
-- herdr/ordered_collection.go: `reset` followed by `values` gives back the values.
use herdr_client.Prelude.{
  Zero, String, ◌≡◌, refl, sym, ap, ◌∙◌, true, false, List, [], ◌∷◌, ◌++◌, map, contains, distinct,
  is_some, arith, append_assoc, append-nil, contains-append, distinct-middle,
}
use herdr_client.OrderedCollection.{Entries, OrderedCollection, empty, set, set_each, reset, values}
use herdr_client.OrderedCollection.Index.{IsIndexed, set-IsIndexed, empty-IsIndexed}
use herdr_client.OrderedCollection.Items.{Items, items, pairs, upsert, items-set, values-items}

-- nothing is asked of the entries
abbrev Any {ℓ} : {T : Type ℓ} → String → T → Type 0
Any id v = Unit

absent_next :
    (ids rest : List String) (k : String)
    → distinct (ids ++ k ∷ rest) ≡ true
    → contains ids k ≡ false
absent_next ids rest k d = ground (arith, distinct-middle ids rest k, contains-append ids rest k)

module _ {ℓ} {T : Type ℓ} ⦃z : Zero T⦄ where
  upsert_absent :
      (k : String) (v : T) (m : Entries T) (ids : List String)
      → contains ids k ≡ false
      → upsert k v (pairs m ids) ≡ pairs m ids ++ (k, v) ∷ []
  upsert_absent k v m [] h = refl
  upsert_absent k v m (id ∷ ids) h = ground (arith, upsert_absent k v m ids)

  ids-set_fresh :
      (k : String) (v : T) (o : OrderedCollection T)
      → is_some (o.entries k) ≡ false
      → (set k v o).ids ≡ o.ids ++ k ∷ []
  unfolding set
  ids-set_fresh k v o h = rw h

  items-set_each :
      (key : T → String) (clone : T → T) (vs : List T) (o : OrderedCollection T)
      → distinct (o.ids ++ map key vs) ≡ true
      → IsIndexed (Any {T = T}) o
      → items (set_each key clone vs o) ≡ items o ++ map (λ v. (key v, clone v)) vs
  unfolding set_each
  items-set_each key clone [] o d h = rw append-nil
  items-set_each key clone (v ∷ vs) o d h =
      let fresh = absent_next o.ids (map key vs) (key v) d in
      let o' = set (key v) (clone v) o in
      items-set_each key clone vs o'
        (rw (ids-set_fresh (key v) (clone v) o (sym (h.listed (key v)) ∙ fresh))
          (rw append_assoc d))
        (set-IsIndexed (Any {T = T}) (key v) (clone v) o tt h)
      ∙ ap (λ (l : Items T). l ++ map (λ w. (key w, clone w)) vs)
          (items-set (key v) (clone v) o h ∙ upsert_absent (key v) (clone v) o.entries o.ids fresh)
      ∙ append_assoc (items o) ((key v, clone v) ∷ []) (map (λ w. (key w, clone w)) vs)

  map_values :
      (key : T → String) (clone : T → T) (vs : List T)
      → map (λ (p : String × T). p.1) (map (λ v. (key v, clone v)) vs) ≡ map clone vs
  map_values key clone [] = refl
  map_values key clone (v ∷ vs) = ap (◌∷◌ (clone v)) (map_values key clone vs)

  -- Values with distinct keys come back in their order.
  pub values-reset :
      (key : T → String) (clone : T → T) (vs : List T)
      → distinct (map key vs) ≡ true
      → values (reset vs key clone) ≡ map clone vs
  unfolding reset
  values-reset key clone vs d =
      values-items (set_each key clone vs empty)
      ∙ ap (map (λ (p : String × T). p.1))
          (items-set_each key clone vs empty d (empty-IsIndexed (Any {T = T})))
      ∙ map_values key clone vs
