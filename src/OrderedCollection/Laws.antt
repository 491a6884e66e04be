-- ===== src/OrderedCollection/Laws.antt =====
-- herdr/ordered_collection.go: `get` behind each method, and doing a thing twice.
use herdr_client.Prelude.{
  Zero, String, ◌==◌, eq_iff, eq_refl, ◌≡◌, refl, ◌∙◌, sym, ap, Bool, true, false, Option, none,
  some, List, [], ◌∷◌, is_some, contains, if◌then◌else◌, arith,
}
use herdr_client.OrderedCollection.{
  Entries, put, erase, read, OrderedCollection, get, set, delete, delete_where, update,
}
use herdr_client.OrderedCollection.Index.{IsIndexed}
use herdr_client.OrderedCollection.Keep.{delete_where-IsIndexed}
use herdr_client.OrderedCollection.Bulk.{
  survivors, delete_loop-kept, delete_loop-entries, update_loop-entries,
}

module _ {ℓ} {T : Type ℓ} where
  -- two collections with the same ids and the same entries
  pub collection_ext :
      {o p : OrderedCollection T} → o.ids ≡ p.ids → ((j : String) → get o j ≡ get p j) → o ≡ p
  unfolding get
  collection_ext h k = λ i. record { ids = h i; entries = λ j. k j i }

  pub get-set :
      (k : String) (v : T) (o : OrderedCollection T) (j : String)
      → get (set k v o) j ≡ (if k == j then some v else get o j)
  unfolding get set put
  get-set k v o j = refl

  pub get-set_self : (k : String) (v : T) (o : OrderedCollection T) → get (set k v o) k ≡ some v
  get-set_self k v o = rw (get-set, eq_refl)

  pub get-delete :
      (k : String) (o : OrderedCollection T) (j : String)
      → get (delete k o) j ≡ (if k == j then none else get o j)
  unfolding get delete erase
  get-delete k o j = ground (arith, eq_iff k j)

  abbrev pub map_entry : (T → T) → Option T → Option T
  map_entry f none = none
  map_entry f (some v) = some (f v)

  abbrev pub reject_entry : (T → Bool) → Option T → Option T
  reject_entry match none = none
  reject_entry match (some v) = if match v then none else some v

  map_entry_twice :
      (f : T → T) (o : Option T)
      → ((v : T) → f (f v) ≡ f v)
      → map_entry f (map_entry f o) ≡ map_entry f o
  map_entry_twice f none h = refl
  map_entry_twice f (some v) h = ap some (h v)

  reject_entry_twice :
      (match : T → Bool) (o : Option T)
      → reject_entry match (reject_entry match o) ≡ reject_entry match o
  reject_entry_twice match o = ground arith

  pub set_twice : (k : String) (v w : T) (o : OrderedCollection T) → set k w (set k v o) ≡ set k w o
  unfolding set
  set_twice k v w o = collection_ext (ids_twice k v o) λ j. unfold get put in ground arith
    where
      ids_twice :
          (k : String) (v : T) (o : OrderedCollection T)
          → (set k w (set k v o)).ids ≡ (set k w o).ids
      ids_twice k v o = unfold put in ground (arith, eq_refl k)

  -- putting an entry that is already there changes nothing
  pub set_same : (k : String) (v : T) (o : OrderedCollection T) → get o k ≡ some v → set k v o ≡ o
  unfolding set get put
  set_same k v o h = collection_ext (ground arith) λ j. ground (arith, eq_iff k j)

module _ {ℓ} {T : Type ℓ} where
  delete_absent : (k : String) (o : OrderedCollection T) → get o k ≡ none → delete k o ≡ o
  unfolding delete get
  delete_absent k o h = rw h

  pub delete_twice : (k : String) (o : OrderedCollection T) → delete k (delete k o) ≡ delete k o
  delete_twice k o = delete_absent k (delete k o) (rw (get-delete, eq_refl))

module _ {ℓ} {T : Type ℓ} ⦃z : Zero T⦄ where
  survivors_all :
      (match : T → Bool) (m : Entries T) (ids : List String)
      → ((j : String) → contains ids j ≡ true → match (read m j) ≡ false)
      → survivors match m ids ≡ ids
  survivors_all match m [] h = refl
  survivors_all match m (id ∷ ids) h =
      ground (arith, h id, eq_refl id, survivors_all match m ids (λ j c. h j (ground arith)))

  unread :
      (match : T → Bool) (m : Entries T) (j : String) (x : Option T)
      → m j ≡ reject_entry match x
      → is_some (m j) ≡ true
      → match (read m j) ≡ false
  unfolding read
  unread match m j x e p = ground arith

module _ {ℓ κ} {T : Type ℓ} ⦃z : Zero T⦄ {P : String → T → Type κ} where
  pub get-delete_where :
      (match : T → Bool) (o : OrderedCollection T) (j : String)
      → IsIndexed P o
      → get (delete_where match o).1 j ≡ reject_entry match (get o j)
  unfolding get delete_where read
  get-delete_where match o j h =
      ground (arith, delete_loop-entries match o.ids 0 none [] o.entries j h.unique, h.listed j)

  delete_where-ids :
      (match : T → Bool) (o : OrderedCollection T)
      → IsIndexed P o
      → (delete_where match o).1.ids ≡ survivors match o.entries o.ids
  unfolding delete_where
  delete_where-ids match o h = delete_loop-kept match o.ids 0 none [] o.entries h.unique

  pub get-update :
      (f : String → T → T) (o : OrderedCollection T) (j : String)
      → IsIndexed P o
      → get (update f o) j ≡ map_entry (f j) (get o j)
  unfolding get update read
  get-update f o j h = ground (arith, update_loop-entries f o.ids o.entries j h.unique, h.listed j)

  pub update_twice :
      (f : String → T → T) (o : OrderedCollection T)
      → ((j : String) (v : T) → f j (f j v) ≡ f j v)
      → IsIndexed P o
      → IsIndexed P (update f o)
      → update f (update f o) ≡ update f o
  update_twice f o idem h k = collection_ext (unfold update in refl) λ j.
      get-update f (update f o) j k
      ∙ ap (map_entry (f j)) (get-update f o j h)
      ∙ map_entry_twice (f j) (get o j) (idem j)
      ∙ sym (get-update f o j h)

  kept_misses :
      (match : T → Bool) (o : OrderedCollection T) (j : String)
      → IsIndexed P o
      → contains (delete_where match o).1.ids j ≡ true
      → match (read (delete_where match o).1.entries j) ≡ false
  unfolding get
  kept_misses match o j h c =
      unread match (delete_where match o).1.entries j (get o j) (get-delete_where match o j h)
        (sym ((delete_where-IsIndexed P match o h).listed j) ∙ c)

  pub delete_where_twice :
      (match : T → Bool) (o : OrderedCollection T)
      → IsIndexed P o
      → (delete_where match (delete_where match o).1).1 ≡ (delete_where match o).1
  delete_where_twice match o h =
      let k = delete_where-IsIndexed P match o h in
      collection_ext
        (delete_where-ids match (delete_where match o).1 k
          ∙ survivors_all match (delete_where match o).1.entries (delete_where match o).1.ids
              (λ j c. kept_misses match o j h c))
        λ j.
          get-delete_where match (delete_where match o).1 j k
          ∙ ap (reject_entry match) (get-delete_where match o j h)
          ∙ reject_entry_twice match (get o j)
          ∙ sym (get-delete_where match o j h)
