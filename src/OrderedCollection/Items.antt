-- ===== src/OrderedCollection/Items.antt =====
-- The abstract view of herdr/ordered_collection.go: a list of (id, value) pairs in report order,
-- and what each method does to that list.
use herdr_client.Prelude.{
  Zero, String, ◌==◌, eq_iff, eq_refl, ◌≡◌, refl, ap, Bool, true, false, Option, none, some, List,
  [], ◌∷◌, ◌++◌, contains, distinct, without, map, if◌then◌else◌, arith,
}
use herdr_client.OrderedCollection.{
  Entries, put, erase, read, OrderedCollection, get, set, delete, values_of, values, delete_where,
  update,
}
use herdr_client.OrderedCollection.Index.{IsIndexed}
use herdr_client.OrderedCollection.Bulk.{
  survivors, delete_loop-kept, delete_loop-entries, update_loop-entries,
}

abbrev pub Items {ℓ} : Type ℓ → Type ℓ
Items T = List (String × T)

module _ {ℓ} {T : Type ℓ} where
  abbrev pub find : String → Items T → Option T
  find k [] = none
  find k ((j, v) ∷ l) = let rest = find k l in if j == k then some v else rest

  -- replace the value of a key in its place, or add the key at the end
  abbrev pub upsert : String → T → Items T → Items T
  upsert k v [] = (k, v) ∷ []
  upsert k v ((j, w) ∷ l) = let rest = upsert k v l in if j == k then (j, v) ∷ l else (j, w) ∷ rest

  abbrev pub reject : (String → T → Bool) → Items T → Items T
  reject p [] = []
  reject p ((j, w) ∷ l) = let rest = reject p l in if p j w then rest else (j, w) ∷ rest

  abbrev pub rewrite_items : (String → T → T) → Items T → Items T
  rewrite_items f [] = []
  rewrite_items f ((j, w) ∷ l) = (j, f j w) ∷ rewrite_items f l

module _ {ℓ} {T : Type ℓ} ⦃z : Zero T⦄ where
  abbrev pub pairs : Entries T → List String → Items T
  pairs m [] = []
  pairs m (id ∷ ids) = (id, read m id) ∷ pairs m ids

  abbrev pub items : OrderedCollection T → Items T
  items o = pairs o.entries o.ids

  pairs-put_absent :
      (k : String) (v : T) (m : Entries T) (ids : List String)
      → contains ids k ≡ false
      → pairs (put k v m) ids ≡ pairs m ids
  unfolding read put
  pairs-put_absent k v m [] h = refl
  pairs-put_absent k v m (id ∷ ids) h =
      ground (arith, eq_iff k id, eq_iff id k, pairs-put_absent k v m ids)

  pairs-erase_absent :
      (k : String) (m : Entries T) (ids : List String)
      → contains ids k ≡ false
      → pairs (erase k m) ids ≡ pairs m ids
  unfolding read erase
  pairs-erase_absent k m [] h = refl
  pairs-erase_absent k m (id ∷ ids) h =
      ground (arith, eq_iff k id, eq_iff id k, pairs-erase_absent k m ids)

  pairs-append :
      (m : Entries T) (xs ys : List String) → pairs m (xs ++ ys) ≡ pairs m xs ++ pairs m ys
  pairs-append m [] ys = refl
  pairs-append m (x ∷ xs) ys = rw (pairs-append m xs ys)

  pairs-put :
      (k : String) (v : T) (m : Entries T) (ids : List String)
      → distinct ids ≡ true
      → (if contains ids k then pairs (put k v m) ids else pairs (put k v m) ids ++ (k, v) ∷ [])
        ≡ upsert k v (pairs m ids)
  unfolding read put
  pairs-put k v m [] d = refl
  pairs-put k v m (id ∷ ids) d =
      ground (arith, eq_iff id k, eq_iff k id, pairs-put k v m ids, pairs-put_absent k v m ids)

  pairs-erase :
      (k : String) (m : Entries T) (ids : List String)
      → distinct ids ≡ true
      → pairs (erase k m) (without k ids) ≡ reject (λ j w. j == k) (pairs m ids)
  unfolding read erase
  pairs-erase k m [] d = refl
  pairs-erase k m (id ∷ ids) d = ground (arith, eq_iff id k, eq_iff k id, pairs-erase k m ids)

  read-put : (k : String) (v : T) (m : Entries T) → read (put k v m) k ≡ v
  unfolding read put
  read-put k v m = rw eq_refl

  reject_absent :
      (k : String) (m : Entries T) (ids : List String)
      → contains ids k ≡ false
      → reject (λ j w. j == k) (pairs m ids) ≡ pairs m ids
  reject_absent k m [] h = refl
  reject_absent k m (id ∷ ids) h = ground (arith, reject_absent k m ids)

  pairs-survivors :
      (match : T → Bool) (n m : Entries T) (ids : List String)
      → ((j : String) → contains ids j ≡ true → match (read m j) ≡ false → n j ≡ m j)
      → pairs n (survivors match m ids) ≡ reject (λ j w. match w) (pairs m ids)
  unfolding read
  pairs-survivors match n m [] h = refl
  pairs-survivors match n m (id ∷ ids) h =
      ground
        (arith, h id, eq_refl id, pairs-survivors match n m ids (λ j c e. h j (ground arith) e))

  pairs-rewrite :
      (f : String → T → T) (n m : Entries T) (ids : List String)
      → ((j : String) → contains ids j ≡ true → n j ≡ some (f j (read m j)))
      → pairs n ids ≡ rewrite_items f (pairs m ids)
  unfolding read
  pairs-rewrite f n m [] h = refl
  pairs-rewrite f n m (id ∷ ids) h =
      ground (arith, h id, eq_refl id, pairs-rewrite f n m ids (λ j c. h j (ground arith)))

module _ {ℓ} {T : Type ℓ} ⦃z : Zero T⦄ where
  -- `values` lists the values of the pairs, in order, and `get` finds the pair of an id.
  pub values-items : (o : OrderedCollection T) → values o ≡ map (λ p. p.1) (items o)
  unfolding values
  values-items o = go o.ids
    where
      go : (ids : List String) → values_of ids o.entries ≡ map (λ p. p.1) (pairs o.entries ids)
      go [] = refl
      go (id ∷ ids) = ap (◌∷◌ (read o.entries id)) (go ids)

  find-pairs :
      (m : Entries T) (ids : List String) (k : String)
      → find k (pairs m ids) ≡ (if contains ids k then some (read m k) else none)
  find-pairs m [] k = refl
  find-pairs m (id ∷ ids) k = ground (arith, eq_iff id k, find-pairs m ids k)

module _ {ℓ κ} {T : Type ℓ} ⦃z : Zero T⦄ {P : String → T → Type κ} where
  pub get-items :
      (o : OrderedCollection T) (k : String) → IsIndexed P o → get o k ≡ find k (items o)
  unfolding get read
  get-items o k h = ground (arith, find-pairs o.entries o.ids k, h.listed k)

  -- On an indexed collection, setting an id replaces its value in its place, or adds the pair at the
  -- end if the id is not held.
  pub items-set :
      (k : String) (v : T) (o : OrderedCollection T)
      → IsIndexed P o
      → items (set k v o) ≡ upsert k v (items o)
  unfolding set
  items-set k v o h = ground (
    arith,
    pairs-put k v o.entries o.ids h.unique,
    h.listed k,
    pairs-append (put k v o.entries) o.ids (k ∷ []),
    read-put k v o.entries,
  )

  -- On an indexed collection, deleting an id removes its pair and leaves the others in their order.
  pub items-delete :
      (k : String) (o : OrderedCollection T)
      → IsIndexed P o
      → items (delete k o) ≡ reject (λ j w. j == k) (items o)
  unfolding delete
  items-delete k o h =
      ground
        (arith, pairs-erase k o.entries o.ids h.unique, h.listed k, reject_absent k o.entries o.ids)

  -- On an indexed collection, deleteWhere removes exactly the pairs whose value matches and leaves
  -- the others in their order.
  pub items-delete_where :
      (match : T → Bool) (o : OrderedCollection T)
      → IsIndexed P o
      → items (delete_where match o).1 ≡ reject (λ j w. match w) (items o)
  unfolding delete_where
  items-delete_where match o h = rw (delete_loop-kept match o.ids 0 none [] o.entries h.unique) (
      pairs-survivors match (delete_where match o).1.entries o.entries o.ids
        λ j c e. ground (arith, delete_loop-entries match o.ids 0 none [] o.entries j h.unique))

  -- On an indexed collection, update rewrites the value of every pair and leaves the order.
  pub items-update :
      (f : String → T → T) (o : OrderedCollection T)
      → IsIndexed P o
      → items (update f o) ≡ rewrite_items f (items o)
  unfolding update
  items-update f o h =
      pairs-rewrite f (update f o).entries o.entries o.ids
        λ j c. ground (arith, update_loop-entries f o.ids o.entries j h.unique)
