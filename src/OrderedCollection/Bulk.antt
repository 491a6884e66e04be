-- ===== src/OrderedCollection/Bulk.antt =====
-- herdr/ordered_collection.go: the methods that loop over the ids, `deleteWhere`, `update` and
-- `insertAt`. Their loops read and write one map; on distinct ids they work pointwise.
use herdr_client.Prelude.{
  Zero, ℕ, ◌+◌, String, eq_iff, ◌≡◌, refl, Bool, true, false, ◌&&◌, Option, none, some, List, [],
  ◌∷◌, ◌++◌, is_some, contains, distinct, if◌then◌else◌, arith, append_assoc, append-nil,
}
use herdr_client.OrderedCollection.{Entries, put, erase, read, delete_loop, update_loop}

module _ {ℓ} {T : Type ℓ} ⦃z : Zero T⦄ where
  -- the ids that `deleteWhere` keeps, and the position of the first that it does not
  abbrev pub survivors : (T → Bool) → Entries T → List String → List String
  survivors match m [] = []
  survivors match m (id ∷ ids) =
      let rest = survivors match m ids in if match (read m id) then rest else id ∷ rest

  abbrev pub first_hit : (T → Bool) → Entries T → List String → ℕ → Option ℕ
  first_hit match m [] i = none
  first_hit match m (id ∷ ids) i =
      let rest = first_hit match m ids (i + 1) in if match (read m id) then some i else rest

  abbrev pub removed : (T → Bool) → List String → Entries T → Entries T
  removed match ids m j = if contains ids j && match (read m j) then none else m j

  survivors-erase :
      (match : T → Bool) (m : Entries T) (k : String) (ids : List String)
      → contains ids k ≡ false
      → survivors match (erase k m) ids ≡ survivors match m ids
  unfolding erase read
  survivors-erase match m k [] h = refl
  survivors-erase match m k (id ∷ ids) h =
      ground (arith, survivors-erase match m k ids, eq_iff k id, eq_iff id k)

  first_hit-erase :
      (match : T → Bool) (m : Entries T) (k : String) (ids : List String) (i : ℕ)
      → contains ids k ≡ false
      → first_hit match (erase k m) ids i ≡ first_hit match m ids i
  unfolding erase read
  first_hit-erase match m k [] i h = refl
  first_hit-erase match m k (id ∷ ids) i h =
      ground (arith, first_hit-erase match m k ids (i + 1), eq_iff k id, eq_iff id k)

  pub delete_loop-first :
      (match : T → Bool) (ids : List String) (i : ℕ) (first : Option ℕ) (kept : List String)
      (m : Entries T)
      → distinct ids ≡ true
      → (delete_loop match ids i first kept m).0
        ≡ (if is_some first then first else first_hit match m ids i)
  unfolding delete_loop
  delete_loop-first match [] i first kept m d = ground arith
  delete_loop-first match (id ∷ ids) i first kept m d = ground (
    arith,
    first_hit-erase match m id ids (i + 1),
    delete_loop-first match ids (i + 1) (if is_some first then first else some i) kept (erase id m),
    delete_loop-first match ids (i + 1) first (kept ++ id ∷ []) m,
  )

  pub delete_loop-kept :
      (match : T → Bool) (ids : List String) (i : ℕ) (first : Option ℕ) (kept : List String)
      (m : Entries T)
      → distinct ids ≡ true
      → (delete_loop match ids i first kept m).1 ≡ kept ++ survivors match m ids
  unfolding delete_loop
  delete_loop-kept match [] i first kept m d = rw append-nil
  delete_loop-kept match (id ∷ ids) i first kept m d = ground (
    arith,
    survivors-erase match m id ids,
    delete_loop-kept match ids (i + 1) (if is_some first then first else some i) kept (erase id m),
    delete_loop-kept match ids (i + 1) first (kept ++ id ∷ []) m,
    append_assoc kept (id ∷ []) (survivors match m ids),
  )

  pub delete_loop-entries :
      (match : T → Bool) (ids : List String) (i : ℕ) (first : Option ℕ) (kept : List String)
      (m : Entries T) (j : String)
      → distinct ids ≡ true
      → (delete_loop match ids i first kept m).2 j ≡ removed match ids m j
  unfolding delete_loop read erase
  delete_loop-entries match [] i first kept m j d = refl
  delete_loop-entries match (id ∷ ids) i first kept m j d = ground (
    arith,
    eq_iff id j,
    delete_loop-entries match ids (i + 1) (if is_some first then first else some i) kept
        (erase id m) j,
    delete_loop-entries match ids (i + 1) first (kept ++ id ∷ []) m j,
  )

  -- On distinct ids the loop of `update` rewrites the entry of every id.
  pub update_loop-entries :
      (f : String → T → T) (ids : List String) (m : Entries T) (j : String)
      → distinct ids ≡ true
      → update_loop f ids m j ≡ (if contains ids j then some (f j (read m j)) else m j)
  unfolding update_loop read put
  update_loop-entries f [] m j d = refl
  update_loop-entries f (id ∷ ids) m j d =
      ground (arith, eq_iff id j, update_loop-entries f ids (put id (f id (read m id)) m) j)
