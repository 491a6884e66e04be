-- ===== src/OrderedCollection/Keep.antt =====
-- herdr/ordered_collection.go: `deleteWhere`, `update` and `insertAt` keep the invariant.
use herdr_client.Prelude.{
  Zero, ℕ, String, eq_iff, ◌≡◌, refl, ◌∙◌, sym, inl, inr, Bool, true, not, ◌&&◌, Option, none, some,
  List, [], ◌∷◌, ◌++◌, is_some, contains, distinct, contains-append, Option-cases, All, take, drop,
  if◌then◌else◌, arith, subst, length, contains-splice, distinct-splice, append_assoc, append-nil,
}
use herdr_client.OrderedCollection.{
  Entries, put, read, OrderedCollection, set, insert_loop, insert_position, insert_at, delete_loop,
  delete_where, update,
}
use herdr_client.OrderedCollection.Index.{IsIndexed, set-IsIndexed}
use herdr_client.OrderedCollection.Bulk.{
  survivors, removed, delete_loop-kept, delete_loop-entries, update_loop-entries,
}

module _ {ℓ} {T : Type ℓ} ⦃z : Zero T⦄ where
  contains-survivors :
      (match : T → Bool) (m : Entries T) (ids : List String) (j : String)
      → contains (survivors match m ids) j ≡ (contains ids j && not (match (read m j)))
  unfolding read
  contains-survivors match m [] j = refl
  contains-survivors match m (id ∷ ids) j =
      ground (arith, contains-survivors match m ids j, eq_iff id j)

  distinct-survivors :
      (match : T → Bool) (m : Entries T) (ids : List String)
      → distinct ids ≡ true
      → distinct (survivors match m ids) ≡ true
  unfolding read
  distinct-survivors match m [] d = refl
  distinct-survivors match m (id ∷ ids) d =
      ground (arith, distinct-survivors match m ids, contains-survivors match m ids id)

  removed-some :
      (match : T → Bool) (ids : List String) (m : Entries T) (j : String) {v : T}
      → removed match ids m j ≡ some v
      → m j ≡ some v
  unfolding read
  removed-some match ids m j e = ground arith

  listed_after_removal :
      (match : T → Bool) (ids : List String) (m : Entries T) (j : String)
      → contains ids j ≡ is_some (m j)
      → (contains ids j && not (match (read m j))) ≡ is_some (removed match ids m j)
  unfolding read
  listed_after_removal match ids m j h = ground arith

  delete_where-listed :
      (match : T → Bool) (ids : List String) (m : Entries T) (j : String)
      → distinct ids ≡ true
      → contains ids j ≡ is_some (m j)
      → contains (delete_loop match ids 0 none [] m).1 j
        ≡ is_some ((delete_loop match ids 0 none [] m).2 j)
  delete_where-listed match ids m j d h = cc (
    delete_loop-kept match ids 0 none [] m d,
    delete_loop-entries match ids 0 none [] m j d,
    contains-survivors match m ids j,
    listed_after_removal match ids m j h,
  )

  updated-Holds {κ} :
      (P : String → T → Type κ) (f : String → T → T) (ids : List String) (m : Entries T)
      (j : String)
      → contains ids j ≡ is_some (m j)
      → ((id : String) (v : T) → P id v → P id (f id v))
      → ((v : T) → m j ≡ some v → P j v)
      → (v : T) → (if contains ids j then some (f j (read m j)) else m j) ≡ some v
      → P j v
  unfolding read
  updated-Holds P f ids m j l step h v e = elim (Option-cases (m j)) [
    | inl absent ↦ absurd (ground arith)
    | inr (w, present) ↦ subst (P j) (ground arith) (step j w (h w present))
  ]

module _ {ℓ κ} {T : Type ℓ} ⦃z : Zero T⦄ (P : String → T → Type κ) where
  pub delete_where-IsIndexed :
      (match : T → Bool) (o : OrderedCollection T)
      → IsIndexed P o
      → IsIndexed P (delete_where match o).1
  unfolding delete_where
  delete_where-IsIndexed match o h = record {
    unique =
        rw (delete_loop-kept match o.ids 0 none [] o.entries h.unique)
          (distinct-survivors match o.entries o.ids h.unique);
    listed = λ j. delete_where-listed match o.ids o.entries j h.unique (h.listed j);
    holds = λ j v e. h.holds j v (
        removed-some match o.ids o.entries j
          (sym (delete_loop-entries match o.ids 0 none [] o.entries j h.unique) ∙ e));
  }

  pub update-IsIndexed :
      (f : String → T → T) (o : OrderedCollection T)
      → ((id : String) (v : T) → P id v → P id (f id v))
      → IsIndexed P o
      → IsIndexed P (update f o)
  unfolding update
  update-IsIndexed f o step h = record {
    unique = h.unique;
    listed = λ j. ground (arith, h.listed j, update_loop-entries f o.ids o.entries j h.unique);
    holds = λ j v e.
        updated-Holds P f o.ids o.entries j (h.listed j) step (h.holds j) v
          (sym (update_loop-entries f o.ids o.entries j h.unique) ∙ e);
  }

module _ {ℓ κ} {T : Type ℓ} (P : String → T → Type κ) where
  -- One turn of the loop of `insertAt` is one `set` on the ids held so far.
  fresh-set :
      (base fresh : List String) (k : String) (v : T) (m : Entries T)
      → set k v (record { ids = base ++ fresh; entries = m }) ≡ record {
        ids = base ++ (if is_some (m k) then fresh else fresh ++ k ∷ []);
        entries = put k v m;
      }
  unfolding set
  fresh-set base fresh k v m = ground (arith, append_assoc base fresh (k ∷ []))

  insert_loop-IsIndexed :
      (key : T → String) (clone : T → T) (vs : List T) (base fresh : List String) (m : Entries T)
      → All (λ v. P (key v) (clone v)) vs
      → IsIndexed P (record { ids = base ++ fresh; entries = m })
      → IsIndexed P (record {
        ids = base ++ (insert_loop key clone vs fresh m).0;
        entries = (insert_loop key clone vs fresh m).1;
      })
  unfolding insert_loop
  insert_loop-IsIndexed key clone [] base fresh m ps h = h
  insert_loop-IsIndexed key clone (v ∷ vs) base fresh m ps h =
      insert_loop-IsIndexed key clone vs base
        (if is_some (m (key v)) then fresh else fresh ++ key v ∷ []) (put (key v) (clone v) m) ps.1
        (subst (IsIndexed P) (fresh-set base fresh (key v) (clone v) m)
          (set-IsIndexed P (key v) (clone v) _ ps.0 h))

  splice-IsIndexed :
      (n : ℕ) (base fresh : List String) (m : Entries T)
      → IsIndexed P (record { ids = base ++ fresh; entries = m })
      → IsIndexed P (record { ids = take n base ++ (fresh ++ drop n base); entries = m })
  splice-IsIndexed n base fresh m h = record {
    unique = distinct-splice n base fresh ∙ h.unique;
    listed = λ j. contains-splice n base fresh j ∙ sym (contains-append base fresh j) ∙ h.listed j;
    holds = h.holds;
  }

  pub insert_at-IsIndexed :
      (index : Option ℕ) (vs : List T) (key : T → String) (clone : T → T) (o : OrderedCollection T)
      → All (λ v. P (key v) (clone v)) vs
      → IsIndexed P o
      → IsIndexed P (insert_at index vs key clone o)
  unfolding insert_at
  insert_at-IsIndexed index vs key clone o ps h =
      splice-IsIndexed (insert_position index (length o.ids)) o.ids _ _
        (insert_loop-IsIndexed key clone vs o.ids [] o.entries ps (rw append-nil h))
