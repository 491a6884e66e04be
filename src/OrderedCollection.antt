-- ===== src/OrderedCollection.antt =====
-- herdr/ordered_collection.go: entries by id in the order in which they were reported. Go's map is
-- a function from ids; a nil map and an empty one are not told apart, since every method of the
-- type allocates the map before it writes. Reading a missing id gives the type's zero value.
pub mod Index
pub mod Bulk
pub mod Keep
pub mod Items
pub mod Laws
pub mod Reset
use herdr_client.Prelude.{
  ℕ, ◌+◌, String, ◌==◌, Bool, true, false, Option, none, some, List, [], ◌∷◌, ◌++◌, is_some,
  value_or, Zero, length, take, drop, ltb, without, if◌then◌else◌,
}

abbrev pub Entries {ℓ} : Type ℓ → Type ℓ
Entries T = String → Option T

-- entries[id] = value
unfoldable pub put {ℓ} : {T : Type ℓ} → String → T → Entries T → Entries T
put id value entries j = if id == j then some value else entries j

-- delete(entries, id)
unfoldable pub erase {ℓ} : {T : Type ℓ} → String → Entries T → Entries T
erase id entries j = if id == j then none else entries j

-- entries[id]
unfoldable pub read {ℓ} : {T : Type ℓ} ⦃z : Zero T⦄ → Entries T → String → T
read ⦃z⦄ entries id = value_or z.zero_value (entries id)

pub record OrderedCollection {ℓ} (T : Type ℓ) : Type ℓ where
  pub ids : List String
  pub entries : Entries T

abbrev pub empty {ℓ} : {T : Type ℓ} → OrderedCollection T
empty = record { ids = []; entries = λ id. none }

-- An index that is negative in Go is `none`.
unfoldable pub insert_position : Option ℕ → ℕ → ℕ
insert_position none size = size
insert_position (some index) size = if ltb size index then size else index

module _ {ℓ} {T : Type ℓ} where
  unfoldable pub get : OrderedCollection T → String → Option T
  get o id = o.entries id

  unfoldable pub set : String → T → OrderedCollection T → OrderedCollection T
  unfolding put
  set id value o = record {
    ids = if is_some (o.entries id) then o.ids else o.ids ++ id ∷ [];
    entries = put id value o.entries;
  }

  unfoldable pub delete : String → OrderedCollection T → OrderedCollection T
  unfolding erase
  delete id o =
      if is_some (o.entries id)
      then record { ids = without id o.ids; entries = erase id o.entries }
      else o

  -- the loop of `insertAt`: the fresh ids and the entries
  unfoldable pub insert_loop :
      (T → String) → (T → T) → List T → List String → Entries T → List String × Entries T
  unfolding put
  insert_loop key clone [] fresh entries = (fresh, entries)
  insert_loop key clone (value ∷ values) fresh entries =
      insert_loop key clone values
        (if is_some (entries (key value)) then fresh else fresh ++ key value ∷ [])
        (put (key value) (clone value) entries)

  unfoldable pub insert_at :
      Option ℕ → List T → (T → String) → (T → T) → OrderedCollection T → OrderedCollection T
  unfolding insert_loop insert_position
  insert_at index values key clone o =
      let (fresh, entries) = insert_loop key clone values [] o.entries in
      let at = insert_position index (length o.ids) in
      record { ids = take at o.ids ++ (fresh ++ drop at o.ids); entries = entries }

  unfoldable pub set_each :
      (T → String) → (T → T) → List T → OrderedCollection T → OrderedCollection T
  unfolding set
  set_each key clone [] o = o
  set_each key clone (value ∷ values) o =
      set_each key clone values (set (key value) (clone value) o)

  unfoldable pub reset : List T → (T → String) → (T → T) → OrderedCollection T
  unfolding set_each
  reset values key clone = set_each key clone values empty

module _ {ℓ} {T : Type ℓ} ⦃z : Zero T⦄ where
  unfoldable pub values_of : List String → Entries T → List T
  unfolding read
  values_of [] entries = []
  values_of (id ∷ ids) entries = read entries id ∷ values_of ids entries

  unfoldable pub values : OrderedCollection T → List T
  unfolding values_of
  values o = values_of o.ids o.entries

  -- the loop of `deleteWhere`: the first position (`none` for -1), the kept ids and the entries
  unfoldable pub delete_loop :
      (T → Bool)
      → List String
      → ℕ
      → Option ℕ
      → List String
      → Entries T
      → Option ℕ × List String × Entries T
  unfolding read erase
  delete_loop match [] i first kept entries = (first, kept, entries)
  delete_loop match (id ∷ ids) i first kept entries =
      let hit = match (read entries id) in
      delete_loop match ids (i + 1)
        (if hit then (if is_some first then first else some i) else first)
        (if hit then kept else kept ++ id ∷ []) (if hit then erase id entries else entries)

  unfoldable pub delete_where : (T → Bool) → OrderedCollection T → Option ℕ × OrderedCollection T
  unfolding delete_loop
  delete_where match o =
      let (first, kept, entries) = delete_loop match o.ids 0 none [] o.entries in
      (first, record { ids = kept; entries = entries })

  unfoldable pub update_loop : (String → T → T) → List String → Entries T → Entries T
  unfolding read put
  update_loop rewrite [] entries = entries
  update_loop rewrite (id ∷ ids) entries =
      update_loop rewrite ids (put id (rewrite id (read entries id)) entries)

  unfoldable pub update : (String → T → T) → OrderedCollection T → OrderedCollection T
  unfolding update_loop
  update rewrite o = record o { entries = update_loop rewrite o.ids o.entries }
