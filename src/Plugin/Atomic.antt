-- ===== src/Plugin/Atomic.antt =====
-- plugin/state.go: a write leaves the previous file or the new one.
use herdr_client.Prelude.{
  ◌≡◌, ◌≢◌, refl, sym, ap, ◌∙◌, subst, String, ◌==◌, eq_iff, eq_refl, false, Option, none, some,
  List, [], ◌∷◌, All, inl, inr, ◌⊎◌, arith,
}
use herdr_client.Plugin.State.{
  Disk, put, FileError, no_state_dir, replace_failed, write_failed, Writing, first_error, fill_temp,
  written_bytes, removed, moved, Wrote, renamed, filled, created, write_atomic, Located, file_path,
  write_at, write_located, write_state,
}

-- a disk on which a write of `bytes` was begun
pub record Between (before : Disk) (temp path : String) (bytes : String) (d : Disk) : Type 0 where
  pub old_or_new : (d path ≡ before path) ⊎ (d path ≡ some bytes)
  pub others : (q : String) → q ≢ temp → q ≢ path → d q ≡ before q

abbrev pub HasEnd : Option FileError → Option String → Option String → Option String → Type 0
HasEnd (some e) before bytes after = after ≡ before
HasEnd none before bytes after = after ≡ bytes

-- Every state of the write has the old file or the new one, and the other files; at the end stands the
-- new one where the write succeeds, and the old one where it fails.
pub record IsAtomic (before : Disk) (temp path : String) (bytes : String) (w : Wrote) : Type 0 where
  pub on_way : All (Between before temp path bytes) w.way
  pub at_end : Between before temp path bytes w.end
  pub outcome : HasEnd w.error (before path) (some bytes) (w.end path)

differs : (q p : String) → q ≢ p → (q == p) ≡ false
differs q p h = ground (arith, eq_iff q p, h)

put-other : (p q : String) (c : Option String) (d : Disk) → q ≢ p → put p c d q ≡ d q
put-other p q c d h = ground (arith, differs q p h)

put-same : (p : String) (c : Option String) (d : Disk) → put p c d p ≡ c
put-same p c d = ground (arith, eq_refl p)

module _ (before : Disk) (temp path : String) (bytes : String) (apart : path ≢ temp) where
  Between-before : Between before temp path bytes before
  Between-before = record { old_or_new = inl refl; others = λ q a b. refl }

  Between-temp :
      (c : Option String) (d : Disk)
      → Between before temp path bytes d
      → Between before temp path bytes (put temp c d)
  Between-temp c d h = record {
    old_or_new =
        subst (λ o. (o ≡ before path) ⊎ (o ≡ some bytes)) (sym (put-other temp path c d apart))
          h.old_or_new;
    others = λ q a b. put-other temp q c d a ∙ h.others q a b;
  }

  Between-path :
      (d : Disk)
      → Between before temp path bytes d
      → Between before temp path bytes (put path (some bytes) d)
  Between-path d h = record {
    old_or_new = inr (put-same path (some bytes) d);
    others = λ q a b. put-other path q (some bytes) d b ∙ h.others q a b;
  }

  abbrev Full : Disk → Type 0
  Full d = (d temp ≡ some bytes) × (d path ≡ before path)

  Between-moved :
      (d : Disk)
      → d temp ≡ some bytes
      → Between before temp path bytes d
      → Between before temp path bytes (moved temp path d)
  Between-moved d f h =
      subst (λ o. Between before temp path bytes (put temp none (put path o d))) (sym f)
        (Between-temp none (put path (some bytes) d) (Between-path d h))

  moved-path : (d : Disk) → d temp ≡ some bytes → moved temp path d path ≡ some bytes
  moved-path d f =
      put-other temp path none (put path (d temp) d) apart ∙ put-same path (d temp) d ∙ f

  removed-path : (o : Option String) (d : Disk) → removed o temp d path ≡ d path
  removed-path (some e) d = refl
  removed-path none d = put-other temp path none d apart

  Between-removed :
      (o : Option String) (d : Disk)
      → Between before temp path bytes d
      → Between before temp path bytes (removed o temp d)
  Between-removed (some e) d h = h
  Between-removed none d h = Between-temp none d h

  abbrev Atomic : Wrote → Type 0
  Atomic = IsAtomic before temp path bytes

  -- a write that gives up behind a disk with the old file
  given_up :
      (e : FileError) (o : Option String) (way : List Disk) (d : Disk)
      → All (Between before temp path bytes) way
      → Between before temp path bytes d
      → d path ≡ before path
      → Atomic (record { error = some e; way = way; end = removed o temp d })
  given_up e o way d a b h = record {
    on_way = a;
    at_end = Between-removed o d b;
    outcome = removed-path o d ∙ h;
  }

  fill_temp-written :
      (w : Writing) → fill_temp w ≡ none → written_bytes w.write w.partial bytes ≡ bytes
  unfolding fill_temp
  fill_temp-written w h = go w.write h
    where
      go :
          (o : Option String)
          → first_error o (first_error w.chmod (first_error w.sync w.close_error)) ≡ none
          → written_bytes o w.partial bytes ≡ bytes
      go (some e) k = absurd (ground arith)
      go none k = refl

module _ (w : Writing) (path bytes : String) (before : Disk) (apart : path ≢ w.temp) where
  abbrev full : Disk
  full = put w.temp (some (written_bytes w.write w.partial bytes)) before

  abbrev way : List Disk
  way = before ∷ put w.temp (some "") before ∷ full ∷ []

  abbrev IsStep : Disk → Type 0
  IsStep = Between before w.temp path bytes

  start : IsStep before
  start = Between-before before w.temp path bytes apart

  put-IsStep : (c : Option String) → IsStep (put w.temp c before)
  put-IsStep c = Between-temp before w.temp path bytes apart c before start

  way-IsStep : All IsStep way
  way-IsStep = (
    start,
    (put-IsStep (some ""), (put-IsStep (some (written_bytes w.write w.partial bytes)), tt)),
  )

  full-path : full path ≡ before path
  full-path = put-other w.temp path (some (written_bytes w.write w.partial bytes)) before apart

  gives_up :
      (e : FileError)
      → IsAtomic before w.temp path bytes
          (record { error = some e; way = way; end = removed w.remove w.temp full })
  gives_up e =
      given_up before w.temp path bytes apart e w.remove way full way-IsStep
        (put-IsStep (some (written_bytes w.write w.partial bytes))) full-path

  renamed-IsAtomic :
      full w.temp ≡ some bytes
      → (o : Option String) → IsAtomic before w.temp path bytes (renamed o w path way full)
  renamed-IsAtomic f (some e) = gives_up (replace_failed e)
  renamed-IsAtomic f none = record {
    on_way = way-IsStep;
    at_end =
        Between-moved before w.temp path bytes apart full f
          (put-IsStep (some (written_bytes w.write w.partial bytes)));
    outcome = moved-path before w.temp path bytes apart full f;
  }

  filled-IsAtomic :
      (o : Option String)
      → fill_temp w ≡ o
      → IsAtomic before w.temp path bytes (filled o w path way full)
  filled-IsAtomic (some e) h = gives_up (write_failed e)
  filled-IsAtomic none h = renamed-IsAtomic stands w.rename
    where
      stands : full w.temp ≡ some bytes
      stands =
          put-same w.temp (some (written_bytes w.write w.partial bytes)) before
          ∙ ap some (fill_temp-written before w.temp path bytes apart w h)

  created-IsAtomic :
      (o : Option String) → IsAtomic before w.temp path bytes (created o w path bytes before)
  created-IsAtomic (some e) = record { on_way = tt; at_end = start; outcome = refl }
  created-IsAtomic none = filled-IsAtomic (fill_temp w) refl

  -- With a temporary file of another name than the target, a write is atomic: at every moment the target
  -- is the old file or the new one, and the files besides these two are as they were; at the end it is
  -- the new one where the write succeeds, and the old one where it fails.
  pub write_atomic-IsAtomic : IsAtomic before w.temp path bytes (write_atomic w path bytes before)
  unfolding write_atomic
  write_atomic-IsAtomic = created-IsAtomic w.create

write_at-IsAtomic :
    (w : Writing) (path bytes : String) (before : Disk)
    → path ≢ w.temp
    → (o : Option String) → IsAtomic before w.temp path bytes (write_at o w path bytes before)
write_at-IsAtomic w path bytes before apart (some e) = record {
  on_way = tt;
  at_end = start w path bytes before apart;
  outcome = refl;
}
write_at-IsAtomic w path bytes before apart none = write_atomic-IsAtomic w path bytes before apart

pub write_located-IsAtomic :
    (w : Writing) (bytes : String) (before : Disk) (l : Located)
    → l.1 ≢ w.temp
    → IsAtomic before w.temp l.1 bytes (write_located l w bytes before)
write_located-IsAtomic w bytes before (some e, path) apart = record {
  on_way = tt;
  at_end = start w path bytes before apart;
  outcome = refl;
}
write_located-IsAtomic w bytes before (none, path) apart =
    write_at-IsAtomic w path bytes before apart w.make_dir

-- With a temporary file of another name than the target, WriteState is atomic: at every moment the target
-- is the old file or the new one, and the files besides these two are as they were; at the end it is the
-- new one where WriteState succeeds, and the old one where it fails.
pub write_state-IsAtomic :
    (state_dir name bytes : String) (w : Writing) (before : Disk)
    → (file_path state_dir name no_state_dir).1 ≢ w.temp
    → IsAtomic before w.temp
        (file_path state_dir name no_state_dir).1
        bytes
        (write_state state_dir w name bytes before)
unfolding write_state
write_state-IsAtomic state_dir name bytes w before apart =
    write_located-IsAtomic w bytes before (file_path state_dir name no_state_dir) apart
