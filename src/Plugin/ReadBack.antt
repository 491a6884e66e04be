-- ===== src/Plugin/ReadBack.antt =====
-- plugin/state.go: what was written is read.
use herdr_client.Prelude.{
  ◌≡◌, ◌≢◌, ap, ◌∙◌, String, ◌==◌, eq_iff, Option, none, some, if_case, arith,
}
use herdr_client.Plugin.State.{
  Disk, FileError, no_state_dir, Writing, Wrote, Located, file_path, write_located, write_state,
  read_file, read_located, read_state, coded, write_state_json, decoded_into, read_into,
  read_state_json,
}
use herdr_client.Plugin.Atomic.{HasEnd, IsAtomic, write_located-IsAtomic}

read_at :
    (path bytes : String) (d : Disk) → d path ≡ some bytes → read_file none path d ≡ (none, bytes)
unfolding read_file
read_at path bytes d h = ap (λ o. (none, elim o [ none ↦ "" | some c ↦ c ])) h

ends_new : (e : Option FileError) (a b c : Option String) → e ≡ none → HasEnd e a b c → c ≡ b
ends_new (some e) a b c n h = absurd (ground arith)
ends_new none a b c n h = h

read_located-written :
    (w : Writing) (bytes : String) (before : Disk) (l : Located)
    → l.1 ≢ w.temp
    → (write_located l w bytes before).error ≡ none
    → read_located none l (write_located l w bytes before).end ≡ (none, bytes)
read_located-written w bytes before (some e, path) apart n = absurd (ground arith)
read_located-written w bytes before (none, path) apart n =
    read_at path bytes r.end (ends_new r.error (before path) (some bytes) (r.end path) n a.outcome)
  where
    r : Wrote
    r = write_located (none, path) w bytes before

    a : IsAtomic before w.temp path bytes r
    a = write_located-IsAtomic w bytes before (none, path) apart

-- What WriteState has written under a name, ReadState reads under it, if the read itself does not fail.
pub read_state-write_state :
    (state_dir name bytes : String) (w : Writing) (before : Disk)
    → (file_path state_dir name no_state_dir).1 ≢ w.temp
    → (write_state state_dir w name bytes before).error ≡ none
    → read_state state_dir none name (write_state state_dir w name bytes before).end ≡ (none, bytes)
unfolding write_state read_state
read_state-write_state state_dir name bytes w before apart n =
    read_located-written w bytes before (file_path state_dir name no_state_dir) apart n

module _ {A : Type 0} (decode : String → A → Option String × A) where
  read_into-decoded :
      (bytes : String) (into v : A)
      → bytes ≢ ""
      → decode bytes into ≡ (none, v)
      → read_into decode (none, bytes) into ≡ (none, v)
  read_into-decoded bytes into v n h =
      if_case {A = Option FileError × A} (λ r. r ≡ (none, v)) (bytes == "")
        (λ t. absurd (n ((eq_iff bytes "").0 t))) (λ f. ap (decoded_into decode) h)

  -- What WriteStateJSON has written under a name, if that is no empty text and decodes to a value,
  -- ReadStateJSON reads as this value.
  pub read_state_json-write_state_json :
      (state_dir name bytes : String) (w : Writing) (before : Disk) (into v : A)
      → (file_path state_dir name no_state_dir).1 ≢ w.temp
      → (write_state_json state_dir w name (coded bytes) before).error ≡ none
      → bytes ≢ ""
      → decode bytes into ≡ (none, v)
      → read_state_json decode state_dir none name into
          (write_state_json state_dir w name (coded bytes) before).end
        ≡ (none, v)
  unfolding write_state_json read_state_json
  read_state_json-write_state_json state_dir name bytes w before into v apart ok n h =
      ap (λ r. read_into decode r into)
        (read_state-write_state state_dir name bytes w before apart ok)
      ∙ read_into-decoded bytes into v n h
