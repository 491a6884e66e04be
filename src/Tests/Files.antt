-- ===== src/Tests/Files.antt =====
-- The theorems on plugin/state.go at a write that succeeds and at one whose disk is full.
use herdr_client.Prelude.{
  ap, ◌∙◌, drop, ◌≡◌, ◌≢◌, refl, ◌==◌, eq_iff, none, some, [], ◌∷◌, if◌then◌else◌, arith,
}
use herdr_client.GoText.{split}
use herdr_client.Plugin.Paths.{join_inside, joined, clean, clean_elements, path_text, relative}
use herdr_client.Plugin.Below.{IsBelow, join_inside-IsBelow, split-path_text}
use herdr_client.Plugin.Clean.{plain}
use herdr_client.Plugin.State.{
  Disk, Writing, file_path, no_state_dir, write_state, write_atomic, fill_temp, read_state,
}
use herdr_client.Plugin.Atomic.{IsAtomic, write_state-IsAtomic}
use herdr_client.Plugin.ReadBack.{read_state-write_state}

logs-joined : join_inside "/state/demo/" ("logs/../seen.json" ∷ []) ≡ joined "/state/demo/seen.json"
unfolding join_inside clean clean_elements path_text relative split
logs-joined = refl

join_inside-IsBelow_example : IsBelow "/state/demo/" "/state/demo/seen.json"
join_inside-IsBelow_example =
    join_inside-IsBelow "/state/demo/" "logs/../seen.json" [] "/state/demo/seen.json" logs-joined

-- a text that climbs out of the directory is not below it
climbing-not-IsBelow : ¬ IsBelow "/state/demo" "/state/demo/../../etc"
unfolding clean clean_elements split
climbing-not-IsBelow h = climbs (
    ap (drop 3) (
      ap (split b'/') h.is_text
      ∙ split-path_text h.path "state" ("demo" ∷ h.rest) h.kind h.below h.names))
  where
    climbs : (".." ∷ (".." ∷ ("etc" ∷ []))) ≡ h.rest → ⊥
    climbs e = absurd (ground (arith, ap plain e ∙ h.stays))

abbrev disk : Disk
disk q = if q == "/state/demo/seen.json" then some "old" else none

abbrev writes : Writing
writes = record {
  make_dir = none;
  temp = "/state/demo/seen.json.tmp1";
  create = none;
  write = none;
  partial = "";
  chmod = none;
  sync = none;
  close_error = none;
  rename = none;
  remove = none;
}

abbrev no_space : Writing
no_space = record writes { write = some "no space left on device"; partial = "n" }

seen-path : (file_path "/state/demo" "seen.json" no_state_dir).1 ≡ "/state/demo/seen.json"
unfolding file_path join_inside clean clean_elements path_text relative split
seen-path = refl

seen-apart : (file_path "/state/demo" "seen.json" no_state_dir).1 ≢ "/state/demo/seen.json.tmp1"
seen-apart = ground (arith, seen-path, eq_iff "/state/demo/seen.json" "/state/demo/seen.json.tmp1")

write_state-IsAtomic_example :
    IsAtomic disk "/state/demo/seen.json.tmp1"
      (file_path "/state/demo" "seen.json" no_state_dir).1
      "new"
      (write_state "/state/demo" no_space "seen.json" "new" disk)
write_state-IsAtomic_example =
    write_state-IsAtomic "/state/demo" "seen.json" "new" no_space disk seen-apart

seen-succeeds : (write_state "/state/demo" writes "seen.json" "new" disk).error ≡ none
unfolding write_state write_atomic fill_temp file_path join_inside clean clean_elements path_text
    relative split
seen-succeeds = refl

read_state-write_state_example :
    read_state "/state/demo" none "seen.json"
      (write_state "/state/demo" writes "seen.json" "new" disk).end
    ≡ (none, "new")
read_state-write_state_example =
    read_state-write_state "/state/demo" "seen.json" "new" writes disk seen-apart seen-succeeds
