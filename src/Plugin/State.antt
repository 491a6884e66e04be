-- ===== src/Plugin/State.antt =====
-- plugin/state.go: the files of a plugin's state. A disk has the content of each path that a file stands
-- under; what the system calls answer is a record, and a call is the states that it leaves one after
-- another, so that a crash is a stop at one of them. The directories are not on the disk.
use Prim.Native.String.{◌++◌ as join_text}
use herdr_client.Prelude.{String, ◌==◌, Option, none, some, List, [], ◌∷◌, if◌then◌else◌}
use herdr_client.Plugin.Paths.{PathError, Joined, joined, refused, join_inside}

abbrev pub Disk : Type 0
Disk = String → Option String

abbrev pub put : String → Option String → Disk → Disk
put p content d = λ q. if q == p then content else d q

pub data FileError : Type 0 where
  no_state_dir no_config_dir : FileError
  outside : PathError → FileError
  encode_failed create_dir_failed create_temp_failed write_failed replace_failed append_failed
        read_failed decode_failed :
      String → FileError

-- what the system answers to the calls of a write; an error is its text
pub record Writing : Type 0 where
  pub make_dir : Option String
  -- the name that os.CreateTemp chooses
  pub temp : String
  pub create : Option String
  pub write : Option String
  -- what stands in the file after a failed write
  pub partial : String
  pub chmod : Option String
  pub sync : Option String
  pub close_error : Option String
  pub rename : Option String
  pub remove : Option String

abbrev pub first_error : Option String → Option String → Option String
first_error (some e) o = some e
first_error none o = o

-- the error of fillTemp
unfoldable pub fill_temp : Writing → Option String
fill_temp w = first_error w.write (first_error w.chmod (first_error w.sync w.close_error))

abbrev pub written_bytes : Option String → String → String → String
written_bytes (some e) partial bytes = partial
written_bytes none partial bytes = bytes

-- os.Remove of the temporary file
abbrev pub removed : Option String → String → Disk → Disk
removed (some e) temp d = d
removed none temp d = put temp none d

abbrev pub moved : String → String → Disk → Disk
moved temp path d = put temp none (put path (d temp) d)

-- an outcome, the states on the way to it, and the last one
pub record Wrote : Type 0 where
  pub error : Option FileError
  pub way : List Disk
  pub end : Disk

abbrev pub renamed : Option String → Writing → String → List Disk → Disk → Wrote
renamed (some e) w path way d = record {
  error = some (replace_failed e);
  way = way;
  end = removed w.remove w.temp d;
}
renamed none w path way d = record { error = none; way = way; end = moved w.temp path d }

abbrev pub filled : Option String → Writing → String → List Disk → Disk → Wrote
filled (some e) w path way d = record {
  error = some (write_failed e);
  way = way;
  end = removed w.remove w.temp d;
}
filled none w path way d = renamed w.rename w path way d

abbrev pub created : Option String → Writing → String → String → Disk → Wrote
created (some e) w path bytes d = record { error = some (create_temp_failed e); way = []; end = d }
created none w path bytes d =
    let empty = put w.temp (some "") d in
    let full = put w.temp (some (written_bytes w.write w.partial bytes)) d in
    filled (fill_temp w) w path (d ∷ empty ∷ full ∷ []) full

-- writeAtomic
unfoldable pub write_atomic : Writing → String → String → Disk → Wrote
unfolding fill_temp
write_atomic w path bytes d = created w.create w path bytes d

abbrev pub Located : Type 0
Located = Option FileError × String

abbrev path_or_empty : Joined → String
path_or_empty (joined path) = path
path_or_empty (refused e) = ""

-- Env.StatePath and Env.ConfigPath, of the one directory or the other
unfoldable pub path_in : String → List String → String
unfolding join_inside
path_in dir names = path_or_empty (join_inside dir names)

-- filePath
unfoldable pub file_path : String → String → FileError → Located
unfolding join_inside
file_path dir name absent =
    if dir == "" then (some absent, "") else located (join_inside dir (name ∷ []))
  where
    located : Joined → Located
    located (joined path) = (none, path)
    located (refused e) = (some (outside e), "")

abbrev unwritten : FileError → Disk → Wrote
unwritten e d = record { error = some e; way = []; end = d }

abbrev pub write_at : Option String → Writing → String → String → Disk → Wrote
write_at (some e) w path bytes d = unwritten (create_dir_failed e) d
write_at none w path bytes d = write_atomic w path bytes d

abbrev pub write_located : Located → Writing → String → Disk → Wrote
write_located (some e, path) w bytes d = unwritten e d
write_located (none, path) w bytes d = write_at w.make_dir w path bytes d

-- Env.WriteState
unfoldable pub write_state : String → Writing → String → String → Disk → Wrote
unfolding file_path write_atomic
write_state state_dir w name bytes d =
    write_located (file_path state_dir name no_state_dir) w bytes d

-- readFile: an absent file is read as no content
unfoldable pub read_file : Option String → String → Disk → Option FileError × String
read_file (some e) path d = (some (read_failed e), "")
read_file none path d = (none, content (d path))
  where
    content : Option String → String
    content none = ""
    content (some c) = c

abbrev pub read_located : Option String → Located → Disk → Option FileError × String
read_located fault (some e, path) d = (some e, "")
read_located fault (none, path) d = read_file fault path d

-- Env.ReadState and Env.ReadConfig; `fault` is an error of os.ReadFile but that of an absent file
unfoldable pub read_state : String → Option String → String → Disk → Option FileError × String
unfolding file_path read_file
read_state state_dir fault name d = read_located fault (file_path state_dir name no_state_dir) d

unfoldable pub read_config : String → Option String → String → Disk → Option FileError × String
unfolding file_path read_file
read_config config_dir fault name d = read_located fault (file_path config_dir name no_config_dir) d

-- what the system answers to the calls of AppendStateJSONL
pub record Appending : Type 0 where
  pub make_dir : Option String
  pub open_error : Option String
  pub write : Option String
  -- what a failed write has appended
  pub partial : String
  pub close_error : Option String

abbrev pub appended_to : String → Option String → String
appended_to line none = line
appended_to line (some old) = join_text old line

abbrev append_error : Option String → Option FileError
append_error none = none
append_error (some e) = some (append_failed e)

abbrev pub appended : Option String → Appending → String → String → Disk → Option FileError × Disk
appended (some e) a path line d = (some (append_failed e), d)
appended none a path line d = (
  append_error (first_error a.write a.close_error),
  put path (some (appended_to (written_bytes a.write a.partial (join_text line "\n")) (d path))) d,
)

abbrev append_at : Option String → Appending → String → String → Disk → Option FileError × Disk
append_at (some e) a path line d = (some (create_dir_failed e), d)
append_at none a path line d = appended a.open_error a path line d

abbrev append_located : Located → Appending → String → Disk → Option FileError × Disk
append_located (some e, path) a line d = (some e, d)
append_located (none, path) a line d = append_at a.make_dir a path line d

-- Env.AppendStateJSONL behind json.Marshal, which gives the line
unfoldable pub append_state_jsonl :
    String → Appending → String → String → Disk → Option FileError × Disk
unfolding file_path
append_state_jsonl state_dir a name line d =
    append_located (file_path state_dir name no_state_dir) a line d

-- what json.Marshal returns: a text or an error
pub data Coded : Type 0 where
  coded uncoded : String → Coded

-- Env.WriteStateJSON
unfoldable pub write_state_json : String → Writing → String → Coded → Disk → Wrote
unfolding write_state
write_state_json state_dir w name (coded bytes) d = write_state state_dir w name bytes d
write_state_json state_dir w name (uncoded e) d = unwritten (encode_failed e) d

-- `decode` is json.Unmarshal into a value: its error and the value that it leaves
module _ {A : Type 0} (decode : String → A → Option String × A) where
  abbrev pub decoded_into : Option String × A → Option FileError × A
  decoded_into (none, v) = (none, v)
  decoded_into (some e, v) = (some (decode_failed e), v)

  abbrev pub read_into : Option FileError × String → A → Option FileError × A
  read_into (some e, bytes) into = (some e, into)
  read_into (none, bytes) into =
      if bytes == "" then (none, into) else decoded_into (decode bytes into)

  -- Env.ReadStateJSON and Env.ReadConfigJSON
  unfoldable pub read_state_json : String → Option String → String → A → Disk → Option FileError × A
  unfolding read_state
  read_state_json state_dir fault name into d = read_into (read_state state_dir fault name d) into

  unfoldable pub read_config_json :
      String → Option String → String → A → Disk → Option FileError × A
  unfolding read_config
  read_config_json config_dir fault name into d =
      read_into (read_config config_dir fault name d) into
