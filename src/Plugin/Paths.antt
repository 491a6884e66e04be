-- ===== src/Plugin/Paths.antt =====
-- plugin/state.go: names inside a directory of the plugin, for a system whose paths have slashes. Clean
-- and Rel of path/filepath are stated on the elements of a path.
use Prim.Native.Char.{code}
use Prim.Native.String.{◌++◌ as join_text}
use herdr_client.Prelude.{
  String, ◌==◌, Bool, true, false, not, ◌||◌, Option, none, some, List, [], ◌∷◌, eqb, if◌then◌else◌,
}
use herdr_client.GoText.{split}

pub record CleanPath : Type 0 where
  pub rooted : Bool
  pub elements : List String

-- filepath.IsAbs
abbrev pub is_rooted : String → Bool
is_rooted String.[] = false
is_rooted (String.◌∷◌ c s) = eqb (code c) b'/'

-- `..` behind what there is, the last element first
abbrev pub climb : Bool → List String → List String
climb rooted [] = if rooted then [] else ".." ∷ []
climb rooted (x ∷ xs) = if x == ".." then ".." ∷ x ∷ xs else xs

abbrev pub clean_element : Bool → String → List String → List String
clean_element rooted e done =
    if e == "" || e == "." then done else if e == ".." then climb rooted done else e ∷ done

abbrev pub turned : List String → List String → List String
turned [] ys = ys
turned (x ∷ xs) ys = turned xs (x ∷ ys)

unfoldable pub clean_elements : Bool → List String → List String → List String
clean_elements rooted done [] = turned done []
clean_elements rooted done (e ∷ es) = clean_elements rooted (clean_element rooted e done) es

-- filepath.Clean
unfoldable pub clean : String → CleanPath
unfolding clean_elements
clean text =
    let rooted = is_rooted text in
    record { rooted = rooted; elements = clean_elements rooted [] (split b'/' text) }

abbrev pub slashed : List String → String
slashed [] = ""
slashed (x ∷ []) = x
slashed (x ∷ y ∷ ys) = join_text x (join_text "/" (slashed (y ∷ ys)))

unfoldable pub path_text : CleanPath → String
path_text p =
    if p.rooted
    then join_text "/" (slashed p.elements)
    else if slashed p.elements == ""
    then "."
    else slashed p.elements

abbrev pub climbing : List String → List String → List String
climbing [] ts = ts
climbing (b ∷ bs) ts = ".." ∷ climbing bs ts

-- filepath.Rel of two clean paths of one kind: the elements of the way from the first to the second
unfoldable pub relative : List String → List String → Option (List String)
relative [] ts = some ts
relative (b ∷ bs) [] = if b == ".." then none else some (climbing (b ∷ bs) [])
relative (b ∷ bs) (t ∷ ts) =
    let rest = relative bs ts in
    if b == t then rest else if b == ".." then none else some (climbing (b ∷ bs) (t ∷ ts))

abbrev pub escapes : Option (List String) → Bool
escapes none = true
escapes (some []) = false
escapes (some (x ∷ xs)) = x == ".."

pub data PathError : Type 0 where
  not_set name_escapes : PathError

pub data Joined : Type 0 where
  joined : String → Joined
  refused : PathError → Joined

abbrev pub leaves_at_once : List String → Bool
leaves_at_once [] = false
leaves_at_once (e ∷ es) = (e == "" || is_rooted e) || leaves_at_once es

abbrev pub same_kind : Bool → Bool → Bool
same_kind a b = if a then b else not b

abbrev pub checked_path : CleanPath → CleanPath → Joined
checked_path base path =
    if not (same_kind base.rooted path.rooted) || escapes (relative base.elements path.elements)
    then refused name_escapes
    else joined (path_text path)

-- joinInside
unfoldable pub join_inside : String → List String → Joined
unfolding clean path_text relative
join_inside dir [] = if dir == "" then refused not_set else joined dir
join_inside dir (n ∷ ns) =
    if dir == ""
    then refused not_set
    else if leaves_at_once (n ∷ ns)
    then refused name_escapes
    else checked_path (clean dir) (clean (slashed (dir ∷ n ∷ ns)))
