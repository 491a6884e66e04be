-- ===== src/SocketPath.antt =====
-- herdr/socketpath.go, and platformConfigDir of herdr/dial_unix.go: which socket a client connects to.
-- The environment is a function from names to values, "" where unset, and `temp_dir` is os.TempDir.
-- A path that filepath.Join makes is the list of its elements.
use Prim.Native.Char.{code}
use herdr_client.Prelude.{
  ℕ, ◌+◌, ◌≤◌, ◌≡◌, ◌≢◌, refl, sym, subst, String, ◌==◌, Bool, true, false, not, ◌&&◌, ◌||◌, List,
  [], ◌∷◌, ◌++◌, ◌⊎◌, inl, inr, leb, ltb, eqb, if_case, if◌then◌else◌, arith,
}
use herdr_client.GoText.{all_codes}

abbrev pub default_session_name : String
default_session_name = "default"

abbrev pub max_session_name_len : ℕ
max_session_name_len = 64

-- the bytes of a code point in UTF-8, and of a string
abbrev pub width : ℕ → ℕ
width c = if ltb c 0x80 then 1 else if ltb c 0x800 then 2 else if ltb c 0x10000 then 3 else 4

unfoldable pub byte_len : String → ℕ
byte_len String.[] = 0
byte_len (String.◌∷◌ c s) = width (code c) + byte_len s

unfoldable pub is_session_name_byte : ℕ → Bool
is_session_name_byte b =
    leb b'a' b && leb b b'z'
    || leb b'A' b && leb b b'Z'
    || leb b'0' b && leb b b'9'
    || eqb b b'.'
    || eqb b b'_'
    || eqb b b'-'

pub data NameError : Type 0 where
  too_long not_allowed bad_byte : NameError

pub data Name : Type 0 where
  bad_name : NameError → Name
  named : String → Name

unfoldable pub normalize_session_name : String → Name
normalize_session_name name =
    if name == default_session_name
    then named ""
    else if ltb max_session_name_len (byte_len name)
    then bad_name too_long
    else if name == "." || name == ".."
    then bad_name not_allowed
    else if not (all_codes is_session_name_byte name)
    then bad_name bad_byte
    else named name

pub data Location : Type 0 where
  given : String → Location
  joined : List String → Location

pub data Resolved : Type 0 where
  -- of the argument, or of HERDR_SESSION
  bad_session bad_env_session : NameError → Resolved
  resolved : Location → Resolved

module _ (getenv : String → String) (temp_dir : String) where
  unfoldable pub platform_config_dir : List String
  platform_config_dir =
      let home = getenv "HOME" in
      if not (home == "") then home ∷ (".config" ∷ ("herdr" ∷ [])) else temp_dir ∷ ("herdr" ∷ [])

  unfoldable pub config_dir : List String
  unfolding platform_config_dir
  config_dir =
      let dir = getenv "XDG_CONFIG_HOME" in
      if not (dir == "") then dir ∷ ("herdr" ∷ []) else platform_config_dir

  unfoldable pub session_socket_path : String → Location
  unfolding config_dir
  session_socket_path name =
      if name == ""
      then joined (config_dir ++ "herdr.sock" ∷ [])
      else joined (config_dir ++ "sessions" ∷ (name ∷ ("herdr.sock" ∷ [])))

  abbrev pub of_name : (NameError → Resolved) → Name → Resolved
  of_name refuse (bad_name e) = refuse e
  of_name refuse (named name) = resolved (session_socket_path name)

  unfoldable pub resolve_socket_path : String → Resolved
  unfolding session_socket_path normalize_session_name
  resolve_socket_path session =
      if not (session == "")
      then of_name bad_session (normalize_session_name session)
      else let path = getenv "HERDR_SOCKET_PATH" in
        if not (path == "")
        then resolved (given path)
        else let session_env = getenv "HERDR_SESSION" in
          if not (session_env == "")
          then of_name bad_env_session (normalize_session_name session_env)
          else resolved (session_socket_path "")

-- One element of a path that stands for itself: of at most 64 bytes, of letters, digits, '.', '_'
-- and '-' alone, and neither "." nor "..".
abbrev pub IsElement : String → Type 0
IsElement name =
    (byte_len name ≤ 64)
    × ((all_codes is_session_name_byte name ≡ true)
        × (((name == ".") ≡ false) × ((name == "..") ≡ false)))

named_inj : (a b : String) → named a ≡ named b → a ≡ b
named_inj a b e = ground (arith, e)

normalize-IsElement :
    (name n : String) → normalize_session_name name ≡ named n → (n ≡ "") ⊎ IsElement n
unfolding normalize_session_name
normalize-IsElement name n =
    if_case Fits (name == default_session_name) (λ default e. inl (sym (named_inj "" n e)))
      λ other.
        if_case Fits (ltb max_session_name_len (byte_len name))
          (λ long e. absurd (ground (arith, e)))
          λ short.
            if_case Fits (name == "." || name == "..") (λ dots e. absurd (ground (arith, e)))
              λ plain.
                if_case Fits (not (all_codes is_session_name_byte name))
                  (λ bad e. absurd (ground (arith, e)))
                  λ good e. inr (subst IsElement (named_inj name n e) (element short plain good))
  where
    Fits : Name → Type 0
    Fits x = x ≡ named n → (n ≡ "") ⊎ IsElement n

    element :
        ltb max_session_name_len (byte_len name) ≡ false
        → (name == "." || name == "..") ≡ false
        → not (all_codes is_session_name_byte name) ≡ false
        → IsElement name
    element short plain good = (
      ground (arith, short),
      (ground (arith, good), (ground (arith, plain), ground (arith, plain))),
    )

module _ (getenv : String → String) (temp_dir : String) where
  -- the sockets that a client may be sent to
  pub data IsSocket : Location → Type 0 where
    env_socket : IsSocket (given (getenv "HERDR_SOCKET_PATH"))
    default_socket : IsSocket (joined (config_dir getenv temp_dir ++ "herdr.sock" ∷ []))
    session_socket :
        (name : String)
        → (name == "") ≡ false
        → IsElement name
        → IsSocket
            (joined (config_dir getenv temp_dir ++ "sessions" ∷ (name ∷ ("herdr.sock" ∷ []))))

  session_socket_path-IsSocket :
      (name : String)
      → (name ≡ "") ⊎ IsElement name
      → IsSocket (session_socket_path getenv temp_dir name)
  unfolding session_socket_path
  session_socket_path-IsSocket name (inl e) =
      subst (λ n. IsSocket (session_socket_path getenv temp_dir n)) (sym e) default_socket
  session_socket_path-IsSocket name (inr h) =
      if_case IsSocket (name == "") (λ empty. default_socket)
        (λ filled. session_socket name filled h)

  resolved_inj : (a b : Location) → resolved a ≡ resolved b → a ≡ b
  resolved_inj a b e = ground (arith, e)

  of_name-IsSocket :
      (refuse : NameError → Resolved) (name : String) (p : Location)
      → ((e : NameError) → refuse e ≢ resolved p)
      → of_name getenv temp_dir refuse (normalize_session_name name) ≡ resolved p
      → IsSocket p
  of_name-IsSocket refuse name p refuses = go (normalize_session_name name) refl
    where
      go :
          (x : Name)
          → normalize_session_name name ≡ x
          → of_name getenv temp_dir refuse x ≡ resolved p
          → IsSocket p
      go (bad_name e) is o = absurd (refuses e o)
      go (named n) is o =
          subst IsSocket (resolved_inj _ p o)
            (session_socket_path-IsSocket n (normalize-IsElement name n is))

  -- A path that ResolveSocketPath returns is that of HERDR_SOCKET_PATH, the socket of the config
  -- directory, or the socket in its folder of sessions under one element of a path that stands for
  -- itself.
  pub resolve-IsSocket :
      (session : String) (p : Location)
      → resolve_socket_path getenv temp_dir session ≡ resolved p
      → IsSocket p
  unfolding resolve_socket_path
  resolve-IsSocket session p =
      if_case Fits (not (session == ""))
        (λ asked. of_name-IsSocket bad_session session p λ e k. ground (arith, k))
        λ unasked.
          if_case Fits (not (getenv "HERDR_SOCKET_PATH" == ""))
            (λ set o. subst IsSocket (resolved_inj _ p o) env_socket)
            λ unset.
              if_case Fits (not (getenv "HERDR_SESSION" == ""))
                (λ set.
                  of_name-IsSocket bad_env_session (getenv "HERDR_SESSION") p
                    λ e k. ground (arith, k))
                λ none_set o.
                  subst IsSocket (resolved_inj _ p o) (session_socket_path-IsSocket "" (inl refl))
    where
      Fits : Resolved → Type 0
      Fits r = r ≡ resolved p → IsSocket p
