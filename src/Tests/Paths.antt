-- ===== src/Tests/Paths.antt =====
-- The theorem on herdr/socketpath.go for a session named in the environment.
use herdr_client.Prelude.{◌≡◌, refl, String, ◌==◌, List, [], ◌∷◌, if◌then◌else◌}
use herdr_client.SocketPath.{
  resolve_socket_path, resolved, joined, IsSocket, resolve-IsSocket, byte_len, is_session_name_byte,
}

abbrev getenv : String → String
getenv key = if key == "HOME" then "/home/ada" else if key == "HERDR_SESSION" then "work.1" else ""

abbrev elements : List String
elements = "/home/ada" ∷ (".config" ∷ ("herdr" ∷ ("sessions" ∷ ("work.1" ∷ ("herdr.sock" ∷ [])))))

work-resolves : resolve_socket_path getenv "/tmp" "" ≡ resolved (joined elements)
unfolding resolve_socket_path byte_len is_session_name_byte
work-resolves = refl

resolve-IsSocket_example : IsSocket getenv "/tmp" (joined elements)
resolve-IsSocket_example = resolve-IsSocket getenv "/tmp" "" (joined elements) work-resolves
