-- ===== src/Client/Wire.antt =====
-- herdr/client.go: the line of a request, the lines of a response, and the ids of requests. The lines
-- are those of bufio.Reader.ReadBytes, and json.Marshal and json.Unmarshal are parameters where they are
-- needed.
use Prim.Native.String.{◌++◌ as join_text}
use herdr_client.Prelude.{ℕ, ◌+◌, ◌%◌, ◌^◌, String, ◌==◌, Bool, Option, none, some, if◌then◌else◌}
use herdr_client.GoText.{trim_space, trim_line_end, format_uint}
use herdr_client.Session.Errors.{Failure, api_error, op_error, foreign, op_decode}
use herdr_client.Session.Machine.{Answer, answers, fails}

-- wireRequest
pub record WireRequest (P : Type 0) : Type 0 where
  pub id : String
  pub method : String
  pub params : P

-- wireError
pub record WireError : Type 0 where
  pub code : String
  pub message : String

-- wireResponse; a result that is missing is empty
pub record WireResponse : Type 0 where
  pub id : String
  pub result : String
  pub error : Option WireError

-- the fields of Client that a request uses; `next_id` is what the generator of ids returns, if there is one
pub record Client : Type 0 where
  pub next_id : Option String
  pub sequence : ℕ

abbrev id_or : Option String → Client → String × Client
id_or (some id) c = (id, c)
id_or none c =
    let sequence = (c.sequence + 1) % 2 ^ 64 in
    (join_text "herdr-go-" (format_uint sequence), record c { sequence = sequence })

-- Client.requestID
unfoldable pub request_id : Client → String × Client
request_id c = id_or c.next_id c

abbrev pub params_or : {P : Type 0} → P → Option P → P
params_or empty_params none = empty_params
params_or empty_params (some p) = p

abbrev with_line_feed : Answer String → Answer String
with_line_feed (answers line) = answers (join_text line "\n")
with_line_feed (fails e) = fails e

-- requestLine
unfoldable pub request_line :
    {P : Type 0} → P → (WireRequest P → Answer String) → String → String → Option P → Answer String
request_line empty_params marshal id method params =
    with_line_feed
      (marshal (record { id = id; method = method; params = params_or empty_params params }))

abbrev neither : Failure
neither = foreign "response carries neither result nor error"

abbrev pub response_error : String → Option WireError → String → Answer String
response_error method (some e) result =
    fails (api_error (record { method = method; code = e.code; message = e.message }))
response_error method none result =
    if result == "" then fails (op_error method op_decode neither) else answers result

abbrev pub response_of : String → Answer WireResponse → Answer String
response_of method (fails e) = fails (op_error method op_decode e)
response_of method (answers r) = response_error method r.error r.result

-- decodeResponseLine
unfoldable pub decode_response_line :
    (String → Answer WireResponse) → String → String → Answer String
decode_response_line unmarshal method line = response_of method (unmarshal line)

-- what ReadBytes returns, call by call: lines, and at last what there is and an error
pub data Reads : Type 0 where
  ends : String → Failure → Reads
  more : String → Reads → Reads

unfoldable pub is_blank : String → Bool
is_blank line = trim_space line == ""

-- a line that was read, and what is still to be read; `none` where the error was read with the line
abbrev pub Line : Type 0
Line = String × Option Reads

-- readLine
unfoldable pub read_line : Reads → Answer Line
unfolding is_blank
read_line (ends s e) =
    let line = trim_line_end s in if is_blank line then fails e else answers (line, none)
read_line (more s rest) =
    let later = read_line rest in
    let line = trim_line_end s in if is_blank line then later else answers (line, some rest)
