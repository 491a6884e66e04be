-- ===== src/Tests/Calls.antt =====
-- The theorems on herdr/client.go at an exchange that is answered, and at one that is cancelled.
use herdr_client.Prelude.{◌≡◌, refl, String, true, false, none, some, List, [], ◌∷◌, arith}
use herdr_client.GoText.{trim_line_end, trim_space, format_uint}
use herdr_client.SocketPath.{byte_len}
use herdr_client.Session.Errors.{canceled, foreign}
use herdr_client.Session.Machine.{Answer, answers}
use herdr_client.Client.Connection.{Dialing, dial}
use herdr_client.Client.Wire.{
  WireRequest, WireResponse, Client, ends, more, request_id, request_line, read_line,
  decode_response_line, is_blank,
}
use herdr_client.Client.Exchange.{Exchange, DecodedResult, open_exchange, call_raw, call, subscribe}
use herdr_client.Client.Release.{HasOwner, IsReleased}
use herdr_client.Client.Ownership.{call_raw-IsReleased, subscribe-HasOwner}
use herdr_client.Client.Answers.{Exchanged, call_raw-Exchanged}
use herdr_client.Client.Failing.{FailsWith, call-FailsWith}

-- an encoder that writes the method alone
abbrev marshal : WireRequest String → Answer String
marshal r = answers r.method

-- a decoder to which a line is the result of its response
abbrev unmarshal : String → Answer WireResponse
unmarshal line = answers (record { id = "1"; result = line; error = none })

abbrev client : Client
client = record { next_id = none; sequence = 0 }

abbrev local_dial : Dialing
local_dial = record { before = none; after = none; connection = some none; error = none }

-- a blank line, and then the result
abbrev answered : Exchange
answered = record {
  at_encode = none;
  at_write = none;
  at_read = none;
  dialing = local_dial;
  written = 5;
  write_error = none;
  reads = more "\r\n" (ends "pong\n" (foreign "EOF"));
  cancelled = false;
  at_end = none;
}

ping-answers : (call_raw "{}" marshal unmarshal client answered "ping" none).0.0 ≡ answers "pong"
unfolding call_raw open_exchange request_id request_line dial read_line decode_response_line
    byte_len format_uint is_blank trim_line_end trim_space
ping-answers = refl

call_raw-Exchanged_example :
    Exchanged "{}" marshal unmarshal answered
      (request_line "{}" marshal (request_id client).0 "ping" none)
      "pong"
call_raw-Exchanged_example =
    call_raw-Exchanged "{}" marshal unmarshal answered client "ping" none "pong" ping-answers

-- the context is done while the response is read
abbrev cancelled_call : Exchange
cancelled_call = record answered {
  at_read = some canceled;
  at_end = some canceled;
  cancelled = true;
}

call_raw-IsReleased_example :
    IsReleased (call_raw "{}" marshal unmarshal client cancelled_call "ping" none).0.1
call_raw-IsReleased_example =
    call_raw-IsReleased "{}" marshal unmarshal cancelled_call (λ c. refl) client "ping" none

-- a decoder to which no result is an acknowledgement
abbrev other_result : String → Answer DecodedResult
other_result raw = answers (record { started = false; result_type = raw })

abbrev first_sub : List String → String
first_sub [] = "{}"
first_sub (s ∷ ss) = s

-- the response is read, and is no acknowledgement
abbrev unacknowledged : Exchange
unacknowledged = record answered { written = 16 }

subscribe-HasOwner_example :
    HasOwner
      (subscribe "{}" marshal unmarshal first_sub other_result client unacknowledged
        ("pane.created" ∷ [])).0
subscribe-HasOwner_example =
    subscribe-HasOwner "{}" marshal unmarshal unacknowledged (λ c. absurd (ground arith)) first_sub
      other_result client ("pane.created" ∷ [])

call-FailsWith_example :
    FailsWith "ping"
      (call "{}" marshal unmarshal (some other_result) client cancelled_call "ping" none).0.0
call-FailsWith_example =
    call-FailsWith "{}" marshal unmarshal cancelled_call (some other_result) client "ping" none
