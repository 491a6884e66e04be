-- ===== src/Session/Stream.antt =====
-- herdr/stream.go: Next and Close of a Stream. What a call of Next meets is a parameter of it: the
-- error of the context before, the case that the select takes (`Arrival`), and the error of the
-- context by the time a terminal error is made. `decode_line`, a parameter, is json.Unmarshal.
use herdr_client.Prelude.{◌≡◌, String, Bool, true, false, Option, none, some, if◌then◌else◌}
use herdr_client.Session.Errors.{
  Failure, stream_closed, api_error, op_error, joined, op_read, op_decode, is_stream_closed,
}
use herdr_client.Session.Machine.{RawEvent, Answer, answers, fails}

pub record LineStream : Type 0 where
  pub method : String
  pub closed : Bool
  -- the first error that was read
  pub read_err : Option Failure

pub data Arrival : Type 0 where
  context_done : Failure → Arrival
  -- the stream was closed here, or the reading goroutine has stopped
  sees_closed lines_closed : Arrival
  line_error : Failure → Arrival
  line : String → Arrival

-- a pushed line: an error response in place of an event, or an event
pub data Pushed : Type 0 where
  undecodable : Failure → Pushed
  pushed_error : String → String → Pushed
  pushed_event : RawEvent → Pushed

unfoldable pub set_read_err : Failure → LineStream → LineStream
set_read_err e s = record s { read_err = some (first s.read_err) }
  where
    first : Option Failure → Failure
    first none = e
    first (some earlier) = earlier

unfoldable pub stream_read_error : String → Option Failure → Failure
stream_read_error method none = op_error method op_read stream_closed
stream_read_error method (some e) = op_error method op_read (joined stream_closed e)

unfoldable pub terminal_err : Option Failure → LineStream → Failure
unfolding stream_read_error
terminal_err (some e) s = op_error s.method op_read e
terminal_err none s = stream_read_error s.method s.read_err

abbrev ended : Option Failure → LineStream → Answer RawEvent × LineStream
ended after s = (fails (terminal_err after s), s)

-- the stream that has read an error response
abbrev with_pushed : String → String → LineStream → LineStream
with_pushed code message s =
    set_read_err (api_error (record { method = s.method; code = code; message = message })) s

-- the call fails with an error that errors.Is takes for ErrStreamClosed
abbrev pub FailsClosed : Answer RawEvent × LineStream → Type 0
FailsClosed r = (e : Failure) × ((r.0 ≡ fails e) × (is_stream_closed e ≡ true))

module _ (decode_line : String → Pushed) where
  abbrev take_line : Option Failure → Pushed → LineStream → Answer RawEvent × LineStream
  take_line after (undecodable e) s = (fails (op_error s.method op_decode e), s)
  take_line after (pushed_error code message) s = ended after (with_pushed code message s)
  take_line after (pushed_event raw) s = (answers raw, s)

  abbrev take_arrival : Arrival → Option Failure → LineStream → Answer RawEvent × LineStream
  take_arrival (context_done e) after s = (fails (op_error s.method op_read e), s)
  take_arrival sees_closed after s = ended after s
  take_arrival lines_closed after s = ended after s
  take_arrival (line_error e) after s = ended after (set_read_err e s)
  take_arrival (line text) after s = take_line after (decode_line text) s

  unfoldable pub next_line :
      Option Failure → Arrival → Option Failure → LineStream → Answer RawEvent × LineStream
  unfolding terminal_err set_read_err
  next_line (some e) arrival after s = (fails (op_error s.method op_read e), s)
  next_line none arrival after s = if s.closed then ended after s else take_arrival arrival after s

  -- the arrivals behind which the stream gives no event any more
  abbrev pub ends_stream : Arrival → Bool
  ends_stream sees_closed = true
  ends_stream lines_closed = true
  ends_stream (line_error e) = true
  ends_stream (line text) = elim (decode_line text) [ pushed_error c m ↦ true | _ ↦ false ]
  ends_stream (context_done e) = false
