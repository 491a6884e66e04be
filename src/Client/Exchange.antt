-- ===== src/Client/Exchange.antt =====
-- herdr/client.go and herdr/subscribe.go: an exchange on a connection of its own, and the calls made of
-- it. What happens outside during the exchange is a record; encoding/json is a section's parameters.
use herdr_client.Prelude.{
  ℕ, String, Bool, true, false, Option, none, some, List, [], ◌∷◌, eqb, if◌then◌else◌,
}
use herdr_client.SocketPath.{byte_len}
use herdr_client.Session.Errors.{
  Failure, op_error, foreign, unexpected_result, Op, op_validate, op_encode, op_dial, op_write,
  op_read, op_decode, op_close,
}
use herdr_client.Session.Machine.{Answer, answers, fails}
use herdr_client.Session.Stream.{LineStream}
use herdr_client.Client.Connection.{Store, close_owned, close_stored, Dialing, dial, Connection}
use herdr_client.Client.Wire.{
  WireRequest, WireResponse, Client, request_id, request_line, decode_response_line, Reads, Line,
  read_line,
}

-- What happens during an exchange.
pub record Exchange : Type 0 where
  -- ctx.Err() where encoding, writing or reading has failed
  pub at_encode : Option Failure
  pub at_write : Option Failure
  pub at_read : Option Failure
  pub dialing : Dialing
  -- what Write returns
  pub written : ℕ
  pub write_error : Option Failure
  pub reads : Reads
  -- the watcher of the context has started to close the connection before it was stopped
  pub cancelled : Bool
  -- ctx.Err() once the watcher is stopped
  pub at_end : Option Failure

-- openedConnection; its connection is the one in the store
pub record Opened : Type 0 where
  pub result : String
  pub rest : Option Reads

abbrev or_error : Option Failure → Failure → Failure
or_error (some e) d = e
or_error none d = d

-- requestError
unfoldable pub request_error : Option Failure → String → Op → Failure → Failure
request_error ctx_err method op e = op_error method op (or_error ctx_err e)

abbrev short_write : Failure
short_write = foreign "short write"

-- writeAll
abbrev pub write_all : ℕ → Option Failure → ℕ → Option Failure
write_all n (some e) length = some e
write_all n none length = if eqb n length then none else some short_write

abbrev pub close_if : Bool → Store → Store
close_if true s = close_stored s
close_if false s = s

-- the deferred Close of `open`
abbrev pub close_unless_transferred : Answer Opened → Store → Store
close_unless_transferred (answers o) s = s
close_unless_transferred (fails e) s = close_stored s

abbrev pub at_end_of : Option Failure → String → Option Reads → Answer String → Answer Opened
at_end_of (some e) method rest response = fails (op_error method op_read e)
at_end_of none method rest (fails e) = fails e
at_end_of none method rest (answers result) = answers (record { result = result; rest = rest })

-- OpenStream's stream, with the outcome of its Close
pub record OpenStream : Type 0 where
  pub stream : LineStream
  pub ack : String
  pub rest : Option Reads
  pub close_err : Option Failure

-- newStream
unfoldable pub new_stream : String → Opened → OpenStream
new_stream method o = record {
  stream = record { method = method; closed = false; read_err = none };
  ack = o.result;
  rest = o.rest;
  close_err = none;
}

abbrev op_error_of : String → Op → Option Failure → Option Failure
op_error_of method op none = none
op_error_of method op (some e) = some (op_error method op e)

abbrev pub shut : OpenStream → Option Failure → OpenStream
shut s e = record s {
  stream = record s.stream { closed = true };
  close_err = op_error_of s.stream.method op_close e;
}

abbrev pub closed_with :
    OpenStream → Option Failure × Connection → Option Failure × (OpenStream × Store)
closed_with s (e, c) = ((shut s e).close_err, (shut s e, some c))

abbrev close_live : OpenStream → Store → Option Failure × (OpenStream × Store)
close_live s none = (none, (shut s none, none))
close_live s (some c) = closed_with s (close_owned c)

-- Stream.Close, without the reading goroutine
unfoldable pub close_stream : OpenStream → Store → Option Failure × (OpenStream × Store)
close_stream s store = if s.stream.closed then (s.close_err, (s, store)) else close_live s store

-- a result as DecodeResult gives it: whether it is a SubscriptionStartedResponse, and its ResultType
pub record DecodedResult : Type 0 where
  pub started : Bool
  pub result_type : String

abbrev pub events_subscribe : String
events_subscribe = "events.subscribe"

abbrev pub decoded_ack : Answer DecodedResult → Option Failure
decoded_ack (fails e) = some (op_error events_subscribe op_decode e)
decoded_ack (answers r) =
    if r.started
    then none
    else some (
        op_error events_subscribe op_decode (
          unexpected_result (record {
            method = events_subscribe;
            want = "subscription_started";
            got = r.result_type;
          })))

-- checkSubscriptionAck
unfoldable pub check_subscription_ack :
    (String → Answer DecodedResult) → OpenStream → Option Failure
check_subscription_ack decode_result s = decoded_ack (decode_result s.ack)

module _ {P : Type 0} (empty_params : P) (marshal : WireRequest P → Answer String)
    (unmarshal : String → Answer WireResponse) where
  abbrev pub responded : Exchange → String → Answer Line → Answer Opened
  responded x method (fails e) = fails (request_error x.at_read method op_read e)
  responded x method (answers (line, rest)) =
      at_end_of x.at_end method rest (decode_response_line unmarshal method line)

  abbrev pub sent : Exchange → String → Option Failure → Answer Opened
  sent x method (some e) = fails (request_error x.at_write method op_write e)
  sent x method none = responded x method (read_line x.reads)

  abbrev pub on_connection :
      Exchange → String → String → Option Failure × Store → Answer Opened × Store
  on_connection x method line (some e, store) = (fails (op_error method op_dial e), store)
  on_connection x method line (none, store) =
      let r = sent x method (write_all x.written x.write_error (byte_len line)) in
      (r, close_unless_transferred r (close_if x.cancelled store))

  abbrev pub with_request : Exchange → String → Answer String → Answer Opened × Store
  with_request x method (fails e) = (fails (request_error x.at_encode method op_encode e), none)
  with_request x method (answers line) = on_connection x method line (dial x.dialing)

  -- Client.open, and the client after it
  unfoldable pub open_exchange :
      Client → Exchange → String → Option P → (Answer Opened × Store) × Client
  unfolding request_id request_line
  open_exchange c x method params = (
    with_request x method (request_line empty_params marshal (request_id c).0 method params),
    (request_id c).1,
  )

  abbrev pub raw_of : Answer Opened × Store → Answer String × Store
  raw_of (fails e, store) = (fails e, store)
  raw_of (answers o, store) = (answers o.result, close_stored store)

  -- CallRaw
  unfoldable pub call_raw : Client → Exchange → String → Option P → (Answer String × Store) × Client
  unfolding open_exchange
  call_raw c x method params = let r = open_exchange c x method params in (raw_of r.0, r.1)

  abbrev pub decoded : {R : Type 0} → String → Answer R → Answer (Option R)
  decoded method (fails e) = fails (op_error method op_decode e)
  decoded method (answers r) = answers (some r)

  abbrev pub into :
      {R : Type 0} → String → Option (String → Answer R) → Answer String → Answer (Option R)
  into method decode (fails e) = fails e
  into method none (answers raw) = answers none
  into method (some decode) (answers raw) = decoded method (decode raw)

  -- Call, with how the result is decoded, if it is asked for
  unfoldable pub call :
      {R : Type 0}
      → Option (String → Answer R)
      → Client
      → Exchange
      → String
      → Option P
      → (Answer (Option R) × Store) × Client
  unfolding call_raw
  call decode c x method params =
      let r = call_raw c x method params in ((into method decode r.0.0, r.0.1), r.1)

  abbrev pub stream_of : String → Answer Opened × Store → Answer OpenStream × Store
  stream_of method (fails e, store) = (fails e, store)
  stream_of method (answers o, store) = (answers (new_stream method o), store)

  -- OpenStream
  unfoldable pub open_stream :
      Client → Exchange → String → Option P → (Answer OpenStream × Store) × Client
  unfolding open_exchange new_stream
  open_stream c x method params =
      let r = open_exchange c x method params in (stream_of method r.0, r.1)

  module _ {S : Type 0} (params_for : List S → P)
      (decode_result : String → Answer DecodedResult) where
    abbrev pub acknowledged : OpenStream → Store → Option Failure → Answer OpenStream × Store
    acknowledged s store none = (answers s, store)
    acknowledged s store (some e) = (fails e, (close_stream s store).1.1)

    abbrev pub checked : Answer OpenStream × Store → Answer OpenStream × Store
    checked (fails e, store) = (fails e, store)
    checked (answers s, store) = acknowledged s store (check_subscription_ack decode_result s)

    -- Subscribe
    unfoldable pub subscribe : Client → Exchange → List S → (Answer OpenStream × Store) × Client
    unfolding open_stream check_subscription_ack close_stream
    subscribe c x [] =
        ((fails (op_error events_subscribe op_validate (foreign "no subscriptions")), none), c)
    subscribe c x (s ∷ ss) =
        let r = open_stream c x events_subscribe (some (params_for (s ∷ ss))) in (checked r.0, r.1)
