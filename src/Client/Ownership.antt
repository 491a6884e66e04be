-- ===== src/Client/Ownership.antt =====
-- herdr/client.go, herdr/dial.go: who closes the connection of an exchange.
use herdr_client.Prelude.{
  ◌≡◌, refl, String, Bool, true, false, Option, none, some, is_some, List, [], ◌∷◌, if_case, arith,
}
use herdr_client.Session.Errors.{Failure}
use herdr_client.Session.Machine.{Answer, answers, fails}
use herdr_client.Client.Connection.{Store, dial}
use herdr_client.Client.Wire.{WireRequest, WireResponse, Client, Line, Reads}
use herdr_client.Client.Exchange.{
  Exchange, Opened, OpenStream, DecodedResult, close_if, close_unless_transferred, at_end_of,
  responded, sent, write_all, on_connection, with_request, open_exchange, raw_of, call_raw,
  stream_of, open_stream, close_stream, check_subscription_ack, acknowledged, checked, subscribe,
  new_stream,
}
use herdr_client.Client.Wire.{read_line, decode_response_line}
use herdr_client.SocketPath.{byte_len}
use herdr_client.Client.Release.{
  IsReleased, IsHeld, HasOwner, Answered, IsHeld-StoresOwned, released, Dialed, dial-Dialed,
  close_if-StoresOwned, held,
}

-- once the watcher has started, an exchange that goes on to its end fails
cancelled-fails :
    (at_end : Option Failure) (method : String) (rest : Option Reads) (a : Answer String)
    → is_some at_end ≡ true
    → ¬ Answered (at_end_of at_end method rest a)
cancelled-fails (some e) method rest a h k = k
cancelled-fails none method rest a h k = ground arith

transfer-HasOwner :
    (x : Exchange) (r : Answer Opened) (s : Store)
    → (x.cancelled ≡ true → ¬ Answered r)
    → IsHeld s
    → HasOwner (r, close_unless_transferred r (close_if x.cancelled s))
transfer-HasOwner x r s h k = go x.cancelled r h
  where
    go :
        (b : Bool) (r : Answer Opened)
        → (b ≡ true → ¬ Answered r)
        → HasOwner (r, close_unless_transferred r (close_if b s))
    go b (fails e) h = released (close_if b s) (close_if-StoresOwned b s k)
    go true (answers o) h = absurd (h refl tt)
    go false (answers o) h = k

abbrev IsLive : Answer OpenStream × Store → Type 0
IsLive (fails e, store) = Unit {0}
IsLive (answers s, store) = s.stream.closed ≡ false

-- closing its stream releases a held connection
close_stream-IsReleased :
    (st : OpenStream) (store : Store)
    → st.stream.closed ≡ false
    → IsHeld store
    → IsReleased (close_stream st store).1.1
unfolding close_stream
close_stream-IsReleased st none o h = absurd h
close_stream-IsReleased st (some c) o h =
    if_case {A = Option Failure × (OpenStream × Store)} (λ r. IsReleased r.1.1) st.stream.closed
      (λ t. absurd (ground arith)) (λ f. released (some c) (held h.0 h.1))

module _ {P : Type 0} (empty_params : P) (marshal : WireRequest P → Answer String)
    (unmarshal : String → Answer WireResponse) (x : Exchange)
    (watched : x.cancelled ≡ true → is_some x.at_end ≡ true) where
  responded-fails :
      (method : String) (a : Answer Line)
      → x.cancelled ≡ true
      → ¬ Answered (responded empty_params marshal unmarshal x method a)
  responded-fails method (fails e) c k = k
  responded-fails method (answers (line, rest)) c k =
      cancelled-fails x.at_end method rest (decode_response_line unmarshal method line) (watched c)
        k

  sent-fails :
      (method : String) (o : Option Failure)
      → x.cancelled ≡ true
      → ¬ Answered (sent empty_params marshal unmarshal x method o)
  sent-fails method (some e) c k = k
  sent-fails method none c k = responded-fails method (read_line x.reads) c k

  on_connection-HasOwner :
      (method line : String) (d : Option Failure × Store)
      → Dialed d
      → HasOwner (on_connection empty_params marshal unmarshal x method line d)
  on_connection-HasOwner method line (some e, store) h = h
  on_connection-HasOwner method line (none, store) h =
      transfer-HasOwner x (sent empty_params marshal unmarshal x method w) store
        (sent-fails method w) h
    where
      w : Option Failure
      w = write_all x.written x.write_error (byte_len line)

  with_request-HasOwner :
      (method : String) (a : Answer String)
      → HasOwner (with_request empty_params marshal unmarshal x method a)
  with_request-HasOwner method (fails e) = tt
  with_request-HasOwner method (answers line) =
      on_connection-HasOwner method line (dial x.dialing) (dial-Dialed x.dialing)

  -- Where the watcher starts only once the context is done, `open` leaves the connection open exactly if
  -- it succeeds; otherwise it was closed once, or there was none.
  pub open_exchange-HasOwner :
      (c : Client) (method : String) (params : Option P)
      → HasOwner (open_exchange empty_params marshal unmarshal c x method params).0
  unfolding open_exchange
  open_exchange-HasOwner c method params = with_request-HasOwner method _

  raw_of-IsReleased :
      (r : Answer Opened × Store)
      → HasOwner r
      → IsReleased (raw_of empty_params marshal unmarshal r).1
  raw_of-IsReleased (fails e, store) h = h
  raw_of-IsReleased (answers o, store) h = released store (IsHeld-StoresOwned store h)

  -- Where the watcher starts only once the context is done, CallRaw closes its connection, once,
  -- whether it fails or not.
  pub call_raw-IsReleased :
      (c : Client) (method : String) (params : Option P)
      → IsReleased (call_raw empty_params marshal unmarshal c x method params).0.1
  unfolding call_raw
  call_raw-IsReleased c method params = raw_of-IsReleased _ (open_exchange-HasOwner c method params)

  stream_of-HasOwner :
      (method : String) (r : Answer Opened × Store)
      → HasOwner r
      → HasOwner (stream_of empty_params marshal unmarshal method r)
  stream_of-HasOwner method (fails e, store) h = h
  stream_of-HasOwner method (answers o, store) h = h

  stream_of-IsLive :
      (method : String) (r : Answer Opened × Store)
      → IsLive (stream_of empty_params marshal unmarshal method r)
  unfolding new_stream
  stream_of-IsLive method (fails e, store) = tt
  stream_of-IsLive method (answers o, store) = refl

  module _ {S : Type 0} (params_for : List S → P)
      (decode_result : String → Answer DecodedResult) where
    checked-HasOwner :
        (r : Answer OpenStream × Store)
        → IsLive r
        → HasOwner r
        → HasOwner (checked empty_params marshal unmarshal params_for decode_result r)
    checked-HasOwner (fails e, store) o h = h
    checked-HasOwner (answers s, store) o h = acked (check_subscription_ack decode_result s)
      where
        acked :
            (a : Option Failure)
            → HasOwner
                (acknowledged empty_params marshal unmarshal params_for decode_result s store a)
        acked none = h
        acked (some e) = close_stream-IsReleased s store o h

    -- Where the watcher starts only once the context is done, Subscribe leaves its connection open exactly
    -- if it returns a stream; otherwise it was closed once, or there was none, also where the response
    -- is not the acknowledgement of a subscription.
    pub subscribe-HasOwner :
        (c : Client) (subs : List S)
        → HasOwner (subscribe empty_params marshal unmarshal params_for decode_result c x subs).0
    unfolding subscribe open_stream
    subscribe-HasOwner c [] = tt
    subscribe-HasOwner c (s ∷ ss) =
        checked-HasOwner (stream_of empty_params marshal unmarshal "events.subscribe" r)
          (stream_of-IsLive "events.subscribe" r)
          (stream_of-HasOwner "events.subscribe" r (open_exchange-HasOwner c "events.subscribe" p))
      where
        p : Option P
        p = some (params_for (s ∷ ss))

        r : Answer Opened × Store
        r = (open_exchange empty_params marshal unmarshal c x "events.subscribe" p).0
