-- ===== src/Client/Failing.antt =====
-- herdr/client.go, herdr/errors.go: the errors of the calls.
use herdr_client.Prelude.{◌≡◌, refl, String, Option, none, some, List, [], ◌∷◌, ◌==◌, if_case}
use herdr_client.SocketPath.{byte_len}
use herdr_client.Session.Errors.{Failure, api_error, op_error}
use herdr_client.Session.Machine.{Answer, answers, fails}
use herdr_client.Client.Connection.{Store, dial}
use herdr_client.Client.Wire.{
  WireRequest, WireResponse, WireError, Client, Line, Reads, read_line, response_of, response_error,
  decode_response_line,
}
use herdr_client.Client.Exchange.{
  Exchange, Opened, OpenStream, DecodedResult, at_end_of, responded, sent, write_all, on_connection,
  with_request, open_exchange, raw_of, call_raw, into, decoded, decoded_ack, call, request_error,
  stream_of, open_stream, check_subscription_ack, acknowledged, checked, subscribe,
}

-- an OpError or an error response, with the method
abbrev pub Names : String → Failure → Type 0
Names method (op_error m op e) = m ≡ method
Names method (api_error e) = e.method ≡ method
Names method e = ⊥

abbrev pub FailsWith : {A : Type 0} → String → Answer A → Type 0
FailsWith method (fails e) = Names method e
FailsWith method (answers a) = Unit {0}

module _ {P : Type 0} (empty_params : P) (marshal : WireRequest P → Answer String)
    (unmarshal : String → Answer WireResponse) (x : Exchange) where
  response_error-FailsWith :
      (method : String) (o : Option WireError) (result : String)
      → FailsWith method (response_error method o result)
  response_error-FailsWith method (some e) result = refl
  response_error-FailsWith method none result =
      if_case {A = Answer String} (FailsWith method) (result == "") (λ t. refl) (λ f. tt)

  decode-FailsWith :
      (method line : String) → FailsWith method (decode_response_line unmarshal method line)
  unfolding decode_response_line
  decode-FailsWith method line = go (unmarshal line)
    where
      go : (a : Answer WireResponse) → FailsWith method (response_of method a)
      go (fails e) = refl
      go (answers w) = response_error-FailsWith method w.error w.result

  at_end_of-FailsWith :
      (at_end : Option Failure) (method : String) (rest : Option Reads) (a : Answer String)
      → FailsWith method a
      → FailsWith method (at_end_of at_end method rest a)
  at_end_of-FailsWith (some e) method rest a h = refl
  at_end_of-FailsWith none method rest (fails e) h = h
  at_end_of-FailsWith none method rest (answers r) h = tt

  sent-FailsWith :
      (method : String) (o : Option Failure)
      → FailsWith method (sent empty_params marshal unmarshal x method o)
  unfolding request_error
  sent-FailsWith method (some e) = refl
  sent-FailsWith method none = go (read_line x.reads)
    where
      go :
          (a : Answer Line) → FailsWith method (responded empty_params marshal unmarshal x method a)
      go (fails e) = refl
      go (answers (line, rest)) =
          at_end_of-FailsWith x.at_end method rest _ (decode-FailsWith method line)

  on_connection-FailsWith :
      (method line : String) (d : Option Failure × Store)
      → FailsWith method (on_connection empty_params marshal unmarshal x method line d).0
  on_connection-FailsWith method line (some e, store) = refl
  on_connection-FailsWith method line (none, store) =
      sent-FailsWith method (write_all x.written x.write_error (byte_len line))

  with_request-FailsWith :
      (method : String) (a : Answer String)
      → FailsWith method (with_request empty_params marshal unmarshal x method a).0
  unfolding request_error
  with_request-FailsWith method (fails e) = refl
  with_request-FailsWith method (answers line) =
      on_connection-FailsWith method line (dial x.dialing)

  open_exchange-FailsWith :
      (c : Client) (method : String) (params : Option P)
      → FailsWith method (open_exchange empty_params marshal unmarshal c x method params).0.0
  unfolding open_exchange
  open_exchange-FailsWith c method params = with_request-FailsWith method _

  raw_of-FailsWith :
      (method : String) (r : Answer Opened × Store)
      → FailsWith method r.0
      → FailsWith method (raw_of empty_params marshal unmarshal r).0
  raw_of-FailsWith method (fails e, store) h = h
  raw_of-FailsWith method (answers o, store) h = tt

  into-FailsWith :
      {R : Type 0} (method : String) (decode : Option (String → Answer R)) (a : Answer String)
      → FailsWith method a
      → FailsWith method (into empty_params marshal unmarshal method decode a)
  into-FailsWith method decode (fails e) h = h
  into-FailsWith method none (answers raw) h = tt
  into-FailsWith {R} method (some decode) (answers raw) h = go (decode raw)
    where
      go : (a : Answer R) → FailsWith method (decoded empty_params marshal unmarshal method a)
      go (fails e) = refl
      go (answers r) = tt

  -- An error of Call is an OpError or an error response of the server, and carries the method.
  pub call-FailsWith :
      {R : Type 0} (decode : Option (String → Answer R)) (c : Client) (method : String)
      (params : Option P)
      → FailsWith method (call empty_params marshal unmarshal decode c x method params).0.0
  unfolding call call_raw
  call-FailsWith decode c method params =
      into-FailsWith method decode _
        (raw_of-FailsWith method _ (open_exchange-FailsWith c method params))

  stream_of-FailsWith :
      (method : String) (r : Answer Opened × Store)
      → FailsWith method r.0
      → FailsWith method (stream_of empty_params marshal unmarshal method r).0
  stream_of-FailsWith method (fails e, store) h = h
  stream_of-FailsWith method (answers o, store) h = tt

  module _ {S : Type 0} (params_for : List S → P)
      (decode_result : String → Answer DecodedResult) where
    checked-FailsWith :
        (r : Answer OpenStream × Store)
        → FailsWith "events.subscribe" r.0
        → FailsWith "events.subscribe"
            (checked empty_params marshal unmarshal params_for decode_result r).0
    unfolding check_subscription_ack
    checked-FailsWith (fails e, store) h = h
    checked-FailsWith (answers s, store) h = ack (decode_result s.ack)
      where
        ack :
            (a : Answer DecodedResult)
            → FailsWith "events.subscribe"
                (acknowledged empty_params marshal unmarshal params_for decode_result s store
                  (decoded_ack a)).0
        ack (fails e) = refl
        ack (answers r) =
            if_case {A = Option Failure}
              (λ o.
                FailsWith "events.subscribe"
                  (acknowledged empty_params marshal unmarshal params_for decode_result s store
                    o).0)
              r.started (λ t. tt) (λ f. refl)

    -- An error of Subscribe is an OpError or an error response of the server, and carries the method.
    pub subscribe-FailsWith :
        (c : Client) (subs : List S)
        → FailsWith "events.subscribe"
            (subscribe empty_params marshal unmarshal params_for decode_result c x subs).0.0
    unfolding subscribe open_stream
    subscribe-FailsWith c [] = refl
    subscribe-FailsWith c (s ∷ ss) =
        checked-FailsWith (stream_of empty_params marshal unmarshal "events.subscribe" r) (
          stream_of-FailsWith "events.subscribe" r (open_exchange-FailsWith c "events.subscribe" p))
      where
        p : Option P
        p = some (params_for (s ∷ ss))

        r : Answer Opened × Store
        r = (open_exchange empty_params marshal unmarshal c x "events.subscribe" p).0
