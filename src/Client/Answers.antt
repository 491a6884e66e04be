-- ===== src/Client/Answers.antt =====
-- herdr/client.go: what a result of CallRaw tells about the exchange.
use herdr_client.Prelude.{
  ◌≡◌, refl, subst, ℕ, String, true, false, Option, none, some, ◌==◌, if_case, arith,
}
use herdr_client.GoText.{trim_line_end}
use herdr_client.SocketPath.{byte_len}
use herdr_client.Session.Errors.{Failure}
use herdr_client.Session.Machine.{Answer, answers, fails}
use herdr_client.Client.Connection.{Store, dial}
use herdr_client.Client.Wire.{
  WireRequest, WireResponse, WireError, Client, Reads, ends, more, Line, is_blank, read_line,
  request_line, request_id, response_error, response_of, decode_response_line,
}
use herdr_client.Client.Exchange.{
  Exchange, Opened, at_end_of, responded, sent, write_all, on_connection, with_request,
  open_exchange, raw_of, call_raw,
}

-- the first line that is not blank, without its line end
pub data FirstLine : Reads → String → Type 0 where
  last :
      (s : String) (e : Failure)
      → is_blank (trim_line_end s) ≡ false
      → FirstLine (ends s e) (trim_line_end s)
  here :
      (s : String) (rest : Reads)
      → is_blank (trim_line_end s) ≡ false
      → FirstLine (more s rest) (trim_line_end s)
  skip :
      {l : String} (s : String) {rest : Reads}
      → is_blank (trim_line_end s) ≡ true
      → FirstLine rest l
      → FirstLine (more s rest) l

abbrev IsFirst : Reads → Answer Line → Type 0
IsFirst r (fails e) = Unit {0}
IsFirst r (answers a) = FirstLine r a.0

skipped :
    (s : String) (rest : Reads) (a : Answer Line)
    → is_blank (trim_line_end s) ≡ true
    → IsFirst rest a
    → IsFirst (more s rest) a
skipped s rest (fails e) b h = tt
skipped s rest (answers a) b h = skip s b h

read_line-IsFirst : (r : Reads) → IsFirst r (read_line r)
unfolding read_line
read_line-IsFirst (ends s e) =
    if_case {A = Answer Line} (IsFirst (ends s e)) (is_blank (trim_line_end s)) (λ b. tt)
      (λ b. last s e b)
read_line-IsFirst (more s rest) =
    if_case {A = Answer Line} (IsFirst (more s rest)) (is_blank (trim_line_end s))
      (λ b. skipped s rest (read_line rest) b (read_line-IsFirst rest)) (λ b. here s rest b)

module _ (unmarshal : String → Answer WireResponse) where
  -- a line that stands for the result
  pub record Carries (r : Reads) (result : String) : Type 0 where
    pub line : String
    pub first : FirstLine r line
    pub response : WireResponse
    pub decodes : unmarshal line ≡ answers response
    pub no_error : response.error ≡ none
    pub is_result : response.result ≡ result

  abbrev Decodes : String → Answer String → Type 0
  Decodes line (fails e) = Unit {0}
  Decodes line (answers result) =
      (w : WireResponse) × ((unmarshal line ≡ answers w) × ((w.error ≡ none) × (w.result ≡ result)))

  response_error-Decodes :
      (method line : String) (w : WireResponse) (o : Option WireError)
      → unmarshal line ≡ answers w
      → w.error ≡ o
      → Decodes line (response_error method o w.result)
  response_error-Decodes method line w (some e) d h = tt
  response_error-Decodes method line w none d h =
      if_case {A = Answer String} (Decodes line) (w.result == "") (λ t. tt)
        (λ f. (w, (d, (h, refl))))

  decode_response_line-Decodes :
      (method line : String) → Decodes line (decode_response_line unmarshal method line)
  unfolding decode_response_line
  decode_response_line-Decodes method line = go (unmarshal line) refl
    where
      go : (a : Answer WireResponse) → unmarshal line ≡ a → Decodes line (response_of method a)
      go (fails e) h = tt
      go (answers w) h = response_error-Decodes method line w w.error h refl

  abbrev HasCarried : Exchange → Answer Opened → Type 0
  HasCarried x (fails e) = Unit {0}
  HasCarried x (answers o) = (x.at_end ≡ none) × Carries x.reads o.result

  at_end_of-HasCarried :
      (x : Exchange) (line : String) (first : FirstLine x.reads line) (at_end : Option Failure)
      → x.at_end ≡ at_end
      → (method : String) (rest : Option Reads) (a : Answer String) → Decodes line a
      → HasCarried x (at_end_of at_end method rest a)
  at_end_of-HasCarried x line first (some e) u method rest a h = tt
  at_end_of-HasCarried x line first none u method rest (fails e) h = tt
  at_end_of-HasCarried x line first none u method rest (answers result) (w, (d, (n, e))) = (
    u,
    record { line = line; first = first; response = w; decodes = d; no_error = n; is_result = e },
  )

write_all-whole :
    (n : ℕ) (e : Option Failure) (length : ℕ) → write_all n e length ≡ none → n ≡ length
write_all-whole n (some e) length h = absurd (ground arith)
write_all-whole n none length h = ground arith

module _ {P : Type 0} (empty_params : P) (marshal : WireRequest P → Answer String)
    (unmarshal : String → Answer WireResponse) (x : Exchange) where
  responded-HasCarried :
      (method : String) (a : Answer Line)
      → IsFirst x.reads a
      → HasCarried unmarshal x (responded empty_params marshal unmarshal x method a)
  responded-HasCarried method (fails e) h = tt
  responded-HasCarried method (answers (line, rest)) h =
      at_end_of-HasCarried unmarshal x line h x.at_end refl method rest
        (decode_response_line unmarshal method line)
        (decode_response_line-Decodes unmarshal method line)

  -- The exchange of a request that was answered: the line of the request was written, all its bytes, the
  -- context is not done, and the response stands for the result.
  pub record Exchanged (request : Answer String) (raw : String) : Type 0 where
    pub line : String
    pub is_line : request ≡ answers line
    pub whole : x.written ≡ byte_len line
    pub not_done : x.at_end ≡ none
    pub carries : Carries unmarshal x.reads raw

  abbrev HasExchanged : Answer String → Answer Opened → Type 0
  HasExchanged request (fails e) = Unit {0}
  HasExchanged request (answers o) = Exchanged request o.result

  to_exchanged :
      (request : Answer String) (line : String)
      → request ≡ answers line
      → x.written ≡ byte_len line
      → (a : Answer Opened) → HasCarried unmarshal x a
      → HasExchanged request a
  to_exchanged request line h w (fails e) k = tt
  to_exchanged request line h w (answers o) (n, k) = record {
    line = line;
    is_line = h;
    whole = w;
    not_done = n;
    carries = k;
  }

  sent-HasExchanged :
      (request : Answer String) (method line : String)
      → request ≡ answers line
      → (o : Option Failure) → write_all x.written x.write_error (byte_len line) ≡ o
      → HasExchanged request (sent empty_params marshal unmarshal x method o)
  sent-HasExchanged request method line h (some e) w = tt
  sent-HasExchanged request method line h none w =
      to_exchanged request line h (write_all-whole x.written x.write_error (byte_len line) w)
        (responded empty_params marshal unmarshal x method (read_line x.reads))
        (responded-HasCarried method (read_line x.reads) (read_line-IsFirst x.reads))

  on_connection-HasExchanged :
      (request : Answer String) (method line : String)
      → request ≡ answers line
      → (d : Option Failure × Store)
      → HasExchanged request (on_connection empty_params marshal unmarshal x method line d).0
  on_connection-HasExchanged request method line h (some e, store) = tt
  on_connection-HasExchanged request method line h (none, store) =
      sent-HasExchanged request method line h (write_all x.written x.write_error (byte_len line))
        refl

  with_request-HasExchanged :
      (request a : Answer String) (method : String)
      → request ≡ a
      → HasExchanged request (with_request empty_params marshal unmarshal x method a).0
  with_request-HasExchanged request (fails e) method h = tt
  with_request-HasExchanged request (answers line) method h =
      on_connection-HasExchanged request method line h (dial x.dialing)

  raw_of-Exchanged :
      (request : Answer String) (r : Answer Opened × Store) (raw : String)
      → HasExchanged request r.0
      → (raw_of empty_params marshal unmarshal r).0 ≡ answers raw
      → Exchanged request raw
  raw_of-Exchanged request (fails e, store) raw h k = absurd (ground arith)
  raw_of-Exchanged request (answers o, store) raw h k = subst (Exchanged request) (ground arith) h

  -- Where CallRaw returns a result, the request was encoded and all its bytes were written, the context is
  -- not done after the response is read, and the first line that is not blank decodes to a response
  -- without an error and with that result.
  pub call_raw-Exchanged :
      (c : Client) (method : String) (params : Option P) (raw : String)
      → (call_raw empty_params marshal unmarshal c x method params).0.0 ≡ answers raw
      → Exchanged (request_line empty_params marshal (request_id c).0 method params) raw
  unfolding call_raw open_exchange
  call_raw-Exchanged c method params raw h =
      raw_of-Exchanged _ _ raw (with_request-HasExchanged _ _ method refl) h
