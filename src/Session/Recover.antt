-- ===== src/Session/Recover.antt =====
-- herdr/session.go: a session that loses its stream comes back with the next bootstrap that succeeds.
use herdr_client.Prelude.{
  ℕ, ◌+◌, ◌≡◌, refl, ◌∙◌, sym, ap, Bool, true, false, not, ◌&&◌, Option, none, some, List, [], ◌∷◌,
  ◌++◌, all, length, arith, if_false,
}
use herdr_client.Wire.Events.{Event}
use herdr_client.SessionState.{replace}
use herdr_client.Session.Errors.{Failure, is_stream_closed, is_retryable}
use herdr_client.Session.Machine.{
  RawEvent, Answer, answers, fails, Stream, resynced, returned, reading, waiting, bootstrapping,
  Machine, Answers, BootstrapResult, elapses, reads, bootstraps, close_optional, bootstrap_session,
  look, look_resync, look_pending, without_stream, read_answer, install, bootstrapped, resume, Step,
  at, step, run,
}
use herdr_client.Session.Ownership.{IsOwned, left_open, bootstrap-left_open, close_optional-held}

-- the bootstrap fails, and not because the server refuses the request
abbrev pub is_failed_attempt : Answers → Bool
is_failed_attempt a = elim (bootstrap_session a []).0 [
  | fails e ↦ is_retryable e
  | answers boot ↦ false
]

-- attempts, each behind the delay before it
abbrev pub attempts : List Answers → List Step
attempts [] = []
attempts (a ∷ more) = at elapses ∷ at (bootstraps a) ∷ attempts more

abbrev pub recovered : BootstrapResult → Failure → Machine → Machine
recovered boot e m = record {
  session = record {
    pending = boot.buffered;
    resync = none;
    cause = none;
    stream = some boot.stream;
    closed = false;
    state = record { cache = boot.cache };
  };
  phase = returned (resynced e);
  open_streams = boot.stream ∷ [];
}

both_true : {a b : Bool} → (a && b) ≡ true → (a ≡ true) × (b ≡ true)
both_true {a = true} {b = b} e = (refl, e)
both_true {a = false} {b = b} e = absurd (ground (arith, e))

module _ (decode : RawEvent → Answer Event) (backoff : ℕ → ℕ) where
  run-append :
      (xs ys : List Step) (m : Machine)
      → run decode backoff (xs ++ ys) m ≡ run decode backoff ys (run decode backoff xs m)
  unfolding run
  run-append [] ys m = refl
  run-append (x ∷ xs) ys m = run-append xs ys (step decode backoff x m)

  failed_attempt :
      (n : ℕ) (r : Answer BootstrapResult × List Stream) (m : Machine)
      → r.1 ≡ left_open r.0
      → m.open_streams ≡ []
      → elim r.0 [ fails e ↦ is_retryable e | answers boot ↦ false ] ≡ true
      → bootstrapped decode n r m ≡ record m { phase = waiting (n + 1) }
  unfolding bootstrapped
  failed_attempt n (fails e, live) m h k t =
      rw t (ap (λ ss. record m { phase = waiting (n + 1); open_streams = ss }) (h ∙ sym k))
  failed_attempt n (answers boot, live) m h k t = absurd (ground (arith, t))

  -- the machine that has lost its stream
  abbrev lost_at : Failure → Machine → Machine
  lost_at e m = record {
    session = record {
      pending = [];
      resync = none;
      cause = some e;
      stream = none;
      closed = false;
      state = m.session.state;
    };
    phase = m.phase;
    open_streams = [];
  }

  lose :
      (m : Machine) (s : Stream) (e : Failure)
      → IsOwned m
      → m.phase ≡ reading s
      → m.session.closed ≡ false
      → m.session.resync ≡ none
      → m.session.pending ≡ []
      → is_stream_closed e ≡ true
      → step decode backoff (at (reads (fails e))) m ≡ record (lost_at e m) { phase = waiting 1 }
  unfolding step resume read_answer look
  lose m s e o p c r q t =
      ap (λ phase. resume decode backoff phase (reads (fails e)) m) p
      ∙ if_false _ (not (is_stream_closed e)) (ap not t)
      ∙ if_false _ m.session.closed c
      ∙ ap (λ x. look_resync decode x (without_stream e m)) r
      ∙ ap (λ x. look_pending decode x (without_stream e m)) q
      ∙ if_false _ m.session.closed c
      ∙ ap (λ x. waiting_with x m.session.resync m.session.closed (without_stream e m).open_streams)
          q
      ∙ ap (λ x. waiting_with [] x m.session.closed (without_stream e m).open_streams) r
      ∙ ap (λ x. waiting_with [] none x (without_stream e m).open_streams) c
      ∙ ap (waiting_with [] none false)
          (ap (close_optional m.session.stream) o.held ∙ close_optional-held m.session.stream)
    where
      waiting_with : List RawEvent → Option Failure → Bool → List Stream → Machine
      waiting_with pending resync closed live = record {
        session = record {
          pending = pending;
          resync = resync;
          cause = some e;
          stream = none;
          closed = closed;
          state = m.session.state;
        };
        phase = waiting 1;
        open_streams = live;
      }

  abbrev trying : ℕ → Failure → Machine → Machine
  trying n e m = record (lost_at e m) { phase = bootstrapping n }

  succeed :
      (n : ℕ) (e : Failure) (m : Machine) (a : Answers) (boot : BootstrapResult)
      → (bootstrap_session a []).0 ≡ answers boot
      → run decode backoff
          (at elapses ∷ at (bootstraps a) ∷ [])
          (record (lost_at e m) { phase = waiting n })
        ≡ recovered boot e m
  unfolding run step resume bootstrapped install look replace
  succeed n e m a boot h =
      ap (λ r. bootstrapped decode n (r, (bootstrap_session a []).1) (trying n e m)) h
      ∙ ap (λ ss. bootstrapped decode n (answers boot, ss) (trying n e m))
          (bootstrap-left_open a ∙ ap left_open h)

  run-attempts :
      (failures : List Answers) (n : ℕ) (m : Machine)
      → m.open_streams ≡ []
      → all is_failed_attempt failures ≡ true
      → run decode backoff (attempts failures) (record m { phase = waiting n })
        ≡ record m { phase = waiting (n + length failures) }
  unfolding run step resume
  run-attempts [] n m h t = ap (λ k. record m { phase = waiting k }) (omega arith)
  run-attempts (a ∷ more) n m h t =
      ap (λ m'. run decode backoff (attempts more) m')
        (ap
            (λ ss.
              bootstrapped decode n (bootstrap_session a ss) (record m { phase = bootstrapping n }))
            h
          ∙ failed_attempt n (bootstrap_session a []) (record m { phase = bootstrapping n })
              (bootstrap-left_open a) h (both_true t).0)
      ∙ run-attempts more (n + 1) m h (both_true t).1
      ∙ ap (λ k. record m { phase = waiting k }) (omega arith)

  -- If the Next of a session that is not closed, and whose open streams are its own, finds the
  -- stream ended while it waits for it, with nothing queued, then
  -- after any number of attempts that fail for a reason worth another attempt, and one that
  -- succeeds, Next has returned the ResyncEvent with the error that ended the stream. The session
  -- then holds the new stream alone, the mirror of the new snapshot, and the events that the
  -- bootstrap buffered.
  pub run-recovered :
      (m : Machine) (s : Stream) (e : Failure) (failures : List Answers) (a : Answers)
      (boot : BootstrapResult)
      → IsOwned m
      → m.phase ≡ reading s
      → m.session.closed ≡ false
      → m.session.resync ≡ none
      → m.session.pending ≡ []
      → is_stream_closed e ≡ true
      → all is_failed_attempt failures ≡ true
      → (bootstrap_session a []).0 ≡ answers boot
      → run decode backoff
          (at (reads (fails e)) ∷ (attempts failures ++ at elapses ∷ at (bootstraps a) ∷ []))
          m
        ≡ recovered boot e m
  unfolding run
  run-recovered m s e failures a boot o reads_s live no_resync no_pending lost t succeeds =
      ap (λ m'. run decode backoff (attempts failures ++ last) m')
        (lose m s e o reads_s live no_resync no_pending lost)
      ∙ run-append (attempts failures) last (record (lost_at e m) { phase = waiting 1 })
      ∙ ap (run decode backoff last) (run-attempts failures 1 (lost_at e m) refl t)
      ∙ succeed (1 + length failures) e m a boot succeeds
    where
      last : List Step
      last = at elapses ∷ at (bootstraps a) ∷ []
