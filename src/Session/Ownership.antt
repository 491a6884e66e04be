-- ===== src/Session/Ownership.antt =====
-- herdr/session.go: who closes a stream. Every connection that is open is the one that the session
-- holds.
use herdr_client.Prelude.{
  ℕ, ◌≡◌, refl, ◌∙◌, sym, ap, Bool, true, false, not, Option, subst, none, some, List, [], ◌∷◌, eqb,
  arith, if_case,
}
use herdr_client.Wire.{SessionSnapshot}
use herdr_client.Wire.Events.{Event}
use herdr_client.Session.Errors.{Failure, is_stream_closed, is_retryable}
use herdr_client.Session.Machine.{
  RawEvent, Answer, answers, fails, Stream, Phase, returned, idle, reading, waiting, bootstrapping,
  Machine, Answers, BootstrapResult, Moment, closes, cancels, sees_done, elapses, reads, bootstraps,
  close_stream, without_stream, with_bootstrap, close_optional, bootstrap_session, close, deliver,
  deliver_decoded, look, look_stream, look_pending, look_resync, without_stream, with_bootstrap,
  read_answer, install, bootstrapped, resume, call_next, Step, next, at, step, run, subscribed,
}

abbrev pub held_by : Option Stream → List Stream
held_by none = []
held_by (some s) = s ∷ []

-- Next is waiting for the time or the server, without a stream
abbrev pub reconnecting : Phase → Bool
reconnecting (waiting n) = true
reconnecting (bootstrapping n) = true
reconnecting _ = false

-- The open streams are the one that the session holds, or none; a closed session and one that is
-- reconnecting hold none.
pub record IsOwned (m : Machine) : Type 0 where
  pub held : m.open_streams ≡ held_by m.session.stream
  pub ended : m.session.closed ≡ true → m.session.stream ≡ none
  pub apart : reconnecting m.phase ≡ true → m.session.stream ≡ none

close_stream_self : (s : Stream) → close_stream s (s ∷ []) ≡ []
unfolding close_stream
close_stream_self s = ground arith

pub close_optional-held : (o : Option Stream) → close_optional o (held_by o) ≡ []
close_optional-held none = refl
close_optional-held (some s) = close_stream_self s

abbrev pub left_open : Answer BootstrapResult → List Stream
left_open (fails e) = []
left_open (answers boot) = boot.stream ∷ []

abbrev opened :
    Answer Stream
    → Answers
    → Answer SessionSnapshot
    → Option Failure
    → Answer BootstrapResult × List Stream
opened s a n e = subscribed s (record a { snapshot = n; stream_error = e }) []

-- A bootstrap leaves its own stream open if it succeeds, and none if it fails.
pub bootstrap-left_open :
    (a : Answers) → (bootstrap_session a []).1 ≡ left_open (bootstrap_session a []).0
unfolding bootstrap_session
bootstrap-left_open a = go a.subscribe a.snapshot a.stream_error
  where
    go :
        (s : Answer Stream) (n : Answer SessionSnapshot) (e : Option Failure)
        → (opened s a n e).1 ≡ left_open (opened s a n e).0
    go (fails e) n o = refl
    go (answers s) (fails e) o = close_stream_self s
    go (answers s) (answers n) (some e) = close_stream_self s
    go (answers s) (answers n) none = refl

module _ (decode : RawEvent → Answer Event) where
  deliver-IsOwned :
      (raw : RawEvent) (m : Machine)
      → m.open_streams ≡ held_by m.session.stream
      → (m.session.closed ≡ true → m.session.stream ≡ none)
      → IsOwned (deliver decode raw m)
  unfolding deliver
  deliver-IsOwned raw m h e = go (decode raw)
    where
      go : (a : Answer Event) → IsOwned (deliver_decoded decode a m)
      go (fails x) = record { held = h; ended = e; apart = λ r. ground arith }
      go (answers x) = record { held = h; ended = e; apart = λ r. ground arith }

  look-IsOwned :
      (m : Machine)
      → m.open_streams ≡ held_by m.session.stream
      → (m.session.closed ≡ true → m.session.stream ≡ none)
      → IsOwned (look decode m)
  unfolding look
  look-IsOwned m h e = on_resync m.session.resync
    where
      on_stream : (o : Option Stream) → m.session.stream ≡ o → IsOwned (look_stream decode o m)
      on_stream (some s) k = record { held = h; ended = e; apart = λ r. ground arith }
      on_stream none k =
          if_case IsOwned m.session.closed
            (λ closed. record { held = h; ended = e; apart = λ r. ground arith })
            (λ live. record { held = h; ended = e; apart = λ r. k })

      on_pending : (rs : List RawEvent) → IsOwned (look_pending decode rs m)
      on_pending (raw ∷ rest) = deliver-IsOwned raw _ h e
      on_pending [] = on_stream m.session.stream refl

      on_resync : (o : Option Failure) → IsOwned (look_resync decode o m)
      on_resync (some c) = record { held = h; ended = e; apart = λ r. ground arith }
      on_resync none = on_pending m.session.pending

  read-IsOwned : (a : Answer RawEvent) (m : Machine) → IsOwned m → IsOwned (read_answer decode a m)
  unfolding read_answer
  read-IsOwned (answers raw) m o = deliver-IsOwned raw m o.held o.ended
  read-IsOwned (fails e) m o =
      if_case IsOwned (not (is_stream_closed e))
        (λ other. record { held = o.held; ended = o.ended; apart = λ r. ground arith })
        (λ lost.
          if_case IsOwned m.session.closed
            (λ closed. record { held = o.held; ended = o.ended; apart = λ r. ground arith })
            (λ live.
              look-IsOwned (without_stream e m)
                (ap (close_optional m.session.stream) o.held ∙ close_optional-held m.session.stream)
                (λ c. refl)))

  install-IsOwned :
      (boot : BootstrapResult) (m : Machine)
      → m.open_streams ≡ boot.stream ∷ []
      → m.session.stream ≡ none
      → IsOwned (install decode boot m)
  unfolding install
  install-IsOwned boot m h k =
      if_case IsOwned m.session.closed
        (λ closed. record {
          held =
              ap (close_stream boot.stream) h ∙ close_stream_self boot.stream ∙ ap held_by (sym k);
          ended = λ c. k;
          apart = λ r. k;
        })
        (λ live. look-IsOwned (with_bootstrap boot m) h (λ c. absurd (ground (arith, live, c))))

  bootstrapped-IsOwned :
      (n : ℕ) (r : Answer BootstrapResult × List Stream) (m : Machine)
      → r.1 ≡ left_open r.0
      → m.session.stream ≡ none
      → IsOwned (bootstrapped decode n r m)
  unfolding bootstrapped
  bootstrapped-IsOwned n (answers boot, live) m h k =
      install-IsOwned boot (record m { open_streams = live }) h k
  bootstrapped-IsOwned n (fails e, live) m h k =
      if_case IsOwned (is_retryable e)
        (λ again. record { held = h ∙ ap held_by (sym k); ended = λ c. k; apart = λ r. k })
        (λ stops. record { held = h ∙ ap held_by (sym k); ended = λ c. k; apart = λ r. k })

  close-IsOwned : (m : Machine) → IsOwned m → IsOwned (close m)
  unfolding close
  close-IsOwned m o =
      if_case IsOwned m.session.closed (λ closed. o)
        (λ live. record {
          held = ap (close_optional m.session.stream) o.held ∙ close_optional-held m.session.stream;
          ended = λ c. refl;
          apart = λ r. refl;
        })

  module _ (backoff : ℕ → ℕ) where
    resume-IsOwned :
        (phase : Phase) (moment : Moment) (m : Machine)
        → m.phase ≡ phase
        → IsOwned m
        → IsOwned (resume decode backoff phase moment m)
    unfolding resume
    resume-IsOwned phase closes m e o = close-IsOwned m o
    resume-IsOwned (reading s) (reads a) m e o = read-IsOwned a m o
    resume-IsOwned (waiting n) (cancels x) m e o = record {
      held = o.held;
      ended = o.ended;
      apart = λ r. ground arith;
    }
    resume-IsOwned (waiting n) sees_done m e o =
        if_case IsOwned m.session.closed
          (λ closed.
            if_case IsOwned (eqb (backoff n) 0) (λ zero_delay. o)
              (λ waits. record { held = o.held; ended = o.ended; apart = λ r. ground arith }))
          (λ live. o)
    resume-IsOwned (waiting n) elapses m e o = record {
      held = o.held;
      ended = o.ended;
      apart = λ r. o.apart (ap reconnecting e);
    }
    resume-IsOwned (bootstrapping n) (bootstraps a) m e o =
        bootstrapped-IsOwned n (bootstrap_session a m.open_streams) m
          (subst (λ live. (bootstrap_session a live).1 ≡ left_open (bootstrap_session a live).0)
            (sym (o.held ∙ ap held_by (o.apart (ap reconnecting e)))) (bootstrap-left_open a))
          (o.apart (ap reconnecting e))
    resume-IsOwned phase moment m e o = o

    step-IsOwned : (s : Step) (m : Machine) → IsOwned m → IsOwned (step decode backoff s m)
    unfolding step call_next
    step-IsOwned (at moment) m o = resume-IsOwned m.phase moment m refl o
    step-IsOwned next m o = called m.phase
      where
        called : (phase : Phase) → IsOwned (call_next decode backoff phase m)
        called idle = look-IsOwned m o.held o.ended
        called (returned r) = look-IsOwned m o.held o.ended
        called phase = o

    -- If it is so at the start, then whatever Next and Close do and whatever the outside answers,
    -- in any order, the open connections are the one that the session holds or none, and a session
    -- that is closed or that reconnects holds none.
    pub run-IsOwned : (ss : List Step) (m : Machine) → IsOwned m → IsOwned (run decode backoff ss m)
    unfolding run
    run-IsOwned [] m o = o
    run-IsOwned (s ∷ ss) m o = run-IsOwned ss _ (step-IsOwned s m o)
