-- ===== src/Session/Mirror.antt =====
-- herdr/session.go: the mirror that the accessors of a Session read.
use herdr_client.Prelude.{ℕ, Option, none, some, List, [], ◌∷◌, eqb, not, if_case}
use herdr_client.Wire.{SessionSnapshot}
use herdr_client.Wire.Events.{Event}
use herdr_client.SessionState
use herdr_client.SessionState.{replace}
use herdr_client.SessionCache.Consistent.{IsConsistent, new_session_cache-IsConsistent}
use herdr_client.SessionCache.Invariant.{apply-IsConsistent}
use herdr_client.Session.Errors.{Failure, is_stream_closed, is_retryable}
use herdr_client.Session.Machine.{
  RawEvent, Answer, answers, fails, Stream, Phase, returned, idle, reading, waiting, bootstrapping,
  Machine, Answers, BootstrapResult, Moment, closes, cancels, sees_done, elapses, reads, bootstraps,
  bootstrap_session, subscribed, close, deliver, deliver_decoded, look, look_stream, look_pending,
  look_resync, without_stream, with_bootstrap, read_answer, install, bootstrapped, resume,
  call_next, Step, next, at, step, run,
}

abbrev pub HasConsistentMirror : Machine → Type 0
HasConsistentMirror m = IsConsistent m.session.state.cache

abbrev pub Booted : Answer BootstrapResult → Type 0
Booted (fails e) = Unit {0}
Booted (answers boot) = IsConsistent boot.cache

pub bootstrap-Booted : (a : Answers) (live : List Stream) → Booted (bootstrap_session a live).0
unfolding bootstrap_session
bootstrap-Booted a live = go a.subscribe a.snapshot a.stream_error
  where
    go :
        (s : Answer Stream) (n : Answer SessionSnapshot) (e : Option Failure)
        → Booted (subscribed s (record a { snapshot = n; stream_error = e }) live).0
    go (fails e) n o = tt
    go (answers s) (fails e) o = tt
    go (answers s) (answers n) (some e) = tt
    go (answers s) (answers n) none = new_session_cache-IsConsistent n

module _ (decode : RawEvent → Answer Event) where
  deliver-mirror :
      (raw : RawEvent) (m : Machine)
      → HasConsistentMirror m
      → HasConsistentMirror (deliver decode raw m)
  unfolding deliver SessionState.apply
  deliver-mirror raw m h = go (decode raw)
    where
      go : (a : Answer Event) → HasConsistentMirror (deliver_decoded decode a m)
      go (fails e) = h
      go (answers event) = apply-IsConsistent event h

  look-mirror : (m : Machine) → HasConsistentMirror m → HasConsistentMirror (look decode m)
  unfolding look
  look-mirror m h = on_resync m.session.resync
    where
      on_stream : (o : Option Stream) → HasConsistentMirror (look_stream decode o m)
      on_stream (some s) = h
      on_stream none = if_case HasConsistentMirror m.session.closed (λ c. h) (λ l. h)

      on_pending : (rs : List RawEvent) → HasConsistentMirror (look_pending decode rs m)
      on_pending (raw ∷ rest) =
          deliver-mirror raw (record m { session = record m.session { pending = rest } }) h
      on_pending [] = on_stream m.session.stream

      on_resync : (o : Option Failure) → HasConsistentMirror (look_resync decode o m)
      on_resync (some c) = h
      on_resync none = on_pending m.session.pending

  read-mirror :
      (a : Answer RawEvent) (m : Machine)
      → HasConsistentMirror m
      → HasConsistentMirror (read_answer decode a m)
  unfolding read_answer
  read-mirror (answers raw) m h = deliver-mirror raw m h
  read-mirror (fails e) m h =
      if_case HasConsistentMirror (not (is_stream_closed e)) (λ other. h)
        (λ lost.
          if_case HasConsistentMirror m.session.closed (λ c. h)
            (λ l. look-mirror (without_stream e m) h))

  bootstrapped-mirror :
      (n : ℕ) (r : Answer BootstrapResult × List Stream) (m : Machine)
      → Booted r.0
      → HasConsistentMirror m
      → HasConsistentMirror (bootstrapped decode n r m)
  unfolding bootstrapped install replace
  bootstrapped-mirror n (fails e, live) m b h =
      if_case HasConsistentMirror (is_retryable e) (λ again. h) (λ stops. h)
  bootstrapped-mirror n (answers boot, live) m b h =
      if_case HasConsistentMirror m.session.closed (λ c. h)
        (λ l. look-mirror (with_bootstrap boot (record m { open_streams = live })) b)

  close-mirror : (m : Machine) → HasConsistentMirror m → HasConsistentMirror (close m)
  unfolding close
  close-mirror m h = if_case HasConsistentMirror m.session.closed (λ c. h) (λ l. h)

  module _ (backoff : ℕ → ℕ) where
    resume-mirror :
        (phase : Phase) (moment : Moment) (m : Machine)
        → HasConsistentMirror m
        → HasConsistentMirror (resume decode backoff phase moment m)
    unfolding resume
    resume-mirror phase closes m h = close-mirror m h
    resume-mirror (reading s) (reads a) m h = read-mirror a m h
    resume-mirror (waiting n) (cancels e) m h = h
    resume-mirror (waiting n) sees_done m h =
        if_case HasConsistentMirror m.session.closed
          (λ c. if_case HasConsistentMirror (eqb (backoff n) 0) (λ z. h) (λ w. h)) (λ l. h)
    resume-mirror (waiting n) elapses m h = h
    resume-mirror (bootstrapping n) (bootstraps a) m h =
        bootstrapped-mirror n (bootstrap_session a m.open_streams) m
          (bootstrap-Booted a m.open_streams) h
    resume-mirror phase moment m h = h

    step-mirror :
        (s : Step) (m : Machine)
        → HasConsistentMirror m
        → HasConsistentMirror (step decode backoff s m)
    unfolding step call_next
    step-mirror (at moment) m h = resume-mirror m.phase moment m h
    step-mirror next m h = called m.phase
      where
        called : (phase : Phase) → HasConsistentMirror (call_next decode backoff phase m)
        called idle = look-mirror m h
        called (returned r) = look-mirror m h
        called phase = h

    -- A session whose mirror is consistent keeps a consistent one, whatever Next and Close do and
    -- whatever the outside answers, in any order.
    pub run-HasConsistentMirror :
        (ss : List Step) (m : Machine)
        → HasConsistentMirror m
        → HasConsistentMirror (run decode backoff ss m)
    unfolding run
    run-HasConsistentMirror [] m h = h
    run-HasConsistentMirror (s ∷ ss) m h =
        run-HasConsistentMirror ss (step decode backoff s m) (step-mirror s m h)
