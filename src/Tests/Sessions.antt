-- ===== src/Tests/Sessions.antt =====
-- The theorems on the session at the sample server: its stream ends, one attempt finds no server,
-- and the next one succeeds.
use herdr_client.Prelude.{
  String, suc, ◌≡◌, refl, true, false, none, some, List, [], ◌∷◌, ◌++◌, ◌*◌, ◌^◌, min, all, arith,
}
use herdr_client.Wire.Events.{Event, tab_closed}
use herdr_client.Session.Errors.{stream_closed, foreign, is_stream_closed, is_retryable, has_node}
use herdr_client.Session.Backoff.{
  default_backoff, default_backoff-pow, reconnect_base_delay, reconnect_max_delay,
}
use herdr_client.Session.Machine.{
  RawEvent, Answer, answers, fails, Machine, Answers, BootstrapResult, reading, closes, reads,
  elapses, bootstraps, Step, next, at, run, bootstrap_session, open_session, idle,
}
use herdr_client.Session.Ownership.{IsOwned, run-IsOwned}
use herdr_client.Session.Recover.{is_failed_attempt, attempts, recovered, run-recovered}
use herdr_client.SessionCache.Consistent.{new_session_cache-IsConsistent}
use herdr_client.Session.Opening.{open_session-Sound}
use herdr_client.Session.Mirror.{HasConsistentMirror, run-HasConsistentMirror}
use herdr_client.Session.Stream.{LineStream, Pushed, pushed_error}
use herdr_client.Tests.Samples

default_backoff-pow_example :
    default_backoff (suc 3) ≡ min (reconnect_base_delay * 2 ^ 3) reconnect_max_delay
default_backoff-pow_example = default_backoff-pow 3

abbrev decode : RawEvent → Answer Event
decode raw = answers (tab_closed raw.data_text "w1")

abbrev machine : Machine
machine = record {
  session = record {
    pending = [];
    resync = none;
    cause = none;
    stream = some 1;
    closed = false;
    state = record { cache = Samples.cache };
  };
  phase = reading 1;
  open_streams = 1 ∷ [];
}

abbrev no_server : Answers
no_server = record {
  subscribe = fails (foreign "connection refused");
  buffered = [];
  stream_error = none;
  snapshot = fails (foreign "connection refused");
}

abbrev back : Answers
back = record {
  subscribe = answers 2;
  buffered = record { event = "tab_closed"; data_text = "t2" } ∷ [];
  stream_error = none;
  snapshot = answers Samples.snapshot;
}

abbrev boot : BootstrapResult
boot = record {
  stream = 2;
  cache = Samples.cache;
  buffered = record { event = "tab_closed"; data_text = "t2" } ∷ [];
}

machine-IsOwned : IsOwned machine
machine-IsOwned = record {
  held = refl;
  ended = λ c. absurd (ground (arith, c));
  apart = λ r. absurd (ground (arith, r));
}

abbrev steps : List Step
steps = at (reads (fails stream_closed)) ∷ at elapses ∷ at closes ∷ at (bootstraps back) ∷ next ∷ []

run-IsOwned_example : IsOwned (run decode default_backoff steps machine)
run-IsOwned_example = run-IsOwned decode default_backoff steps machine machine-IsOwned

closed-ends : is_stream_closed stream_closed ≡ true
unfolding has_node
closed-ends = refl

no_server-fails : all is_failed_attempt (no_server ∷ []) ≡ true
unfolding bootstrap_session is_retryable has_node
no_server-fails = refl

back-succeeds : (bootstrap_session back []).0 ≡ answers boot
unfolding bootstrap_session
back-succeeds = refl

run-recovered_example :
    run decode default_backoff
      (at (reads (fails stream_closed))
        ∷ (attempts (no_server ∷ []) ++ at elapses ∷ at (bootstraps back) ∷ []))
      machine
    ≡ recovered boot stream_closed machine
run-recovered_example =
    run-recovered decode default_backoff machine 1 stream_closed (no_server ∷ []) back boot
      machine-IsOwned refl refl refl refl closed-ends no_server-fails back-succeeds

run-HasConsistentMirror_example : HasConsistentMirror (run decode default_backoff steps machine)
run-HasConsistentMirror_example =
    run-HasConsistentMirror decode default_backoff steps machine
      (new_session_cache-IsConsistent Samples.snapshot)

abbrev decode_line : String → Pushed
decode_line line_text = pushed_error "events_lost" line_text

abbrev line_stream : LineStream
line_stream = record { method = "events.subscribe"; closed = false; read_err = none }

abbrev fresh_machine : Machine
fresh_machine = record {
  session = record {
    pending = record { event = "tab_closed"; data_text = "t2" } ∷ [];
    resync = none;
    cause = none;
    stream = some 2;
    closed = false;
    state = record { cache = Samples.cache };
  };
  phase = idle;
  open_streams = 2 ∷ [];
}

back-opens : open_session back ≡ answers fresh_machine
unfolding open_session bootstrap_session
back-opens = refl

open_session-Sound_example : IsOwned fresh_machine × HasConsistentMirror fresh_machine
open_session-Sound_example = open_session-Sound back fresh_machine back-opens
