-- ===== src/Session/Machine.antt =====
-- herdr/session.go and herdr/session_bootstrap.go: a Session and one call of Next as a machine.
-- Next stops where it waits for the outside: for the stream (`reading`), for the time between two
-- attempts (`waiting`) and for a bootstrap (`bootstrapping`); what ends such a wait is a `Moment`,
-- and so is a call of Close, which can come at any of them. The code between two waits is one step:
-- it takes the stream lock for one field at a time, and a Close that falls in between does to the
-- session what a Close at the wait before or behind does. A stream is the number that
-- `open_streams`, the streams whose connection is open, knows it by. `decode`, a parameter, is
-- DecodeEvent, and `backoff` is the configured delay. The error that closing a connection may give
-- is not modelled.
use herdr_client.Prelude.{
  ℕ, ◌+◌, String, Bool, true, false, not, Option, none, some, List, [], ◌∷◌, eqb, value_or,
  if◌then◌else◌,
}
use herdr_client.Wire.{SessionSnapshot}
use herdr_client.Wire.Events.{Event}
use herdr_client.SessionCache.State.{SessionCache, new_session_cache}
use herdr_client.SessionState
use herdr_client.SessionState.{SessionState}
use herdr_client.Session.Errors.{
  Failure, stream_closed, op_error, op_decode, is_stream_closed, is_retryable,
}

-- RawEvent: the name and the data of a pushed line
pub record RawEvent : Type 0 where
  pub event : String
  pub data_text : String

pub data Answer (A : Type 0) : Type 0 where
  answers : A → Answer A
  fails : Failure → Answer A

abbrev pub Stream : Type 0
Stream = ℕ

pub record Session : Type 0 where
  pub pending : List RawEvent
  -- the ResyncEvent that is not delivered yet, by its cause
  pub resync : Option Failure
  pub cause : Option Failure
  pub stream : Option Stream
  pub closed : Bool
  pub state : SessionState

pub data Returned : Type 0 where
  delivered : Event → Returned
  resynced : Failure → Returned
  failed : Failure → Returned

pub data Phase : Type 0 where
  -- no call of Next is running, and what the last one returned
  returned : Returned → Phase
  idle : Phase
  reading : Stream → Phase
  -- the attempts are counted from 1
  waiting bootstrapping : ℕ → Phase

pub record Machine : Type 0 where
  pub session : Session
  pub phase : Phase
  pub open_streams : List Stream

-- What a bootstrap is answered: Subscribe, what the collector buffered and the error that ended it
-- before it was stopped, and SessionSnapshot.
pub record Answers : Type 0 where
  pub subscribe : Answer Stream
  pub buffered : List RawEvent
  pub stream_error : Option Failure
  pub snapshot : Answer SessionSnapshot

pub record BootstrapResult : Type 0 where
  pub stream : Stream
  pub cache : SessionCache
  pub buffered : List RawEvent

pub data Moment : Type 0 where
  closes : Moment
  -- the context of the call is done, with this error, in `wait`
  cancels : Failure → Moment
  -- `wait` sees that the session is closed
  sees_done : Moment
  -- the delay is over, or there was none
  elapses : Moment
  -- the answer of the stream's Next, a canceled context included
  reads : Answer RawEvent → Moment
  bootstraps : Answers → Moment

unfoldable pub close_stream : Stream → List Stream → List Stream
close_stream s [] = []
close_stream s (t ∷ ts) = let rest = close_stream s ts in if eqb t s then rest else t ∷ rest

abbrev pub close_optional : Option Stream → List Stream → List Stream
close_optional none live = live
close_optional (some s) live = close_stream s live

abbrev pub finish_bootstrap :
    Stream
    → Answers
    → Answer SessionSnapshot
    → Option Failure
    → List Stream
    → Answer BootstrapResult × List Stream
finish_bootstrap s a (fails e) stream_error live = (fails e, close_stream s live)
finish_bootstrap s a (answers snapshot) (some e) live = (fails e, close_stream s live)
finish_bootstrap s a (answers snapshot) none live = (
  answers (record { stream = s; cache = new_session_cache snapshot; buffered = a.buffered }),
  live,
)

-- bootstrapSession: subscribe, collect, take the snapshot; the stream is closed again on an error
abbrev pub subscribed : Answer Stream → Answers → List Stream → Answer BootstrapResult × List Stream
subscribed (fails e) a live = (fails e, live)
subscribed (answers s) a live = finish_bootstrap s a a.snapshot a.stream_error (s ∷ live)

unfoldable pub bootstrap_session : Answers → List Stream → Answer BootstrapResult × List Stream
unfolding close_stream
bootstrap_session a live = subscribed a.subscribe a live

unfoldable pub close : Machine → Machine
unfolding close_stream
close m = if m.session.closed then m else record m {
  session = record m.session { closed = true; stream = none };
  open_streams = close_optional m.session.stream m.open_streams;
}

abbrev pub returns : Returned → Machine → Machine
returns r m = record m { phase = returned r }

pub data Step : Type 0 where
  next : Step
  at : Moment → Step

-- the stream has ended: drop it and keep the reason
abbrev pub without_stream : Failure → Machine → Machine
without_stream e m = record m {
  session = record m.session { cause = some e; stream = none };
  open_streams = close_optional m.session.stream m.open_streams;
}

-- what install and reconnect leave of a session that is not closed
abbrev pub with_bootstrap : BootstrapResult → Machine → Machine
with_bootstrap boot m = record m {
  session = record m.session {
    pending = boot.buffered;
    resync = some (value_or stream_closed m.session.cause);
    cause = none;
    stream = some boot.stream;
    state = SessionState.replace boot.cache m.session.state;
  };
}

module _ (decode : RawEvent → Answer Event) where
  abbrev pub deliver_decoded : Answer Event → Machine → Machine
  deliver_decoded (fails e) m = returns (failed (op_error "events.subscribe" op_decode e)) m
  deliver_decoded (answers event) m =
      returns (delivered event) (record m {
        session = record m.session { state = SessionState.apply event m.session.state };
      })

  unfoldable pub deliver : RawEvent → Machine → Machine
  deliver raw m = deliver_decoded (decode raw) m

  abbrev pub look_stream : Option Stream → Machine → Machine
  look_stream (some s) m = record m { phase = reading s }
  look_stream none m =
      if m.session.closed then returns (failed stream_closed) m else record m { phase = waiting 1 }

  abbrev pub look_pending : List RawEvent → Machine → Machine
  look_pending (raw ∷ rest) m =
      deliver raw (record m { session = record m.session { pending = rest } })
  look_pending [] m = look_stream m.session.stream m

  abbrev pub look_resync : Option Failure → Machine → Machine
  look_resync (some cause) m =
      returns (resynced cause) (record m { session = record m.session { resync = none } })
  look_resync none m = look_pending m.session.pending m

  -- a turn of the loop of Next, up to where it returns or waits; a call of Next starts with one
  unfoldable pub look : Machine → Machine
  unfolding deliver
  look m = look_resync m.session.resync m

  unfoldable pub read_answer : Answer RawEvent → Machine → Machine
  unfolding deliver look close_stream
  read_answer (answers raw) m = deliver raw m
  read_answer (fails e) m =
      if not (is_stream_closed e)
      then returns (failed e) m
      else if m.session.closed
      then returns (failed stream_closed) m
      else look (without_stream e m)

  unfoldable pub install : BootstrapResult → Machine → Machine
  unfolding look close_stream
  install boot m =
      if m.session.closed
      then returns (failed stream_closed)
          (record m { open_streams = close_stream boot.stream m.open_streams })
      else look (with_bootstrap boot m)

  unfoldable pub bootstrapped : ℕ → Answer BootstrapResult × List Stream → Machine → Machine
  unfolding install
  bootstrapped attempt (fails e, live) m =
      if is_retryable e
      then record m { phase = waiting (attempt + 1); open_streams = live }
      else returns (failed e) (record m { open_streams = live })
  bootstrapped attempt (answers boot, live) m = install boot (record m { open_streams = live })

  module _ (backoff : ℕ → ℕ) where
    -- what ends a wait of Next; a moment that is none of its phase changes nothing
    unfoldable pub resume : Phase → Moment → Machine → Machine
    unfolding close read_answer bootstrapped bootstrap_session
    resume phase closes m = close m
    resume (reading s) (reads a) m = read_answer a m
    resume (waiting attempt) (cancels e) m = returns (failed e) m
    resume (waiting attempt) sees_done m =
        if m.session.closed
        then if eqb (backoff attempt) 0 then m else returns (failed stream_closed) m
        else m
    resume (waiting attempt) elapses m = record m { phase = bootstrapping attempt }
    resume (bootstrapping attempt) (bootstraps a) m =
        bootstrapped attempt (bootstrap_session a m.open_streams) m
    resume phase moment m = m

    -- a call of Next, which another call keeps out until it has returned
    unfoldable pub call_next : Phase → Machine → Machine
    unfolding look
    call_next idle m = look m
    call_next (returned r) m = look m
    call_next phase m = m

    unfoldable pub step : Step → Machine → Machine
    unfolding resume call_next
    step next m = call_next m.phase m
    step (at moment) m = resume m.phase moment m

    unfoldable pub run : List Step → Machine → Machine
    unfolding step
    run [] m = m
    run (s ∷ ss) m = run ss (step s m)

abbrev pub opened : Answer BootstrapResult × List Stream → Answer Machine
opened (fails e, live) = fails e
opened (answers boot, live) = answers (record {
  session = record {
    pending = boot.buffered;
    resync = none;
    cause = none;
    stream = some boot.stream;
    closed = false;
    state = record { cache = boot.cache };
  };
  phase = idle;
  open_streams = live;
})

-- OpenSession: the answers of the first bootstrap
unfoldable pub open_session : Answers → Answer Machine
unfolding bootstrap_session
open_session a = opened (bootstrap_session a [])
