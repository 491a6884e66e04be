-- ===== src/Session/Opening.antt =====
-- herdr/session.go: the session that OpenSession returns.
use herdr_client.Prelude.{◌≡◌, ap, subst, List, [], arith}
use herdr_client.Session.Machine.{
  Answer, answers, fails, Stream, Machine, Answers, BootstrapResult, bootstrap_session, opened,
  open_session,
}
use herdr_client.Session.Ownership.{IsOwned, left_open, bootstrap-left_open}
use herdr_client.Session.Mirror.{HasConsistentMirror, Booted, bootstrap-Booted}

abbrev machine_or : Machine → Answer Machine → Machine
machine_or m (fails e) = m
machine_or m (answers n) = n

abbrev Sound : Machine → Type 0
Sound m = IsOwned m × HasConsistentMirror m

opened-Sound :
    (r : Answer BootstrapResult × List Stream) (m : Machine)
    → r.1 ≡ left_open r.0
    → Booted r.0
    → opened r ≡ answers m
    → Sound m
opened-Sound (fails e, live) m h b o = absurd (ground (arith, o))
opened-Sound (answers boot, live) m h b o = subst Sound (ap (machine_or m) o) (
  record {
    held = h;
    ended = λ c. absurd (ground (arith, c));
    apart = λ r. absurd (ground (arith, r));
  },
  b,
)

-- A session that OpenSession returns has no open connection but its own stream, and a consistent
-- mirror.
pub open_session-Sound :
    (a : Answers) (m : Machine) → open_session a ≡ answers m → IsOwned m × HasConsistentMirror m
unfolding open_session
open_session-Sound a m o =
    opened-Sound (bootstrap_session a []) m (bootstrap-left_open a) (bootstrap-Booted a []) o
