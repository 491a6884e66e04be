-- ===== src/Client/Connection.antt =====
-- herdr/dial.go: the connection of an exchange, and who closes it. The store of an exchange has the
-- connection that its dialer returned, if any.
use herdr_client.Prelude.{ℕ, suc, Bool, true, false, Option, none, some, if◌then◌else◌}
use herdr_client.Session.Errors.{Failure, foreign}

-- ownedConnection around a connection, with what Close of that one returns and how often it was called
pub record Connection : Type 0 where
  pub once : Bool
  pub close_err : Option Failure
  pub on_close : Option Failure
  pub closes : ℕ

abbrev pub Store : Type 0
Store = Option Connection

abbrev fresh : Option Failure → Connection
fresh on_close = record { once = false; close_err = none; on_close = on_close; closes = 0 }

-- ownedConnection.Close
unfoldable pub close_owned : Connection → Option Failure × Connection
close_owned c =
    if c.once
    then (c.close_err, c)
    else (c.on_close, record c { once = true; close_err = c.on_close; closes = suc c.closes })

abbrev pub close_stored : Store → Store
close_stored none = none
close_stored (some c) = some (close_owned c).1

-- What a dialer and its context do. The context is that of the call, with the timeout for dialing.
pub record Dialing : Type 0 where
  -- ctx.Err() before and after the dialer is called
  pub before : Option Failure
  pub after : Option Failure
  -- the connection that the dialer returns, by what its Close returns, and its error
  pub connection : Option (Option Failure)
  pub error : Option Failure

abbrev no_connection : Failure
no_connection = foreign "herdr: dialer returned no connection and no error"

-- the context's error stands for that of the dialer
abbrev pub first_of : Option Failure → Option Failure → Option Failure
first_of (some e) o = some e
first_of none o = o

-- the connection is closed where it came with an error, and owned otherwise
abbrev pub dialed : Option (Option Failure) → Option Failure → Option Failure × Store
dialed (some on_close) (some e) = (some e, some (record (fresh on_close) { closes = 1 }))
dialed none (some e) = (some e, none)
dialed none none = (some no_connection, none)
dialed (some on_close) none = (none, some (fresh on_close))

abbrev pub dial_from : Option Failure → Dialing → Option Failure × Store
dial_from (some e) d = (some e, none)
dial_from none d = dialed d.connection (first_of d.after d.error)

-- Client.dial: its error, and the store
unfoldable pub dial : Dialing → Option Failure × Store
dial d = dial_from d.before d
