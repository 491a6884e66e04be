-- ===== src/Client/Release.antt =====
-- herdr/client.go, herdr/dial.go: the connection that a dialer leaves, and closing it.
use herdr_client.Prelude.{◌≡◌, refl, ap, suc, Bool, true, false, Option, none, some, if_case, arith}
use herdr_client.Session.Errors.{Failure}
use herdr_client.Session.Machine.{Answer, answers, fails}
use herdr_client.Client.Connection.{
  Connection, Store, close_owned, close_stored, Dialing, dial, dial_from, dialed, first_of,
}
use herdr_client.Client.Exchange.{close_if}

-- the connection was closed, once, or there was none
abbrev pub IsReleased : Store → Type 0
IsReleased none = Unit {0}
IsReleased (some c) = c.closes ≡ 1

-- the connection is there and was not closed
abbrev pub IsHeld : Store → Type 0
IsHeld none = ⊥
IsHeld (some c) = (c.once ≡ false) × (c.closes ≡ 0)

-- a failed call has released its connection, one that succeeded holds it
abbrev pub HasOwner : {A : Type 0} → Answer A × Store → Type 0
HasOwner (fails e, store) = IsReleased store
HasOwner (answers a, store) = IsHeld store

abbrev pub Answered : {A : Type 0} → Answer A → Type 0
Answered (fails e) = ⊥
Answered (answers a) = Unit {0}

-- held, or closed by way of its owner
pub data Owned (c : Connection) : Type 0 where
  held : c.once ≡ false → c.closes ≡ 0 → Owned c
  ended : c.once ≡ true → c.closes ≡ 1 → Owned c

abbrev pub StoresOwned : Store → Type 0
StoresOwned none = Unit {0}
StoresOwned (some c) = Owned c

abbrev Ends : Store → Type 0
Ends none = Unit {0}
Ends (some c) = (c.once ≡ true) × (c.closes ≡ 1)

held-Ends : (c : Connection) → c.once ≡ false → c.closes ≡ 0 → Ends (some (close_owned c).1)
unfolding close_owned
held-Ends c o n =
    if_case {A = Option Failure × Connection} (λ r. Ends (some r.1)) c.once
      (λ t. absurd (ground arith)) (λ f. (refl, ap suc n))

ended-Ends : (c : Connection) → c.once ≡ true → c.closes ≡ 1 → Ends (some (close_owned c).1)
unfolding close_owned
ended-Ends c o n =
    if_case {A = Option Failure × Connection} (λ r. Ends (some r.1)) c.once (λ t. (o, n))
      (λ f. absurd (ground arith))

close_stored-Ends : (s : Store) → StoresOwned s → Ends (close_stored s)
close_stored-Ends none h = tt
close_stored-Ends (some c) (held o n) = held-Ends c o n
close_stored-Ends (some c) (ended o n) = ended-Ends c o n

Ends-IsReleased : (s : Store) → Ends s → IsReleased s
Ends-IsReleased none h = tt
Ends-IsReleased (some c) h = h.1

Ends-StoresOwned : (s : Store) → Ends s → StoresOwned s
Ends-StoresOwned none h = tt
Ends-StoresOwned (some c) h = ended h.0 h.1

pub IsHeld-StoresOwned : (s : Store) → IsHeld s → StoresOwned s
IsHeld-StoresOwned none h = tt
IsHeld-StoresOwned (some c) h = held h.0 h.1

pub released : (s : Store) → StoresOwned s → IsReleased (close_stored s)
released s h = Ends-IsReleased (close_stored s) (close_stored-Ends s h)

-- what dial leaves: nothing open where it fails, a held connection where it does not
abbrev pub Dialed : Option Failure × Store → Type 0
Dialed (some e, store) = IsReleased store
Dialed (none, store) = IsHeld store

dialed-Dialed : (c : Option (Option Failure)) (e : Option Failure) → Dialed (dialed c e)
dialed-Dialed (some on_close) (some e) = refl
dialed-Dialed none (some e) = tt
dialed-Dialed none none = tt
dialed-Dialed (some on_close) none = (refl, refl)

pub dial-Dialed : (d : Dialing) → Dialed (dial d)
unfolding dial
dial-Dialed d = from d.before
  where
    from : (o : Option Failure) → Dialed (dial_from o d)
    from (some e) = tt
    from none = dialed-Dialed d.connection (first_of d.after d.error)

pub close_if-StoresOwned : (b : Bool) (s : Store) → IsHeld s → StoresOwned (close_if b s)
close_if-StoresOwned true s h =
    Ends-StoresOwned (close_stored s) (close_stored-Ends s (IsHeld-StoresOwned s h))
close_if-StoresOwned false s h = IsHeld-StoresOwned s h
