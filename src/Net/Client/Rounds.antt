-- ===== src/Net/Client/Rounds.antt =====
-- Why two rounds are enough: the round behind one that goes on has a connection of its own.
use Prim.Native.String.{String}
use optimusprime.Prelude.{ℕ, ◌≡◌, refl, arith, Bool, true, false, Option, none, some, [], ◌-◌}
use optimusprime.Prelude.Text.{Bytes}
use optimusprime.Prelude.Map.{string_eq, lookup-delete}
use optimusprime.Net.Stream.{IoError}
use optimusprime.Net.Client.{
  ClientConn, Clients, Attempt, Dial, dialled, dial_fails, keep_alive_fails, Reply, done,
  fails_at_once, fails_late, Got, Verdict, again, leave, close_conn, connections_of,
  close_client_tcp_connection, new_client_tcp_connection, fails, fails_if, receive_reply, exchange,
  with_deadline, use_connection, try_once, retry, take_or_connect, connect_server,
  max_bad_conn_retries,
}
use optimusprime.Net.Client.Limit.{HasMap, HasMap-kept}
use optimusprime.Net.Client.Keep.{new_client_keeps}

pub closed_is_empty :
    (addr : String) (st : Clients)
    → HasMap st
    → connections_of addr (close_client_tcp_connection addr st) ≡ []
unfolding connections_of close_client_tcp_connection
closed_is_empty addr st h =
    ground (arith, lookup-delete addr addr st.pool h, string_eq.beq_iff addr addr)

-- A round that goes on leaves the pool of the address empty.
abbrev EmptiesIfAgain : String → Verdict × Clients → Type 0
EmptiesIfAgain addr (again c e, st) = connections_of addr st ≡ []
EmptiesIfAgain addr (leave c res e, st) = Unit

fails_empties :
    (b : Bool) (addr : String) (c : ClientConn) (e : IoError) (st : Clients)
    → HasMap st
    → EmptiesIfAgain addr (fails_if b addr c e st)
unfolding fails_if
fails_empties true addr c e st h = closed_is_empty addr st h
fails_empties false addr c e st h = tt

receive_empties :
    (addr : String) (c : ClientConn) (o : Reply Bytes) (st : Clients)
    → HasMap st
    → EmptiesIfAgain addr (receive_reply addr c o st)
unfolding receive_reply fails close_conn
receive_empties addr c (done bs) st h = tt
receive_empties addr c (fails_at_once e) st h =
    fails_empties c.is_old_conn addr c e (close_conn c st) h
receive_empties addr c (fails_late e) st h = tt

deadline_empties :
    (addr : String) (c : ClientConn) (a : Attempt) (d : Option IoError) (o : Reply (Unit {0}))
    (st : Clients)
    → a.sending ≡ o
    → HasMap st
    → EmptiesIfAgain addr (with_deadline addr c a d st)
unfolding with_deadline exchange fails close_conn
deadline_empties addr c a (some e) o st sends h = fails_empties c.is_old_conn addr c e st h
deadline_empties addr c a none (done _) st sends h =
    rw (sends, exchange) (receive_empties addr c a.receiving st h)
deadline_empties addr c a none (fails_at_once e) st sends h =
    rw (sends, exchange) (fails_empties c.is_old_conn addr c e (close_conn c st) h)
deadline_empties addr c a none (fails_late e) st sends h = rw (sends, exchange) tt

use_empties :
    (addr : String) (a : Attempt) (g : Got)
    → HasMap g.2
    → EmptiesIfAgain addr (use_connection addr a g)
unfolding use_connection
use_empties addr a (some c, none, st) h = deadline_empties addr c a a.deadline a.sending st refl h
use_empties addr a (some c, some e, st) h = tt
use_empties addr a (none, some e, st) h = tt
use_empties addr a (none, none, st) h = tt

try_empties :
    (addr : String) (a : Attempt) (st : Clients)
    → HasMap st
    → EmptiesIfAgain addr (try_once addr a st)
unfolding try_once
try_empties addr a st h =
    use_empties addr a (new_client_tcp_connection addr a.dial st)
      (new_client_keeps HasMap HasMap-kept addr a.dial st h)

abbrev pub HasLeft : Verdict × Clients → Type 0
HasLeft (again c e, st) = ⊥
HasLeft (leave c res e, st) = Unit

-- A connection that is not from the pool: its errors leave the loop.
new_fails :
    (b : Bool) (addr : String) (c : ClientConn) (e : IoError) (st : Clients)
    → b ≡ false
    → HasLeft (fails_if b addr c e st)
unfolding fails_if
new_fails true addr c e st new = ground arith
new_fails false addr c e st new = tt

new_receives :
    (addr : String) (c : ClientConn) (o : Reply Bytes) (st : Clients)
    → c.is_old_conn ≡ false
    → HasLeft (receive_reply addr c o st)
unfolding receive_reply fails
new_receives addr c (done bs) st new = tt
new_receives addr c (fails_at_once e) st new =
    new_fails c.is_old_conn addr c e (close_conn c st) new
new_receives addr c (fails_late e) st new = tt

new_exchanges :
    (addr : String) (c : ClientConn) (a : Attempt) (o : Reply (Unit {0})) (st : Clients)
    → c.is_old_conn ≡ false
    → HasLeft (exchange addr c a o st)
unfolding exchange fails
new_exchanges addr c a (done _) st new = new_receives addr c a.receiving st new
new_exchanges addr c a (fails_at_once e) st new =
    new_fails c.is_old_conn addr c e (close_conn c st) new
new_exchanges addr c a (fails_late e) st new = tt

new_leaves :
    (addr : String) (c : ClientConn) (a : Attempt) (d : Option IoError) (st : Clients)
    → c.is_old_conn ≡ false
    → HasLeft (with_deadline addr c a d st)
unfolding with_deadline fails
new_leaves addr c a (some e) st new = new_fails c.is_old_conn addr c e st new
new_leaves addr c a none st new = new_exchanges addr c a a.sending st new

dialled_leaves :
    (addr : String) (a : Attempt) (d : Dial) (st : Clients)
    → HasLeft (use_connection addr a (connect_server d st))
unfolding use_connection connect_server
dialled_leaves addr a dialled st = new_leaves addr _ a a.deadline _ refl
dialled_leaves addr a (keep_alive_fails e) st = tt
dialled_leaves addr a (dial_fails e) st = tt

empty_leaves :
    (addr : String) (a : Attempt) (st : Clients)
    → connections_of addr st ≡ []
    → HasLeft (try_once addr a st)
unfolding try_once new_client_tcp_connection take_or_connect
empty_leaves addr a st none_left = rw none_left (dialled_leaves addr a a.dial st)

next_leaves :
    (addr : String) (round : ℕ → Attempt) (v : Verdict × Clients)
    → EmptiesIfAgain addr v
    → HasLeft (retry addr round 1 v)
unfolding retry
next_leaves addr round (again c e, st) none_left = empty_leaves addr (round 0) st none_left
next_leaves addr round (leave c res e, st) h = tt

-- The two rounds of the loop of sendClientRequest are enough: if no address stands in the pool twice,
-- then whatever the rounds meet, the loop is left by a `break` and not by its count. A first round
-- that goes on has emptied the pool of the address, so the second one dials, and an error on the new
-- connection leaves the loop.
pub retry_leaves :
    (addr : String) (round : ℕ → Attempt) (st : Clients)
    → HasMap st
    → HasLeft (retry addr round (max_bad_conn_retries - 1) (try_once addr (round 1) st))
retry_leaves addr round st h =
    next_leaves addr round (try_once addr (round 1) st) (try_empties addr (round 1) st h)
