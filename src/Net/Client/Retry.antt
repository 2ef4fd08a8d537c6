-- ===== src/Net/Client/Retry.antt =====
-- The loop of a request: what its rounds and its end do to the connections.
use Prim.Native.String.{String}
use optimusprime.Prelude.{ℕ, zero, suc, ◌≡◌, Bool, true, false, none, some, sym}
use mathlib.Core.Path.{subst}
use optimusprime.Prelude.Text.{Bytes}
use optimusprime.Prelude.Map.{string_eq}
use optimusprime.Net.Stream.{IoError}
use optimusprime.Net.Client.{
  ClientConn, Clients, Attempt, Reply, done, fails_at_once, fails_late, Got, Verdict, again, leave,
  close_conn, new_client_tcp_connection, fails, fails_if, receive_reply, exchange, with_deadline,
  use_connection, try_once, retry, finish, send_client_request,
}
use optimusprime.Net.Client.Account.{
  IsAccounted, IsAccountedBut, close_conn-IsAccounted, closed_stays, close_conn_closes,
  close_client_stays, close_again-IsAccounted, free-IsAccounted, close_client-IsAccounted,
  GotIsAccounted, new_client-IsAccounted, closed_count,
}

abbrev VerdictIsAccounted : Verdict × Clients → Type 0
VerdictIsAccounted (again c e, st) = IsAccounted st × (closed_count c.id st.closed ≡ 1)
VerdictIsAccounted (leave (some c) res none, st) = IsAccountedBut c st
VerdictIsAccounted (leave (some c) res (some e), st) = IsAccounted (close_conn c st)
VerdictIsAccounted (leave none res e, st) = IsAccounted st

-- An error on a connection that its Send or Receive has closed.
closed_late :
    (c : ClientConn) (st : Clients)
    → IsAccountedBut c st
    → IsAccounted (close_conn c (close_conn c st))
closed_late c st h = subst IsAccounted (sym (closed_stays c st)) (close_conn-IsAccounted c st h)

fails-IsAccounted :
    (b : Bool) (addr : String) (c : ClientConn) (e : IoError) (st : Clients)
    → IsAccountedBut c st
    → VerdictIsAccounted (fails_if b addr c e (close_conn c st))
unfolding fails_if
fails-IsAccounted true addr c e st h = (
  close_client-IsAccounted addr (close_conn c st) (close_conn-IsAccounted c st h),
  close_client_stays c.id addr (close_conn c st) (close_conn_closes c st),
)
fails-IsAccounted false addr c e st h = closed_late c st h

receive-IsAccounted :
    (addr : String) (c : ClientConn) (o : Reply Bytes) (st : Clients)
    → IsAccountedBut c st
    → VerdictIsAccounted (receive_reply addr c o st)
unfolding receive_reply fails
receive-IsAccounted addr c (done bs) st h = h
receive-IsAccounted addr c (fails_at_once e) st h = fails-IsAccounted c.is_old_conn addr c e st h
receive-IsAccounted addr c (fails_late e) st h = closed_late c st h

exchange-IsAccounted :
    (addr : String) (c : ClientConn) (a : Attempt) (o : Reply (Unit {0})) (st : Clients)
    → IsAccountedBut c st
    → VerdictIsAccounted (exchange addr c a o st)
unfolding exchange fails
exchange-IsAccounted addr c a (done _) st h = receive-IsAccounted addr c a.receiving st h
exchange-IsAccounted addr c a (fails_at_once e) st h = fails-IsAccounted c.is_old_conn addr c e st h
exchange-IsAccounted addr c a (fails_late e) st h = closed_late c st h

use-IsAccounted :
    (addr : String) (a : Attempt) (g : Got)
    → a.deadline ≡ none
    → GotIsAccounted g
    → VerdictIsAccounted (use_connection addr a g)
unfolding use_connection with_deadline
use-IsAccounted addr a (some c, none, st) d h =
    subst (λ t. VerdictIsAccounted (with_deadline addr c a t st)) (sym d)
      (exchange-IsAccounted addr c a a.sending st h)
use-IsAccounted addr a (some c, some e, st) d h = close_conn-IsAccounted c st h
use-IsAccounted addr a (none, some e, st) d h = h
use-IsAccounted addr a (none, none, st) d h = h

try_once-IsAccounted :
    (addr : String) (a : Attempt) (st : Clients)
    → a.deadline ≡ none
    → IsAccounted st
    → VerdictIsAccounted (try_once addr a st)
unfolding try_once
try_once-IsAccounted addr a st d h =
    use-IsAccounted addr a (new_client_tcp_connection addr a.dial st) d
      (new_client-IsAccounted addr a.dial st h)

retry-IsAccounted :
    (addr : String) (round : ℕ → Attempt) (n : ℕ) (v : Verdict × Clients)
    → ((i : ℕ) → (round i).deadline ≡ none)
    → VerdictIsAccounted v
    → VerdictIsAccounted (retry addr round n v)
unfolding retry
retry-IsAccounted addr round zero v d h = h
retry-IsAccounted addr round (suc n) (leave c res e, st) d h = h
retry-IsAccounted addr round (suc n) (again c e, st) d (h, _) =
    retry-IsAccounted addr round n (try_once addr (round n) st) d
      (try_once-IsAccounted addr (round n) st (d n) h)

finish-IsAccounted :
    (addr : String) (v : Verdict × Clients) → VerdictIsAccounted v → IsAccounted (finish addr v).2
unfolding finish
finish-IsAccounted addr (leave (some c) res none, st) h = free-IsAccounted addr c st h
finish-IsAccounted addr (leave (some c) res (some e), st) h = h
finish-IsAccounted addr (leave none res e, st) h = h
finish-IsAccounted addr (again c e, st) (h, closed) = close_again-IsAccounted c st h closed

-- A request keeps the account of the connections, whatever its rounds meet but for a deadline that
-- cannot be set: if before it every connection that was ever made stood once in the pool or was
-- closed, and not both, so it is after it. None is lost, and none that was closed is in the pool.
pub send_client_request-IsAccounted :
    (addr : String) (round : ℕ → Attempt) (st : Clients)
    → ((i : ℕ) → (round i).deadline ≡ none)
    → IsAccounted st
    → IsAccounted (send_client_request addr round st).2
unfolding send_client_request
send_client_request-IsAccounted addr round st d h =
    finish-IsAccounted addr (retry addr round 1 (try_once addr (round 1) st)) (
      retry-IsAccounted addr round 1 (try_once addr (round 1) st) d
        (try_once-IsAccounted addr (round 1) st (d 1) h))
