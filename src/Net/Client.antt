-- ===== src/Net/Client.antt =====
-- net/tcp_client.go: the pool of client connections and the requests that use it. A connection is
-- known by its id; it is in the pool, or in the hands of one request. The calls of the pool hold its
-- mutex, so each is one step, and what a request meets (the dialling, the deadline, its Send and its
-- Receive) is given.
pub mod Account
pub mod Retry
pub mod Keep
pub mod Limit
pub mod Rounds
pub mod Leaks
mod Tests
use Prim.Native.String.{String}
use optimusprime.Prelude.{
  ℕ, zero, suc, ◌+◌, ◌-◌, Bool, true, false, if◌then◌else◌, leb, ◌==◌, ◌||◌, Option, none, some,
  List, [], ◌∷◌, ◌++◌, length,
}
use optimusprime.Prelude.Text.{Bytes}
use optimusprime.Prelude.Map.{lookup, insert, delete, string_eq}
use optimusprime.Prelude.Ids.{contains}
use optimusprime.Net.Stream.{IoError}

pub record ClientConn : Type 0 where
  pub id : ℕ
  pub is_old_conn : Bool

pub record Clients : Type 0 where
  pub pool : List (String × List ClientConn)
  pub connection_limit : ℕ
  -- The last id that newTcpConnection gave, and the ids of the connections that were closed.
  pub last_id : ℕ
  pub closed : List ℕ

abbrev pub max_bad_conn_retries : ℕ
max_bad_conn_retries = 2

-- What net.DialTimeout and SetKeepAlive come to.
pub data Dial : Type 0 where
  dialled : Dial
  keep_alive_fails : IoError → Dial
  dial_fails : IoError → Dial

-- What a call on the connection in hand comes to; an error comes within 50 ms, or later.
pub data Reply {ℓ} (A : Type ℓ) : Type ℓ where
  done : A → Reply A
  fails_at_once : IoError → Reply A
  fails_late : IoError → Reply A

-- What one round of the loop of sendClientRequest meets.
pub record Attempt : Type 0 where
  pub dial : Dial
  pub deadline : Option IoError
  pub sending : Reply (Unit {0})
  pub receiving : Reply Bytes

-- `TcpConnection.Close`, which a second call leaves alone.
unfoldable pub close_id : ℕ → List ℕ → List ℕ
unfolding contains
close_id i closed = if contains i closed then closed else i ∷ closed

unfoldable pub close_conn : ClientConn → Clients → Clients
unfolding close_id
close_conn c st = record st { closed = close_id c.id st.closed }

unfoldable pub close_each : List ClientConn → List ℕ → List ℕ
unfolding close_id
close_each [] closed = closed
close_each (c ∷ cs) closed = close_each cs (close_id c.id closed)

-- A connection and an error, either of which may be nil.
abbrev pub Got : Type 0
Got = Option ClientConn × Option IoError × Clients

unfoldable pub connect_server : Dial → Clients → Got
connect_server (dial_fails e) st = (none, some e, st)
connect_server (keep_alive_fails e) st = (
  some (record { id = suc st.last_id; is_old_conn = false }),
  some e,
  record st { last_id = suc st.last_id },
)
connect_server dialled st = (
  some (record { id = suc st.last_id; is_old_conn = false }),
  none,
  record st { last_id = suc st.last_id },
)

-- The connections of an address; none if the map does not have it.
unfoldable pub connections_of : String → Clients → List ClientConn
connections_of addr st = elim (lookup addr st.pool) [ none ↦ [] | some cs ↦ cs ]

unfoldable pub take_or_connect : String → Dial → Clients → List ClientConn → Got
unfolding connect_server
take_or_connect addr d st [] = connect_server d st
take_or_connect addr d st (c ∷ cs) = (some c, none, record st { pool = insert addr cs st.pool })

unfoldable pub new_client_tcp_connection : String → Dial → Clients → Got
unfolding take_or_connect connections_of
new_client_tcp_connection addr d st = take_or_connect addr d st (connections_of addr st)

unfoldable pub free_client_tcp_connection : String → ClientConn → Clients → Clients
unfolding connections_of close_conn
free_client_tcp_connection addr c st =
    let cs = connections_of addr st in
    if leb st.connection_limit (length cs)
    then close_conn c st
    else record st { pool = insert addr (cs ++ record c { is_old_conn = true } ∷ []) st.pool }

unfoldable pub close_client_tcp_connection : String → Clients → Clients
unfolding connections_of close_each
close_client_tcp_connection addr st = record st {
  pool = delete addr st.pool;
  closed = close_each (connections_of addr st) st.closed;
}

-- What one round comes to: the loop goes on with an error, or it is left.
pub data Verdict : Type 0 where
  again : ClientConn → IoError → Verdict
  leave : Option ClientConn → Bytes → Option IoError → Verdict

-- An error on a connection of the pool empties the pool of the address, and the loop goes on. The
-- first argument is `connection.isOldConn`.
unfoldable pub fails_if : Bool → String → ClientConn → IoError → Clients → Verdict × Clients
fails_if true addr c e st = (again c e, close_client_tcp_connection addr st)
fails_if false addr c e st = (leave (some c) [] (some e), st)

unfoldable pub fails : String → ClientConn → IoError → Clients → Verdict × Clients
unfolding fails_if close_client_tcp_connection
fails addr c e st = fails_if c.is_old_conn addr c e st

-- `Receive` closes the connection where it fails.
unfoldable pub receive_reply : String → ClientConn → Reply Bytes → Clients → Verdict × Clients
unfolding fails close_conn
receive_reply addr c (done bs) st = (leave (some c) bs none, st)
receive_reply addr c (fails_at_once e) st = fails addr c e (close_conn c st)
receive_reply addr c (fails_late e) st = (leave (some c) [] (some e), close_conn c st)

-- `Send` closes the connection where it fails.
unfoldable pub exchange :
    String → ClientConn → Attempt → Reply (Unit {0}) → Clients → Verdict × Clients
unfolding receive_reply fails close_conn
exchange addr c a (done _) st = receive_reply addr c a.receiving st
exchange addr c a (fails_at_once e) st = fails addr c e (close_conn c st)
exchange addr c a (fails_late e) st = (leave (some c) [] (some e), close_conn c st)

unfoldable pub with_deadline :
    String → ClientConn → Attempt → Option IoError → Clients → Verdict × Clients
unfolding exchange fails
with_deadline addr c a (some e) st = fails addr c e st
with_deadline addr c a none st = exchange addr c a a.sending st

unfoldable pub use_connection : String → Attempt → Got → Verdict × Clients
unfolding with_deadline
use_connection addr a (some c, none, st) = with_deadline addr c a a.deadline st
use_connection addr a (c, some e, st) = (leave c [] (some e), st)
use_connection addr a (none, none, st) = (leave none [] none, st)

unfoldable pub try_once : String → Attempt → Clients → Verdict × Clients
unfolding use_connection new_client_tcp_connection
try_once addr a st = use_connection addr a (new_client_tcp_connection addr a.dial st)

-- What stands behind the loop: the connection goes back to the pool, or is closed.
unfoldable pub finish : String → Verdict × Clients → Bytes × Option IoError × Clients
unfolding free_client_tcp_connection close_conn
finish addr (leave (some c) res none, st) = (res, none, free_client_tcp_connection addr c st)
finish addr (leave (some c) res (some e), st) = (res, some e, close_conn c st)
finish addr (leave none res e, st) = (res, e, st)
finish addr (again c e, st) = ([], some e, close_conn c st)

-- The rounds that are left, the first of them as `round` gives it.
unfoldable pub retry : String → (ℕ → Attempt) → ℕ → Verdict × Clients → Verdict × Clients
unfolding try_once
retry addr round zero v = v
retry addr round (suc n) (leave c res e, st) = (leave c res e, st)
retry addr round (suc n) (again c e, st) = retry addr round n (try_once addr (round n) st)

-- `round n` is what the round meets behind which n more are left.
unfoldable pub send_client_request :
    String → (ℕ → Attempt) → Clients → Bytes × Option IoError × Clients
unfolding retry finish try_once
send_client_request addr round st =
    let left = max_bad_conn_retries - 1 in
    finish addr (retry addr round left (try_once addr (round left) st))

-- sendClientRequestNoResponse: a failed dialling returns at once, and there is no Receive.
unfoldable pub exchange_no_response :
    String → ClientConn → Reply (Unit {0}) → Clients → Verdict × Clients
unfolding fails close_conn
exchange_no_response addr c (done _) st = (leave (some c) [] none, st)
exchange_no_response addr c (fails_at_once e) st = fails addr c e (close_conn c st)
exchange_no_response addr c (fails_late e) st = (leave (some c) [] (some e), close_conn c st)

unfoldable pub deadline_no_response :
    String → ClientConn → Attempt → Option IoError → Clients → Verdict × Clients
unfolding exchange_no_response fails
deadline_no_response addr c a (some e) st = fails addr c e st
deadline_no_response addr c a none st = exchange_no_response addr c a.sending st

unfoldable pub use_no_response : String → Attempt → Got → Verdict × Clients
unfolding deadline_no_response
use_no_response addr a (some c, none, st) = deadline_no_response addr c a a.deadline st
use_no_response addr a (c, some e, st) = (leave none [] (some e), st)
use_no_response addr a (none, none, st) = (leave none [] none, st)

unfoldable pub try_no_response : String → Attempt → Clients → Verdict × Clients
unfolding use_no_response new_client_tcp_connection
try_no_response addr a st = use_no_response addr a (new_client_tcp_connection addr a.dial st)

unfoldable pub retry_no_response :
    String → (ℕ → Attempt) → ℕ → Verdict × Clients → Verdict × Clients
unfolding try_no_response
retry_no_response addr round zero v = v
retry_no_response addr round (suc n) (leave c res e, st) = (leave c res e, st)
retry_no_response addr round (suc n) (again c e, st) =
    retry_no_response addr round n (try_no_response addr (round n) st)

unfoldable pub send_client_request_no_response :
    String → (ℕ → Attempt) → Clients → Option IoError × Clients
unfolding retry_no_response finish try_no_response
send_client_request_no_response addr round st =
    let left = max_bad_conn_retries - 1 in
    let (res, e, st') =
      finish addr (retry_no_response addr round left (try_no_response addr (round left) st)) in
    (e, st')

unfoldable pub set_client_connection_limit : ℕ → Clients → Clients
set_client_connection_limit limit st = record st { connection_limit = limit }

unfoldable pub length_or_zero : Option (List ClientConn) → ℕ
length_or_zero none = 0
length_or_zero (some cs) = length cs

-- It reads the pool without the mutex.
unfoldable pub len_client_tcp_connections : String → Clients → ℕ
unfolding length_or_zero
len_client_tcp_connections addr st = length_or_zero (lookup addr st.pool)
