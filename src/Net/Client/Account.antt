-- ===== src/Net/Client/Account.antt =====
-- Where the connections of the client are: each is in the pool once, or closed.
use Prim.Native.String.{String}
use optimusprime.Prelude.{
  ℕ, suc, min, ◌+◌, ◌≤◌, ◌≡◌, refl, arith, Bool, true, false, leb, ◌==◌, ◌&&◌, none, some, List, [],
  ◌∷◌, ◌++◌, length, Bool-cases, inl, inr, ap,
}
use optimusprime.Prelude.Map.{lookup, insert, delete, string_eq}
use optimusprime.Prelude.Ids.{contains}
use optimusprime.Net.Client.{
  ClientConn, Clients, close_id, close_conn, close_each, connections_of, dialled, dial_fails,
  keep_alive_fails, Dial, take_or_connect, new_client_tcp_connection, free_client_tcp_connection,
  close_client_tcp_connection, Got,
}

abbrev pub one_if : Bool → ℕ
one_if true = 1
one_if false = 0

-- How often an id stands in a list of connections, and in the pool.
unfoldable pub conn_count : ℕ → List ClientConn → ℕ
conn_count i [] = 0
conn_count i (c ∷ cs) = one_if (c.id == i) + conn_count i cs

unfoldable pub pooled : ℕ → List (String × List ClientConn) → ℕ
pooled i [] = 0
pooled i ((_, cs) ∷ m) = conn_count i cs + pooled i m

unfoldable pub closed_count : ℕ → List ℕ → ℕ
unfolding contains
closed_count i js = one_if (contains i js)

-- The ids that newTcpConnection has given.
abbrev pub given : ℕ → Clients → ℕ
given i st = one_if (leb 1 i && leb i st.last_id)

-- Every connection that was ever made is in the pool, once, or closed, and not both.
abbrev pub IsAccounted : Clients → Type 0
IsAccounted st = (i : ℕ) → pooled i st.pool + closed_count i st.closed ≡ given i st

-- The same but for an open connection in the hands of a request.
abbrev pub IsAccountedBut : ClientConn → Clients → Type 0
IsAccountedBut c st =
    (i : ℕ) → pooled i st.pool + closed_count i st.closed + one_if (c.id == i) ≡ given i st

pub one_if-le : (b : Bool) → one_if b ≤ 1
one_if-le true = omega arith
one_if-le false = omega arith

conn_count-append :
    (i : ℕ) (xs ys : List ClientConn) → conn_count i (xs ++ ys) ≡ conn_count i xs + conn_count i ys
unfolding conn_count
conn_count-append i [] ys = omega arith
conn_count-append i (x ∷ xs) ys = omega (arith, conn_count-append i xs ys)

pooled-insert :
    (i : ℕ) (addr : String) (cs : List ClientConn) (m : List (String × List ClientConn))
    → pooled i (insert addr cs m) + conn_count i (elim (lookup addr m) [ none ↦ [] | some ds ↦ ds ])
      ≡ pooled i m + conn_count i cs
unfolding pooled insert lookup conn_count
pooled-insert i addr cs [] = omega arith
pooled-insert i addr cs ((a, ds) ∷ m) = ground (arith, pooled-insert i addr cs m)

pub pooled-delete :
    (i : ℕ) (addr : String) (m : List (String × List ClientConn))
    → pooled i (delete addr m) + conn_count i (elim (lookup addr m) [ none ↦ [] | some ds ↦ ds ])
      ≡ pooled i m
unfolding pooled delete lookup conn_count
pooled-delete i addr [] = omega arith
pooled-delete i addr ((a, ds) ∷ m) = ground (arith, pooled-delete i addr m)

closed_count-close_id :
    (i j : ℕ) (js : List ℕ)
    → closed_count i (close_id j js) ≡ min 1 (closed_count i js + one_if (j == i))
unfolding closed_count close_id
closed_count-close_id i j js = ground arith

pub closed_count-close_each :
    (i : ℕ) (cs : List ClientConn) (js : List ℕ)
    → closed_count i (close_each cs js) ≡ min 1 (closed_count i js + conn_count i cs)
unfolding close_each conn_count closed_count
closed_count-close_each i [] js = omega (arith, one_if-le (contains i js))
closed_count-close_each i (c ∷ cs) js =
    omega (arith, closed_count-close_each i cs (close_id c.id js), closed_count-close_id i c.id js)

-- A connection from the pool is in the caller's hands.
pub take_IsAccountedBut :
    (addr : String) (st : Clients) (c : ClientConn) (cs : List ClientConn)
    → connections_of addr st ≡ c ∷ cs
    → IsAccounted st
    → IsAccountedBut c (record st { pool = insert addr cs st.pool })
unfolding connections_of conn_count
take_IsAccountedBut addr st c cs e h i =
    omega (arith, h i, pooled-insert i addr cs st.pool, ap (conn_count i) e)

-- A new connection has an id that no other has.
pub fresh_IsAccountedBut :
    (st : Clients)
    → IsAccounted st
    → IsAccountedBut
        (record { id = suc st.last_id; is_old_conn = false })
        (record st { last_id = suc st.last_id })
fresh_IsAccountedBut st h i = ground (arith, h i)

-- Closing the connection in hand.
pub close_conn-IsAccounted :
    (c : ClientConn) (st : Clients) → IsAccountedBut c st → IsAccounted (close_conn c st)
unfolding close_conn
close_conn-IsAccounted c st h i =
    omega
      (arith, h i, closed_count-close_id i c.id st.closed, one_if-le (leb 1 i && leb i st.last_id))

closed_once : (i : ℕ) (js : List ℕ) → closed_count i (close_id i js) ≡ 1
unfolding closed_count close_id contains
closed_once i js = ground arith

pub close_conn_closes :
    (c : ClientConn) (st : Clients) → closed_count c.id (close_conn c st).closed ≡ 1
unfolding close_conn
close_conn_closes c st = closed_once c.id st.closed

pub close_client_stays :
    (i : ℕ) (addr : String) (st : Clients)
    → closed_count i st.closed ≡ 1
    → closed_count i (close_client_tcp_connection addr st).closed ≡ 1
unfolding close_client_tcp_connection
close_client_stays i addr st h =
    omega (arith, closed_count-close_each i (connections_of addr st) st.closed)

-- Closing one that is closed changes nothing.
pub closed_stays :
    (c : ClientConn) (st : Clients) → close_conn c (close_conn c st) ≡ close_conn c st
unfolding close_conn close_id contains
closed_stays c st = ground arith

pub close_again-IsAccounted :
    (c : ClientConn) (st : Clients)
    → IsAccounted st
    → closed_count c.id st.closed ≡ 1
    → IsAccounted (close_conn c st)
unfolding close_conn closed_count
close_again-IsAccounted c st h closed i =
    ground (arith, h i, closed_count-close_id i c.id st.closed, one_if-le (contains i st.closed))

pub free-IsAccounted :
    (addr : String) (c : ClientConn) (st : Clients)
    → IsAccountedBut c st
    → IsAccounted (free_client_tcp_connection addr c st)
unfolding free_client_tcp_connection conn_count
free-IsAccounted addr c st h =
    elim (Bool-cases (leb st.connection_limit (length (connections_of addr st)))) [
      | inl full ↦ rw full (close_conn-IsAccounted c st h)
      | inr room ↦ rw room (λ i. omega (
        arith,
        h i,
        pooled-insert i addr (connections_of addr st ++ record c { is_old_conn = true } ∷ [])
            st.pool,
        conn_count-append i (connections_of addr st) (record c { is_old_conn = true } ∷ []),
      ))
    ]

pub close_client-IsAccounted :
    (addr : String) (st : Clients)
    → IsAccounted st
    → IsAccounted (close_client_tcp_connection addr st)
unfolding close_client_tcp_connection
close_client-IsAccounted addr st h i = omega (
  arith,
  h i,
  pooled-delete i addr st.pool,
  closed_count-close_each i (connections_of addr st) st.closed,
  one_if-le (leb 1 i && leb i st.last_id),
)

-- What new_client_tcp_connection returns, by what it finds and what the dialling comes to.
abbrev pub GotIsAccounted : Got → Type 0
GotIsAccounted (some c, e, st) = IsAccountedBut c st
GotIsAccounted (none, e, st) = IsAccounted st

take_or_connect-IsAccounted :
    (addr : String) (d : Dial) (st : Clients) (cs : List ClientConn)
    → connections_of addr st ≡ cs
    → IsAccounted st
    → GotIsAccounted (take_or_connect addr d st cs)
unfolding take_or_connect
take_or_connect-IsAccounted addr dialled st [] e h = fresh_IsAccountedBut st h
take_or_connect-IsAccounted addr (keep_alive_fails x) st [] e h = fresh_IsAccountedBut st h
take_or_connect-IsAccounted addr (dial_fails x) st [] e h = h
take_or_connect-IsAccounted addr d st (c ∷ cs) e h = take_IsAccountedBut addr st c cs e h

pub new_client-IsAccounted :
    (addr : String) (d : Dial) (st : Clients)
    → IsAccounted st
    → GotIsAccounted (new_client_tcp_connection addr d st)
unfolding new_client_tcp_connection
new_client-IsAccounted addr d st h =
    take_or_connect-IsAccounted addr d st (connections_of addr st) refl h
