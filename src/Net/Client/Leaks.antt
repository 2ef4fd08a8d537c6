-- ===== src/Net/Client/Leaks.antt =====
-- The two ends of a request at which its connection is dropped without being closed.
use Prim.Native.String.{String}
use optimusprime.Prelude.{
  ℕ, suc, ◌+◌, ◌≡◌, refl, arith, true, false, leb, ◌&&◌, none, some, List, [], ◌∷◌,
}
use optimusprime.Prelude.Map.{insert, string_eq}
use optimusprime.Net.Stream.{IoError}
use optimusprime.Net.Client.{
  ClientConn, Clients, Attempt, dial_fails, keep_alive_fails, again, leave, connections_of,
  close_client_tcp_connection, new_client_tcp_connection, fails, fails_if, with_deadline,
  use_connection, try_once, retry, finish, send_client_request, take_or_connect, connect_server,
  use_no_response, try_no_response, retry_no_response, send_client_request_no_response,
}
use optimusprime.Net.Client.Account.{
  IsAccounted, IsAccountedBut, pooled, closed_count, take_IsAccountedBut, fresh_IsAccountedBut,
  one_if-le, pooled-delete, closed_count-close_each,
}
use optimusprime.Net.Client.Limit.{HasMap, HasMap-kept}
use optimusprime.Net.Client.Rounds.{closed_is_empty}

-- Neither in the pool nor closed.
abbrev pub IsLost : ℕ → Clients → Type 0
IsLost i st = pooled i st.pool + closed_count i st.closed ≡ 0

close_client-IsLost :
    (i : ℕ) (addr : String) (st : Clients)
    → IsLost i st
    → IsLost i (close_client_tcp_connection addr st)
unfolding close_client_tcp_connection
close_client-IsLost i addr st h = omega (
  arith,
  h,
  pooled-delete i addr st.pool,
  closed_count-close_each i (connections_of addr st) st.closed,
)

hand-IsLost : (c : ClientConn) (st : Clients) → IsAccountedBut c st → IsLost c.id st
hand-IsLost c st h = ground (arith, h c.id, one_if-le (leb 1 c.id && leb c.id st.last_id))

-- The deadline of an old connection fails, and the dialling behind it.
pub deadline_round :
    (addr : String) (a : Attempt) (st : Clients) (c : ClientConn) (cs : List ClientConn)
    (e : IoError)
    → connections_of addr st ≡ c ∷ cs
    → c.is_old_conn ≡ true
    → a.deadline ≡ some e
    → try_once addr a st
      ≡ (again c e, close_client_tcp_connection addr (record st { pool = insert addr cs st.pool }))
unfolding try_once new_client_tcp_connection take_or_connect use_connection with_deadline fails
    fails_if
deadline_round addr a st c cs e found old late = rw (found, late, old) refl

-- A dialling that fails, where the pool has no connection.
failed_round :
    (addr : String) (a : Attempt) (st : Clients) (e : IoError)
    → connections_of addr st ≡ []
    → a.dial ≡ dial_fails e
    → try_once addr a st ≡ (leave none [] (some e), st)
unfolding try_once new_client_tcp_connection take_or_connect use_connection connect_server
failed_round addr a st e found fails = rw (found, fails) refl

deadline_request :
    (addr : String) (round : ℕ → Attempt) (st : Clients) (c : ClientConn) (cs : List ClientConn)
    (e e2 : IoError)
    → HasMap st
    → connections_of addr st ≡ c ∷ cs
    → c.is_old_conn ≡ true
    → (round 1).deadline ≡ some e
    → (round 0).dial ≡ dial_fails e2
    → send_client_request addr round st ≡ (
      [],
      some e2,
      close_client_tcp_connection addr (record st { pool = insert addr cs st.pool }),
    )
unfolding send_client_request retry finish
deadline_request addr round st c cs e e2 m found old late gone =
    rw
      (
        deadline_round addr (round 1) st c cs e found old late,
        failed_round addr (round 0)
            (close_client_tcp_connection addr (record st { pool = insert addr cs st.pool })) e2
            (closed_is_empty addr (record st { pool = insert addr cs st.pool })
              (HasMap-kept.by_take addr st c cs found m))
            gone,
      )
      refl

-- A request that takes a connection from the pool, cannot set its deadline, and then cannot dial,
-- returns the error of the dialling, and the connection is neither in the pool nor closed, if before
-- it every connection that was ever made stood once in the pool or was closed and not both, and no
-- address stood in the pool twice.
pub deadline_leaks :
    (addr : String) (round : ℕ → Attempt) (st : Clients) (c : ClientConn) (cs : List ClientConn)
    (e e2 : IoError)
    → IsAccounted st
    → HasMap st
    → connections_of addr st ≡ c ∷ cs
    → c.is_old_conn ≡ true
    → (round 1).deadline ≡ some e
    → (round 0).dial ≡ dial_fails e2
    → ((send_client_request addr round st).1 ≡ some e2)
      × IsLost c.id (send_client_request addr round st).2
deadline_leaks addr round st c cs e e2 h m found old late gone =
    rw (deadline_request addr round st c cs e e2 m found old late gone) (
      refl,
      close_client-IsLost c.id addr (record st { pool = insert addr cs st.pool })
          (hand-IsLost c (record st { pool = insert addr cs st.pool })
            (take_IsAccountedBut addr st c cs found h)),
    )

-- A request without a response that finds no connection in the pool, dials one and cannot set its
-- keep-alive, returns that error, and the connection it made is neither in the pool nor closed, if
-- before it every connection that was ever made stood once in the pool or was closed and not both.
pub no_response_leaks :
    (addr : String) (round : ℕ → Attempt) (st : Clients) (e : IoError)
    → IsAccounted st
    → connections_of addr st ≡ []
    → (round 1).dial ≡ keep_alive_fails e
    → ((send_client_request_no_response addr round st).0 ≡ some e)
      × ((send_client_request_no_response addr round st).1.last_id ≡ suc st.last_id)
      × IsLost (suc st.last_id) (send_client_request_no_response addr round st).1
unfolding send_client_request_no_response try_no_response new_client_tcp_connection take_or_connect
    use_no_response connect_server retry_no_response finish
no_response_leaks addr round st e h found dead =
    rw (found, dead)
      (
        refl,
        refl,
        hand-IsLost (record { id = suc st.last_id; is_old_conn = false })
            (record st { last_id = suc st.last_id }) (fresh_IsAccountedBut st h),
      )
