-- ===== src/Net/Client/Keep.antt =====
-- What the steps of the pool keep, both kinds of request keep.
use Prim.Native.String.{String}
use optimusprime.Prelude.{
  ℕ, zero, suc, ◌≡◌, refl, Bool, true, false, Option, none, some, List, [], ◌∷◌,
}
use optimusprime.Prelude.Text.{Bytes}
use optimusprime.Prelude.Map.{insert, string_eq}
use optimusprime.Net.Stream.{IoError}
use optimusprime.Net.Client.{
  ClientConn, Clients, Attempt, Dial, dialled, dial_fails, keep_alive_fails, Reply, done,
  fails_at_once, fails_late, Got, Verdict, again, leave, close_conn, connections_of,
  close_client_tcp_connection, new_client_tcp_connection, free_client_tcp_connection, fails,
  fails_if, receive_reply, exchange, with_deadline, use_connection, try_once, retry, finish,
  send_client_request, take_or_connect, exchange_no_response, use_no_response, deadline_no_response,
  try_no_response, retry_no_response, send_client_request_no_response,
}

-- A property of the pool that each of its steps keeps.
pub record IsKept {ℓ} (P : Clients → Type ℓ) : Type ℓ where
  pub by_take :
      (addr : String) (st : Clients) (c : ClientConn) (cs : List ClientConn)
      → connections_of addr st ≡ c ∷ cs
      → P st
      → P (record st { pool = insert addr cs st.pool })
  pub by_new : (st : Clients) → P st → P (record st { last_id = suc st.last_id })
  pub by_close : (c : ClientConn) (st : Clients) → P st → P (close_conn c st)
  pub by_close_all : (addr : String) (st : Clients) → P st → P (close_client_tcp_connection addr st)
  pub by_free :
      (addr : String) (c : ClientConn) (st : Clients)
      → P st
      → P (free_client_tcp_connection addr c st)

module _ {ℓ} (P : Clients → Type ℓ) (kept : IsKept P) where
  take_keeps :
      (addr : String) (d : Dial) (st : Clients) (cs : List ClientConn)
      → connections_of addr st ≡ cs
      → P st
      → P (take_or_connect addr d st cs).2
  unfolding take_or_connect
  take_keeps addr dialled st [] e h = kept.by_new st h
  take_keeps addr (keep_alive_fails x) st [] e h = kept.by_new st h
  take_keeps addr (dial_fails x) st [] e h = h
  take_keeps addr d st (c ∷ cs) e h = kept.by_take addr st c cs e h

  pub new_client_keeps :
      (addr : String) (d : Dial) (st : Clients) → P st → P (new_client_tcp_connection addr d st).2
  unfolding new_client_tcp_connection
  new_client_keeps addr d st h = take_keeps addr d st (connections_of addr st) refl h

  fails_keeps :
      (b : Bool) (addr : String) (c : ClientConn) (e : IoError) (st : Clients)
      → P st
      → P (fails_if b addr c e st).1
  unfolding fails_if
  fails_keeps true addr c e st h = kept.by_close_all addr st h
  fails_keeps false addr c e st h = h

  receive_keeps :
      (addr : String) (c : ClientConn) (o : Reply Bytes) (st : Clients)
      → P st
      → P (receive_reply addr c o st).1
  unfolding receive_reply fails
  receive_keeps addr c (done bs) st h = h
  receive_keeps addr c (fails_at_once e) st h =
      fails_keeps c.is_old_conn addr c e (close_conn c st) (kept.by_close c st h)
  receive_keeps addr c (fails_late e) st h = kept.by_close c st h

  exchange_keeps :
      (addr : String) (c : ClientConn) (a : Attempt) (o : Reply (Unit {0})) (st : Clients)
      → P st
      → P (exchange addr c a o st).1
  unfolding exchange fails
  exchange_keeps addr c a (done _) st h = receive_keeps addr c a.receiving st h
  exchange_keeps addr c a (fails_at_once e) st h =
      fails_keeps c.is_old_conn addr c e (close_conn c st) (kept.by_close c st h)
  exchange_keeps addr c a (fails_late e) st h = kept.by_close c st h

  deadline_keeps :
      (addr : String) (c : ClientConn) (a : Attempt) (d : Option IoError) (st : Clients)
      → P st
      → P (with_deadline addr c a d st).1
  unfolding with_deadline fails
  deadline_keeps addr c a (some e) st h = fails_keeps c.is_old_conn addr c e st h
  deadline_keeps addr c a none st h = exchange_keeps addr c a a.sending st h

  use_keeps : (addr : String) (a : Attempt) (g : Got) → P g.2 → P (use_connection addr a g).1
  unfolding use_connection
  use_keeps addr a (some c, none, st) h = deadline_keeps addr c a a.deadline st h
  use_keeps addr a (some c, some e, st) h = h
  use_keeps addr a (none, some e, st) h = h
  use_keeps addr a (none, none, st) h = h

  try_keeps : (addr : String) (a : Attempt) (st : Clients) → P st → P (try_once addr a st).1
  unfolding try_once
  try_keeps addr a st h =
      use_keeps addr a (new_client_tcp_connection addr a.dial st)
        (new_client_keeps addr a.dial st h)

  retry_keeps :
      (addr : String) (round : ℕ → Attempt) (n : ℕ) (v : Verdict × Clients)
      → P v.1
      → P (retry addr round n v).1
  unfolding retry
  retry_keeps addr round zero v h = h
  retry_keeps addr round (suc n) (leave c res e, st) h = h
  retry_keeps addr round (suc n) (again c e, st) h =
      retry_keeps addr round n (try_once addr (round n) st) (try_keeps addr (round n) st h)

  finish_keeps : (addr : String) (v : Verdict × Clients) → P v.1 → P (finish addr v).2
  unfolding finish
  finish_keeps addr (leave (some c) res none, st) h = kept.by_free addr c st h
  finish_keeps addr (leave (some c) res (some e), st) h = kept.by_close c st h
  finish_keeps addr (leave none res none, st) h = h
  finish_keeps addr (leave none res (some e), st) h = h
  finish_keeps addr (again c e, st) h = kept.by_close c st h

  pub request_keeps :
      (addr : String) (round : ℕ → Attempt) (st : Clients)
      → P st
      → P (send_client_request addr round st).2
  unfolding send_client_request
  request_keeps addr round st h =
      finish_keeps addr (retry addr round 1 (try_once addr (round 1) st))
        (retry_keeps addr round 1 (try_once addr (round 1) st) (try_keeps addr (round 1) st h))

  exchange_no_response_keeps :
      (addr : String) (c : ClientConn) (o : Reply (Unit {0})) (st : Clients)
      → P st
      → P (exchange_no_response addr c o st).1
  unfolding exchange_no_response fails
  exchange_no_response_keeps addr c (done _) st h = h
  exchange_no_response_keeps addr c (fails_at_once e) st h =
      fails_keeps c.is_old_conn addr c e (close_conn c st) (kept.by_close c st h)
  exchange_no_response_keeps addr c (fails_late e) st h = kept.by_close c st h

  deadline_no_response_keeps :
      (addr : String) (c : ClientConn) (a : Attempt) (d : Option IoError) (st : Clients)
      → P st
      → P (deadline_no_response addr c a d st).1
  unfolding deadline_no_response fails
  deadline_no_response_keeps addr c a (some e) st h = fails_keeps c.is_old_conn addr c e st h
  deadline_no_response_keeps addr c a none st h = exchange_no_response_keeps addr c a.sending st h

  use_no_response_keeps :
      (addr : String) (a : Attempt) (g : Got) → P g.2 → P (use_no_response addr a g).1
  unfolding use_no_response
  use_no_response_keeps addr a (some c, none, st) h =
      deadline_no_response_keeps addr c a a.deadline st h
  use_no_response_keeps addr a (some c, some e, st) h = h
  use_no_response_keeps addr a (none, some e, st) h = h
  use_no_response_keeps addr a (none, none, st) h = h

  try_no_response_keeps :
      (addr : String) (a : Attempt) (st : Clients) → P st → P (try_no_response addr a st).1
  unfolding try_no_response
  try_no_response_keeps addr a st h =
      use_no_response_keeps addr a (new_client_tcp_connection addr a.dial st)
        (new_client_keeps addr a.dial st h)

  retry_no_response_keeps :
      (addr : String) (round : ℕ → Attempt) (n : ℕ) (v : Verdict × Clients)
      → P v.1
      → P (retry_no_response addr round n v).1
  unfolding retry_no_response
  retry_no_response_keeps addr round zero v h = h
  retry_no_response_keeps addr round (suc n) (leave c res e, st) h = h
  retry_no_response_keeps addr round (suc n) (again c e, st) h =
      retry_no_response_keeps addr round n (try_no_response addr (round n) st)
        (try_no_response_keeps addr (round n) st h)

  pub request_no_response_keeps :
      (addr : String) (round : ℕ → Attempt) (st : Clients)
      → P st
      → P (send_client_request_no_response addr round st).1
  unfolding send_client_request_no_response
  request_no_response_keeps addr round st h =
      finish_keeps addr (retry_no_response addr round 1 (try_no_response addr (round 1) st)) (
        retry_no_response_keeps addr round 1 (try_no_response addr (round 1) st)
          (try_no_response_keeps addr (round 1) st h))
