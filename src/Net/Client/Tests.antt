-- ===== src/Net/Client/Tests.antt =====
-- The theorems of the client at a concrete pool, and tests of its definitions.
use Prim.Native.String.{String}
use optimusprime.Prelude.{ℕ, zero, suc, ◌≡◌, refl, arith, true, none, some, [], ◌∷◌}
use optimusprime.Prelude.Map.{string_eq}
use optimusprime.Prelude.Ids.{contains}
use optimusprime.Net.Stream.{eof, failed}
use optimusprime.Net.Client.{
  ClientConn, Clients, Attempt, dialled, dial_fails, keep_alive_fails, done, fails_at_once,
  send_client_request, send_client_request_no_response,
}
use optimusprime.Net.Client.Account.{IsAccounted, pooled, conn_count, closed_count}
use optimusprime.Net.Client.Retry.{send_client_request-IsAccounted}
use optimusprime.Net.Client.Limit.{IsLimited, request-IsLimited}

-- One connection in the pool, and one that is closed.
abbrev peer : String
peer = "10.0.0.1:80"

abbrev old_conn : ClientConn
old_conn = record { id = 1; is_old_conn = true }

abbrev one_pooled : Clients
one_pooled = record {
  pool = (peer, old_conn ∷ []) ∷ [];
  connection_limit = 1000;
  last_id = 2;
  closed = 2 ∷ [];
}

one_pooled-IsAccounted : IsAccounted one_pooled
unfolding pooled conn_count closed_count contains
one_pooled-IsAccounted i = ground arith

-- The peer has closed the old connection; the new one works.
abbrev stale : ℕ → Attempt
stale zero = record {
  dial = dialled;
  deadline = none;
  sending = done tt;
  receiving = done (7 ∷ []);
}
stale (suc i) = record {
  dial = dialled;
  deadline = none;
  sending = done tt;
  receiving = fails_at_once eof;
}

stale-deadline : (i : ℕ) → (stale i).deadline ≡ none
stale-deadline zero = refl
stale-deadline (suc i) = refl

send_client_request-IsAccounted_example : IsAccounted (send_client_request peer stale one_pooled).2
send_client_request-IsAccounted_example =
    send_client_request-IsAccounted peer stale one_pooled stale-deadline one_pooled-IsAccounted

request-IsLimited_example :
    IsLimited (send_client_request peer stale one_pooled).2
    × IsLimited (send_client_request_no_response peer stale one_pooled).1
request-IsLimited_example = request-IsLimited peer stale one_pooled (omega arith, tt)

-- No deadline can be set, and the peer is gone.
abbrev gone : ℕ → Attempt
gone i = record {
  dial = dial_fails (failed 2);
  deadline = some (failed 1);
  sending = done tt;
  receiving = done [];
}

abbrev no_keep_alive : ℕ → Attempt
no_keep_alive i = record {
  dial = keep_alive_fails (failed 3);
  deadline = none;
  sending = done tt;
  receiving = done [];
}
