-- ===== src/Net/Client/Limit.antt =====
-- The bound on the connections that the pool keeps for an address.
use Prim.Native.String.{String}
use optimusprime.Prelude.{
  ℕ, ◌≤◌, ◌≡◌, arith, true, leb, none, some, List, [], ◌∷◌, length, length-append, Bool-cases, inl,
  inr, ap,
}
use optimusprime.Prelude.Map.{lookup, insert, delete, string_eq, IsMap, insert-IsMap, delete-IsMap}
use optimusprime.Net.Client.{
  ClientConn, Clients, Attempt, close_conn, connections_of, close_client_tcp_connection,
  free_client_tcp_connection, send_client_request, send_client_request_no_response,
}
use optimusprime.Net.Client.Keep.{IsKept, request_keeps, request_no_response_keeps}

-- No address has more than n connections in the pool.
abbrev pub AllWithin : ℕ → List (String × List ClientConn) → Type 0
AllWithin n [] = Unit
AllWithin n ((_, cs) ∷ m) = (length cs ≤ n) × AllWithin n m

abbrev pub IsLimited : Clients → Type 0
IsLimited st = AllWithin st.connection_limit st.pool

insert-AllWithin :
    (n : ℕ) (addr : String) (cs : List ClientConn) (m : List (String × List ClientConn))
    → length cs ≤ n
    → AllWithin n m
    → AllWithin n (insert addr cs m)
unfolding insert
insert-AllWithin n addr cs [] le h = (le, tt)
insert-AllWithin n addr cs ((a, ds) ∷ m) le (d, h) =
    ground (arith, insert-AllWithin n addr cs m le h)

delete-AllWithin :
    (n : ℕ) (addr : String) (m : List (String × List ClientConn))
    → AllWithin n m
    → AllWithin n (delete addr m)
unfolding delete
delete-AllWithin n addr [] h = tt
delete-AllWithin n addr ((a, ds) ∷ m) (d, h) = ground (arith, delete-AllWithin n addr m h)

lookup-AllWithin :
    (n : ℕ) (addr : String) (m : List (String × List ClientConn))
    → AllWithin n m
    → length (elim (lookup addr m) [ none ↦ [] | some cs ↦ cs ]) ≤ n
unfolding lookup
lookup-AllWithin n addr [] h = omega arith
lookup-AllWithin n addr ((a, ds) ∷ m) (d, h) = ground (arith, lookup-AllWithin n addr m h)

take-IsLimited :
    (addr : String) (st : Clients) (c : ClientConn) (cs : List ClientConn)
    → connections_of addr st ≡ c ∷ cs
    → IsLimited st
    → IsLimited (record st { pool = insert addr cs st.pool })
unfolding connections_of
take-IsLimited addr st c cs e h =
    insert-AllWithin st.connection_limit addr cs st.pool
      (omega (arith, ap length e, lookup-AllWithin st.connection_limit addr st.pool h)) h

free-IsLimited :
    (addr : String) (c : ClientConn) (st : Clients)
    → IsLimited st
    → IsLimited (free_client_tcp_connection addr c st)
unfolding free_client_tcp_connection
free-IsLimited addr c st h =
    elim (Bool-cases (leb st.connection_limit (length (connections_of addr st)))) [
      | inl full ↦ rw full h
      | inr room ↦ rw room (
          insert-AllWithin st.connection_limit addr _ st.pool
            (ground (
              arith,
              length-append (connections_of addr st) (record c { is_old_conn = true } ∷ []),
            ))
            h)
    ]

IsLimited-kept : IsKept IsLimited
unfolding close_conn close_client_tcp_connection
IsLimited-kept = record {
  by_take = take-IsLimited;
  by_new = λ st h. h;
  by_close = λ c st h. h;
  by_close_all = λ addr st h. delete-AllWithin st.connection_limit addr st.pool h;
  by_free = free-IsLimited;
}

-- A request of either kind, whatever its rounds meet, leaves no address with more connections in the
-- pool than the limit, if there were not more before it.
pub request-IsLimited :
    (addr : String) (round : ℕ → Attempt) (st : Clients)
    → IsLimited st
    → IsLimited (send_client_request addr round st).2
      × IsLimited (send_client_request_no_response addr round st).1
request-IsLimited addr round st h = (
  request_keeps IsLimited IsLimited-kept addr round st h,
  request_no_response_keeps IsLimited IsLimited-kept addr round st h,
)

-- No address stands in the pool twice.
abbrev pub HasMap : Clients → Type 0
HasMap st = IsMap st.pool

free-HasMap :
    (addr : String) (c : ClientConn) (st : Clients)
    → HasMap st
    → HasMap (free_client_tcp_connection addr c st)
unfolding free_client_tcp_connection
free-HasMap addr c st h =
    elim (Bool-cases (leb st.connection_limit (length (connections_of addr st)))) [
      | inl full ↦ rw full h
      | inr room ↦ rw room (insert-IsMap addr _ st.pool h)
    ]

pub HasMap-kept : IsKept HasMap
unfolding close_conn close_client_tcp_connection
HasMap-kept = record {
  by_take = λ addr st c cs e h. insert-IsMap addr cs st.pool h;
  by_new = λ st h. h;
  by_close = λ c st h. h;
  by_close_all = λ addr st h. delete-IsMap addr st.pool h;
  by_free = free-HasMap;
}
