-- ===== src/Net/Server.antt =====
-- net/tcp_server.go: the accept loop, the goroutine of each connection and the stop. A step is one
-- operation on the shared state; the steps of the goroutines come in any order. A connection is known
-- by its id.
pub mod Tracked
pub mod Counts
pub mod Wait
pub mod Due
pub mod Closes
pub mod Closing
mod Tests
use optimusprime.Prelude.{
  ℕ, suc, ◌+◌, ◌-◌, ◌%◌, ◌^◌, Bool, true, false, not, ◌&&◌, if◌then◌else◌, ◌==◌, Option, none, some,
  List, [], ◌∷◌,
}
use optimusprime.Prelude.Ids.{contains, remove}
use optimusprime.Net.Stream.{IoError}

-- Where the accept loop stands: at Accept, in newConnection with a new id and with what SetKeepAlive
-- comes to, and before it starts the goroutine.
pub data Accepting : Type 0 where
  idle : Accepting
  accepted : ℕ → Option IoError → Accepting
  starting : ℕ → Accepting

-- Where the call of stop stands that has set the flag: before listener.Close, in closeConnections with
-- the keys that were in the map as it began and have not come yet, in Wait, and behind it.
pub data Stopping : Type 0 where
  not_called : Stopping
  shutting : Stopping
  closing : List ℕ → Stopping
  waiting : Stopping
  stopped : Stopping

pub record Server : Type 0 where
  -- The keys of the map; under each stands the connection with this id.
  pub connections : List ℕ
  pub stop_flag : ℕ
  -- The counter of stopWait.
  pub stop_wait : ℕ
  pub listener_open : Bool
  -- globalTcpConnectionId, the connections that a goroutine serves, those of them whose Receive has
  -- failed, and those that were closed.
  pub last_id : ℕ
  pub served : List ℕ
  pub failed : List ℕ
  pub closed : List ℕ
  pub accepting : Accepting
  pub stopping : Stopping

unfoldable pub new_server : ℕ → Server
new_server last_id = record {
  connections = [];
  stop_flag = 0;
  stop_wait = 0;
  listener_open = true;
  last_id = last_id;
  served = [];
  failed = [];
  closed = [];
  accepting = idle;
  stopping = not_called;
}

-- What becomes of the process: it runs on, a goroutine panics, or the runtime ends it because it meets a
-- write of the map in an iteration over it.
pub data Fate : Type 0 where
  runs : Server → Fate
  panics : Fate
  map_race : Fate

-- closeConnections holds no mutex.
unfoldable pub iterates : Stopping → Bool
iterates not_called = false
iterates shutting = false
iterates (closing due) = true
iterates waiting = false
iterates stopped = false

unfoldable pub is_waiting : Stopping → Bool
is_waiting not_called = false
is_waiting shutting = false
is_waiting (closing due) = false
is_waiting waiting = true
is_waiting stopped = false

-- The map keeps a key once. A write that falls together with the iteration ends the process, and an Add
-- that falls together with a Wait at a counter of 0 is a panic; whether they fall together is given.
unfoldable pub add_connection : Bool → ℕ → Server → Fate
unfolding iterates is_waiting
add_connection collides i s =
    if collides && iterates s.stopping
    then map_race
    else if collides && is_waiting s.stopping && s.stop_wait == 0
    then panics
    else runs (record s {
      connections = i ∷ remove i s.connections;
      stop_wait = suc s.stop_wait;
      accepting = starting i;
    })

-- `Done` panics at a counter of 0.
unfoldable pub del_connection : Bool → ℕ → Server → Fate
unfolding iterates
del_connection collides i s =
    if collides && iterates s.stopping
    then map_race
    else if s.stop_wait == 0
    then panics
    else runs (record s {
      connections = remove i s.connections;
      stop_wait = s.stop_wait - 1;
      served = remove i s.served;
      failed = remove i s.failed;
    })

-- Accept returns a connection, which gets the next id. The listener is open at that moment; it may be
-- closed before the connection is added.
unfoldable pub accept : Option IoError → Accepting → Server → Server
accept keep_alive idle s =
    if s.listener_open
    then (let i = (s.last_id + 1) % 2 ^ 64 in
        record s { last_id = i; accepting = accepted i keep_alive })
    else s
accept keep_alive (accepted i e) s = s
accept keep_alive (starting i) s = s

-- The rest of newConnection: a connection without its keep-alive is not added.
unfoldable pub new_connection : Bool → Accepting → Server → Fate
unfolding add_connection
new_connection collides idle s = runs s
new_connection collides (accepted i none) s = add_connection collides i s
new_connection collides (accepted i (some e)) s = runs (record s { accepting = starting i })
new_connection collides (starting i) s = runs s

-- `serve` starts the goroutine, whatever the error was.
unfoldable pub serve_connection : Accepting → Server → Server
serve_connection idle s = s
serve_connection (accepted i e) s = s
serve_connection (starting i) s = record s { served = i ∷ s.served; accepting = idle }

unfoldable pub close_id : ℕ → List ℕ → List ℕ
close_id i closed = if contains i closed then closed else i ∷ closed

-- A Receive of serveConnection that fails: it closes the connection, and delConnection is next.
unfoldable pub receive_fails : ℕ → Server → Server
unfolding close_id
receive_fails i s =
    if contains i s.served && not (contains i s.failed)
    then record s { failed = i ∷ s.failed; closed = close_id i s.closed }
    else s

unfoldable pub ends_connection : Bool → ℕ → Server → Fate
unfolding del_connection
ends_connection collides i s =
    if contains i s.served && contains i s.failed then del_connection collides i s else runs s

-- The compare-and-swap of the flag: one call of stop goes on.
unfoldable pub stop : Server → Server
stop s = if s.stop_flag == 0 then record s { stop_flag = 1; stopping = shutting } else s

unfoldable pub close_listener : Stopping → Server → Server
close_listener not_called s = s
close_listener shutting s = record s { listener_open = false; stopping = closing s.connections }
close_listener (closing due) s = s
close_listener waiting s = s
close_listener stopped s = s

-- The iteration comes to a key of the map: one of those that are due, or one that was added since. A
-- connection that it has closed already stays closed.
unfoldable pub close_next : ℕ → Stopping → Server → Server
unfolding close_id
close_next i not_called s = s
close_next i shutting s = s
close_next i (closing due) s =
    if contains i s.connections
    then record s { closed = close_id i s.closed; stopping = closing (remove i due) }
    else s
close_next i waiting s = s
close_next i stopped s = s

-- The keys that are due and were not deleted.
unfoldable pub are_gone : List ℕ → List ℕ → Bool
are_gone [] connections = true
are_gone (i ∷ due) connections = not (contains i connections) && are_gone due connections

-- The iteration ends when no key is due that is still in the map; one that was added since need not come.
unfoldable pub end_closing : Stopping → Server → Server
unfolding are_gone
end_closing not_called s = s
end_closing shutting s = s
end_closing (closing due) s =
    if are_gone due s.connections then record s { stopping = waiting } else s
end_closing waiting s = s
end_closing stopped s = s

-- `Wait` returns.
unfoldable pub end_wait : Stopping → Server → Server
end_wait not_called s = s
end_wait shutting s = s
end_wait (closing due) s = s
end_wait waiting s = if s.stop_wait == 0 then record s { stopping = stopped } else s
end_wait stopped s = s

pub data Event : Type 0 where
  accepts : Option IoError → Event
  adds : Bool → Event
  serves : Event
  receive_fails_on : ℕ → Event
  deletes : Bool → ℕ → Event
  stops : Event
  shuts_listener : Event
  closes_one : ℕ → Event
  ends_closing : Event
  ends_wait : Event

-- An event that cannot happen changes nothing.
unfoldable pub step : Event → Server → Fate
unfolding accept new_connection serve_connection receive_fails ends_connection stop close_listener
    close_next end_closing end_wait
step (accepts keep_alive) s = runs (accept keep_alive s.accepting s)
step (adds collides) s = new_connection collides s.accepting s
step serves s = runs (serve_connection s.accepting s)
step (receive_fails_on i) s = runs (receive_fails i s)
step (deletes collides i) s = ends_connection collides i s
step stops s = runs (stop s)
step shuts_listener s = runs (close_listener s.stopping s)
step (closes_one i) s = runs (close_next i s.stopping s)
step ends_closing s = runs (end_closing s.stopping s)
step ends_wait s = runs (end_wait s.stopping s)

unfoldable pub run : List Event → Server → Fate
unfolding step
run [] s = runs s
run (e ∷ es) s = elim (step e s) [ runs s' ↦ run es s' | panics ↦ panics | map_race ↦ map_race ]
