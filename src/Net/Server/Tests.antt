-- ===== src/Net/Server/Tests.antt =====
-- The theorems of the server at concrete servers, and tests of its definitions.
use optimusprime.Prelude.{◌≡◌, refl, arith, true, false, none, some, List, [], ◌∷◌}
use optimusprime.Prelude.Ids.{contains, remove}
use optimusprime.Net.Stream.{IoError}
use optimusprime.Net.Server.{
  Server, Event, accepts, adds, serves, receive_fails_on, deletes, stops, shuts_listener,
  closes_one, ends_closing, ends_wait, idle, shutting, stopped, not_called, runs, panics, map_race,
  run, step, accept, new_connection, serve_connection, receive_fails, ends_connection,
  del_connection, stop, close_listener, close_next, are_gone, end_closing, end_wait, close_id,
}
use optimusprime.Net.Server.Tracked.{IsTracked}
use optimusprime.Net.Server.Wait.{run-IsTracked}
use optimusprime.Net.Server.Closing.{stop_closes}

-- Two connections are served.
abbrev busy : Server
busy = record {
  connections = 4 ∷ 3 ∷ [];
  stop_flag = 0;
  stop_wait = 2;
  listener_open = true;
  last_id = 5;
  served = 4 ∷ 3 ∷ [];
  failed = [];
  closed = 5 ∷ [];
  accepting = idle;
  stopping = not_called;
}

busy-IsTracked : IsTracked busy
busy-IsTracked = record { stands = (refl, (omega arith, (omega arith, tt))); counted = refl }

-- The connection 6 is accepted before the listener is closed, and added after the iteration.
abbrev events : List Event
events =
    receive_fails_on 3
    ∷ accepts none
    ∷ stops
    ∷ shuts_listener
    ∷ deletes false 3
    ∷ closes_one 4
    ∷ ends_closing
    ∷ adds false
    ∷ serves
    ∷ []

run-IsTracked_example : (s' : Server) × (run events busy ≡ runs s') × IsTracked s'
run-IsTracked_example = run-IsTracked events busy (refl, (refl, tt)) (omega arith) busy-IsTracked

abbrev shut : Server
shut = record busy { stop_flag = 1; stopping = shutting }

abbrev stop_events : List Event
stop_events =
    closes_one 4
    ∷ closes_one 3
    ∷ ends_closing
    ∷ receive_fails_on 3
    ∷ deletes false 3
    ∷ receive_fails_on 4
    ∷ deletes false 4
    ∷ ends_wait
    ∷ []

abbrev ended : Server
ended = record {
  connections = [];
  stop_flag = 1;
  stop_wait = 0;
  listener_open = false;
  last_id = 5;
  served = [];
  failed = [];
  closed = 3 ∷ 4 ∷ 5 ∷ [];
  accepting = idle;
  stopping = stopped;
}

stop_closes_example : contains 3 (3 ∷ 4 ∷ 5 ∷ []) ≡ true
unfolding run step close_listener close_next close_id are_gone end_closing receive_fails
    ends_connection del_connection end_wait contains remove
stop_closes_example =
    stop_closes stop_events shut ended 3 refl refl (λ j no_one. ground arith) refl tt refl

-- A connection whose SetKeepAlive fails is served all the same, and delConnection panics.
uncounted_panics :
    (e : IoError)
    → run
        (accepts (some e) ∷ adds false ∷ serves ∷ receive_fails_on 6 ∷ deletes false 6 ∷ [])
        (record busy { connections = []; stop_wait = 0; served = []; closed = [] })
      ≡ panics
unfolding run step accept new_connection serve_connection receive_fails ends_connection
    del_connection close_id contains remove
uncounted_panics e = refl

-- A connection that ends while the stop goes through the map.
iteration_races :
    run (stops ∷ shuts_listener ∷ receive_fails_on 3 ∷ deletes true 3 ∷ []) busy ≡ map_race
unfolding run step stop close_listener receive_fails ends_connection del_connection close_id
    contains remove
iteration_races = refl
