-- ===== src/Net/Server/Wait.antt =====
-- The wait group of the server counts the connections of the map.
use optimusprime.Prelude.{
  ℕ, ◌+◌, ◌^◌, ◌<◌, ◌≡◌, refl, arith, Bool, true, false, not, ◌&&◌, ◌==◌, none, some, List, [], ◌∷◌,
  length, if◌then◌else◌,
}
use optimusprime.Prelude.Ids.{contains}
use optimusprime.Net.Server.{
  Server, Event, accepts, adds, serves, receive_fails_on, deletes, stops, shuts_listener,
  closes_one, ends_closing, ends_wait, Stopping, not_called, shutting, closing, waiting, stopped,
  Fate, runs, receive_fails, stop, close_listener, close_next, are_gone, end_closing, end_wait,
  step, run,
}
use optimusprime.Net.Server.Tracked.{IsTracked, IsCalm}
use optimusprime.Net.Server.Counts.{
  Goes, IsAside, aside, accept-Goes, new_connection-Goes, serve_connection-Goes,
  ends_connection-Goes, unmoved,
}

-- Such a step under a condition, or none.
choose-IsAside : (b : Bool) (s t : Server) → IsAside s t → IsAside s (if b then t else s)
choose-IsAside true s t a = a
choose-IsAside false s t a = unmoved s

receive_fails-IsAside : (i : ℕ) (s : Server) → IsAside s (receive_fails i s)
unfolding receive_fails
receive_fails-IsAside i s =
    choose-IsAside (contains i s.served && not (contains i s.failed)) s _ (record {
      same_accepting = refl;
      same_last = refl;
      same_connections = refl;
      same_served = refl;
      same_wait = refl;
    })

stop-IsAside : (s : Server) → IsAside s (stop s)
unfolding stop
stop-IsAside s = choose-IsAside (s.stop_flag == 0) s _ (record {
  same_accepting = refl;
  same_last = refl;
  same_connections = refl;
  same_served = refl;
  same_wait = refl;
})

close_listener-IsAside : (p : Stopping) (s : Server) → IsAside s (close_listener p s)
unfolding close_listener
close_listener-IsAside not_called s = unmoved s
close_listener-IsAside shutting s = record {
  same_accepting = refl;
  same_last = refl;
  same_connections = refl;
  same_served = refl;
  same_wait = refl;
}
close_listener-IsAside (closing due) s = unmoved s
close_listener-IsAside waiting s = unmoved s
close_listener-IsAside stopped s = unmoved s

close_next-IsAside : (i : ℕ) (p : Stopping) (s : Server) → IsAside s (close_next i p s)
unfolding close_next
close_next-IsAside i not_called s = unmoved s
close_next-IsAside i shutting s = unmoved s
close_next-IsAside i (closing due) s = choose-IsAside (contains i s.connections) s _ (record {
  same_accepting = refl;
  same_last = refl;
  same_connections = refl;
  same_served = refl;
  same_wait = refl;
})
close_next-IsAside i waiting s = unmoved s
close_next-IsAside i stopped s = unmoved s

end_closing-IsAside : (p : Stopping) (s : Server) → IsAside s (end_closing p s)
unfolding end_closing
end_closing-IsAside not_called s = unmoved s
end_closing-IsAside shutting s = unmoved s
end_closing-IsAside (closing due) s = choose-IsAside (are_gone due s.connections) s _ (record {
  same_accepting = refl;
  same_last = refl;
  same_connections = refl;
  same_served = refl;
  same_wait = refl;
})
end_closing-IsAside waiting s = unmoved s
end_closing-IsAside stopped s = unmoved s

end_wait-IsAside : (p : Stopping) (s : Server) → IsAside s (end_wait p s)
unfolding end_wait
end_wait-IsAside not_called s = unmoved s
end_wait-IsAside shutting s = unmoved s
end_wait-IsAside (closing due) s = unmoved s
end_wait-IsAside waiting s = choose-IsAside (s.stop_wait == 0) s _ (record {
  same_accepting = refl;
  same_last = refl;
  same_connections = refl;
  same_served = refl;
  same_wait = refl;
})
end_wait-IsAside stopped s = unmoved s

step-Goes :
    (e : Event) (es : List Event) (s : Server)
    → IsCalm (e ∷ es)
    → s.last_id + 1 < 2 ^ 64
    → IsTracked s
    → Goes s (step e s) × IsCalm es
unfolding step
step-Goes (accepts none) es s calm room h = (accept-Goes s s.accepting refl room h, calm)
step-Goes (accepts (some e)) es s calm room h = absurd calm
step-Goes (adds collides) es s (apart, calm) room h =
    (rw apart (new_connection-Goes s s.accepting refl h), calm)
step-Goes serves es s calm room h = (serve_connection-Goes s s.accepting refl h, calm)
step-Goes (receive_fails_on i) es s calm room h =
    (aside s (receive_fails i s) (receive_fails-IsAside i s) h, calm)
step-Goes (deletes collides i) es s (apart, calm) room h =
    (rw apart (ends_connection-Goes i s h), calm)
step-Goes stops es s calm room h = (aside s (stop s) (stop-IsAside s) h, calm)
step-Goes shuts_listener es s calm room h =
    (aside s (close_listener s.stopping s) (close_listener-IsAside s.stopping s) h, calm)
step-Goes (closes_one i) es s calm room h =
    (aside s (close_next i s.stopping s) (close_next-IsAside i s.stopping s) h, calm)
step-Goes ends_closing es s calm room h =
    (aside s (end_closing s.stopping s) (end_closing-IsAside s.stopping s) h, calm)
step-Goes ends_wait es s calm room h =
    (aside s (end_wait s.stopping s) (end_wait-IsAside s.stopping s) h, calm)

run_after :
    (e : Event) (es : List Event) (s : Server) {s1 : Server} {f : Fate}
    → step e s ≡ runs s1
    → run es s1 ≡ f
    → run (e ∷ es) s ≡ f
unfolding run
run_after e es s stepped ran = rw (stepped, run) ran

-- Accepted connections, reads that fail and the steps of a stop, in any order: the server runs on, so
-- that no Done panics, and the wait group counts the connections in the map, which are those that are
-- served and the one whose goroutine is started next. This holds if it held before, no SetKeepAlive
-- fails, the counter of the ids does not run over, and no write of the map falls together with the
-- iteration of closeConnections, which the runtime ends the process for, or with a Wait at a counter of 0.
pub run-IsTracked :
    (es : List Event) (s : Server)
    → IsCalm es
    → s.last_id + length es < 2 ^ 64
    → IsTracked s
    → (s' : Server) × (run es s ≡ runs s') × IsTracked s'
unfolding run
run-IsTracked [] s calm room h = (s, refl, h)
run-IsTracked (e ∷ es) s calm room h =
    let (g, more) = step-Goes e es s calm (omega arith) h in
    let (s', ran, h') = run-IsTracked es g.after more (omega (arith, g.ids)) g.tracked in
    (s', run_after e es s g.returns ran, h')
