-- ===== src/Net/Server/Closing.antt =====
-- The connections that a stop closes.
use mathlib.Core.Path.{subst}
use optimusprime.Prelude.{ℕ, ◌≡◌, refl, ap, sym, ◌∙◌, inr, true, false, List, [], ◌∷◌}
use optimusprime.Prelude.Ids.{contains}
use optimusprime.Net.Server.{
  Server, Event, accepts, adds, serves, receive_fails_on, deletes, stops, shuts_listener,
  closes_one, ends_closing, ends_wait, Stopping, not_called, shutting, closing, waiting, stopped,
  Fate, runs, panics, map_race, close_listener, step, run,
}
use optimusprime.Net.Server.Due.{Closes, FailedAreClosed, IsClosing}
use optimusprime.Net.Server.Closes.{
  Leads, accept-IsClosing, new_connection-Leads, serve_connection-IsClosing,
  receive_fails-IsClosing, ends_connection-Leads, stop-IsClosing, close_next-IsClosing,
  end_closing-IsClosing, end_wait-IsClosing, close_listener-IsClosing,
}

step-Leads : (start : List ℕ) (e : Event) (s : Server) → IsClosing start s → Leads start (step e s)
unfolding step
step-Leads start (accepts k) s h = accept-IsClosing start k s.accepting s h
step-Leads start (adds collides) s h = new_connection-Leads start collides s.accepting s h
step-Leads start serves s h = serve_connection-IsClosing start s.accepting s h
step-Leads start (receive_fails_on i) s h = receive_fails-IsClosing start i s h
step-Leads start (deletes collides i) s h = ends_connection-Leads start collides i s h
step-Leads start stops s h = stop-IsClosing start s h
step-Leads start shuts_listener s h = close_listener-IsClosing start s.stopping s refl h
step-Leads start (closes_one i) s h = close_next-IsClosing start i s.stopping s refl h
step-Leads start ends_closing s h = end_closing-IsClosing start s.stopping s refl h
step-Leads start ends_wait s h = end_wait-IsClosing start s.stopping s refl h

go_on :
    (start : List ℕ) (es : List Event) (f : Fate)
    → ((t : Server) → IsClosing start t → Leads start (run es t))
    → Leads start f
    → Leads start (elim f [ runs t ↦ run es t | panics ↦ panics | map_race ↦ map_race ])
go_on start es (runs t) later h = later t h
go_on start es panics later h = tt
go_on start es map_race later h = tt

run-Leads :
    (start : List ℕ) (es : List Event) (s : Server) → IsClosing start s → Leads start (run es s)
unfolding run
run-Leads start [] s h = h
run-Leads start (e ∷ es) s h =
    go_on start es (step e s) (run-Leads start es) (step-Leads start e s h)

-- The call of stop has come to its Wait, or has returned.
abbrev pub HasClosed : Stopping → Type 0
HasClosed not_called = ⊥
HasClosed shutting = ⊥
HasClosed (closing due) = ⊥
HasClosed waiting = Unit
HasClosed stopped = Unit

all_done :
    (start : List ℕ) (p : Stopping) (cs closed : List ℕ) (i : ℕ)
    → HasClosed p
    → Closes start p cs closed
    → contains i start ≡ true
    → contains i closed ≡ true
all_done start not_called cs closed i has h at = absurd h
all_done start shutting cs closed i has h at = absurd h
all_done start (closing due) cs closed i has h at = absurd has
all_done start waiting cs closed i has h at = h i at
all_done start stopped cs closed i has h at = h i at

shut_first :
    (es : List Event) (s : Server)
    → s.stopping ≡ shutting
    → run (shuts_listener ∷ es) s
      ≡ run es (record s { listener_open = false; stopping = closing s.connections })
unfolding run step close_listener
shut_first es s at = ap (λ p. run es (close_listener p s)) at

-- From the moment at which a stop closes the listener, whatever the accept loop, the connections and
-- other calls of stop do between its steps: where the process runs on and the stop has come to its Wait,
-- each connection that was in the map when the listener was closed is closed, by the stop or by its own
-- goroutine. Before that moment the flag was set, and a connection whose Receive had failed was closed.
pub stop_closes :
    (es : List Event) (s s' : Server) (i : ℕ)
    → s.stopping ≡ shutting
    → s.stop_flag ≡ 1
    → FailedAreClosed s
    → run (shuts_listener ∷ es) s ≡ runs s'
    → HasClosed s'.stopping
    → contains i s.connections ≡ true
    → contains i s'.closed ≡ true
stop_closes es s s' i at flag failed ran has there =
    let began : IsClosing s.connections
        (record s { listener_open = false; stopping = closing s.connections }) =
      record { flag = rw flag refl; failed = failed; done = λ j here. inr (here, here) } in
    let h : IsClosing s.connections s' =
      subst (Leads s.connections) (sym (shut_first es s at) ∙ ran)
        (run-Leads s.connections es _ began) in
    all_done s.connections s'.stopping s'.connections s'.closed i has h.done there
