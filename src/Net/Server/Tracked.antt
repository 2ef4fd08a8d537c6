-- ===== src/Net/Server/Tracked.antt =====
-- What the wait group of the server counts (net/tcp_server.go).
use optimusprime.Prelude.{
  ℕ, ◌-◌, ◌≤◌, ◌<◌, ◌≡◌, refl, arith, true, false, none, some, List, [], ◌∷◌, length,
}
use optimusprime.Prelude.Ids.{contains, remove, AllBelow}
use optimusprime.Net.Server.{
  Server, Event, accepts, adds, serves, receive_fails_on, deletes, stops, shuts_listener,
  closes_one, ends_closing, ends_wait, Accepting, idle, accepted, starting,
}

-- The id is the last one that was given out, or one before it, and those that are served are older.
pub record IsNew (i last : ℕ) (served : List ℕ) : Type 0 where
  pub positive : 1 ≤ i
  pub given : i ≤ last
  pub older : AllBelow (i - 1) served

-- The map has the connections that are served, and the one whose goroutine is started next.
abbrev pub Stands : Accepting → ℕ → List ℕ → List ℕ → Type 0
Stands idle last connections served = (connections ≡ served) × AllBelow last served
Stands (accepted i none) last connections served = (connections ≡ served) × IsNew i last served
Stands (accepted i (some e)) last connections served = ⊥
Stands (starting i) last connections served = (connections ≡ i ∷ served) × IsNew i last served

pub record IsTracked (s : Server) : Type 0 where
  pub stands : Stands s.accepting s.last_id s.connections s.served
  pub counted : s.stop_wait ≡ length s.connections

-- No SetKeepAlive fails, and no write of the map falls together with the iteration of closeConnections
-- or with a Wait.
abbrev pub IsCalm : List Event → Type 0
IsCalm [] = Unit
IsCalm (accepts none ∷ es) = IsCalm es
IsCalm (accepts (some e) ∷ es) = ⊥
IsCalm (adds collides ∷ es) = (collides ≡ false) × IsCalm es
IsCalm (serves ∷ es) = IsCalm es
IsCalm (receive_fails_on i ∷ es) = IsCalm es
IsCalm (deletes collides i ∷ es) = (collides ≡ false) × IsCalm es
IsCalm (stops ∷ es) = IsCalm es
IsCalm (shuts_listener ∷ es) = IsCalm es
IsCalm (closes_one i ∷ es) = IsCalm es
IsCalm (ends_closing ∷ es) = IsCalm es
IsCalm (ends_wait ∷ es) = IsCalm es

pub AllBelow-mono : (n m : ℕ) (js : List ℕ) → n ≤ m → AllBelow n js → AllBelow m js
AllBelow-mono n m [] le h = tt
AllBelow-mono n m (j ∷ js) le (b, h) = (omega arith, AllBelow-mono n m js le h)

pub remove_above : (n i : ℕ) (js : List ℕ) → AllBelow n js → n < i → remove i js ≡ js
unfolding remove
remove_above n i [] h lt = refl
remove_above n i (j ∷ js) (le, h) lt = ground (arith, remove_above n i js h lt)

-- An id of the list is not above it.
pub below_of : (n i : ℕ) (js : List ℕ) → AllBelow n js → contains i js ≡ true → i ≤ n
unfolding contains
below_of n i [] h has = ground arith
below_of n i (j ∷ js) (le, h) has = ground (arith, below_of n i js h)
