-- ===== src/Net/Server/Due.antt =====
-- The connections that closeConnections has still to close (net/tcp_server.go).
use mathlib.Core.Path.{subst}
use optimusprime.Prelude.{
  ℕ, ◌≡◌, refl, arith, ◌⊎◌, inl, inr, true, false, ◌==◌, ==_iff, List, [], ◌∷◌, Bool-cases,
}
use optimusprime.Prelude.Ids.{contains, remove}
use optimusprime.Net.Server.{
  Server, Stopping, not_called, shutting, closing, waiting, stopped, close_id,
}

pub contains_kept :
    (i j : ℕ) (js : List ℕ)
    → (i == j) ≡ false
    → contains j js ≡ true
    → contains j (remove i js) ≡ true
unfolding contains remove
contains_kept i j [] ne has = has
contains_kept i j (k ∷ js) ne has = ground (arith, contains_kept i j js)

pub contains_removed :
    (i j : ℕ) (js : List ℕ) → contains j (remove i js) ≡ true → contains j js ≡ true
unfolding contains remove
contains_removed i j [] has = has
contains_removed i j (k ∷ js) has = ground (arith, contains_removed i j js)

pub contains_added :
    (i j : ℕ) (js : List ℕ) → contains j js ≡ true → contains j (i ∷ remove i js) ≡ true
unfolding contains
contains_added i j js has = elim (Bool-cases (i == j)) [
  | inl same ↦ rw same refl
  | inr apart ↦ rw (apart, contains_kept i j js apart has) refl
]

pub close_id_keeps :
    (i j : ℕ) (closed : List ℕ) → contains j closed ≡ true → contains j (close_id i closed) ≡ true
unfolding close_id contains
close_id_keeps i j closed has = ground arith

head_contains : (i j : ℕ) (js : List ℕ) → (i == j) ≡ true → contains j (i ∷ js) ≡ true
unfolding contains
head_contains i j js same = rw same refl

pub close_id_closes :
    (i j : ℕ) (closed : List ℕ) → (i == j) ≡ true → contains j (close_id i closed) ≡ true
unfolding close_id
close_id_closes i j closed same = elim (Bool-cases (contains i closed)) [
  | inl has ↦ rw has (subst (λ k. contains k closed ≡ true) ((==_iff i j).0 same) has)
  | inr fresh ↦ rw fresh (head_contains i j closed same)
]

-- Of the keys at the start, those that are not closed yet are due and in the map.
abbrev pub Closes : List ℕ → Stopping → List ℕ → List ℕ → Type 0
Closes start not_called connections closed = ⊥
Closes start shutting connections closed = ⊥
Closes start (closing due) connections closed =
    (j : ℕ)
    → contains j start ≡ true
    → (contains j closed ≡ true) ⊎ ((contains j due ≡ true) × (contains j connections ≡ true))
Closes start waiting connections closed =
    (j : ℕ) → contains j start ≡ true → contains j closed ≡ true
Closes start stopped connections closed =
    (j : ℕ) → contains j start ≡ true → contains j closed ≡ true

-- A connection whose Receive has failed is closed.
abbrev pub FailedAreClosed : Server → Type 0
FailedAreClosed s = (j : ℕ) → contains j s.failed ≡ true → contains j s.closed ≡ true

pub record IsClosing (start : List ℕ) (s : Server) : Type 0 where
  pub flag : (s.stop_flag == 0) ≡ false
  pub failed : FailedAreClosed s
  pub done : Closes start s.stopping s.connections s.closed

-- More connections, and more that are closed.
pub Closes_more :
    (start : List ℕ) (p : Stopping) (cs cs' closed closed' : List ℕ)
    → ((j : ℕ) → contains j cs ≡ true → contains j cs' ≡ true)
    → ((j : ℕ) → contains j closed ≡ true → contains j closed' ≡ true)
    → Closes start p cs closed
    → Closes start p cs' closed'
Closes_more start not_called cs cs' closed closed' to also h = h
Closes_more start shutting cs cs' closed closed' to also h = h
Closes_more start (closing due) cs cs' closed closed' to also h = λ j at. elim (h j at) [
  | inl shut ↦ inl (also j shut)
  | inr (later, there) ↦ inr (later, to j there)
]
Closes_more start waiting cs cs' closed closed' to also h = λ j at. also j (h j at)
Closes_more start stopped cs cs' closed closed' to also h = λ j at. also j (h j at)

-- Fewer connections, of which one that is gone is closed.
pub Closes_less :
    (start : List ℕ) (p : Stopping) (i : ℕ) (cs closed : List ℕ)
    → contains i closed ≡ true
    → Closes start p cs closed
    → Closes start p (remove i cs) closed
Closes_less start not_called i cs closed shut h = h
Closes_less start shutting i cs closed shut h = h
Closes_less start (closing due) i cs closed shut h = λ j at. elim (h j at) [
  | inl gone ↦ inl gone
  | inr (later, there) ↦ elim (Bool-cases (i == j)) [
    | inl same ↦ inl (subst (λ k. contains k closed ≡ true) ((==_iff i j).0 same) shut)
    | inr apart ↦ inr (later, contains_kept i j cs apart there)
  ]
]
Closes_less start waiting i cs closed shut h = h
Closes_less start stopped i cs closed shut h = h
