-- ===== src/Net/Server/Closes.antt =====
-- The steps of the server while a stop goes through the map.
use mathlib.Core.Path.{subst}
use optimusprime.Prelude.{
  ℕ, ◌≡◌, refl, sym, ◌∙◌, arith, inl, inr, Bool, true, false, not, ◌&&◌, ◌==◌, ==_iff,
  if◌then◌else◌, Option, none, some, List, [], ◌∷◌, Bool-cases,
}
use optimusprime.Prelude.Ids.{contains, remove}
use optimusprime.Net.Server.{
  Server, Accepting, idle, accepted, starting, Stopping, not_called, shutting, closing, waiting,
  stopped, Fate, runs, panics, map_race, iterates, is_waiting, accept, new_connection,
  add_connection, serve_connection, receive_fails, ends_connection, del_connection, stop,
  close_listener, close_next, are_gone, end_closing, end_wait, close_id,
}
use optimusprime.Net.Server.Due.{
  contains_kept, contains_removed, contains_added, close_id_keeps, close_id_closes, Closes,
  IsClosing, Closes_more, Closes_less,
}

-- What a step leads to, if the process runs on.
abbrev pub Leads : List ℕ → Fate → Type 0
Leads start (runs t) = IsClosing start t
Leads start panics = Unit
Leads start map_race = Unit

choose {ℓ} : {A : Type ℓ} (P : A → Type 0) (b : Bool) (x y : A) → P x → P y → P (if b then x else y)
choose P true x y p q = p
choose P false x y p q = q

pub accept-IsClosing :
    (start : List ℕ) (k : Option _) (a : Accepting) (s : Server)
    → IsClosing start s
    → IsClosing start (accept k a s)
unfolding accept
accept-IsClosing start k idle s h =
    choose (IsClosing start) s.listener_open _ s
      (record { flag = h.flag; failed = h.failed; done = h.done }) h
accept-IsClosing start k (accepted i e) s h = h
accept-IsClosing start k (starting i) s h = h

add_connection-Leads :
    (start : List ℕ) (collides : Bool) (i : ℕ) (s : Server)
    → IsClosing start s
    → Leads start (add_connection collides i s)
unfolding add_connection
add_connection-Leads start collides i s h =
    choose (Leads start) (collides && iterates s.stopping) map_race _ tt (
      choose (Leads start) (collides && is_waiting s.stopping && s.stop_wait == 0) panics _ tt
        (record {
          flag = h.flag;
          failed = h.failed;
          done =
              Closes_more start s.stopping s.connections (i ∷ remove i s.connections) s.closed
                s.closed (λ j. contains_added i j s.connections) (λ j at. at) h.done;
        }))

pub new_connection-Leads :
    (start : List ℕ) (collides : Bool) (a : Accepting) (s : Server)
    → IsClosing start s
    → Leads start (new_connection collides a s)
unfolding new_connection
new_connection-Leads start collides idle s h = h
new_connection-Leads start collides (accepted i none) s h =
    add_connection-Leads start collides i s h
new_connection-Leads start collides (accepted i (some e)) s h = record {
  flag = h.flag;
  failed = h.failed;
  done = h.done;
}
new_connection-Leads start collides (starting i) s h = h

pub serve_connection-IsClosing :
    (start : List ℕ) (a : Accepting) (s : Server)
    → IsClosing start s
    → IsClosing start (serve_connection a s)
unfolding serve_connection
serve_connection-IsClosing start idle s h = h
serve_connection-IsClosing start (accepted i e) s h = h
serve_connection-IsClosing start (starting i) s h = record {
  flag = h.flag;
  failed = h.failed;
  done = h.done;
}

failed_closed :
    (i j : ℕ) (failed closed : List ℕ)
    → (contains j failed ≡ true → contains j closed ≡ true)
    → contains j (i ∷ failed) ≡ true
    → contains j (close_id i closed) ≡ true
unfolding contains
failed_closed i j failed closed h has = elim (Bool-cases (i == j)) [
  | inl same ↦ close_id_closes i j closed same
  | inr apart ↦ close_id_keeps i j closed (h (sym (rw apart refl) ∙ has))
]

pub receive_fails-IsClosing :
    (start : List ℕ) (i : ℕ) (s : Server) → IsClosing start s → IsClosing start (receive_fails i s)
unfolding receive_fails
receive_fails-IsClosing start i s h =
    choose (IsClosing start) (contains i s.served && not (contains i s.failed)) _ s
      (record {
        flag = h.flag;
        failed = λ j at. failed_closed i j s.failed s.closed (h.failed j) at;
        done =
            Closes_more start s.stopping s.connections s.connections s.closed (close_id i s.closed)
              (λ j at. at) (λ j. close_id_keeps i j s.closed) h.done;
      })
      h

not_ended :
    (collides : Bool) (i : ℕ) (s : Server)
    → contains i s.failed ≡ false
    → ends_connection collides i s ≡ runs s
unfolding ends_connection
not_ended collides i s reads = ground arith

pub ends_connection-Leads :
    (start : List ℕ) (collides : Bool) (i : ℕ) (s : Server)
    → IsClosing start s
    → Leads start (ends_connection collides i s)
unfolding ends_connection del_connection
ends_connection-Leads start collides i s h = elim (Bool-cases (contains i s.failed)) [
  | inl fails ↦
      choose (Leads start) (contains i s.served && contains i s.failed) _ (runs s)
        (choose (Leads start) (collides && iterates s.stopping) map_race _ tt (
          choose (Leads start) (s.stop_wait == 0) panics _ tt (record {
            flag = h.flag;
            failed = λ j at. h.failed j (contains_removed i j s.failed at);
            done = Closes_less start s.stopping i s.connections s.closed (h.failed i fails) h.done;
          })))
        h
  | inr reads ↦ subst (Leads start) (sym (not_ended collides i s reads)) h
]

stops_once : (s : Server) → (s.stop_flag == 0) ≡ false → stop s ≡ s
unfolding stop
stops_once s set = rw set refl

pub stop-IsClosing : (start : List ℕ) (s : Server) → IsClosing start s → IsClosing start (stop s)
unfolding stop
stop-IsClosing start s h = subst (IsClosing start) (sym (stops_once s h.flag)) h

one_closed :
    (start : List ℕ) (i : ℕ) (due cs closed : List ℕ)
    → Closes start (closing due) cs closed
    → Closes start (closing (remove i due)) cs (close_id i closed)
one_closed start i due cs closed h = λ j at. elim (h j at) [
  | inl shut ↦ inl (close_id_keeps i j closed shut)
  | inr (later, there) ↦ elim (Bool-cases (i == j)) [
    | inl same ↦ inl (close_id_closes i j closed same)
    | inr apart ↦ inr (contains_kept i j due apart later, there)
  ]
]

pub close_next-IsClosing :
    (start : List ℕ) (i : ℕ) (p : Stopping) (s : Server)
    → s.stopping ≡ p
    → IsClosing start s
    → IsClosing start (close_next i p s)
unfolding close_next
close_next-IsClosing start i not_called s at h = h
close_next-IsClosing start i shutting s at h = h
close_next-IsClosing start i (closing due) s at h =
    choose (IsClosing start) (contains i s.connections) _ s
      (record {
        flag = h.flag;
        failed = λ j has. close_id_keeps i j s.closed (h.failed j has);
        done =
            one_closed start i due s.connections s.closed
              (subst (λ p. Closes start p s.connections s.closed) at h.done);
      })
      h
close_next-IsClosing start i waiting s at h = h
close_next-IsClosing start i stopped s at h = h

gone_apart :
    (j : ℕ) (due cs : List ℕ)
    → are_gone due cs ≡ true
    → contains j due ≡ true
    → contains j cs ≡ false
unfolding are_gone contains
gone_apart j [] cs gone has = ground arith
gone_apart j (k ∷ due) cs gone has = ground (arith, gone_apart j due cs, ==_iff k j)

differ : true ≡ false → ⊥
differ e = cc

all_closed :
    (start due cs closed : List ℕ)
    → are_gone due cs ≡ true
    → Closes start (closing due) cs closed
    → Closes start waiting cs closed
all_closed start due cs closed gone h = λ j at. elim (h j at) [
  | inl shut ↦ shut
  | inr (later, there) ↦ absurd (differ (sym there ∙ gone_apart j due cs gone later))
]

ends_when :
    (due : List ℕ) (s : Server)
    → are_gone due s.connections ≡ true
    → end_closing (closing due) s ≡ record s { stopping = waiting }
unfolding end_closing
ends_when due s gone = rw gone refl

goes_on :
    (due : List ℕ) (s : Server)
    → are_gone due s.connections ≡ false
    → end_closing (closing due) s ≡ s
unfolding end_closing
goes_on due s left = rw left refl

pub end_closing-IsClosing :
    (start : List ℕ) (p : Stopping) (s : Server)
    → s.stopping ≡ p
    → IsClosing start s
    → IsClosing start (end_closing p s)
unfolding end_closing
end_closing-IsClosing start not_called s at h = h
end_closing-IsClosing start shutting s at h = h
end_closing-IsClosing start (closing due) s at h = elim (Bool-cases (are_gone due s.connections)) [
  | inl gone ↦ subst (IsClosing start) (sym (ends_when due s gone)) (record {
    flag = h.flag;
    failed = h.failed;
    done =
        all_closed start due s.connections s.closed gone
          (subst (λ p. Closes start p s.connections s.closed) at h.done);
  })
  | inr left ↦ subst (IsClosing start) (sym (goes_on due s left)) h
]
end_closing-IsClosing start waiting s at h = h
end_closing-IsClosing start stopped s at h = h

pub end_wait-IsClosing :
    (start : List ℕ) (p : Stopping) (s : Server)
    → s.stopping ≡ p
    → IsClosing start s
    → IsClosing start (end_wait p s)
unfolding end_wait
end_wait-IsClosing start not_called s at h = h
end_wait-IsClosing start shutting s at h = h
end_wait-IsClosing start (closing due) s at h = h
end_wait-IsClosing start waiting s at h =
    choose (IsClosing start) (s.stop_wait == 0) _ s
      (record {
        flag = h.flag;
        failed = h.failed;
        done = subst (λ p. Closes start p s.connections s.closed) at h.done;
      })
      h
end_wait-IsClosing start stopped s at h = h

pub close_listener-IsClosing :
    (start : List ℕ) (p : Stopping) (s : Server)
    → s.stopping ≡ p
    → IsClosing start s
    → IsClosing start (close_listener p s)
unfolding close_listener
close_listener-IsClosing start not_called s at h = h
close_listener-IsClosing start shutting s at h =
    absurd (subst (λ p. Closes start p s.connections s.closed) at h.done)
close_listener-IsClosing start (closing due) s at h = h
close_listener-IsClosing start waiting s at h = h
close_listener-IsClosing start stopped s at h = h
