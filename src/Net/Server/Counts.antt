-- ===== src/Net/Server/Counts.antt =====
-- The steps of the accept loop and of the connections, and the counter of the wait group.
use optimusprime.Prelude.{
  ℕ, suc, ◌+◌, ◌-◌, ◌%◌, ◌^◌, ◌≤◌, ◌<◌, ◌≡◌, refl, arith, true, false, ◌==◌, none, some, List, ◌∷◌,
  length, Bool-cases, inl, inr, ap, sym, ◌∙◌,
}
use mathlib.Core.Path.{subst}
use optimusprime.Prelude.Ids.{contains, remove, length-remove, AllBelow, remove-AllBelow}
use optimusprime.Net.Server.{
  Server, Accepting, idle, accepted, starting, Fate, runs, accept, new_connection, add_connection,
  serve_connection, ends_connection, del_connection,
}
use optimusprime.Net.Server.Tracked.{
  IsNew, Stands, IsTracked, AllBelow-mono, remove_above, below_of,
}

-- What an event leads to.
pub record Goes (s : Server) (f : Fate) : Type 0 where
  pub after : Server
  pub returns : f ≡ runs after
  pub tracked : IsTracked after
  pub ids : after.last_id ≤ s.last_id + 1

-- A step that touches neither the map, nor the counter, nor the accept loop.
pub record IsAside (s t : Server) : Type 0 where
  pub same_accepting : t.accepting ≡ s.accepting
  pub same_last : t.last_id ≡ s.last_id
  pub same_connections : t.connections ≡ s.connections
  pub same_served : t.served ≡ s.served
  pub same_wait : t.stop_wait ≡ s.stop_wait

pub aside : (s t : Server) → IsAside s t → IsTracked s → Goes s (runs t)
aside s t a h = record {
  after = t;
  returns = refl;
  tracked = record {
    stands = rw (a.same_accepting, a.same_last, a.same_connections, a.same_served) h.stands;
    counted = rw (a.same_wait, a.same_connections) h.counted;
  };
  ids = omega (arith, a.same_last);
}

stays : (s : Server) → IsTracked s → Goes s (runs s)
stays s h = record { after = s; returns = refl; tracked = h; ids = omega arith }

suc-IsNew : (last i : ℕ) (served : List ℕ) → i ≡ suc last → AllBelow last served → IsNew i i served
suc-IsNew last i served e h = record {
  positive = omega arith;
  given = omega arith;
  older = AllBelow-mono last (i - 1) served (omega arith) h;
}

at-Stands :
    (s : Server) (a : Accepting)
    → s.accepting ≡ a
    → IsTracked s
    → Stands a s.last_id s.connections s.served
at-Stands s a at h = subst (λ x. Stands x s.last_id s.connections s.served) at h.stands

pub accept-Goes :
    (s : Server) (a : Accepting)
    → s.accepting ≡ a
    → s.last_id + 1 < 2 ^ 64
    → IsTracked s
    → Goes s (runs (accept none a s))
unfolding accept
accept-Goes s idle at room h = elim (Bool-cases s.listener_open) [
  | inl is_open ↦
      let i = (s.last_id + 1) % 2 ^ 64 in
      let (same, below) = at-Stands s idle at h in
      record {
        after = record s { last_id = i; accepting = accepted i none };
        returns = rw is_open refl;
        tracked = record {
          stands = (same, suc-IsNew s.last_id i s.served (omega arith) below);
          counted = h.counted;
        };
        ids = omega arith;
      }
  | inr shut ↦ record { after = s; returns = rw shut refl; tracked = h; ids = omega arith }
]
accept-Goes s (accepted i e) at room h = stays s h
accept-Goes s (starting i) at room h = stays s h

pub new_connection-Goes :
    (s : Server) (a : Accepting) → s.accepting ≡ a → IsTracked s → Goes s (new_connection false a s)
unfolding new_connection add_connection
new_connection-Goes s idle at h = stays s h
new_connection-Goes s (accepted i none) at h =
    let (same, new) = at-Stands s (accepted i none) at h in
    let kept : remove i s.connections ≡ s.connections =
      ap (remove i) same
      ∙ remove_above (i - 1) i s.served new.older (omega (arith, new.positive))
      ∙ sym same in
    record {
      after = record s {
        connections = i ∷ remove i s.connections;
        stop_wait = suc s.stop_wait;
        accepting = starting i;
      };
      returns = refl;
      tracked = record {
        stands = (ap (λ js. i ∷ js) (kept ∙ same), new);
        counted = ap suc (h.counted ∙ sym (ap length kept));
      };
      ids = omega arith;
    }
new_connection-Goes s (accepted i (some e)) at h = absurd (at-Stands s (accepted i (some e)) at h)
new_connection-Goes s (starting i) at h = stays s h

pub serve_connection-Goes :
    (s : Server) (a : Accepting)
    → s.accepting ≡ a
    → IsTracked s
    → Goes s (runs (serve_connection a s))
unfolding serve_connection
serve_connection-Goes s idle at h = stays s h
serve_connection-Goes s (accepted i e) at h = stays s h
serve_connection-Goes s (starting i) at h =
    let (same, new) = at-Stands s (starting i) at h in
    record {
      after = record s { served = i ∷ s.served; accepting = idle };
      returns = refl;
      tracked = record {
        stands = (
          same,
          (
            new.given,
            AllBelow-mono (i - 1) s.last_id s.served (omega (arith, new.given)) new.older,
          ),
        );
        counted = h.counted;
      };
      ids = omega arith;
    }

-- The end of a connection that is served: it is in the map, and it is not the one that is new.
record IsOut (i : ℕ) (s : Server) : Type 0 where
  in_map : contains i s.connections ≡ true
  left : Stands s.accepting s.last_id (remove i s.connections) (remove i s.served)

remove-IsNew :
    (i j last : ℕ) (served : List ℕ)
    → contains i served ≡ true
    → IsNew j last served
    → IsNew j last (remove i served)
remove-IsNew i j last served has new = record {
  positive = new.positive;
  given = new.given;
  older = remove-AllBelow (j - 1) i served new.older;
}

out :
    (i : ℕ) (s : Server) (a : Accepting)
    → s.accepting ≡ a
    → contains i s.served ≡ true
    → Stands a s.last_id s.connections s.served
    → IsOut i s
unfolding contains remove
out i s idle at has (same, below) = record {
  in_map = ap (contains i) same ∙ has;
  left =
      subst (λ x. Stands x s.last_id (remove i s.connections) (remove i s.served)) (sym at)
        (ap (remove i) same, remove-AllBelow s.last_id i s.served below);
}
out i s (accepted j none) at has (same, new) = record {
  in_map = ap (contains i) same ∙ has;
  left =
      subst (λ x. Stands x s.last_id (remove i s.connections) (remove i s.served)) (sym at)
        (ap (remove i) same, remove-IsNew i j s.last_id s.served has new);
}
out i s (accepted j (some e)) at has st = absurd st
out i s (starting j) at has (same, new) =
    let apart : (j == i) ≡ false =
      ground (arith, below_of (j - 1) i s.served new.older has, new.positive) in
    record {
      in_map = ap (contains i) same ∙ rw apart has;
      left =
          subst (λ x. Stands x s.last_id (remove i s.connections) (remove i s.served)) (sym at)
            (ap (remove i) same ∙ rw apart refl, remove-IsNew i j s.last_id s.served has new);
    }

del_connection-Goes :
    (i : ℕ) (s : Server)
    → contains i s.served ≡ true
    → IsTracked s
    → Goes s (del_connection false i s)
unfolding del_connection
del_connection-Goes i s has h =
    let o = out i s s.accepting refl has h.stands in
    let some_left : suc (length (remove i s.connections)) ≡ s.stop_wait =
      length-remove i s.connections o.in_map ∙ sym h.counted in
    let not_zero : (s.stop_wait == 0) ≡ false = ground (arith, some_left) in
    record {
      after = record s {
        connections = remove i s.connections;
        stop_wait = s.stop_wait - 1;
        served = remove i s.served;
        failed = remove i s.failed;
      };
      returns = rw not_zero refl;
      tracked = record { stands = o.left; counted = omega (arith, some_left) };
      ids = omega arith;
    }

pub ends_connection-Goes : (i : ℕ) (s : Server) → IsTracked s → Goes s (ends_connection false i s)
unfolding ends_connection
ends_connection-Goes i s h = elim (Bool-cases (contains i s.served)) [
  | inl has ↦ elim (Bool-cases (contains i s.failed)) [
    | inl fails ↦ rw (has, fails) (del_connection-Goes i s has h)
    | inr reads ↦ rw (has, reads) (stays s h)
  ]
  | inr other ↦ rw other (stays s h)
]

pub unmoved : (s : Server) → IsAside s s
unmoved s = record {
  same_accepting = refl;
  same_last = refl;
  same_connections = refl;
  same_served = refl;
  same_wait = refl;
}
