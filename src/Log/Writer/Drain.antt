-- ===== src/Log/Writer/Drain.antt =====
-- The loop after isClosed: it takes what is in the buffer and returns.
use mathlib.Core.Path.{subst}
use optimusprime.Prelude.{
  ℕ, ◌+◌, ◌≡◌, refl, sym, ◌∙◌, arith, ◌⊎◌, inl, inr, List, [], ◌∷◌, ◌++◌, append_assoc, length,
  length-append,
}
use optimusprime.Prelude.Text.{Bytes}
use optimusprime.Log.Writer.{
  Writer, Event, writes, ends, Step, accept, write, close, drain, finish, Run, here, next, draining,
  stopped, accepted,
}
use optimusprime.Log.Writer.Stop.{accepted-append}

-- A step is left for the goroutine itself.
pub record CanGoOn (w : Writer) : Type 0 where
  pub event : Event
  pub own : accepted (event ∷ []) ≡ []
  pub after : Writer
  pub step : Step w event after

-- The goroutine after n steps of its own, of a writer with these lines: it is still in the loop and can
-- go on, or it has returned, and then they are all written.
abbrev pub IsDraining : (lines : List Bytes) → ℕ → ℕ → Writer → Type 0
IsDraining lines total n w =
    (w.written ++ w.buf ≡ lines)
    × (((w.phase ≡ draining) × (n + length w.buf ≡ total) × CanGoOn w)
        ⊎ ((w.phase ≡ stopped) × (w.buf ≡ []) × (n ≡ total + 1)))

can_go_on :
    (buf written : List Bytes) → CanGoOn (record { buf = buf; written = written; phase = draining })
can_go_on [] written = record {
  event = ends;
  own = refl;
  after = record { buf = []; written = written; phase = stopped };
  step = finish written;
}
can_go_on (b ∷ buf) written = record {
  event = writes b;
  own = refl;
  after = record { buf = buf; written = written ++ b ∷ []; phase = draining };
  step = drain b buf written;
}

nothing_before : (xs ys : List Bytes) → xs ++ ys ≡ [] → xs ≡ []
nothing_before [] ys h = refl
nothing_before (x ∷ xs) ys h = ground arith

nothing_after : (xs ys : List Bytes) → xs ++ ys ≡ [] → ys ≡ []
nothing_after [] ys h = h
nothing_after (x ∷ xs) ys h = ground arith

length-snoc : (es : List Event) (e : Event) → length (es ++ e ∷ []) ≡ length es + 1
length-snoc es e = length-append es (e ∷ [])

Step-IsDraining :
    {u v : Writer} {e : Event} (lines : List Bytes) (total n : ℕ)
    → Step u e v
    → accepted (e ∷ []) ≡ []
    → IsDraining lines total n u
    → IsDraining lines total (n + 1) v
Step-IsDraining lines total n (accept w b room) own h = ground arith
Step-IsDraining lines total n (write b rest written) own h = ground arith
Step-IsDraining lines total n (close buf written) own h = ground arith
Step-IsDraining lines total n (drain b rest written) own (same, inl (p, len, g)) = (
  append_assoc written (b ∷ []) rest ∙ same,
  inl (refl, omega (arith, len), can_go_on rest (written ++ b ∷ [])),
)
Step-IsDraining lines total n (drain b rest written) own (same, inr (p, empty, len)) = ground arith
Step-IsDraining lines total n (finish written) own (same, inl (p, len, g)) =
    (same, inr (refl, refl, omega (arith, len)))
Step-IsDraining lines total n (finish written) own (same, inr (p, empty, len)) = ground arith

-- After isClosed, and while no more lines are accepted, the goroutine always has a next step until it
-- has returned; it returns after one step for each line in the buffer and one more, and has then
-- written them all, in order, behind what it had written.
pub closed_run_drains :
    (buf written : List Bytes) (es : List Event) {v : Writer}
    → Run (record { buf = buf; written = written; phase = draining }) es v
    → accepted es ≡ []
    → IsDraining (written ++ buf) (length buf) (length es) v
closed_run_drains buf written es here own = (refl, inl (refl, omega arith, can_go_on buf written))
closed_run_drains buf written es (next {es = before} {u} {v} {e} r s) own =
    let quiet = sym (accepted-append before (e ∷ [])) ∙ own in
    subst (λ n. IsDraining (written ++ buf) (length buf) n v) (sym (length-snoc before e))
      (Step-IsDraining (written ++ buf) (length buf) (length before) s
        (nothing_after (accepted before) (accepted (e ∷ [])) quiet)
        (closed_run_drains buf written before r
          (nothing_before (accepted before) (accepted (e ∷ [])) quiet)))
