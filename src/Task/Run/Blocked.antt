-- ===== src/Task/Run/Blocked.antt =====
-- The runs in which the caller of `Run` waits for its handler for ever.
use optimusprime.Prelude.{◌≡◌, Bool, true, false, List, [], ◌∷◌}
use optimusprime.Prelude.Text.{Bytes}
use optimusprime.Task.Run.{
  waiting, RunState, Action, sends, panics, closes, works, hangs, runs, ended, panics_now,
}

-- A caller that waits without a limit for a handler that is about to panic, or has ended.
data IsHopeless : RunState → Type 0 where
  still_runs :
      {s : RunState}
      → s.caller ≡ waiting
      → s.closed ≡ false
      → s.in_pool ≡ true
      → s.worker ≡ runs (panics ∷ [])
      → IsHopeless s
  has_ended :
      {s : RunState}
      → s.caller ≡ waiting
      → s.closed ≡ false
      → s.in_pool ≡ true
      → s.worker ≡ ended
      → IsHopeless s

-- A handler that sends on an open channel does not panic.
pub no_panic :
    (acts : List Action) (bs : Bytes) (acts' : List Action) (closed : Bool)
    → runs acts' ≡ runs (sends bs ∷ acts)
    → closed ≡ false
    → panics_now closed acts' ≡ true
    → ⊥
unfolding panics_now
no_panic acts bs [] closed e is_open c = cc
no_panic acts bs (panics ∷ xs) closed e is_open c = cc
no_panic acts bs (sends x ∷ xs) closed e is_open c = cc
no_panic acts bs (closes ∷ xs) closed e is_open c = cc
no_panic acts bs (works ∷ xs) closed e is_open c = cc
no_panic acts bs (hangs ∷ xs) closed e is_open c = cc
