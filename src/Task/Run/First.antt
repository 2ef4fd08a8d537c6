-- ===== src/Task/Run/First.antt =====
-- Which message `Run` returns.
use optimusprime.Prelude.{
  ◌≡◌, refl, ap, sym, ◌∙◌, ◌⊎◌, inl, inr, Bool, false, Option, none, some, List, ◌∷◌,
}
use optimusprime.Prelude.Text.{Bytes}
use optimusprime.Prelude.Int.{ℤ}
use optimusprime.Task.Run.{
  Caller, waiting, answered, finished, deleted, returned, Returned, result, timeout_error, RunState,
  start_run, leave_run, Step, receives, closes_channel, finds_closed, times_out, sets_state,
  deletes_task, leaves, works_on, returns, recovers, crashes, Steps, stays, goes, Action, sends,
  runs,
}
use optimusprime.Task.Run.Blocked.{no_panic}

-- The answer that the caller has, if it has one.
abbrev pub answer_of : Caller → Option Returned
answer_of waiting = none
answer_of (answered r) = some r
answer_of (finished r) = some r
answer_of (deleted r) = some r
answer_of (returned r) = some r

-- The runs of a handler whose first action is to send b.
data IsFirst (b : Bytes) (rest : List Action) (s : RunState) : Type 0 where
  still_waits :
      s.caller ≡ waiting → s.closed ≡ false → s.worker ≡ runs (sends b ∷ rest) → IsFirst b rest s
  has_message : answer_of s.caller ≡ some (result b) → IsFirst b rest s
  has_timeout : answer_of s.caller ≡ some timeout_error → IsFirst b rest s

first_sent :
    (bs b : Bytes) (acts rest : List Action)
    → runs (sends bs ∷ acts) ≡ runs (sends b ∷ rest)
    → bs ≡ b
first_sent bs b acts rest e = cc

IsFirst-Step :
    {t : ℤ} {p : Bool} (b : Bytes) (rest : List Action) (s u : RunState)
    → Step t p s u
    → IsFirst b rest s
    → IsFirst b rest u
unfolding leave_run
IsFirst-Step b rest s u (receives {bs} {acts} w a c) (still_waits w' c' a') =
    has_message (ap (λ x. some (result x)) (first_sent bs b acts rest (sym a ∙ a')))
IsFirst-Step b rest s u (receives w a c) (has_message e) = cc
IsFirst-Step b rest s u (receives w a c) (has_timeout e) = cc
IsFirst-Step b rest s u (closes_channel a c) (still_waits w' c' a') = cc
IsFirst-Step b rest s u (closes_channel a c) (has_message e) = has_message e
IsFirst-Step b rest s u (closes_channel a c) (has_timeout e) = has_timeout e
IsFirst-Step b rest s u (finds_closed w c) (still_waits w' c' a') = cc
IsFirst-Step b rest s u (finds_closed w c) (has_message e) = cc
IsFirst-Step b rest s u (finds_closed w c) (has_timeout e) = cc
IsFirst-Step b rest s u (times_out l w) h = has_timeout refl
IsFirst-Step b rest s u (sets_state a) (still_waits w' c' a') = cc
IsFirst-Step b rest s u (sets_state a) (has_message e) = has_message (sym (ap answer_of a) ∙ e)
IsFirst-Step b rest s u (sets_state a) (has_timeout e) = has_timeout (sym (ap answer_of a) ∙ e)
IsFirst-Step b rest s u (deletes_task a) (still_waits w' c' a') = cc
IsFirst-Step b rest s u (deletes_task a) (has_message e) = has_message (sym (ap answer_of a) ∙ e)
IsFirst-Step b rest s u (deletes_task a) (has_timeout e) = has_timeout (sym (ap answer_of a) ∙ e)
IsFirst-Step b rest s u (leaves a) (still_waits w' c' a') = cc
IsFirst-Step b rest s u (leaves a) (has_message e) = has_message (sym (ap answer_of a) ∙ e)
IsFirst-Step b rest s u (leaves a) (has_timeout e) = has_timeout (sym (ap answer_of a) ∙ e)
IsFirst-Step b rest s u (works_on a) (still_waits w' c' a') = cc
IsFirst-Step b rest s u (works_on a) (has_message e) = has_message e
IsFirst-Step b rest s u (works_on a) (has_timeout e) = has_timeout e
IsFirst-Step b rest s u (returns a) (still_waits w' c' a') = cc
IsFirst-Step b rest s u (returns a) (has_message e) = has_message e
IsFirst-Step b rest s u (returns a) (has_timeout e) = has_timeout e
IsFirst-Step b rest s u (recovers p a c) (still_waits w' c' a') =
    elim (no_panic rest b _ s.closed (sym a ∙ a') c' c) [ ]
IsFirst-Step b rest s u (recovers p a c) (has_message e) = has_message e
IsFirst-Step b rest s u (recovers p a c) (has_timeout e) = has_timeout e
IsFirst-Step b rest s u (crashes p a c) (still_waits w' c' a') =
    elim (no_panic rest b _ s.closed (sym a ∙ a') c' c) [ ]
IsFirst-Step b rest s u (crashes p a c) (has_message e) = has_message e
IsFirst-Step b rest s u (crashes p a c) (has_timeout e) = has_timeout e

IsFirst-Steps :
    {t : ℤ} {p : Bool} (b : Bytes) (rest : List Action) (s u : RunState)
    → Steps t p s u
    → IsFirst b rest s
    → IsFirst b rest u
IsFirst-Steps b rest s u stays h = h
IsFirst-Steps b rest s u (goes {t = v} one more) h =
    IsFirst-Steps b rest v u more (IsFirst-Step b rest s v one h)

returned_first :
    (b : Bytes) (rest : List Action) (r : Returned) (u : RunState)
    → u.caller ≡ returned r
    → IsFirst b rest u
    → (r ≡ result b) ⊎ (r ≡ timeout_error)
returned_first b rest r u left (still_waits w c a) = cc
returned_first b rest r u left (has_message e) = inl cc
returned_first b rest r u left (has_timeout e) = inr cc

-- A TCP or websocket task whose handler sends: `Run` returns the first message that the handler sends,
-- or its timeout error, whatever the handler does behind that message.
pub run_returns_first :
    (t : ℤ) (p : Bool) (b : Bytes) (rest : List Action) (r : Returned) (u : RunState)
    → Steps t p (start_run (sends b ∷ rest)) u
    → u.caller ≡ returned r
    → (r ≡ result b) ⊎ (r ≡ timeout_error)
unfolding start_run
run_returns_first t p b rest r u steps left =
    returned_first b rest r u left
      (IsFirst-Steps b rest (start_run (sends b ∷ rest)) u steps (still_waits refl refl refl))
