-- ===== src/Task/Run/Signal.antt =====
-- When `Run` of an HTTP task returns: behind its handler, or at its time limit.
use mathlib.Core.Path.{subst}
use mathlib.Core.Option.{some-injective}
use optimusprime.Prelude.{
  ◌≡◌, refl, ap, sym, ◌∙◌, ◌⊎◌, inl, inr, Bool, true, false, none, some, List, [], ◌∷◌,
}
use optimusprime.Prelude.Text.{Bytes}
use optimusprime.Prelude.Int.{ℤ, pos, ◌<ℤ◌}
use optimusprime.Task.Run.{
  Caller, waiting, returned, Returned, result, timeout_error, RunState, start_run, leave_run, Step,
  receives, closes_channel, finds_closed, times_out, sets_state, deletes_task, leaves, works_on,
  returns, recovers, crashes, Steps, stays, goes, Action, sends, closes, panics, works, hangs,
  Worker, runs, ended, crashed, panics_now, http_actions, HttpRun,
}
use optimusprime.Task.Run.First.{answer_of}

-- What the goroutine of an HTTP task has to do before it is behind its signal.
abbrev Ahead : List Action → Type 0
Ahead [] = ⊥
Ahead (sends bs ∷ acts) = (bs ≡ []) × (acts ≡ [])
Ahead (closes ∷ acts) = ⊥
Ahead (panics ∷ acts) = Unit
Ahead (works ∷ acts) = Ahead acts
Ahead (hangs ∷ acts) = Unit

http_actions-Ahead : (p : Bool) (acts : List Action) → Ahead (http_actions p acts)
unfolding http_actions
http_actions-Ahead p [] = (refl, refl)
http_actions-Ahead true (panics ∷ acts) = (refl, refl)
http_actions-Ahead false (panics ∷ acts) = tt
http_actions-Ahead p (sends bs ∷ acts) = http_actions-Ahead p acts
http_actions-Ahead p (closes ∷ acts) = http_actions-Ahead p acts
http_actions-Ahead p (works ∷ acts) = http_actions-Ahead p acts
http_actions-Ahead p (hangs ∷ acts) = tt

-- The moments of such a run.
data IsServed (t : ℤ) (s : RunState) : Type 0 where
  serving :
      (todo : List Action)
      → s.caller ≡ waiting
      → s.closed ≡ false
      → s.worker ≡ runs todo
      → Ahead todo
      → IsServed t s
  lost :
      s.caller ≡ waiting
      → s.closed ≡ false
      → (s.worker ≡ ended) ⊎ (s.worker ≡ crashed)
      → IsServed t s
  signalled :
      answer_of s.caller ≡ some (result [])
      → s.closed ≡ false
      → (s.worker ≡ runs []) ⊎ (s.worker ≡ ended)
      → IsServed t s
  timed : answer_of s.caller ≡ some timeout_error → pos 0 <ℤ t → IsServed t s

todo_of : (xs ys : List Action) → runs xs ≡ runs ys → xs ≡ ys
todo_of xs ys e = cc

no_answer : (r : Returned) → none ≡ some r → ⊥
no_answer r e = cc

idle_panics : (closed : Bool) → panics_now closed [] ≡ true → ⊥
unfolding panics_now
idle_panics closed e = cc

head_signal :
    (todo : List Action) (bs : Bytes) (acts : List Action)
    → runs todo ≡ runs (sends bs ∷ acts)
    → Ahead todo
    → (bs ≡ []) × (acts ≡ [])
head_signal todo bs acts e h = subst Ahead (todo_of todo (sends bs ∷ acts) e) h

never_closes : (todo acts : List Action) → runs todo ≡ runs (closes ∷ acts) → Ahead todo → ⊥
never_closes todo acts e h = subst Ahead (todo_of todo (closes ∷ acts) e) h

after_work : (todo acts : List Action) → runs todo ≡ runs (works ∷ acts) → Ahead todo → Ahead acts
after_work todo acts e h = subst Ahead (todo_of todo (works ∷ acts) e) h

not_waiting : {c : Caller} {r : Returned} → c ≡ waiting → answer_of c ≡ some r → ⊥
not_waiting {r} w e = no_answer r (sym (ap answer_of w) ∙ e)

no_action_panics :
    (acts : List Action) (closed : Bool) (w : Worker)
    → (w ≡ runs []) ⊎ (w ≡ ended)
    → w ≡ runs acts
    → panics_now closed acts ≡ true
    → ⊥
no_action_panics acts closed w (inl e) a c =
    idle_panics closed (subst (λ xs. panics_now closed xs ≡ true) (todo_of acts [] (sym a ∙ e)) c)
no_action_panics acts closed w (inr e) a c = cc

IsServed-Step : {t : ℤ} {p : Bool} (s u : RunState) → Step t p s u → IsServed t s → IsServed t u
unfolding leave_run
IsServed-Step s u (receives {bs} {acts} w a c) (serving todo w' c' a' h) =
    let (same, last) = head_signal todo bs acts (sym a' ∙ a) h in
    signalled (ap (λ x. some (result x)) same) c' (inl (ap runs last))
IsServed-Step s u (receives {bs} {acts} w a c) (lost w' c' a') = elim a' [ inl e ↦ cc | inr e ↦ cc ]
IsServed-Step s u (receives {bs} {acts} w a c) (signalled e c' a') = absurd (not_waiting w e)
IsServed-Step s u (receives {bs} {acts} w a c) (timed e l') = absurd (not_waiting w e)
IsServed-Step s u (closes_channel a c) (serving todo w' c' a' h) =
    absurd (never_closes todo _ (sym a' ∙ a) h)
IsServed-Step s u (closes_channel a c) (lost w' c' a') = elim a' [ inl e ↦ cc | inr e ↦ cc ]
IsServed-Step s u (closes_channel a c) (signalled e c' a') = elim a' [ inl e' ↦ cc | inr e' ↦ cc ]
IsServed-Step s u (closes_channel a c) (timed e l') = timed e l'
IsServed-Step s u (finds_closed w c) (serving todo w' c' a' h) = cc
IsServed-Step s u (finds_closed w c) (lost w' c' a') = cc
IsServed-Step s u (finds_closed w c) (signalled e c' a') = absurd (not_waiting w e)
IsServed-Step s u (finds_closed w c) (timed e l') = absurd (not_waiting w e)
IsServed-Step s u (times_out l w) (serving todo w' c' a' h) = timed refl l
IsServed-Step s u (times_out l w) (lost w' c' a') = timed refl l
IsServed-Step s u (times_out l w) (signalled e c' a') = absurd (not_waiting w e)
IsServed-Step s u (times_out l w) (timed e l') = absurd (not_waiting w e)
IsServed-Step s u (sets_state a) (serving todo w' c' a' h) = cc
IsServed-Step s u (sets_state a) (lost w' c' a') = cc
IsServed-Step s u (sets_state a) (signalled e c' a') = signalled (sym (ap answer_of a) ∙ e) c' a'
IsServed-Step s u (sets_state a) (timed e l') = timed (sym (ap answer_of a) ∙ e) l'
IsServed-Step s u (deletes_task a) (serving todo w' c' a' h) = cc
IsServed-Step s u (deletes_task a) (lost w' c' a') = cc
IsServed-Step s u (deletes_task a) (signalled e c' a') = signalled (sym (ap answer_of a) ∙ e) c' a'
IsServed-Step s u (deletes_task a) (timed e l') = timed (sym (ap answer_of a) ∙ e) l'
IsServed-Step s u (leaves a) (serving todo w' c' a' h) = cc
IsServed-Step s u (leaves a) (lost w' c' a') = cc
IsServed-Step s u (leaves a) (signalled e c' a') = signalled (sym (ap answer_of a) ∙ e) c' a'
IsServed-Step s u (leaves a) (timed e l') = timed (sym (ap answer_of a) ∙ e) l'
IsServed-Step s u (works_on {acts} a) (serving todo w' c' a' h) =
    serving acts w' c' refl (after_work todo acts (sym a' ∙ a) h)
IsServed-Step s u (works_on {acts} a) (lost w' c' a') = elim a' [ inl e ↦ cc | inr e ↦ cc ]
IsServed-Step s u (works_on {acts} a) (signalled e c' a') = elim a' [ inl e' ↦ cc | inr e' ↦ cc ]
IsServed-Step s u (works_on {acts} a) (timed e l') = timed e l'
IsServed-Step s u (returns a) (serving todo w' c' a' h) = lost w' c' (inl refl)
IsServed-Step s u (returns a) (lost w' c' a') = lost w' c' (inl refl)
IsServed-Step s u (returns a) (signalled e c' a') = signalled e c' (inr refl)
IsServed-Step s u (returns a) (timed e l') = timed e l'
IsServed-Step s u (recovers {acts} p a c) (serving todo w' c' a' h) = lost w' c' (inl refl)
IsServed-Step s u (recovers {acts} p a c) (lost w' c' a') = lost w' c' (inl refl)
IsServed-Step s u (recovers {acts} p a c) (signalled e c' a') =
    absurd (no_action_panics acts s.closed s.worker a' a c)
IsServed-Step s u (recovers {acts} p a c) (timed e l') = timed e l'
IsServed-Step s u (crashes {acts} p a c) (serving todo w' c' a' h) = lost w' c' (inr refl)
IsServed-Step s u (crashes {acts} p a c) (lost w' c' a') = lost w' c' (inr refl)
IsServed-Step s u (crashes {acts} p a c) (signalled e c' a') =
    absurd (no_action_panics acts s.closed s.worker a' a c)
IsServed-Step s u (crashes {acts} p a c) (timed e l') = timed e l'

IsServed-Steps : {t : ℤ} {p : Bool} (s u : RunState) → Steps t p s u → IsServed t s → IsServed t u
IsServed-Steps s u stays h = h
IsServed-Steps s u (goes {t = v} one more) h = IsServed-Steps v u more (IsServed-Step s v one h)

returned_served :
    (t : ℤ) (r : Returned) (u : RunState)
    → u.caller ≡ returned r
    → IsServed t u
    → ((r ≡ result []) × ((u.worker ≡ runs []) ⊎ (u.worker ≡ ended)))
      ⊎ ((r ≡ timeout_error) × (pos 0 <ℤ t))
returned_served t r u left (serving todo w c a h) = cc
returned_served t r u left (lost w c a) = cc
returned_served t r u left (signalled e c a) =
    inl (some-injective r (result []) (sym (ap answer_of left) ∙ e), a)
returned_served t r u left (timed e l) =
    inr (some-injective r timeout_error (sym (ap answer_of left) ∙ e), l)

-- `Run` of an HTTP task, whatever its handler does and with or without the protection: it returns
-- without an error only where the goroutine of the handler is behind its signal, so that the handler
-- has ended, and else only the timeout error, where there is a time limit.
pub http_returns :
    (t : ℤ) (p : Bool) (acts : List Action) (r : Returned) (u : RunState)
    → HttpRun t p acts u
    → u.caller ≡ returned r
    → ((r ≡ result []) × ((u.worker ≡ runs []) ⊎ (u.worker ≡ ended)))
      ⊎ ((r ≡ timeout_error) × (pos 0 <ℤ t))
unfolding start_run
http_returns t p acts r u steps left = returned_served t r u left (
    IsServed-Steps (start_run (http_actions p acts)) u steps
      (serving (http_actions p acts) refl refl refl (http_actions-Ahead p acts)))
