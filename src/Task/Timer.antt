-- ===== src/Task/Timer.antt =====
-- task/timer_task.go: the start of the timers, their ticks, and the singleton tasks.
use optimusprime.Prelude.{
  ℕ, suc, ◌≤◌, ◌≡◌, refl, arith, Bool, true, false, ◌&&◌, ◌==◌, if◌then◌else◌, List, [], ◌∷◌,
  Bool-cases, inl, inr, ==_iff, ap,
}
use mathlib.Core.Path.{subst}
use optimusprime.Prelude.Map.{insert, delete, nat_eq, Lacks, IsMap}
use optimusprime.Task.{Pool, Tasks, TimerTask, TimerHandle, new_timer_task, end_timer, next_id}

-- The test of `runTimerTask`: some task of the type is a singleton.
unfoldable pub is_running : ℕ → Pool TimerTask → Bool
is_running k [] = false
is_running k ((_, t) ∷ m) = if t.type_id == k && t.singleton then true else is_running k m

-- One tick of the timer of a type.
unfoldable pub tick : ℕ → TimerHandle → Tasks → Tasks
unfolding is_running new_timer_task
tick k h st = if is_running k st.timer_pool then st else (new_timer_task k h st).1

-- `timerTaskServe`: a task of each type at once; the timers tick from then on.
unfoldable pub start_each : List (ℕ × TimerHandle) → Tasks → Tasks
unfolding new_timer_task
start_each [] st = st
start_each ((k, h) ∷ hs) st = start_each hs (new_timer_task k h st).1

unfoldable pub timer_task_serve : Tasks → Tasks
unfolding start_each
timer_task_serve st = start_each st.timer_handles st

pub data Event : Type 0 where
  ticks : ℕ → TimerHandle → Event
  ends : ℕ → Event

unfoldable pub step : Event → Tasks → Tasks
unfolding tick end_timer
step (ticks k h) st = tick k h st
step (ends i) st = end_timer i st

unfoldable pub run : List Event → Tasks → Tasks
unfolding step
run [] st = st
run (e ∷ es) st = run es (step e st)

-- The tasks of a type that run as singletons.
unfoldable pub singles : ℕ → Pool TimerTask → ℕ
singles k [] = 0
singles k ((_, t) ∷ m) = if t.type_id == k && t.singleton then suc (singles k m) else singles k m

is_running-singles : (k : ℕ) (m : Pool TimerTask) → is_running k m ≡ false → singles k m ≡ 0
unfolding is_running singles
is_running-singles k [] h = refl
is_running-singles k ((_, t) ∷ m) h = ground (arith, is_running-singles k m)

singles-insert :
    (k i : ℕ) (t : TimerTask) (m : Pool TimerTask) → singles k (insert i t m) ≤ suc (singles k m)
unfolding singles insert
singles-insert k i t [] = ground arith
singles-insert k i t ((j, u) ∷ m) = ground (arith, singles-insert k i t m)

singles-insert_other :
    (k i : ℕ) (t : TimerTask) (m : Pool TimerTask)
    → (t.type_id == k) ≡ false
    → singles k (insert i t m) ≤ singles k m
unfolding singles insert
singles-insert_other k i t [] other = ground arith
singles-insert_other k i t ((j, u) ∷ m) other = ground (arith, singles-insert_other k i t m other)

singles-delete : (k i : ℕ) (m : Pool TimerTask) → singles k (delete i m) ≤ singles k m
unfolding singles delete
singles-delete k i [] = omega arith
singles-delete k i ((j, u) ∷ m) = ground (arith, singles-delete k i m)

-- At most one singleton task of the type runs.
abbrev pub IsSingle : ℕ → Tasks → Type 0
IsSingle k st = singles k st.timer_pool ≤ 1

new_timer_task-singles :
    (k j : ℕ) (h : TimerHandle) (st : Tasks)
    → singles k (new_timer_task j h st).1.timer_pool ≤ suc (singles k st.timer_pool)
unfolding new_timer_task
new_timer_task-singles k j h st = singles-insert k (next_id st.global_task_id) _ st.timer_pool

new_timer_task-singles_other :
    (k j : ℕ) (h : TimerHandle) (st : Tasks)
    → (j == k) ≡ false
    → singles k (new_timer_task j h st).1.timer_pool ≤ singles k st.timer_pool
unfolding new_timer_task
new_timer_task-singles_other k j h st other =
    singles-insert_other k (next_id st.global_task_id) _ st.timer_pool other

-- A type that is not running gets a task.
new_timer_task-IsSingle :
    (k j : ℕ) (h : TimerHandle) (st : Tasks)
    → is_running j st.timer_pool ≡ false
    → IsSingle k st
    → IsSingle k (new_timer_task j h st).1
new_timer_task-IsSingle k j h st idle single = elim (Bool-cases (j == k)) [
  | inl same ↦ omega (
    arith,
    new_timer_task-singles k j h st,
    is_running-singles k st.timer_pool
        (subst (λ i. is_running i st.timer_pool ≡ false) ((==_iff j k).0 same) idle),
  )
  | inr other ↦ omega (arith, new_timer_task-singles_other k j h st other)
]

tick-IsSingle : (k j : ℕ) (h : TimerHandle) (st : Tasks) → IsSingle k st → IsSingle k (tick j h st)
unfolding tick
tick-IsSingle k j h st single = elim (Bool-cases (is_running j st.timer_pool)) [
  | inl running ↦ rw running single
  | inr idle ↦ rw idle (new_timer_task-IsSingle k j h st idle single)
]

step-IsSingle : (k : ℕ) (e : Event) (st : Tasks) → IsSingle k st → IsSingle k (step e st)
unfolding step end_timer
step-IsSingle k (ticks j h) st single = tick-IsSingle k j h st single
step-IsSingle k (ends i) st single = omega (arith, singles-delete k i st.timer_pool)

run-IsSingle : (k : ℕ) (es : List Event) (st : Tasks) → IsSingle k st → IsSingle k (run es st)
unfolding run
run-IsSingle k [] st single = single
run-IsSingle k (e ∷ es) st single = run-IsSingle k es (step e st) (step-IsSingle k e st single)

empty_singles : (k : ℕ) (st : Tasks) → st.timer_pool ≡ [] → singles k st.timer_pool ≡ 0
unfolding singles
empty_singles k st none_yet = ap (singles k) none_yet

start_each-Lacks :
    (k : ℕ) (hs : List (ℕ × TimerHandle)) (st : Tasks)
    → Lacks k hs
    → singles k (start_each hs st).timer_pool ≤ singles k st.timer_pool
unfolding start_each
start_each-Lacks k [] st l = omega arith
start_each-Lacks k ((j, h) ∷ hs) st (other, l) = omega (
  arith,
  start_each-Lacks k hs (new_timer_task j h st).1 l,
  new_timer_task-singles_other k j h st other,
)

start_each-singles :
    (k : ℕ) (hs : List (ℕ × TimerHandle)) (st : Tasks)
    → IsMap hs
    → singles k (start_each hs st).timer_pool ≤ suc (singles k st.timer_pool)
unfolding start_each
start_each-singles k [] st m = omega arith
start_each-singles k ((j, h) ∷ hs) st (l, m) = elim (Bool-cases (j == k)) [
  | inl same ↦ omega (
    arith,
    new_timer_task-singles k j h st,
    start_each-Lacks k hs (new_timer_task j h st).1
        (subst (λ i. Lacks i hs) ((==_iff j k).0 same) l),
  )
  | inr other ↦ omega (
    arith,
    new_timer_task-singles_other k j h st other,
    start_each-singles k hs (new_timer_task j h st).1 m,
  )
]

-- From an empty pool, TimerTaskServe and then any ticks of the timers and any ends of tasks, in any
-- order: at most one singleton task of a type runs, if no type stands twice in the map of the handles.
pub timer_task_serve-IsSingle :
    (k : ℕ) (es : List Event) (st : Tasks)
    → IsMap st.timer_handles
    → st.timer_pool ≡ []
    → IsSingle k (run es (timer_task_serve st))
unfolding timer_task_serve
timer_task_serve-IsSingle k es st m none_yet =
    run-IsSingle k es (start_each st.timer_handles st)
      (omega (arith, start_each-singles k st.timer_handles st m, empty_singles k st none_yet))
