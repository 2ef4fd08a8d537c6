-- ===== src/Task/Lookup.antt =====
-- The tasks of a pool by the goroutine that runs them (task/task_common.go and the GetXTaskByGid of
-- each kind), and the log lines of the tasks. Go goes through a map in any order; here it is the
-- order of the list.
pub mod Found
pub mod Log
use Prim.Native.String.{String}
use optimusprime.Prelude.{
  ℕ, ◌+◌, Bool, true, false, ◌==◌, if◌then◌else◌, Option, none, some, List, [], ◌∷◌, length,
}
use optimusprime.Prelude.Text.{Bytes}
use optimusprime.Prelude.Split.{split}
use optimusprime.Task.{Pool, Tasks, Task, TimerTask, Handler}

unfoldable pub get_by_gid : {T : Type 0} → (T → ℕ) → ℕ → Pool T → Option T
get_by_gid gid g [] = none
get_by_gid gid g ((_, t) ∷ m) = if gid t == g then some t else get_by_gid gid g m

unfoldable pub get_tcp_task_by_gid : ℕ → Tasks → Option (Task ℕ)
unfolding get_by_gid
get_tcp_task_by_gid g st = get_by_gid (λ t. t.gid) g st.tcp_pool

unfoldable pub get_http_task_by_gid : ℕ → Tasks → Option (Task String)
unfolding get_by_gid
get_http_task_by_gid g st = get_by_gid (λ t. t.gid) g st.http_pool

unfoldable pub get_ws_task_by_gid : ℕ → Tasks → Option (Task String)
unfolding get_by_gid
get_ws_task_by_gid g st = get_by_gid (λ t. t.gid) g st.ws_pool

unfoldable pub get_api_task_by_gid : ℕ → Tasks → Option (Task String)
unfolding get_by_gid
get_api_task_by_gid g st = get_by_gid (λ t. t.gid) g st.api_pool

unfoldable pub get_timer_task_by_gid : ℕ → Tasks → Option TimerTask
unfolding get_by_gid
get_timer_task_by_gid g st = get_by_gid (λ t. t.gid) g st.timer_pool

pub data AnyTask : Type 0 where
  tcp_task : Task ℕ → AnyTask
  timer_task : TimerTask → AnyTask
  http_task : Task String → AnyTask

-- The TCP tasks, then the timer tasks, then the HTTP tasks.
unfoldable pub http_or_none : Option (Task String) → Option AnyTask
http_or_none none = none
http_or_none (some t) = some (http_task t)

unfoldable pub timer_or_http : Option TimerTask → Option (Task String) → Option AnyTask
unfolding http_or_none
timer_or_http none h = http_or_none h
timer_or_http (some t) h = some (timer_task t)

unfoldable pub tcp_or_others :
    Option (Task ℕ) → Option TimerTask → Option (Task String) → Option AnyTask
unfolding timer_or_http
tcp_or_others none t h = timer_or_http t h
tcp_or_others (some c) t h = some (tcp_task c)

unfoldable pub get_task_by_gid : ℕ → Tasks → Option AnyTask
unfolding tcp_or_others get_tcp_task_by_gid get_timer_task_by_gid get_http_task_by_gid
get_task_by_gid g st =
    tcp_or_others (get_tcp_task_by_gid g st) (get_timer_task_by_gid g st)
      (get_http_task_by_gid g st)

-- The second part; an index out of range panics (`none`).
unfoldable pub second : List Bytes → Option Bytes
second [] = none
second (w ∷ []) = none
second (w ∷ v ∷ ws) = some v

unfoldable pub get_task_func_name : Handler → Option Bytes
unfolding split second
get_task_func_name h = second (split h.full_name)

-- The format that `taskLog` hands on: with the task in front of it, or the empty one.
pub data Format : Type 0 where
  no_format : Format
  tagged : String → ℕ → Bytes → Bytes → Format

unfoldable pub new_format : Option AnyTask → Bytes → Format
new_format none f = no_format
new_format (some (tcp_task t)) f = tagged "TCP_TASK" t.id t.func_name f
new_format (some (timer_task t)) f = tagged "TIMER_TASK" t.id t.func_name f
new_format (some (http_task t)) f = tagged "HTTP_TASK" t.id t.func_name f

pub data Level : Type 0 where
  debug info warn error : Level

-- The call of package log.
unfoldable pub task_log : Level → Bytes → ℕ → Tasks → Level × Format
unfolding new_format get_task_by_gid
task_log level f g st = (level, new_format (get_task_by_gid g st) f)
