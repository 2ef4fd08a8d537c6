-- ===== src/Task/Stat.antt =====
-- task/task_common.go: the table of the running tasks, which TaskStatServe prints every ten seconds. A
-- name of a function that cannot be told panics (`none`). The text of an id is given.
use optimusprime.Prelude.{ℕ, Bool, true, not, Option, none, some, List, [], ◌∷◌}
use optimusprime.Prelude.Text.{Bytes, codes}
use optimusprime.Prelude.Int.{ℤ, pos}
use optimusprime.Common.Table.{Table, new_table, add_row}
use optimusprime.Common.Table.Print.{print}
use optimusprime.Task.{Handler, Tasks}
use optimusprime.Task.Lookup.{get_task_func_name}
use optimusprime.Task.Dump.{dump_tcp_tasks, dump_timer_tasks, dump_http_tasks}

abbrev pub stat_interval_time : ℤ
stat_interval_time = pos 10000000000

-- `sync.Once`: whether the loop was started, and whether this call starts it.
unfoldable pub task_stat_serve : Bool → Bool × Bool
task_stat_serve started = (true, not started)

module _ (string_width : Bytes → ℕ) (id_text : ℕ → Bytes) where
  unfoldable pub add_stat : Bytes → ℕ → Option Bytes → Table → Option Table
  unfolding add_row
  add_stat kind id none table = none
  add_stat kind id (some name) table =
      some
        (add_row string_width (("Type", kind) ∷ ("Id", id_text id) ∷ ("FuncName", name) ∷ []) table)

  unfoldable pub add_tasks {ℓ} :
      {T : Type ℓ} → Bytes → (T → Handler) → List (ℕ × T) → Option Table → Option Table
  unfolding add_stat get_task_func_name
  add_tasks kind handler ts none = none
  add_tasks kind handler [] (some table) = some table
  add_tasks kind handler ((k, t) ∷ ts) (some table) =
      add_tasks kind handler ts (add_stat kind k (get_task_func_name (handler t)) table)

  -- Websocket and API tasks are not in it. A map gives its entries in any order.
  unfoldable pub running_tasks : Tasks → Option Table
  unfolding add_tasks dump_tcp_tasks dump_timer_tasks dump_http_tasks new_table
  running_tasks st =
      add_tasks (codes "HTTP_TASK") (λ t. t.handler) (dump_http_tasks st)
        (add_tasks (codes "TIMER_TASK") (λ t. t.handler) (dump_timer_tasks st)
          (add_tasks (codes "TCP_TASK") (λ t. t.handler) (dump_tcp_tasks st)
            (some (new_table ("Type" ∷ "Id" ∷ "FuncName" ∷ [])))))

  unfoldable pub print_table : (Bytes → Bytes) → Option Table → Option (Option Bytes)
  unfolding print
  print_table title none = none
  print_table title (some table) = print string_width title table

  unfoldable pub print_running_task_stat : (Bytes → Bytes) → Tasks → Option (Option Bytes)
  unfolding print_table running_tasks
  print_running_task_stat title st = print_table title (running_tasks st)
