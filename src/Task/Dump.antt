-- ===== src/Task/Dump.antt =====
-- task: the copies of the pools that the Dump functions make, the sizes of the pools, and the
-- handles as they are printed.
use Prim.Native.String.{String}
use optimusprime.Prelude.{
  ℕ, ◌≡◌, refl, ap, sym, ◌∙◌, Bool-cases, inl, inr, if◌then◌else◌, ==_iff, ◌==◌, Option, none, some,
  [], ◌∷◌, List, length,
}
use optimusprime.Prelude.Map.{lookup, insert, nat_eq, lookup-insert, IsMap, lookup_of_Lacks}
use optimusprime.Task.{Handle, TimerHandle, Pool, Task, TimerTask, Tasks}

-- `for k, v := range pool { tasks[k] = v }`.
unfoldable pub copy_into : {T : Type 0} → Pool T → Pool T → Pool T
copy_into [] tasks = tasks
copy_into ((k, t) ∷ pool) tasks = copy_into pool (insert k t tasks)

unfoldable pub dump_tcp_tasks : Tasks → Pool (Task ℕ)
unfolding copy_into
dump_tcp_tasks st = copy_into st.tcp_pool []

unfoldable pub dump_http_tasks : Tasks → Pool (Task String)
unfolding copy_into
dump_http_tasks st = copy_into st.http_pool []

unfoldable pub dump_ws_tasks : Tasks → Pool (Task String)
unfolding copy_into
dump_ws_tasks st = copy_into st.ws_pool []

unfoldable pub dump_api_tasks : Tasks → Pool (Task String)
unfolding copy_into
dump_api_tasks st = copy_into st.api_pool []

unfoldable pub dump_timer_tasks : Tasks → Pool TimerTask
unfolding copy_into
dump_timer_tasks st = copy_into st.timer_pool []

unfoldable pub len_tcp_tasks : Tasks → ℕ
len_tcp_tasks st = length st.tcp_pool

unfoldable pub len_http_tasks : Tasks → ℕ
len_http_tasks st = length st.http_pool

unfoldable pub len_ws_tasks : Tasks → ℕ
len_ws_tasks st = length st.ws_pool

unfoldable pub len_api_tasks : Tasks → ℕ
len_api_tasks st = length st.api_pool

unfoldable pub len_timer_tasks : Tasks → ℕ
len_timer_tasks st = length st.timer_pool

-- What the functions that print the handles print, an entry for each line; the order is open.
unfoldable pub dump_tcp_task_handle : Tasks → List (ℕ × Handle)
dump_tcp_task_handle st = st.tcp_handles

unfoldable pub dump_http_task_handle : Tasks → List (String × Handle)
dump_http_task_handle st = st.http_handles

unfoldable pub dump_ws_task_handle : Tasks → List (String × Handle)
dump_ws_task_handle st = st.ws_handles

unfoldable pub dump_api_task_handle : Tasks → List (String × Handle)
dump_api_task_handle st = st.api_handles

unfoldable pub dump_timer_task_handle : Tasks → List (ℕ × TimerHandle)
dump_timer_task_handle st = st.timer_handles

-- A key without a handle is an error (`none`).
unfoldable pub get_timer_task_handle : ℕ → Tasks → Option TimerHandle
get_timer_task_handle k st = lookup k st.timer_handles

-- The value of a key: that of the pool, and else that of the copy so far.
abbrev or_else : {T : Type 0} → Option T → Option T → Option T
or_else none t = t
or_else (some u) t = some u

-- A copy of a map has its entries.
lookup-copy_into :
    {T : Type 0} (i : ℕ) (pool tasks : Pool T)
    → IsMap pool
    → lookup i (copy_into pool tasks) ≡ or_else (lookup i pool) (lookup i tasks)
unfolding copy_into lookup
lookup-copy_into i [] tasks m = refl
lookup-copy_into i ((k, t) ∷ pool) tasks (fresh, m) = elim (Bool-cases (k == i)) [
  | inl same ↦
      let e : k ≡ i = (==_iff k i).0 same in
      rw same (
        lookup-copy_into i pool (insert k t tasks) m
        ∙ ap (λ o. or_else o (lookup i (insert k t tasks)))
            (ap (λ j. lookup j pool) (sym e) ∙ lookup_of_Lacks k pool fresh)
        ∙ lookup-insert k i t tasks
        ∙ ap (λ b. if b then some t else lookup i tasks) same)
  | inr apart ↦ rw apart (
      lookup-copy_into i pool (insert k t tasks) m
      ∙ ap (or_else (lookup i pool))
          (lookup-insert k i t tasks ∙ ap (λ b. if b then some t else lookup i tasks) apart))
]

or_else-none : {T : Type 0} (o : Option T) → or_else o none ≡ o
or_else-none none = refl
or_else-none (some t) = refl

copies :
    {T : Type 0} (i : ℕ) (pool : Pool T) → IsMap pool → lookup i (copy_into pool []) ≡ lookup i pool
unfolding lookup
copies i pool m = lookup-copy_into i pool [] m ∙ or_else-none (lookup i pool)

-- The Dump functions give, under each id, the task that the pool has under it.
pub dump_tasks-lookup :
    (st : Tasks) (i : ℕ)
    → IsMap st.tcp_pool
    → IsMap st.http_pool
    → IsMap st.ws_pool
    → IsMap st.api_pool
    → IsMap st.timer_pool
    → (lookup i (dump_tcp_tasks st) ≡ lookup i st.tcp_pool)
      × (lookup i (dump_http_tasks st) ≡ lookup i st.http_pool)
      × (lookup i (dump_ws_tasks st) ≡ lookup i st.ws_pool)
      × (lookup i (dump_api_tasks st) ≡ lookup i st.api_pool)
      × (lookup i (dump_timer_tasks st) ≡ lookup i st.timer_pool)
unfolding dump_tcp_tasks dump_http_tasks dump_ws_tasks dump_api_tasks dump_timer_tasks
dump_tasks-lookup st i tcp http ws api timer = (
  copies i st.tcp_pool tcp,
  copies i st.http_pool http,
  copies i st.ws_pool ws,
  copies i st.api_pool api,
  copies i st.timer_pool timer,
)
