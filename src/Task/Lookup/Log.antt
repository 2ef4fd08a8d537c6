-- ===== src/Task/Lookup/Log.antt =====
-- The log lines of the tasks, and the names of their functions.
use optimusprime.Prelude.{
  ℕ, ◌≡◌, refl, ap, ◌∙◌, false, ◌==◌, none, some, List, [], ◌∷◌, ◌++◌, append-nil,
}
use optimusprime.Prelude.Text.{Bytes}
use optimusprime.Prelude.Split.{split, dot, NoDot, split-NoDot, split-dot}
use optimusprime.Task.{Pool, Tasks, Handler}
use optimusprime.Task.Lookup.{
  get_by_gid, get_tcp_task_by_gid, get_timer_task_by_gid, get_http_task_by_gid, get_task_by_gid,
  tcp_or_others, timer_or_http, http_or_none, second, get_task_func_name, new_format, no_format,
  Level, task_log,
}

-- No task of the pool runs in the goroutine.
abbrev pub Absent : {T : Type 0} → (T → ℕ) → ℕ → Pool T → Type 0
Absent gid g [] = Unit
Absent gid g ((_, t) ∷ m) = ((gid t == g) ≡ false) × Absent gid g m

absent_lem :
    {T : Type 0} (gid : T → ℕ) (g : ℕ) (m : Pool T) → Absent gid g m → get_by_gid gid g m ≡ none
unfolding get_by_gid
absent_lem gid g [] a = refl
absent_lem gid g ((i, t) ∷ m) (other, a) = rw other (absent_lem gid g m a)

-- A line that is logged in a goroutine that runs no TCP, timer or HTTP task is lost: the format that
-- goes to package log is empty, whatever the level and the format were, and whatever the API and
-- websocket tasks are.
pub task_log_drops :
    (level : Level) (f : Bytes) (g : ℕ) (st : Tasks)
    → Absent (λ t. t.gid) g st.tcp_pool
    → Absent (λ t. t.gid) g st.timer_pool
    → Absent (λ t. t.gid) g st.http_pool
    → task_log level f g st ≡ (level, no_format)
unfolding task_log get_task_by_gid get_tcp_task_by_gid get_timer_task_by_gid get_http_task_by_gid
task_log_drops level f g st tcp timer http =
    rw
      (
        absent_lem (λ t. t.gid) g st.tcp_pool tcp,
        absent_lem (λ t. t.gid) g st.timer_pool timer,
        absent_lem (λ t. t.gid) g st.http_pool http,
        tcp_or_others,
        timer_or_http,
        http_or_none,
        new_format,
      )
      refl

-- Nothing, or a dot and anything.
abbrev pub StartsDotted : Bytes → Type 0
StartsDotted [] = Unit
StartsDotted (b ∷ bs) = b ≡ dot

split_part :
    (b f : Bytes) → NoDot b → StartsDotted f → (ws : List Bytes) × (split (b ++ f) ≡ b ∷ ws)
unfolding split
split_part b [] no_b d = ([], ap split (append-nil b) ∙ split-NoDot b no_b)
split_part b (c ∷ f) no_b d = (split f, ap (λ x. split (b ++ x ∷ f)) d ∙ split-dot b f no_b)

-- The name that GetTaskFuncName gives is what stands behind the first dot, up to the next dot or to
-- the end. So for a package without a dot in its path (`main.f`) it is the function, and for one whose
-- path has a dot (`github.com/x/p.f`) it is the rest of the path, whatever the function.
pub func_name_dotted :
    (h : Handler) (a b f : Bytes)
    → NoDot a
    → NoDot b
    → StartsDotted f
    → h.full_name ≡ a ++ dot ∷ (b ++ f)
    → get_task_func_name h ≡ some b
unfolding get_task_func_name second
func_name_dotted h a b f no_a no_b d e =
    let (ws, parts) = split_part b f no_b d in
    ap (λ n. second (split n)) e ∙ ap second (split-dot a (b ++ f) no_a ∙ ap (λ t. a ∷ t) parts)
