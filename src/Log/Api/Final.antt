-- ===== src/Log/Api/Final.antt =====
-- log/api.go: FATAL, PANIC and STACK, with and without a format.
use optimusprime.Prelude.{Option, none, some, [], ◌∷◌, ◌++◌}
use optimusprime.Prelude.Text.{Bytes}
use optimusprime.Log.Logger.{Clock, level_error, level_panic, level_fatal}
use optimusprime.Log.Logger.Levels.{Final, exits, panicked}
use optimusprime.Log.Rotate.{Put, put_nothing, put_line, put_panics}
use optimusprime.Log.Api.{
  FileLogger, Disk, Global, Logged, file_output, or_default, init_default_logger, log_line,
}

unfoldable pub put_exit : Put → Final
put_exit (put_nothing rl) = exits none
put_exit (put_line s rl) = exits (some s)
put_exit put_panics = panicked none

unfoldable pub put_panic : Put → Final
put_panic (put_nothing rl) = panicked none
put_panic (put_line s rl) = panicked (some s)
put_panic put_panics = panicked none

-- A logger that cannot be made ends the process.
unfoldable pub fatal_on : Clock → Bytes → Disk → Option FileLogger → Final
unfolding put_exit file_output
fatal_on now s disk none = exits none
fatal_on now s disk (some f) = put_exit (file_output now level_fatal s disk f)

unfoldable pub panic_on : Clock → Bytes → Disk → Option FileLogger → Final
unfolding put_panic file_output
panic_on now s disk none = exits none
panic_on now s disk (some f) = put_panic (file_output now level_panic s disk f)

unfoldable pub fatal_line : Clock → Bytes → Disk → Global → Final
unfolding fatal_on or_default init_default_logger
fatal_line now s disk g = fatal_on now s disk (or_default g (init_default_logger disk))

unfoldable pub panic_line : Clock → Bytes → Disk → Global → Final
unfolding panic_on or_default init_default_logger
panic_line now s disk g = panic_on now s disk (or_default g (init_default_logger disk))

-- The stacks of the goroutines are given.
unfoldable pub stack_line : Clock → Bytes → Bytes → Disk → Global → Logged
unfolding log_line
stack_line now s stacks disk g = log_line now level_error (s ++ 10 ∷ (stacks ++ 10 ∷ [])) disk g
