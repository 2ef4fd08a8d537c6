-- ===== src/Log/Logger/Levels.antt =====
-- The calls of a logger that end the process or the goroutine, and its other fields.
use optimusprime.Prelude.{ℕ, Option, none, some, List, [], ◌∷◌, ◌++◌}
use optimusprime.Prelude.Text.{Bytes}
use optimusprime.Prelude.Int.{ℤ}
use optimusprime.Log.Logger.{
  new_logger, flag_default, set_journal_log, Logger, Clock, Emitted, dropped, line, panics, output,
  level_error, level_fatal, level_panic,
}

-- The process exits, or a panic goes up, behind a line for the writer if one was made.
pub data Final : Type 0 where
  exits : Option Bytes → Final
  panicked : Option Bytes → Final

unfoldable pub then_exit : Emitted → Final
then_exit dropped = exits none
then_exit (line s l) = exits (some s)
then_exit panics = panicked none

unfoldable pub fatalf : Clock → Bytes → Logger → Final
unfolding then_exit output
fatalf now s l = then_exit (output now [] level_fatal s l)

unfoldable pub then_panic : Emitted → Final
then_panic dropped = panicked none
then_panic (line s l) = panicked (some s)
then_panic panics = panicked none

unfoldable pub panicf : Clock → Bytes → Logger → Final
unfolding then_panic output
panicf now s l = then_panic (output now [] level_panic s l)

-- The stacks of the goroutines, which the runtime gives, cut off at the length of the buffer.
unfoldable pub stack : Clock → Bytes → Bytes → Logger → Emitted
unfolding output
stack now s stacks l = output now [] level_error (s ++ 10 ∷ (stacks ++ 10 ∷ [])) l

unfoldable pub stat : Logger → List ℤ
stat l = l.level_stats

unfoldable pub set_flags : ℕ → Logger → Logger
set_flags flag l = record l { flag = flag }

unfoldable pub set_prefix : Bytes → Logger → Logger
set_prefix prefix l = record l { prefix = prefix }

unfoldable pub flags : Logger → ℕ
flags l = l.flag

unfoldable pub prefix_of : Logger → Bytes
prefix_of l = l.prefix

-- The loggers of the package: Std, which writes to the standard error, and JournalLog, which is nil at
-- first.
pub record Loggers : Type 0 where
  pub std : Logger
  pub journal_log : Option Logger

unfoldable pub first_loggers : Loggers
unfolding new_logger
first_loggers = record { std = new_logger [] flag_default; journal_log = none }

unfoldable pub set_std : Logger → Loggers → Loggers
set_std l ls = record ls { std = l }

unfoldable pub set_journal : Logger → Loggers → Loggers
unfolding set_journal_log
set_journal l ls = record ls { journal_log = some (set_journal_log l) }
