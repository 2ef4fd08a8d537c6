-- ===== src/Log/Tests.antt =====
-- The theorems of package log at concrete loggers.
use optimusprime.Prelude.{◌≤◌, ◌≡◌, refl, arith, true, some, none, List, [], ◌∷◌, ◌++◌, length}
use optimusprime.Prelude.Text.{Bytes, codes}
use optimusprime.Prelude.Int.{pos}
use optimusprime.Log.Decimal.{itoa}
use optimusprime.Prelude.Digits.{AllDigits, value}
use optimusprime.Log.Decimal.Value.{itoa_writes}
use optimusprime.Log.Logger.{Logger, Clock, output, new_logger, flag_default, level_warn}
use optimusprime.Log.Logger.Line.{IsLine, output-IsLine}
use optimusprime.Log.Rotate.Names.{parsed, parse_idx, log_name}
use optimusprime.Log.Rotate.Parsed.{IsDay, parse_idx-log_name}
use optimusprime.Log.Writer.{
  Writer, Event, accepts, writes, closes, ends, accept, write, close, drain, finish, Run, here,
  next, new_writer, running, stopped,
}
use optimusprime.Log.Writer.Fifo.{FifoRun, view, Run-FifoRun}
use optimusprime.Log.Writer.Stop.{Explains, Run-Explains}
use optimusprime.Log.Writer.Drain.{IsDraining, closed_run_drains}
use optimusprime.Log.Rotate.{sees_early}
use optimusprime.Log.Api.{Disk, FileLogger, Call}

abbrev noon : Clock
noon = record {
  year = 2020;
  month = 2;
  day = 29;
  hour = 12;
  minute = 0;
  second = 5;
  nanosecond = 45000;
}

abbrev logger : Logger
logger = new_logger (codes "app") flag_default

itoa_writes_example :
    (out : Bytes) × (itoa (codes "ms ") 407 6 ≡ some (codes "ms " ++ out))
    × AllDigits out
    × (value 0 out ≡ 407)
    × (6 ≤ length out)
itoa_writes_example = itoa_writes (codes "ms ") 407 6 (omega arith) (omega arith)

output-IsLine_example :
    IsLine level_warn
      (codes "disk full")
      logger
      (output noon (codes "r1") level_warn (codes "disk full") logger)
unfolding new_logger
output-IsLine_example =
    output-IsLine noon (codes "r1") level_warn (codes "disk full") logger (omega arith) refl refl

abbrev file : FileLogger
file = record {
  outer = logger;
  rotation = record {
    dir = codes "log";
    prefix = codes "app";
    suffix = codes ".log";
    size = 1000;
    cnt = 99;
    idx = pos 3;
    level = pos 0;
    logf = pos 3;
    inner = logger;
  };
}

-- The file is large, and the next one opens; a call comes too early for its level.
abbrev disk : Disk
disk = record {
  files = [];
  parse_idx = λ name. none;
  opens = true;
  stat = some 1500;
  seen = sees_early;
}

abbrev calls : List Call
calls =
    record { now = noon; level = 3; message = codes "slow disk"; disk = disk }
    ∷ record { now = noon; level = 1; message = codes "trace"; disk = disk }
    ∷ record { now = noon; level = 4; message = codes "disk full"; disk = disk }
    ∷ []

-- Two lines come, one is written, the logger is closed, the other is written, and a third comes late.
abbrev events : List Event
events =
    accepts (codes "a")
    ∷ accepts (codes "b")
    ∷ writes (codes "a")
    ∷ closes
    ∷ writes (codes "b")
    ∷ ends
    ∷ accepts (codes "c")
    ∷ []

abbrev late : Writer
late = record { buf = codes "c" ∷ []; written = codes "a" ∷ codes "b" ∷ []; phase = stopped }

run : Run new_writer events late
unfolding new_writer
run =
    next
      (next
        (next
          (next
            (next
              (next
                (next here (
                  accept (record { buf = []; written = []; phase = running }) (codes "a")
                    (omega arith)))
                (accept (record { buf = codes "a" ∷ []; written = []; phase = running }) (codes "b")
                  (omega arith)))
              (write (codes "a") (codes "b" ∷ []) []))
            (close (codes "b" ∷ []) (codes "a" ∷ [])))
          (drain (codes "b") [] (codes "a" ∷ [])))
        (finish (codes "a" ∷ codes "b" ∷ [])))
      (accept (record { buf = []; written = codes "a" ∷ codes "b" ∷ []; phase = stopped })
        (codes "c") (omega arith))

Run-FifoRun_example : FifoRun (view new_writer) events (view late)
Run-FifoRun_example = Run-FifoRun run

Run-Explains_example : Explains stopped (codes "c" ∷ []) events
Run-Explains_example = Run-Explains run

closed_run_drains_example :
    IsDraining
      (codes "a" ∷ codes "b" ∷ [])
      1
      2
      (record { buf = []; written = codes "a" ∷ codes "b" ∷ []; phase = stopped })
closed_run_drains_example =
    closed_run_drains (codes "b" ∷ []) (codes "a" ∷ []) (writes (codes "b") ∷ ends ∷ [])
      (next (next here (drain (codes "b") [] (codes "a" ∷ [])))
        (finish (codes "a" ∷ codes "b" ∷ [])))
      refl

noon-IsDay : IsDay noon
noon-IsDay = record {
  year_from = omega arith;
  year_to = omega arith;
  month_to = omega arith;
  day_to = omega arith;
}

-- The name is log/app2020022912.log.
parse_idx-log_name_example :
    parse_idx
      (log_name (codes "log") (codes "app") (codes ".log") noon 12)
      (codes "log")
      (codes "app")
      (codes ".log")
    ≡ parsed (pos 12)
parse_idx-log_name_example =
    parse_idx-log_name 108 (codes "og") (codes "app") (codes ".log") noon 12
      (refl, (refl, (refl, tt))) (refl, (refl, (refl, (refl, tt)))) noon-IsDay (omega arith)
