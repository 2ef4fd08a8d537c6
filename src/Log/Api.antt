-- ===== src/Log/Api.antt =====
-- The logger of a program (log/api.go) and its rotating file (the rotate mode of log/logext.go). What
-- the file system tells at each call is given.
pub mod Filter
pub mod Level
pub mod Final
use Prim.Native.String.{String}
use optimusprime.Prelude.{
  ℕ, zero, suc, ◌+◌, ◌*◌, Bool, true, false, ◌||◌, leb, ltb, if◌then◌else◌, Option, none, some,
  List, [], ◌∷◌,
}
use optimusprime.Prelude.Text.{Bytes, codes, str_eq}
use optimusprime.Prelude.Int.{ℤ, pos, ltb_ℤ, leb_ℤ}
use optimusprime.Log.Logger.{
  Logger, Clock, Emitted, dropped, line, panics, new_logger, flag_default, level_debug, level_info,
  level_warn, level_error, level_panic, level_fatal,
}
use optimusprime.Log.Rotate.{
  RotateLogger, LogFile, new_rotate_logger, set_output_level, rotate_output, Seen, Put, put_nothing,
  put_line, put_panics,
}

-- A Logger in rotate mode.
pub record FileLogger : Type 0 where
  pub outer : Logger
  pub rotation : RotateLogger

-- What a call meets: the files of the day and the parser of their names, whether a file can be opened,
-- the size of the open file, and which logger the call sees if the file is rotated beside it.
pub record Disk : Type 0 where
  pub files : List LogFile
  pub parse_idx : Bytes → Option ℤ
  pub opens : Bool
  pub stat : Option ℕ
  pub seen : Seen

-- `NewRotate`; the size is in megabytes, and none of it is lost for a size that a disk has.
unfoldable pub on_rotation : Bytes → Option RotateLogger → Option FileLogger
unfolding new_logger
on_rotation prefix none = none
on_rotation prefix (some rl) =
    some (record { outer = new_logger prefix flag_default; rotation = rl })

unfoldable pub new_rotate : Disk → Bytes → Bytes → Bytes → ℕ → Option FileLogger
unfolding on_rotation new_rotate_logger
new_rotate disk dir prefix suffix size =
    on_rotation prefix (
      new_rotate_logger disk.parse_idx dir prefix suffix (size * 1024 * 1024) disk.files disk.opens)

unfoldable pub set_level : ℤ → FileLogger → FileLogger
unfolding set_output_level
set_level lvl f = record {
  outer = record f.outer { level = lvl };
  rotation = set_output_level lvl f.rotation;
}

-- The level of a name; a name that is not known is info.
unfoldable pub level_of : String → ℕ
level_of lv =
    if str_eq lv "debug" || str_eq lv "DEBUG"
    then level_debug
    else if str_eq lv "info" || str_eq lv "INFO"
    then level_info
    else if str_eq lv "warn" || str_eq lv "WARN"
    then level_warn
    else if str_eq lv "error" || str_eq lv "ERROR"
    then level_error
    else level_info

unfoldable pub set_output_level_string : String → FileLogger → FileLogger
unfolding level_of set_level
set_output_level_string lv f = set_level (pos (level_of lv)) f

-- `Glogger`: nil at first. A logger that cannot be made ends the process (`none`).
abbrev pub Global : Type 0
Global = Option FileLogger

unfoldable pub or_name : Bytes → Bytes → Bytes
or_name d [] = d
or_name d (b ∷ bs) = b ∷ bs

unfoldable pub or_level : String → String → String
or_level d lv = if str_eq lv "" then d else lv

unfoldable pub with_level_name : String → Option FileLogger → Option FileLogger
unfolding set_output_level_string
with_level_name lv none = none
with_level_name lv (some f) = some (set_output_level_string lv f)

-- `InitLogger` puts the logger in place of the old one, whose Close ends its goroutines. A size of 0
-- stands for one that is not positive.
unfoldable pub init_logger : Disk → Bytes → Bytes → Bytes → ℕ → String → Option FileLogger
unfolding or_name or_level new_rotate with_level_name
init_logger disk dir prefix suffix size lv = with_level_name (or_level "DEBUG" lv) (
    new_rotate disk (or_name (codes "log") dir) (or_name (codes "uframework_") prefix)
      (or_name (codes ".log") suffix) (if leb size 0 then 50 else size))

unfoldable pub init_default_logger : Disk → Option FileLogger
unfolding init_logger
init_default_logger disk =
    init_logger disk (codes "log") (codes "uframework_") (codes ".log") 50 "DEBUG"

-- `if Glogger == nil { InitDefaultLogger() }`, and its like in SetLogLevel.
unfoldable pub or_default : Global → Option FileLogger → Option FileLogger
or_default none made = made
or_default (some f) made = some f

unfoldable pub set_log_level : Disk → String → Global → Option FileLogger
unfolding or_default init_logger with_level_name
set_log_level disk lv g =
    with_level_name lv
      (or_default g (init_logger disk (codes "log") (codes "uframework_") (codes ".log") 50 lv))

-- Debugf and Infof look at the level of the outer logger; Output hands the line to the rotation.
unfoldable pub file_output : Clock → ℕ → Bytes → Disk → FileLogger → Put
unfolding rotate_output
file_output now lvl s disk f = rotate_output now [] lvl s disk.stat disk.opens disk.seen f.rotation

unfoldable pub log_at : Clock → ℕ → Bytes → Disk → FileLogger → Put
unfolding file_output
log_at now lvl s disk f =
    if leb lvl level_info
    then (if ltb_ℤ (pos lvl) f.outer.level
        then put_nothing f.rotation
        else file_output now lvl s disk f)
    else file_output now lvl s disk f

-- What a call of the package comes to: the line for the buffer of a file, if there is one, and the
-- logger.
pub data Logged : Type 0 where
  logged : Option Bytes → FileLogger → Logged
  exits : Logged
  panicked : Logged

unfoldable pub on_put : FileLogger → Put → Logged
on_put f (put_nothing rl) = logged none (record f { rotation = rl })
on_put f (put_line s rl) = logged (some s) (record f { rotation = rl })
on_put f put_panics = panicked

unfoldable pub log_on : Clock → ℕ → Bytes → Disk → Option FileLogger → Logged
unfolding on_put log_at
log_on now lvl s disk none = exits
log_on now lvl s disk (some f) = on_put f (log_at now lvl s disk f)

-- DEBUGF, INFOF, WARNF and ERRORF, by the level.
unfoldable pub log_line : Clock → ℕ → Bytes → Disk → Global → Logged
unfolding log_on or_default init_default_logger
log_line now lvl s disk g = log_on now lvl s disk (or_default g (init_default_logger disk))

-- Several calls one after the other, each with what it comes to; one that ends the process, or the
-- goroutine, is the last.
pub record Call : Type 0 where
  pub now : Clock
  pub level : ℕ
  pub message : Bytes
  pub disk : Disk

unfoldable pub log_lines : List Call → FileLogger → List Logged
unfolding log_line
log_lines [] f = []
log_lines (c ∷ cs) f =
    let r = log_line c.now c.level c.message c.disk (some f) in
    r ∷ elim r [ logged s g ↦ log_lines cs g | exits ↦ [] | panicked ↦ [] ]
