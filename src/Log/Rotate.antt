-- ===== src/Log/Rotate.antt =====
-- log/logrotate.go: the file that a logger starts with, and when it goes on to the next one. What the
-- file system tells (the files, their times and sizes, whether a file can be opened) is given.
pub mod Names
pub mod Parsed
use optimusprime.Prelude.{
  ℕ, ◌+◌, ◌%◌, ◌^◌, Bool, false, ◌&&◌, ltb, leb, ◌==◌, if◌then◌else◌, Option, none, some, List, [],
  ◌∷◌,
}
use optimusprime.Prelude.Text.{Bytes}
use optimusprime.Prelude.Int.{ℤ, pos}
use optimusprime.Prelude.Word.{add64}
use optimusprime.Log.Logger.{
  Logger, Clock, Emitted, dropped, line, panics, new_logger, flag_default, output,
}

-- A file that the pattern finds: its name, and its time and size if it can be opened.
abbrev pub LogFile : Type 0
LogFile = Bytes × Option (ℕ × ℕ)

pub record RotateLogger : Type 0 where
  pub dir : Bytes
  pub prefix : Bytes
  pub suffix : Bytes
  pub size : ℕ
  pub cnt : ℕ
  pub idx : ℤ
  pub level : ℤ
  -- The index in the name of the open file, and the logger on it.
  pub logf : ℤ
  pub inner : Logger

-- The directory without a slash at its end; `.` if none is given.
unfoldable pub without_slash : Bytes → Bytes
without_slash [] = []
without_slash (b ∷ []) = if b == 47 then [] else b ∷ []
without_slash (b ∷ c ∷ bs) = b ∷ without_slash (c ∷ bs)

unfoldable pub clean_dir : Bytes → Bytes
unfolding without_slash
clean_dir [] = 46 ∷ []
clean_dir (b ∷ bs) = without_slash (b ∷ bs)

-- The newest file, the later of two with the same time: its time, and its name and size.
unfoldable pub newest : List LogFile → ℕ × Option (Bytes × ℕ) → ℕ × Option (Bytes × ℕ)
newest [] best = best
newest ((name, none) ∷ files) best = newest files best
newest ((name, some (mtime, size)) ∷ files) (m, best) =
    newest files (if leb m mtime then (mtime, some (name, size)) else (m, best))

unfoldable pub idx_or_zero : Option ℤ → ℤ
idx_or_zero none = pos 0
idx_or_zero (some i) = i

-- The index of the file to start with: the next one, if the newest file is too large. The parser of
-- the names is given.
unfoldable pub start_idx : (Bytes → Option ℤ) → ℕ → Option (Bytes × ℕ) → ℤ
unfolding idx_or_zero
start_idx parse_idx size none = pos 0
start_idx parse_idx size (some (logfile, s)) =
    let i = idx_or_zero (parse_idx logfile) in if ltb size s then add64 i (pos 1) else i

-- A new logger on the file; it gets the level that was set.
unfoldable pub set_logf : ℤ → RotateLogger → RotateLogger
unfolding new_logger
set_logf i rl = record rl {
  logf = i;
  inner = record (new_logger [] flag_default) { level = rl.level };
}

unfoldable pub new_rotate_logger :
    (Bytes → Option ℤ) → Bytes → Bytes → Bytes → ℕ → List LogFile → Bool → Option RotateLogger
unfolding clean_dir newest start_idx set_logf
new_rotate_logger parse_idx dir prefix suffix size files opens =
    let i = start_idx parse_idx size (newest files (0, none)).1 in
    if opens
    then some (
        set_logf i (record {
          dir = clean_dir dir;
          prefix = prefix;
          suffix = suffix;
          size = size;
          cnt = 0;
          idx = i;
          level = pos 0;
          logf = i;
          inner = new_logger [] flag_default;
        }))
    else none

unfoldable pub set_output_level : ℤ → RotateLogger → RotateLogger
set_output_level lvl rl = record rl { level = lvl; inner = record rl.inner { level = lvl } }

-- The next index; a file that cannot be opened leaves the old one in use.
unfoldable pub rotate : Bool → RotateLogger → RotateLogger
unfolding set_logf
rotate opens rl =
    let rl' : RotateLogger = record rl { idx = add64 rl.idx (pos 1) } in
    if opens then set_logf rl'.idx rl' else rl'

-- Each hundredth line looks at the size of the file, if it can be told.
unfoldable pub rotate_if_large : Option ℕ → Bool → RotateLogger → RotateLogger
unfolding rotate
rotate_if_large none opens rl = rl
rotate_if_large (some s) opens rl = if leb rl.size s then rotate opens rl else rl

unfoldable pub check_rotate : ℕ → Option ℕ → Bool → RotateLogger → RotateLogger
unfolding rotate_if_large
check_rotate cnt stat opens rl = if cnt % 100 == 0 then rotate_if_large stat opens rl else rl

-- The counter of the lines is a uint64.
unfoldable pub count_line : Option ℕ → Bool → RotateLogger → RotateLogger
unfolding check_rotate
count_line stat opens rl =
    let rl' : RotateLogger = record rl { cnt = (rl.cnt + 1) % 2 ^ 64 } in
    check_rotate rl'.cnt stat opens rl'

-- What a call comes to: nothing, a line for the buffer of the logger that it sees, or a panic.
pub data Put : Type 0 where
  put_nothing : RotateLogger → Put
  put_line : Bytes → RotateLogger → Put
  put_panics : Put

unfoldable pub put_with : RotateLogger → Emitted → Put
put_with rl dropped = put_nothing rl
put_with rl (line s l) = put_line s (record rl { inner = l })
put_with rl panics = put_panics

-- The file is rotated for this line.
unfoldable pub rotates : Option ℕ → Bool → RotateLogger → Bool
rotates none opens rl = false
rotates (some s) opens rl = (rl.cnt + 1) % 2 ^ 64 % 100 == 0 && leb rl.size s && opens

-- A call hands its number to the goroutine that rotates, and reads rl.Logger while that goroutine works:
-- it sees the old logger, the new one before its level is set, or the new one behind it.
pub data Seen : Type 0 where
  sees_old sees_early sees_open : Seen

-- A line for the old logger, whose counters are given up with it.
unfoldable pub put_old : RotateLogger → Emitted → Put
put_old rl dropped = put_nothing rl
put_old rl (line s l) = put_line s rl
put_old rl panics = put_panics

-- A line of the new logger, whose level is set behind it.
unfoldable pub put_early : RotateLogger → Emitted → Put
put_early rl dropped = put_nothing rl
put_early rl (line s l) = put_line s (record rl { inner = record l { level = rl.level } })
put_early rl panics = put_panics

unfoldable pub put_seen : Clock → Bytes → ℕ → Bytes → Logger → RotateLogger → Seen → Put
unfolding put_with put_old put_early output
put_seen now req_id lvl s old rl sees_old = put_old rl (output now req_id lvl s old)
put_seen now req_id lvl s old rl sees_early =
    put_early rl (output now req_id lvl s (record rl.inner { level = pos 1 }))
put_seen now req_id lvl s old rl sees_open = put_with rl (output now req_id lvl s rl.inner)

-- The next call hands over its number only when the goroutine is back, so that a line has one rotation
-- beside it at most. What the line goes to where there is one is given.
unfoldable pub rotate_output :
    Clock → Bytes → ℕ → Bytes → Option ℕ → Bool → Seen → RotateLogger → Put
unfolding put_seen count_line rotates
rotate_output now req_id lvl s stat opens seen rl =
    put_seen now req_id lvl s rl.inner (count_line stat opens rl)
      (if rotates stat opens rl then seen else sees_open)
