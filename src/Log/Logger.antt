-- ===== src/Log/Logger.antt =====
-- log/logext.go: a logger, its levels and flags, its counters, and the line that Output makes. A
-- run-time panic (an index out of range) is an outcome. The clock is an argument.
pub mod Levels
pub mod Header
pub mod Printed
pub mod Line
use optimusprime.Prelude.{
  ℕ, zero, suc, ◌+◌, ◌-◌, ◌*◌, ◌/◌, ◌%◌, Bool, true, false, ◌&&◌, ◌||◌, not, leb, ltb, ◌==◌,
  if◌then◌else◌, Option, none, some, List, [], ◌∷◌, ◌++◌, length, get_elem?,
}
use optimusprime.Prelude.Text.{Bytes, codes}
use optimusprime.Prelude.Int.{ℤ, pos, negsuc, ltb_ℤ}
use optimusprime.Prelude.Word.{add64}
use optimusprime.Log.Decimal.{sprint_decimal}

-- The flags, each a bit.
abbrev pub flag_date : ℕ
flag_date = 1

abbrev pub flag_time : ℕ
flag_time = 2

abbrev pub flag_microseconds : ℕ
flag_microseconds = 4

abbrev pub flag_level : ℕ
flag_level = 64

-- Lmodule, Llevel, Lshortfile and LstdFlags.
abbrev pub flag_default : ℕ
flag_default = 32 + 64 + 16 + 7

-- `flag & bit != 0`, for one bit.
abbrev pub has_flag : ℕ → ℕ → Bool
has_flag flag bit = flag / bit % 2 == 1

-- The levels.
abbrev pub level_debug : ℕ
level_debug = 1

abbrev pub level_info : ℕ
level_info = 2

abbrev pub level_warn : ℕ
level_warn = 3

abbrev pub level_error : ℕ
level_error = 4

abbrev pub level_panic : ℕ
level_panic = 5

abbrev pub level_fatal : ℕ
level_fatal = 6

unfoldable pub level_names : List Bytes
level_names =
    []
    ∷ codes "[DEBUG]"
    ∷ codes "[INFO]"
    ∷ codes "[WARN]"
    ∷ codes "[ERROR]"
    ∷ codes "[PANIC]"
    ∷ codes "[FATAL]"
    ∷ []

pub record Logger : Type 0 where
  pub prefix : Bytes
  pub flag : ℕ
  pub level : ℤ
  -- The counters, which are six int64.
  pub level_stats : List ℤ

unfoldable pub new_logger : Bytes → ℕ → Logger
new_logger prefix flag = record {
  prefix = prefix;
  flag = flag;
  level = pos 1;
  level_stats = pos 0 ∷ pos 0 ∷ pos 0 ∷ pos 0 ∷ pos 0 ∷ pos 0 ∷ [];
}

unfoldable pub set_journal_log : Logger → Logger
set_journal_log l = record l { level = negsuc 0 }

pub record Clock : Type 0 where
  pub year : ℕ
  pub month : ℕ
  pub day : ℕ
  pub hour : ℕ
  pub minute : ℕ
  pub second : ℕ
  pub nanosecond : ℕ

unfoldable pub date_text : Clock → ℕ → Bytes
unfolding sprint_decimal
date_text t flag =
    if has_flag flag flag_date
    then 91
      ∷ (sprint_decimal 0 t.year
          ++ 45 ∷ (sprint_decimal 2 t.month ++ 45 ∷ (sprint_decimal 2 t.day ++ 32 ∷ [])))
    else []

-- The microseconds are printed by `.%d`, without zeros in front.
unfoldable pub fraction_text : Clock → ℕ → Bytes
unfolding sprint_decimal
fraction_text t flag =
    if has_flag flag flag_microseconds then 46 ∷ sprint_decimal 0 (t.nanosecond / 1000) else []

unfoldable pub clock_text : Clock → ℕ → Bytes
unfolding sprint_decimal fraction_text
clock_text t flag =
    if has_flag flag flag_time || has_flag flag flag_microseconds
    then sprint_decimal 2 t.hour
      ++ 58
        ∷ (sprint_decimal 2 t.minute
            ++ 58 ∷ (sprint_decimal 2 t.second ++ fraction_text t flag ++ 93 ∷ 32 ∷ []))
    else []

unfoldable pub req_text : Bytes → Bytes
req_text [] = []
req_text (b ∷ bs) = 91 ∷ (b ∷ bs) ++ 93 ∷ []

-- The name of the level; an index out of range panics.
unfoldable pub level_text : ℕ → ℕ → Option Bytes
unfolding level_names
level_text lvl flag = if has_flag flag flag_level then get_elem? level_names lvl else some []

-- `formatHeader2`.
unfoldable pub with_level : Bytes → Option Bytes → Option Bytes
with_level front none = none
with_level front (some name) = some (front ++ name)

unfoldable pub format_header2 : Clock → ℕ → Bytes → Logger → Option Bytes
unfolding date_text clock_text req_text level_text with_level
format_header2 t lvl req_id l =
    with_level (l.prefix ++ (date_text t l.flag ++ (clock_text t l.flag ++ req_text req_id)))
      (level_text lvl l.flag)

-- `levelStats[lvl]++`; an index out of range panics.
unfoldable pub count_in : ℕ → List ℤ → Option (List ℤ)
count_in lvl [] = none
count_in zero (n ∷ stats) = some (add64 n (pos 1) ∷ stats)
count_in (suc lvl) (n ∷ stats) = elim (count_in lvl stats) [
  | none ↦ none
  | some rest ↦ some (n ∷ rest)
]

-- The text of the line ends with a newline, unless the message is empty.
unfoldable pub with_newline : Bytes → Bytes
with_newline [] = []
with_newline (b ∷ []) = if b == 10 then b ∷ [] else b ∷ 10 ∷ []
with_newline (b ∷ c ∷ bs) = b ∷ with_newline (c ∷ bs)

-- What a call of Output comes to: nothing, a line for the writer, or a panic.
pub data Emitted : Type 0 where
  dropped : Emitted
  line : Bytes → Logger → Emitted
  panics : Emitted

unfoldable pub make_line : Bytes → Logger → Option (List ℤ) → Option Bytes → Emitted
unfolding with_newline
make_line s l none hd = panics
make_line s l (some stats) none = panics
make_line s l (some stats) (some hd) =
    line (hd ++ with_newline s) (record l { level_stats = stats })

unfoldable pub output : Clock → Bytes → ℕ → Bytes → Logger → Emitted
unfolding make_line count_in format_header2
output now req_id lvl s l =
    if ltb_ℤ (pos lvl) l.level
    then dropped
    else make_line s l (count_in lvl l.level_stats) (format_header2 now lvl req_id l)

-- The calls by level. Debugf and Infof look at the level themselves, the others leave it to Output.
unfoldable pub debugf : Clock → Bytes → Logger → Emitted
unfolding output
debugf now s l = if ltb_ℤ (pos level_debug) l.level then dropped else output now [] level_debug s l

unfoldable pub infof : Clock → Bytes → Logger → Emitted
unfolding output
infof now s l = if ltb_ℤ (pos level_info) l.level then dropped else output now [] level_info s l

unfoldable pub printf : Clock → Bytes → Logger → Emitted
unfolding output
printf now s l = output now [] level_info s l

unfoldable pub warnf : Clock → Bytes → Logger → Emitted
unfolding output
warnf now s l = output now [] level_warn s l

unfoldable pub errorf : Clock → Bytes → Logger → Emitted
unfolding output
errorf now s l = output now [] level_error s l
