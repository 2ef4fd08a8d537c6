-- ===== src/Log/Rotate/Names.antt =====
-- log/logrotate.go: LogName, TodayLogPrefix and ParseIdx. Of regexp, this is the pattern of ParseIdx, for
-- a prefix and a suffix in which no byte but the dot is special: a dot takes any byte but a newline.
use optimusprime.Prelude.{
  ℕ, zero, suc, ◌+◌, ◌^◌, Bool, true, false, ◌&&◌, ◌||◌, not, leb, ltb, ◌==◌, if◌then◌else◌, Option,
  none, some, [], ◌∷◌, ◌++◌, length, drop,
}
use optimusprime.Prelude.Text.{Bytes}
use optimusprime.Prelude.Int.{ℤ, pos, negsuc}
use optimusprime.Log.Logger.{Clock}
use optimusprime.Log.Decimal.{sprint_decimal}
use optimusprime.Prelude.Digits.{value, only_digits}

-- The eight digits of a day, if its year has four.
unfoldable pub day_text : Clock → Bytes
day_text t = sprint_decimal 0 t.year ++ (sprint_decimal 2 t.month ++ sprint_decimal 2 t.day)

unfoldable pub log_name : Bytes → Bytes → Bytes → Clock → ℕ → Bytes
unfolding day_text
log_name dir prefix suffix t idx =
    dir ++ 47 ∷ (prefix ++ (day_text t ++ (sprint_decimal 0 idx ++ suffix)))

unfoldable pub today_log_prefix : Bytes → Bytes → Clock → Bytes
unfolding day_text
today_log_prefix dir prefix t = dir ++ 47 ∷ (prefix ++ day_text t)

-- What is left of a text behind the pattern.
unfoldable pub after_pattern : Bytes → Bytes → Option Bytes
after_pattern [] text = some text
after_pattern (p ∷ ps) [] = none
after_pattern (p ∷ ps) (b ∷ bs) =
    if p == b || (p == 46 && not (b == 10)) then after_pattern ps bs else none

unfoldable pub is_some : {A : Type 0} → Option A → Bool
is_some none = false
is_some (some a) = true

unfoldable pub starts_with : Bytes → Bytes → Bool
starts_with [] text = true
starts_with (p ∷ ps) [] = false
starts_with (p ∷ ps) (c ∷ cs) = (p == c) && starts_with ps cs

-- `strings.Index(filename, dir) != -1`.
unfoldable pub has_within : Bytes → Bytes → Bool
unfolding starts_with
has_within dir [] = starts_with dir []
has_within dir (b ∷ bs) = starts_with dir (b ∷ bs) || has_within dir bs

-- `[0-9]{8}`.
unfoldable pub after_digits : ℕ → Bytes → Option Bytes
after_digits zero text = some text
after_digits (suc n) [] = none
after_digits (suc n) (b ∷ bs) = if leb 48 b && leb b 57 then after_digits n bs else none

-- `(.*)` in front of the suffix: the longest text that does.
unfoldable pub or_here : Bool → Option Bytes → Option Bytes
or_here here (some longer) = some longer
or_here here none = if here then some [] else none

unfoldable pub put_front : ℕ → Option Bytes → Option Bytes
put_front b none = none
put_front b (some bs) = some (b ∷ bs)

unfoldable pub capture : Bytes → Bytes → Option Bytes
unfolding after_pattern or_here put_front is_some
capture suffix [] = or_here (is_some (after_pattern suffix [])) none
capture suffix (b ∷ bs) =
    let longer = capture suffix bs in
    or_here (is_some (after_pattern suffix (b ∷ bs))) (if b == 10 then none else put_front b longer)

unfoldable pub from_digits : Bytes → Option Bytes → Option Bytes
unfolding capture
from_digits suffix none = none
from_digits suffix (some rest) = capture suffix rest

unfoldable pub from_prefix : Bytes → Option Bytes → Option Bytes
unfolding after_digits from_digits
from_prefix suffix none = none
from_prefix suffix (some rest) = from_digits suffix (after_digits 8 rest)

unfoldable pub or_later : Option Bytes → Option Bytes → Option Bytes
or_later (some found) later = some found
or_later none later = later

-- FindStringSubmatch: the leftmost match, and what its parentheses hold.
unfoldable pub find_idx : Bytes → Bytes → Bytes → Option Bytes
unfolding after_pattern from_prefix or_later
find_idx prefix suffix [] = from_prefix suffix (after_pattern prefix [])
find_idx prefix suffix (b ∷ bs) =
    or_later (from_prefix suffix (after_pattern prefix (b ∷ bs))) (find_idx prefix suffix bs)

-- `strconv.ParseInt(s, 10, 32)`; on an error the code uses no value.
unfoldable pub parse_unsigned : Bytes → Option ℕ
unfolding only_digits value
parse_unsigned [] = none
parse_unsigned (b ∷ bs) = if only_digits (b ∷ bs) then some (value 0 (b ∷ bs)) else none

unfoldable pub in_range : Bool → Option ℕ → Option ℤ
in_range negative none = none
in_range false (some n) = if ltb n (2 ^ 31) then some (pos n) else none
in_range true (some zero) = some (pos 0)
in_range true (some (suc n)) = if ltb n (2 ^ 31) then some (negsuc n) else none

unfoldable pub parse_int : Bytes → Option ℤ
unfolding parse_unsigned in_range
parse_int [] = none
parse_int (b ∷ bs) =
    if b == 43
    then in_range false (parse_unsigned bs)
    else if b == 45
    then in_range true (parse_unsigned bs)
    else in_range false (parse_unsigned (b ∷ bs))

-- The result of ParseIdx; a name that ends with the directory is sliced out of range.
pub data Parsed : Type 0 where
  parsed : ℤ → Parsed
  invalid : Parsed
  panics : Parsed

unfoldable pub read_idx : Option ℤ → Parsed
read_idx none = invalid
read_idx (some i) = parsed i

unfoldable pub from_match : Option Bytes → Parsed
unfolding read_idx parse_int
from_match none = invalid
from_match (some text) = read_idx (parse_int text)

unfoldable pub without_dir : Bytes → Bytes → Option Bytes
without_dir dir name =
    if leb (length dir + 1) (length name) then some (drop (length dir + 1) name) else none

unfoldable pub in_name : Bytes → Bytes → Option Bytes → Parsed
unfolding find_idx from_match
in_name prefix suffix none = panics
in_name prefix suffix (some name) = from_match (find_idx prefix suffix name)

unfoldable pub parse_idx : Bytes → Bytes → Bytes → Bytes → Parsed
unfolding without_dir has_within in_name
parse_idx name [] prefix suffix = in_name prefix suffix (some name)
parse_idx name (d ∷ ds) prefix suffix =
    if has_within (d ∷ ds) name then in_name prefix suffix (without_dir (d ∷ ds) name) else invalid
