-- ===== src/Common/Goid.antt =====
-- common/goid.go: the id of a goroutine, which GetGID reads out of the first line of its stack.
pub mod Read
use optimusprime.Prelude.{
  ℕ, zero, suc, ◌*◌, ◌-◌, ◌+◌, ◌^◌, Bool, ◌&&◌, leb, ltb, ◌==◌, if◌then◌else◌, Option, none, some,
  List, [], ◌∷◌, ◌++◌, length, take,
}
use optimusprime.Prelude.Text.{Bytes, codes}
use optimusprime.Prelude.Digits.{value, only_digits}

-- `bytes.TrimPrefix`.
unfoldable pub strip : Bytes → Bytes → Option Bytes
strip [] bs = some bs
strip (p ∷ ps) [] = none
strip (p ∷ ps) (b ∷ bs) = if p == b then strip ps bs else none

unfoldable pub or_whole : Bytes → Option Bytes → Bytes
or_whole bs none = bs
or_whole bs (some rest) = rest

unfoldable pub trim_prefix : Bytes → Bytes → Bytes
unfolding strip or_whole
trim_prefix prefix bs = or_whole bs (strip prefix bs)

-- `b[:bytes.IndexByte(b, ' ')]`; without a space it is out of range (`none`).
unfoldable pub put_byte : ℕ → Option Bytes → Option Bytes
put_byte b none = none
put_byte b (some bs) = some (b ∷ bs)

unfoldable pub before_space : Bytes → Option Bytes
unfolding put_byte
before_space [] = none
before_space (b ∷ bs) = let rest = before_space bs in if b == 32 then some [] else put_byte b rest

-- `strconv.ParseUint(s, 10, 64)`, whose error is dropped: 0 for a text that is no number, and the
-- largest uint64 for a number that is too large.
unfoldable pub parse_uint : Bytes → ℕ
unfolding only_digits value
parse_uint [] = 0
parse_uint (b ∷ bs) =
    if only_digits (b ∷ bs)
    then (if ltb (value 0 (b ∷ bs)) (2 ^ 64) then value 0 (b ∷ bs) else 2 ^ 64 - 1)
    else 0

unfoldable pub parse_some : Option Bytes → Option ℕ
unfolding parse_uint
parse_some none = none
parse_some (some bs) = some (parse_uint bs)

-- The buffer has 64 bytes.
unfoldable pub get_gid : Bytes → Option ℕ
unfolding trim_prefix before_space parse_some
get_gid stack = parse_some (before_space (trim_prefix (codes "goroutine ") (take 64 stack)))
