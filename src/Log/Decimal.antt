-- ===== src/Log/Decimal.antt =====
-- The decimal numbers of log/logext.go: `itoa`, and what fmt prints for `%d` and `%02d`.
pub mod Value
pub mod Width
use optimusprime.Prelude.{
  ℕ, zero, suc, ◌+◌, ◌-◌, ◌*◌, ◌/◌, ◌%◌, Bool, true, false, ◌&&◌, leb, ◌==◌, if◌then◌else◌, Option,
  none, some, List, [], ◌∷◌, ◌++◌, length, replicate,
}
use optimusprime.Prelude.Text.{Bytes}

-- The loop of `itoa`, which fills its array from the end: `room` places are left, and a step without
-- one is an index out of range (`none`). `wid` stops at 0, below which the loop tells no numbers apart.
unfoldable pub itoa_loop : ℕ → ℕ → ℕ → Bytes → Option Bytes
itoa_loop zero u wid b = if u == 0 && wid == 0 then some b else none
itoa_loop (suc room) u wid b =
    let rest = itoa_loop room (u / 10) (wid - 1) ((u % 10 + 48) ∷ b) in
    if u == 0 && wid == 0 then some b else rest

-- The length of the array.
abbrev pub itoa_room : ℕ
itoa_room = 32

-- A negative width is 0; `i` is not negative where the code calls it.
unfoldable pub itoa : Bytes → ℕ → ℕ → Option Bytes
unfolding itoa_loop
itoa buf i wid =
    if i == 0 && leb wid 1
    then some (buf ++ 48 ∷ [])
    else (elim (itoa_loop itoa_room i wid []) [ none ↦ none | some b ↦ some (buf ++ b) ])

-- fmt's `%0wd` of a number that is not negative; `%d` is that of width 0.
unfoldable pub sprint_decimal : ℕ → ℕ → Bytes
unfolding itoa
sprint_decimal wid i = elim (itoa [] i wid) [ none ↦ [] | some b ↦ b ]
