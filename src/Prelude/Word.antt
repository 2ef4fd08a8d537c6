-- ===== src/Prelude/Word.antt =====
-- The machine integers of Go: int64 and time.Duration with their wrap-around, and the saturating
-- difference of two instants of package time.
use optimusprime.Prelude.{ℕ, ◌-◌, ◌%◌, ◌^◌, ◌≡◌, refl, arith, ltb, if◌then◌else◌}
use optimusprime.Prelude.Int.{ℤ, pos, negsuc, ◌+ℤ◌, ◌-ℤ◌, ◌*ℤ◌, quot, ◌≤ℤ◌, ltb_ℤ}

abbrev pub max_int64 : ℤ
max_int64 = pos (2 ^ 63 - 1)

abbrev pub min_int64 : ℤ
min_int64 = negsuc (2 ^ 63 - 1)

-- z is a value of int64.
abbrev pub FitsInt64 : ℤ → Type 0
FitsInt64 z = (min_int64 ≤ℤ z) × (z ≤ℤ max_int64)

-- z modulo 2 ^ 64.
abbrev residue : ℤ → ℕ
residue (pos n) = n % 2 ^ 64
residue (negsuc n) = 2 ^ 64 - 1 - n % 2 ^ 64

-- The int64 that has the bit pattern w.
abbrev signed : ℕ → ℤ
signed w = if ltb w (2 ^ 63) then pos w else negsuc (2 ^ 64 - 1 - w)

-- What an int64 operation keeps of the exact result.
unfoldable pub wrap : ℤ → ℤ
wrap z = signed (residue z)

abbrev pub add64 : ℤ → ℤ → ℤ
add64 a b = wrap (a +ℤ b)

abbrev pub sub64 : ℤ → ℤ → ℤ
sub64 a b = wrap (a -ℤ b)

abbrev pub mul64 : ℤ → ℤ → ℤ
mul64 a b = wrap (a *ℤ b)

-- Go's `/` at a divisor that is not 0; the code divides by fields that its constructors keep
-- positive.
abbrev pub quot64 : ℤ → ℤ → ℤ
quot64 a b = wrap (quot a b)

-- Time.Sub: the difference of two instants, cut off at the ends of time.Duration.
unfoldable pub saturate : ℤ → ℤ
saturate z = if ltb_ℤ z min_int64 then min_int64 else if ltb_ℤ max_int64 z then max_int64 else z

abbrev pub time_sub : ℤ → ℤ → ℤ
time_sub a b = saturate (a -ℤ b)

pub wrap_exact : (z : ℤ) → FitsInt64 z → wrap z ≡ z
unfolding wrap
wrap_exact z h = ground arith

pub wrap-FitsInt64 : (z : ℤ) → FitsInt64 (wrap z)
unfolding wrap
wrap-FitsInt64 z = ground arith

pub saturate_exact : (z : ℤ) → FitsInt64 z → saturate z ≡ z
unfolding saturate
saturate_exact z h = ground arith

pub saturate-FitsInt64 : (z : ℤ) → FitsInt64 (saturate z)
unfolding saturate
saturate-FitsInt64 z = ground arith

wraps_around : add64 max_int64 (pos 1) ≡ min_int64
unfolding wrap ◌+ℤ◌
wraps_around = refl
