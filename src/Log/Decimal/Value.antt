-- ===== src/Log/Decimal/Value.antt =====
-- What `itoa` writes is the number, in at least as many digits as were asked for.
use optimusprime.Prelude.{
  ℕ, zero, suc, ◌+◌, ◌-◌, ◌*◌, ◌/◌, ◌%◌, ◌^◌, ◌≤◌, ◌<◌, ◌≡◌, refl, ap, sym, ◌∙◌, arith, true,
  Bool-cases, inl, inr, ◌&&◌, leb, ◌==◌, Option, some, [], ◌∷◌, ◌++◌, length,
}
use optimusprime.Prelude.Text.{Bytes}
use optimusprime.Prelude.Digits.{AllDigits, value}
use optimusprime.Log.Decimal.{itoa_loop, itoa}

-- The loop with the digits `b` written: what stands in front of them is u.
record Writes (u wid : ℕ) (b : Bytes) (o : Option Bytes) : Type 0 where
  out : Bytes
  returns : o ≡ some out
  digits : AllDigits out
  number : value 0 out ≡ value u b
  wide : wid + length b ≤ length out

pub tenth_small : (room u : ℕ) → u < 10 ^ suc room → u / 10 < 10 ^ room
tenth_small room u small = omega arith

value_step : (u : ℕ) (b : Bytes) → value (u / 10) ((u % 10 + 48) ∷ b) ≡ value u b
unfolding value
value_step u b = ap (λ n. value n b) {x = u / 10 * 10 + (u % 10 + 48 - 48)} (omega arith)

stopped :
    (u wid : ℕ) (b : Bytes) → (u == 0 && wid == 0) ≡ true → AllDigits b → Writes u wid b (some b)
stopped u wid b e d =
    let none_left : u ≡ 0 = ground arith in
    record {
      out = b;
      returns = refl;
      digits = d;
      number = ap (λ n. value n b) (sym none_left);
      wide = ground arith;
    }

-- One more digit in front.
carried :
    (u wid : ℕ) (b : Bytes) (o : Option Bytes)
    → Writes (u / 10) (wid - 1) ((u % 10 + 48) ∷ b) o
    → Writes u wid b o
carried u wid b o w = record {
  out = w.out;
  returns = w.returns;
  digits = w.digits;
  number = w.number ∙ value_step u b;
  wide = omega (arith, w.wide);
}

itoa_loop-Writes :
    (room u wid : ℕ) (b : Bytes)
    → u < 10 ^ room
    → wid ≤ room
    → AllDigits b
    → Writes u wid b (itoa_loop room u wid b)
unfolding itoa_loop
itoa_loop-Writes zero u wid b small fits d =
    let e : (u == 0 && wid == 0) ≡ true = ground arith in rw e (stopped u wid b e d)
itoa_loop-Writes (suc room) u wid b small fits d = elim (Bool-cases (u == 0 && wid == 0)) [
  | inl e ↦ rw e (stopped u wid b e d)
  | inr e ↦ rw e (
      carried u wid b _ (
        itoa_loop-Writes room (u / 10) (wid - 1) ((u % 10 + 48) ∷ b) (tenth_small room u small)
          (omega arith) (omega arith, omega arith, d)))
]

-- `itoa` appends digits to the buffer: they are the number i in decimal, and at least as many as the
-- width that was asked for, if the number has no more than the 32 digits of the array, and the width
-- is no more than these.
pub itoa_writes :
    (buf : Bytes) (i wid : ℕ)
    → i < 10 ^ 32
    → wid ≤ 32
    → (out : Bytes) × (itoa buf i wid ≡ some (buf ++ out))
      × AllDigits out
      × (value 0 out ≡ i)
      × (wid ≤ length out)
unfolding itoa value
itoa_writes buf i wid small fits = elim (Bool-cases (i == 0 && leb wid 1)) [
  | inl e ↦ (48 ∷ [], rw e refl, (omega arith, omega arith, tt), ground arith, ground arith)
  | inr e ↦
      let w = itoa_loop-Writes 32 i wid [] small fits tt in
      (w.out, rw (e, w.returns) refl, w.digits, w.number, omega (arith, w.wide))
]
