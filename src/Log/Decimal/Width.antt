-- ===== src/Log/Decimal/Width.antt =====
-- How many digits a number takes.
use mathlib.Core.Path.{subst}
use mathlib.Core.Option.{some-injective}
use optimusprime.Prelude.{
  ℕ, zero, suc, ◌+◌, ◌-◌, ◌*◌, ◌/◌, ◌%◌, ◌^◌, ◌≤◌, ◌<◌, ◌≡◌, refl, ap, sym, ◌∙◌, arith, ◌⊎◌,
  Bool-cases, inl, inr, ◌&&◌, leb, ◌==◌, Option, some, none, [], ◌∷◌, ◌++◌, length,
}
use optimusprime.Prelude.Text.{Bytes}
use optimusprime.Log.Decimal.{itoa_loop, itoa, sprint_decimal}
use optimusprime.Prelude.Digits.{AllDigits, value}
use optimusprime.Log.Decimal.Value.{itoa_writes, tenth_small}

itoa_loop_short :
    (room u wid k : ℕ) (b out : Bytes)
    → u < 10 ^ k
    → wid ≤ k
    → itoa_loop room u wid b ≡ some out
    → length out ≤ k + length b
unfolding itoa_loop
itoa_loop_short zero u wid k b out small fits e = ground arith
itoa_loop_short (suc room) u wid zero b out small fits e = ground arith
itoa_loop_short (suc room) u wid (suc k) b out small fits e =
    elim (Bool-cases (u == 0 && wid == 0)) [
      | inl at_end ↦ ground arith
      | inr more ↦ omega (
        arith,
        itoa_loop_short room (u / 10) (wid - 1) k ((u % 10 + 48) ∷ b) out (tenth_small k u small)
            (omega arith) (rw more at e),
      )
    ]

next_bound : (acc d v p : ℕ) → d < 10 → v < (acc * 10 + d + 1) * p → v < (acc + 1) * (10 * p)
next_bound acc d v p small below = grind arith

value_bound :
    (acc n : ℕ) (bs : Bytes) → AllDigits bs → length bs ≡ n → value acc bs < (acc + 1) * 10 ^ n
unfolding value
value_bound acc zero [] d e = omega arith
value_bound acc (suc n) [] d e = absurd (omega arith)
value_bound acc zero (b ∷ bs) d e = absurd (omega arith)
value_bound acc (suc n) (b ∷ bs) (lo, hi, d) e =
    let power : 10 * 10 ^ n ≡ 10 ^ suc n = omega arith in
    subst (λ p. value (acc * 10 + (b - 48)) bs < (acc + 1) * p) power
      (next_bound acc (b - 48) (value (acc * 10 + (b - 48)) bs) (10 ^ n) (omega arith)
        (value_bound (acc * 10 + (b - 48)) n bs d (omega arith)))

-- What is printed of a number.
pub record IsDecimal (i : ℕ) (out : Bytes) : Type 0 where
  pub digits : AllDigits out
  pub number : value 0 out ≡ i

or_empty : Option Bytes → Bytes
or_empty none = []
or_empty (some b) = b

sprint_of : (wid i : ℕ) (out : Bytes) → itoa [] i wid ≡ some out → sprint_decimal wid i ≡ out
unfolding sprint_decimal or_empty
sprint_of wid i out e = ap or_empty e

pub sprint-IsDecimal : (wid i : ℕ) → i < 10 ^ 32 → wid ≤ 32 → IsDecimal i (sprint_decimal wid i)
sprint-IsDecimal wid i small fits =
    let (out, e, d, v, w) = itoa_writes [] i wid small fits in
    subst (IsDecimal i) (sym (sprint_of wid i out e)) (record { digits = d; number = v })

from_loop :
    (o : Option Bytes) (out : Bytes)
    → elim o [ none ↦ none | some b ↦ some ([] ++ b) ] ≡ some out
    → o ≡ some out
from_loop none out e = ground arith
from_loop (some b) out e = e

itoa_short :
    (i wid k : ℕ) (out : Bytes)
    → i < 10 ^ suc k
    → wid ≤ suc k
    → itoa [] i wid ≡ some out
    → length out ≤ suc k
unfolding itoa
itoa_short i wid k out small fits e = elim (Bool-cases (i == 0 && leb wid 1)) [
  | inl one ↦
      let same : 1 ≡ length out = ap length (some-injective (48 ∷ []) out (rw one at e)) in
      omega (arith, same)
  | inr more ↦ omega (
    arith,
    itoa_loop_short 32 i wid (suc k) [] out small fits
        (from_loop (itoa_loop 32 i wid []) out (rw more at e)),
  )
]

pow_up : (a d b : ℕ) → b ≡ a + d → 10 ^ a ≤ 10 ^ b
pow_up a zero b e = subst (λ n. 10 ^ a ≤ 10 ^ n) {x = a} (omega arith) (omega arith)
pow_up a (suc d) b e =
    let grown : 10 ^ a ≤ 10 ^ suc (a + d) = omega (arith, pow_up a d (a + d) refl) in
    subst (λ n. 10 ^ a ≤ 10 ^ n) {x = suc (a + d)} (omega arith) grown

below_room : (i k : ℕ) → k < 31 → i < 10 ^ suc k → i < 10 ^ 32
below_room i k few small = omega (arith, pow_up (suc k) (32 - suc k) 32 (omega arith))

-- Fewer digits make a smaller number.
exactly :
    (i wid k : ℕ) (out : Bytes)
    → AllDigits out
    → value 0 out ≡ i
    → wid ≤ length out
    → length out ≤ suc k
    → (10 ^ k ≤ i) ⊎ (wid ≡ suc k)
    → length out ≡ suc k
exactly i wid k out d v w most (inr same) = omega arith
exactly i wid k out d v w most (inl large) = elim (Bool-cases (leb (length out) k)) [
  | inl less ↦ absurd (
      omega (
        arith,
        value_bound 0 (length out) out d refl,
        pow_up (length out) (k - length out) k (ground arith),
      ))
  | inr enough ↦ ground arith
]

-- A number of k + 1 digits, or one below that which is printed with zeros in front.
pub length-sprint_decimal :
    (wid i k : ℕ)
    → i < 10 ^ suc k
    → wid ≤ suc k
    → k < 31
    → (10 ^ k ≤ i) ⊎ (wid ≡ suc k)
    → length (sprint_decimal wid i) ≡ suc k
length-sprint_decimal wid i k small fits few full =
    let (out, e, d, v, w) = itoa_writes [] i wid (below_room i k few small) (omega arith) in
    let most : length out ≤ suc k = itoa_short i wid k out small fits e in
    ap length (sprint_of wid i out e) ∙ exactly i wid k out d v w most full
