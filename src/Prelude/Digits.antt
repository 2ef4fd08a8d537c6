-- ===== src/Prelude/Digits.antt =====
-- Decimal digits, and the number that they are.
use optimusprime.Prelude.{ℕ, ◌+◌, ◌-◌, ◌*◌, ◌≤◌, ◌≡◌, refl, arith, Bool, true, ◌&&◌, leb, [], ◌∷◌}
use optimusprime.Prelude.Text.{Bytes}

abbrev pub AllDigits : Bytes → Type 0
AllDigits [] = Unit
AllDigits (b ∷ bs) = (48 ≤ b) × (b ≤ 57) × AllDigits bs

unfoldable pub value : ℕ → Bytes → ℕ
value acc [] = acc
value acc (b ∷ bs) = value (acc * 10 + (b - 48)) bs

unfoldable pub only_digits : Bytes → Bool
only_digits [] = true
only_digits (b ∷ bs) = leb 48 b && (leb b 57 && only_digits bs)

pub only_digits-true : (bs : Bytes) → AllDigits bs → only_digits bs ≡ true
unfolding only_digits
only_digits-true [] d = refl
only_digits-true (b ∷ bs) (lo, hi, d) = ground (arith, only_digits-true bs d)
