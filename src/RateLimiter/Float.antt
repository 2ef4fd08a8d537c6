-- ===== src/RateLimiter/Float.antt =====
-- The float32 arithmetic of net/ratelimiter, which is a parameter: a type with the operations that
-- the code uses, and the increments that the two searches for a rate go through.
use optimusprime.Prelude.{
  ℕ, ◌+◌, ◌*◌, ◌/◌, ◌^◌, ◌≤◌, ◌<◌, ◌==◌, ◌&&◌, ◌≡◌, Bool, arith, if◌then◌else◌,
}
use optimusprime.Prelude.Int.{ℤ, pos, leb_ℤ}
use optimusprime.Prelude.Word.{add64, mul64, quot64}
use optimusprime.RateLimiter.Bucket.Exact.{mul64_exact, quot64_exact, add64_pos}

-- No law of the operations is assumed.
pub record Float32 : Type 1 where
  pub Float : Type 0
  pub of_int64 : ℤ → Float
  pub to_int64 : Float → ℤ
  pub mul : Float → Float → Float
  pub div : Float → Float → Float
  pub sub : Float → Float → Float
  pub lt : Float → Float → Bool
  pub le : Float → Float → Bool
  pub zero_float : Float
  pub nano : Float
  pub rate_margin : Float

-- `nextIncrement` and `nextDecrement`.
pub next_increment : ℤ → ℤ
next_increment i =
    let j = quot64 (mul64 i (pos 11)) (pos 10) in
    if leb_ℤ i j && leb_ℤ j i then add64 j (pos 1) else j

-- Within the range of the search it is exact, and it grows.
pub next_increment_exact :
    (m : ℕ)
    → m < 2 ^ 51
    → next_increment (pos m) ≡ pos (if m * 11 / 10 == m then m + 1 else m * 11 / 10)
unfolding next_increment
next_increment_exact m h =
    rw
      (
        mul64_exact m 11 (omega arith),
        quot64_exact (m * 11) 10 (omega arith),
        add64_pos (m * 11 / 10) 1 (omega arith),
      )
      (ground arith)

pub next_increment_grows :
    (m : ℕ)
    → m < 2 ^ 51
    → (m' : ℕ) × (next_increment (pos m) ≡ pos m') × (m < m') × (m' ≤ 2 * m + 1)
next_increment_grows m h = (
  (if m * 11 / 10 == m then m + 1 else m * 11 / 10),
  next_increment_exact m h,
  ground arith,
  ground arith,
)
