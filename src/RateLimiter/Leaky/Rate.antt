-- ===== src/RateLimiter/Leaky/Rate.antt =====
-- NewLeakyBucketWithRate and Rate of net/ratelimiter/leaky.go, over the float32 arithmetic.
use optimusprime.Prelude.{◌≡◌, Bool, true, arith, Option, none, some, if◌then◌else◌}
use optimusprime.Prelude.Int.{ℤ, pos, ltb_ℤ}
use optimusprime.RateLimiter.Float.{Float32}
use optimusprime.RateLimiter.Search.{
  Search, found, exhausted, nil_pointer, search, search_total, search_sound, search_fuel,
  max_increment,
}
use optimusprime.RateLimiter.Leaky.{LeakyBucket, new_leaky_bucket_with_decrement}
use optimusprime.RateLimiter.Leaky.Level.{IsSound, new_leaky_bucket_with_decrement-IsSound}

new_leaky_capacity :
    (now i c k : ℤ) {b : LeakyBucket}
    → new_leaky_bucket_with_decrement now i c k ≡ some b
    → b.capacity ≡ c
unfolding new_leaky_bucket_with_decrement
new_leaky_capacity now i c k h = ground arith

module _ (fl : Float32) where
  open fl use {Float, of_int64, to_int64, mul, div, sub, lt, le, zero_float, nano, rate_margin}

  pub rate : LeakyBucket → Float
  rate lb = div (mul nano (of_int64 lb.decrement)) (of_int64 lb.emission_interval)

  -- One round of the loop; `none` is `continue`. `clock i` is what time.Now() returns in the round
  -- of the decrement i.
  try_decrement : (ℤ → ℤ) → Float → ℤ → ℤ → Option (Search LeakyBucket)
  try_decrement clock r capacity i =
      let interval = div (mul nano (of_int64 i)) r in
      if lt interval zero_float
      then none
      else elim (new_leaky_bucket_with_decrement (clock i) (to_int64 interval) capacity i) [
        | none ↦ some nil_pointer
        | some b ↦ if le (sub (rate b) r) rate_margin then some (found b) else none
      ]

  go_on : ℤ → Bool
  go_on i = ltb_ℤ i (pos max_increment)

  pub new_leaky_bucket_with_rate : (ℤ → ℤ) → Float → ℤ → Option (Search LeakyBucket)
  unfolding try_decrement go_on
  new_leaky_bucket_with_rate clock r capacity =
      search search_fuel go_on (try_decrement clock r capacity) (pos 1)

  -- The search ends: with a bucket, with no decrement left, or at a nil bucket whose rate is asked
  -- for.
  pub new_leaky_bucket_with_rate_total :
      (clock : ℤ → ℤ) (r : Float) (capacity : ℤ)
      → (s : Search LeakyBucket) × (new_leaky_bucket_with_rate clock r capacity ≡ some s)
  unfolding new_leaky_bucket_with_rate
  new_leaky_bucket_with_rate_total clock r capacity =
      search_total go_on (try_decrement clock r capacity) search_fuel 1 (λ i h. ground arith)
        (omega arith) (omega arith)

  -- What a search promises of its result.
  abbrev pub Suits : Float → ℤ → Search LeakyBucket → Type 0
  Suits r capacity (found b) =
      IsSound b × (b.capacity ≡ capacity) × (le (sub (rate b) r) rate_margin ≡ true)
  Suits r capacity exhausted = Unit
  Suits r capacity nil_pointer = Unit

  try-Suits :
      (clock : ℤ → ℤ) (r : Float) (capacity i : ℤ) (s : Search LeakyBucket)
      → try_decrement clock r capacity i ≡ some s
      → Suits r capacity s
  unfolding try_decrement
  try-Suits clock r capacity i exhausted h = tt
  try-Suits clock r capacity i nil_pointer h = tt
  try-Suits clock r capacity i (found b) h =
      let ns = to_int64 (div (mul nano (of_int64 i)) r) in
      let made : new_leaky_bucket_with_decrement (clock i) ns capacity i ≡ some b = ground arith in
      let near : le (sub (rate b) r) rate_margin ≡ true = ground arith in
      (
        new_leaky_bucket_with_decrement-IsSound (clock i) ns capacity i made,
        new_leaky_capacity (clock i) ns capacity i made,
        near,
      )

  -- A bucket that the search returns is valid, has the capacity that was asked for, and its
  -- rate is above the one that was asked for by no more than the margin.
  pub new_leaky_bucket_with_rate-Suits :
      (clock : ℤ → ℤ) (r : Float) (capacity : ℤ) (b : LeakyBucket)
      → new_leaky_bucket_with_rate clock r capacity ≡ some (found b)
      → Suits r capacity (found b)
  unfolding new_leaky_bucket_with_rate
  new_leaky_bucket_with_rate-Suits clock r capacity b h =
      search_sound go_on (try_decrement clock r capacity) (Suits r capacity)
        (try-Suits clock r capacity) tt search_fuel (pos 1) (found b) h
