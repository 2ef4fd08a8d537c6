-- ===== src/RateLimiter/Bucket/Rate.antt =====
-- NewBucketWithRate and Rate of net/ratelimiter/bucket.go, over the float32 arithmetic.
use optimusprime.Prelude.{◌≡◌, Bool, true, arith, Option, none, some, if◌then◌else◌}
use optimusprime.Prelude.Int.{ℤ, pos, leb_ℤ}
use optimusprime.RateLimiter.Float.{Float32}
use optimusprime.RateLimiter.Search.{
  Search, found, exhausted, nil_pointer, search, search_total, search_sound, search_fuel,
  max_increment,
}
use optimusprime.RateLimiter.Bucket.{Bucket, new_bucket_with_increment}
use optimusprime.RateLimiter.Bucket.Charge.{IsValid, new_bucket_with_increment-IsValid}

new_bucket_capacity :
    (now i c k : ℤ) {b : Bucket} → new_bucket_with_increment now i c k ≡ some b → b.capacity ≡ c
unfolding new_bucket_with_increment
new_bucket_capacity now i c k h = ground arith

new_bucket_avail :
    (now i c k : ℤ) {b : Bucket} → new_bucket_with_increment now i c k ≡ some b → b.avail ≡ c
unfolding new_bucket_with_increment
new_bucket_avail now i c k h = ground arith

module _ (fl : Float32) where
  open fl use {Float, of_int64, to_int64, mul, div, sub, lt, le, zero_float, nano, rate_margin}

  pub rate : Bucket → Float
  rate tb = div (mul (of_int64 tb.increment) nano) (of_int64 tb.fill_interval)

  -- One round of the loop; `none` is `continue`. `clock i` is what time.Now() returns in the round
  -- of the increment i.
  try_increment : (ℤ → ℤ) → Float → ℤ → ℤ → Option (Search Bucket)
  try_increment clock r capacity i =
      let interval = div (mul nano (of_int64 i)) r in
      if lt interval zero_float
      then none
      else elim (new_bucket_with_increment (clock i) (to_int64 interval) capacity i) [
        | none ↦ some nil_pointer
        | some b ↦ if le (sub (rate b) r) rate_margin then some (found b) else none
      ]

  go_on : ℤ → Bool
  go_on i = leb_ℤ i (pos max_increment)

  unfoldable pub new_bucket_with_rate : (ℤ → ℤ) → Float → ℤ → Option (Search Bucket)
  unfolding rate try_increment go_on search new_bucket_with_increment
  new_bucket_with_rate clock r capacity =
      search search_fuel go_on (try_increment clock r capacity) (pos 1)

  -- The search ends: with a bucket, with no increment left, or at a nil bucket whose rate is asked
  -- for.
  pub new_bucket_with_rate_total :
      (clock : ℤ → ℤ) (r : Float) (capacity : ℤ)
      → (s : Search Bucket) × (new_bucket_with_rate clock r capacity ≡ some s)
  unfolding new_bucket_with_rate
  new_bucket_with_rate_total clock r capacity =
      search_total go_on (try_increment clock r capacity) search_fuel 1 (λ i h. ground arith)
        (omega arith) (omega arith)

  -- What a search promises of its result.
  abbrev pub Suits : Float → ℤ → Search Bucket → Type 0
  Suits r capacity (found b) =
      IsValid b
      × (b.capacity ≡ capacity)
      × (b.avail ≡ capacity)
      × (le (sub (rate b) r) rate_margin ≡ true)
  Suits r capacity exhausted = Unit
  Suits r capacity nil_pointer = Unit

  try-Suits :
      (clock : ℤ → ℤ) (r : Float) (capacity i : ℤ) (s : Search Bucket)
      → try_increment clock r capacity i ≡ some s
      → Suits r capacity s
  unfolding try_increment
  try-Suits clock r capacity i exhausted h = tt
  try-Suits clock r capacity i nil_pointer h = tt
  try-Suits clock r capacity i (found b) h =
      let ns = to_int64 (div (mul nano (of_int64 i)) r) in
      let made : new_bucket_with_increment (clock i) ns capacity i ≡ some b = ground arith in
      let near : le (sub (rate b) r) rate_margin ≡ true = ground arith in
      (
        new_bucket_with_increment-IsValid (clock i) ns capacity i made,
        new_bucket_capacity (clock i) ns capacity i made,
        new_bucket_avail (clock i) ns capacity i made,
        near,
      )

  -- A bucket that the search returns is valid and full, has the capacity that was asked for, and its
  -- rate is above the one that was asked for by no more than the margin.
  pub new_bucket_with_rate-Suits :
      (clock : ℤ → ℤ) (r : Float) (capacity : ℤ) (b : Bucket)
      → new_bucket_with_rate clock r capacity ≡ some (found b)
      → Suits r capacity (found b)
  unfolding new_bucket_with_rate
  new_bucket_with_rate-Suits clock r capacity b h =
      search_sound go_on (try_increment clock r capacity) (Suits r capacity)
        (try-Suits clock r capacity) tt search_fuel (pos 1) (found b) h
