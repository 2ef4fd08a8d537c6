-- ===== src/RateLimiter/Tests.antt =====
-- The theorems of net/ratelimiter at concrete buckets, and tests of its definitions.
use optimusprime.Prelude.{◌≡◌, ◌⊎◌, refl, arith, some, [], ◌∷◌}
use optimusprime.Prelude.Int.{ℤ, pos, negsuc, ◌+ℤ◌, ◌-ℤ◌, ◌*ℤ◌, ◌<ℤ◌, quot, ltb_ℤ, leb_ℤ}
use optimusprime.Prelude.Word.{wrap, saturate}
use optimusprime.RateLimiter.Float.{Float32}
use optimusprime.RateLimiter.Search.{Search, found}
use optimusprime.RateLimiter.Bucket.{Bucket, adjust, cal}
use optimusprime.RateLimiter.Bucket.Charge.{IsValid, cal-IsValid, cal_charges}
use optimusprime.RateLimiter.Bucket.Repay.{cal_repays}
use optimusprime.RateLimiter.Bucket.Rate.{
  new_bucket_with_rate, new_bucket_with_rate_total, Suits, new_bucket_with_rate-Suits,
}
use optimusprime.RateLimiter.Leaky.{LeakyBucket}
use optimusprime.RateLimiter.Leaky.Level.{waits, waits_never}

-- Three tokens of ten are left; a tick is 100 nanoseconds and brings 4 tokens.
abbrev half_full : Bucket
half_full = record {
  start_time = pos 1000;
  capacity = pos 10;
  fill_interval = pos 100;
  increment = pos 4;
  avail = pos 3;
  avail_tick = pos 0;
}

half_full-IsValid : IsValid half_full
half_full-IsValid = omega arith

refilled : (adjust (pos 1150) half_full).avail ≡ pos 7
unfolding adjust wrap saturate quot ◌+ℤ◌ ◌-ℤ◌ ◌*ℤ◌
refilled = refl

waits_for_tokens :
    cal (pos 1150) (pos 20) half_full
    ≡ (record half_full { avail = negsuc 12; avail_tick = pos 1 }, pos 250)
unfolding cal wrap saturate quot ◌+ℤ◌ ◌-ℤ◌ ◌*ℤ◌
waits_for_tokens = refl

cal-IsValid_example : IsValid (cal (pos 1150) (pos 20) half_full).0
cal-IsValid_example =
    cal-IsValid (pos 1150) (pos 20) half_full half_full-IsValid
      (unfold adjust wrap saturate quot ◌+ℤ◌ ◌-ℤ◌ ◌*ℤ◌ in (omega arith, omega arith))

cal_charges_example :
    ((cal (pos 1150) (pos 2) half_full).0 ≡ record (adjust (pos 1150) half_full) {
      avail = (adjust (pos 1150) half_full).avail -ℤ pos 2;
    })
    × (((adjust (pos 1150) half_full).avail <ℤ pos 2)
        ⊎ ((cal (pos 1150) (pos 2) half_full).1 ≡ pos 0))
cal_charges_example =
    cal_charges (pos 1150) (pos 2) half_full (omega arith)
      (unfold adjust wrap saturate quot ◌+ℤ◌ ◌-ℤ◌ ◌*ℤ◌ in (omega arith, omega arith))

-- Twenty tokens are asked for, and 13 are owed: the caller waits for 3 ticks, which bring 12.
cal_repays_example :
    let now = half_full.start_time +ℤ pos 150 in
    let (after, w) = cal now (pos 20) half_full in pos 0 <ℤ (adjust (now +ℤ w) after).avail +ℤ pos 4
cal_repays_example =
    cal_repays half_full 10 0 12 150 100 4 (pos 20) half_full-IsValid refl refl refl refl
      (omega arith) (omega arith) (unfold adjust wrap saturate quot ◌+ℤ◌ ◌-ℤ◌ ◌*ℤ◌ in refl)
      (omega arith) (omega arith) (omega arith) (omega arith) (omega arith)

abbrev full : Bucket
full = record half_full { avail = pos 10 }

-- Whole numbers serve as floats.
abbrev whole : Float32
whole = record {
  Float = ℤ;
  of_int64 = λ z. z;
  to_int64 = λ z. z;
  mul = ◌*ℤ◌;
  div = quot;
  sub = ◌-ℤ◌;
  lt = ltb_ℤ;
  le = leb_ℤ;
  zero_float = pos 0;
  nano = pos 1000000000;
  rate_margin = pos 0;
}

abbrev hundred_a_second : Bucket
hundred_a_second = record {
  start_time = pos 5;
  capacity = pos 10;
  fill_interval = pos 10000000;
  increment = pos 1;
  avail = pos 10;
  avail_tick = pos 0;
}

new_bucket_with_rate_total_example :
    (s : Search Bucket) × (new_bucket_with_rate whole (λ _. pos 5) (pos 100) (pos 10) ≡ some s)
new_bucket_with_rate_total_example =
    new_bucket_with_rate_total whole (λ _. pos 5) (pos 100) (pos 10)

new_bucket_with_rate-Suits_example : Suits whole (pos 100) (pos 10) (found hundred_a_second)
new_bucket_with_rate-Suits_example =
    new_bucket_with_rate-Suits whole (λ _. pos 5) (pos 100) (pos 10) hundred_a_second
      (unfold new_bucket_with_rate wrap saturate quot ◌+ℤ◌ ◌-ℤ◌ ◌*ℤ◌ in refl)

-- Four units of ten are in the bucket; a tick is 100 nanoseconds and takes 3 units out.
abbrev dripping : LeakyBucket
dripping = record {
  start_time = pos 1000;
  capacity = pos 10;
  decrement = pos 3;
  emission_interval = pos 100;
  in_bucket = pos 4;
  avail_tick = pos 0;
}

waits_never_example :
    waits (record dripping { in_bucket = pos 0 }) ((pos 1001, pos 10) ∷ (pos 1001, pos 9) ∷ [])
    ≡ pos 0 ∷ pos 0 ∷ []
waits_never_example =
    waits_never (record dripping { in_bucket = pos 0 })
      ((pos 1001, pos 10) ∷ (pos 1001, pos 9) ∷ []) refl (omega arith) (omega arith)
