-- ===== src/RateLimiter/Bucket/Charge.antt =====
-- What one call of the token bucket does to the tokens.
use optimusprime.Prelude.{some, ◌⊎◌, ◌≡◌, arith, if◌then◌else◌}
use optimusprime.Prelude.Int.{ℤ, pos, ◌-ℤ◌, ◌≤ℤ◌, ◌<ℤ◌, leb_ℤ, -ℤ_parts}
use optimusprime.Prelude.Word.{FitsInt64, saturate-FitsInt64, wrap_exact}
use optimusprime.RateLimiter.Bucket.{
  Bucket, adjust, take_tokens, cal, wait_time, tick_at, new_bucket_with_increment, max_wait,
}

-- What the constructor sets up and every call keeps.
pub record IsValid (tb : Bucket) : Type 0 where
  pub capacity_pos : pos 0 <ℤ tb.capacity
  pub interval_pos : pos 0 <ℤ tb.fill_interval
  pub increment_pos : pos 0 <ℤ tb.increment
  pub avail_le : tb.avail ≤ℤ tb.capacity

-- The refill is cut off at the capacity also where its int64 arithmetic wraps around.
pub adjust-IsValid : (now : ℤ) (tb : Bucket) → IsValid tb → IsValid (adjust now tb)
unfolding adjust
adjust-IsValid now tb v = ground arith

pub wait_time-le : (now t left : ℤ) (tb : Bucket) → wait_time now t left tb ≤ℤ max_wait
unfolding wait_time
wait_time-le now t left tb = (saturate-FitsInt64 _).1

-- The exact effect of a call that asks for n > 0 tokens.
pub take_tokens_charges :
    (now t n : ℤ) (tb : Bucket)
    → FitsInt64 (tb.avail -ℤ n)
    → ((take_tokens now t n tb).0 ≡ record tb { avail = tb.avail -ℤ n })
      × ((take_tokens now t n tb).1
          ≡ (if leb_ℤ (pos 0) (tb.avail -ℤ n) then pos 0 else wait_time now t (tb.avail -ℤ n) tb))
unfolding take_tokens
take_tokens_charges now t n tb fits =
    let e = wrap_exact (tb.avail -ℤ n) fits in
    rw e (ground (arith, wait_time-le now t (tb.avail -ℤ n) tb))

-- A bucket that the constructor returns is valid, and the constructor refuses exactly the arguments
-- of which one is not positive.
pub new_bucket_with_increment-IsValid :
    (now i c k : ℤ) {tb : Bucket} → new_bucket_with_increment now i c k ≡ some tb → IsValid tb
unfolding new_bucket_with_increment
new_bucket_with_increment-IsValid now i c k h = ground arith

-- A call at any instant, for any number of tokens, keeps the bucket valid, if the tokens after it
-- are a value of int64; the refill before it may overflow.
pub cal-IsValid :
    (now n : ℤ) (tb : Bucket)
    → IsValid tb
    → FitsInt64 ((adjust now tb).avail -ℤ n)
    → IsValid (cal now n tb).0
unfolding cal
cal-IsValid now n tb v fits = ground (
  arith,
  adjust-IsValid now tb v,
  take_tokens_charges now (tick_at now tb) n (adjust now tb) fits,
  -ℤ_parts (adjust now tb).avail n,
)

-- A call for n > 0 tokens charges exactly n to the adjusted bucket, whether it has to wait or not,
-- changes nothing else, and returns 0 unless the tokens are too few.
pub cal_charges :
    (now n : ℤ) (tb : Bucket)
    → pos 0 <ℤ n
    → FitsInt64 ((adjust now tb).avail -ℤ n)
    → ((cal now n tb).0 ≡ record (adjust now tb) { avail = (adjust now tb).avail -ℤ n })
      × (((adjust now tb).avail <ℤ n) ⊎ ((cal now n tb).1 ≡ pos 0))
unfolding cal
cal_charges now n tb p fits = ground (
  arith,
  take_tokens_charges now (tick_at now tb) n (adjust now tb) fits,
  -ℤ_parts (adjust now tb).avail n,
)
