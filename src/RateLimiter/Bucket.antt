-- ===== src/RateLimiter/Bucket.antt =====
-- net/ratelimiter/bucket.go. The clock is an argument: `now` is what time.Now() returned, in
-- nanoseconds. A call runs under the bucket's mutex, so it is one step of the state.
pub mod Exact
pub mod Charge
pub mod Repay
pub mod Faults
pub mod Rate
use optimusprime.Prelude.{ℕ, Bool, Option, none, some, ◌||◌, if◌then◌else◌}
use optimusprime.Prelude.Int.{ℤ, pos, ◌+ℤ◌, ◌-ℤ◌, ltb_ℤ, leb_ℤ}
use optimusprime.Prelude.Word.{max_int64, add64, sub64, mul64, quot64, time_sub}

pub record Bucket : Type 0 where
  pub start_time : ℤ
  pub capacity : ℤ
  pub fill_interval : ℤ
  pub increment : ℤ
  pub avail : ℤ
  pub avail_tick : ℤ

abbrev pub max_wait : ℤ
max_wait = max_int64

-- `nil` is `none`.
unfoldable pub new_bucket_with_increment : ℤ → ℤ → ℤ → ℤ → Option Bucket
new_bucket_with_increment now interval capacity increment =
    if leb_ℤ interval (pos 0) || leb_ℤ capacity (pos 0) || leb_ℤ increment (pos 0)
    then none
    else some (record {
      start_time = now;
      capacity = capacity;
      fill_interval = interval;
      increment = increment;
      avail = capacity;
      avail_tick = pos 0;
    })

unfoldable pub new_bucket : ℤ → ℤ → ℤ → Option Bucket
unfolding new_bucket_with_increment
new_bucket now interval capacity = new_bucket_with_increment now interval capacity (pos 1)

-- The tick of the instant `now`.
unfoldable pub tick_at : ℤ → Bucket → ℤ
tick_at now tb = quot64 (time_sub now tb.start_time) tb.fill_interval

-- What a refill up to the tick `t` leaves in a bucket that is not full.
unfoldable pub refill : ℤ → Bucket → Bucket
refill t tb =
    let grown = add64 tb.avail (mul64 (sub64 t tb.avail_tick) tb.increment) in
    record tb { avail = if ltb_ℤ tb.capacity grown then tb.capacity else grown; avail_tick = t }

-- The bucket after `adjust`; its result is `tick_at now tb`.
unfoldable pub adjust : ℤ → Bucket → Bucket
unfolding tick_at refill
adjust now tb = if leb_ℤ tb.capacity tb.avail then tb else refill (tick_at now tb) tb

-- The wait for a debt, from the tick of `now`.
unfoldable pub wait_time : ℤ → ℤ → ℤ → Bucket → ℤ
wait_time now current_tick left tb =
    let end_tick = add64 current_tick (quot64 (sub64 (pos 0) left) tb.increment) in
    time_sub (tb.start_time +ℤ mul64 end_tick tb.fill_interval) now

-- What `Cal` does once the bucket `tb` is adjusted.
unfoldable pub take_tokens : ℤ → ℤ → ℤ → Bucket → Bucket × ℤ
unfolding wait_time
take_tokens now current_tick n tb =
    let left = sub64 tb.avail n in
    let wait = wait_time now current_tick left tb in
    if leb_ℤ (pos 0) left
    then (record tb { avail = left }, pos 0)
    else if ltb_ℤ max_wait wait
    then (tb, pos 0)
    else (record tb { avail = left }, wait)

unfoldable pub cal : ℤ → ℤ → Bucket → Bucket × ℤ
unfolding adjust take_tokens tick_at
cal now n tb =
    if leb_ℤ n (pos 0) then (tb, pos 0) else take_tokens now (tick_at now tb) n (adjust now tb)

-- `Wait`: the bucket after the call, and the time that it sleeps, if it calls time.Sleep.
unfoldable pub wait : ℤ → ℤ → Bucket → Bucket × Option ℤ
unfolding cal
wait now n tb =
    let (tb', t) = cal now n tb in
    (tb', if leb_ℤ t (pos 0) then if leb_ℤ (pos 0) t then none else some t else some t)
