-- ===== src/RateLimiter/Leaky.antt =====
-- net/ratelimiter/leaky.go. The clock is an argument, as in the token bucket. The bucket embeds a
-- mutex that no method takes: a call here is one that no other call overlaps.
pub mod Level
pub mod Rate
use optimusprime.Prelude.{ℕ, Bool, Option, none, some, ◌||◌, if◌then◌else◌}
use optimusprime.Prelude.Int.{ℤ, pos, ◌+ℤ◌, ◌-ℤ◌, ltb_ℤ, leb_ℤ}
use optimusprime.Prelude.Word.{max_int64, add64, sub64, mul64, quot64, time_sub}

pub record LeakyBucket : Type 0 where
  pub start_time : ℤ
  pub capacity : ℤ
  pub decrement : ℤ
  pub emission_interval : ℤ
  pub in_bucket : ℤ
  pub avail_tick : ℤ

abbrev pub max_wait : ℤ
max_wait = max_int64

unfoldable pub new_leaky_bucket_with_decrement : ℤ → ℤ → ℤ → ℤ → Option LeakyBucket
new_leaky_bucket_with_decrement now interval capacity decrement =
    if leb_ℤ interval (pos 0) || leb_ℤ capacity (pos 0) || leb_ℤ decrement (pos 0)
    then none
    else some (record {
      start_time = now;
      capacity = capacity;
      decrement = decrement;
      emission_interval = interval;
      in_bucket = pos 0;
      avail_tick = pos 0;
    })

unfoldable pub new_leaky_bucket : ℤ → ℤ → ℤ → Option LeakyBucket
unfolding new_leaky_bucket_with_decrement
new_leaky_bucket now interval capacity =
    new_leaky_bucket_with_decrement now interval capacity (pos 1)

-- The tick of the instant `now`.
unfoldable pub tick_at : ℤ → LeakyBucket → ℤ
tick_at now lb = quot64 (time_sub now lb.start_time) lb.emission_interval

-- What a leak up to the tick `t` leaves in a bucket that is not empty.
unfoldable pub leak : ℤ → LeakyBucket → LeakyBucket
leak t lb =
    let level = sub64 lb.in_bucket (mul64 (sub64 t lb.avail_tick) lb.decrement) in
    record lb { in_bucket = if ltb_ℤ level (pos 0) then pos 0 else level; avail_tick = t }

-- The bucket after `adjust`; its result is `tick_at now lb`.
unfoldable pub adjust : ℤ → LeakyBucket → LeakyBucket
unfolding tick_at leak
adjust now lb = if leb_ℤ lb.in_bucket (pos 0) then lb else leak (tick_at now lb) lb

-- The wait for what is over the capacity.
unfoldable pub wait_time : ℤ → ℤ → ℤ → LeakyBucket → ℤ
wait_time now current_tick overflow lb =
    let end_tick = add64 current_tick (quot64 overflow lb.decrement) in
    time_sub (now +ℤ mul64 end_tick lb.emission_interval) now

-- What `Cal` does once the bucket `lb` is adjusted.
unfoldable pub pour : ℤ → ℤ → ℤ → LeakyBucket → LeakyBucket × ℤ
unfolding wait_time
pour now current_tick n lb =
    let level = add64 lb.in_bucket n in
    let wait = wait_time now current_tick (sub64 level lb.capacity) lb in
    if leb_ℤ level lb.capacity
    then (lb, pos 0)
    else if leb_ℤ max_wait wait
    then (lb, pos 0)
    else (record lb { in_bucket = level }, wait)

unfoldable pub cal : ℤ → ℤ → LeakyBucket → LeakyBucket × ℤ
unfolding adjust pour tick_at
cal now n lb = if leb_ℤ n (pos 0) then (lb, pos 0) else pour now (tick_at now lb) n (adjust now lb)

-- `Wait`: the bucket after the call, and the time that it sleeps, if it calls time.Sleep.
unfoldable pub wait : ℤ → ℤ → LeakyBucket → LeakyBucket × Option ℤ
unfolding cal
wait now n lb =
    let (lb', t) = cal now n lb in
    (lb', if leb_ℤ t (pos 0) then if leb_ℤ (pos 0) t then none else some t else some t)
