-- ===== src/RateLimiter/Leaky/Level.antt =====
-- The level of the leaky bucket, and the waits that it leads to.
use optimusprime.Prelude.{
  ℕ, suc, ◌+◌, ◌-◌, ◌*◌, ◌/◌, ◌^◌, ◌<◌, ◌≡◌, refl, arith, ap, ◌∙◌, false, Bool-cases, inl, inr,
  List, [], ◌∷◌, map, some,
}
use optimusprime.Prelude.Int.{
  ℤ, pos, ◌+ℤ◌, ◌-ℤ◌, ◌≤ℤ◌, ◌<ℤ◌, leb_ℤ, -ℤ_parts, +ℤ_parts, eq_of_parts,
}
use optimusprime.Prelude.Word.{max_int64, add64, FitsInt64, wrap, wrap_exact}
use optimusprime.RateLimiter.Bucket.Exact.{mul64_exact, quot64_exact, add64_pos, time_sub_exact}
use optimusprime.RateLimiter.Leaky.{
  LeakyBucket, adjust, tick_at, pour, cal, wait_time, new_leaky_bucket_with_decrement, max_wait,
}

pub record IsSound (lb : LeakyBucket) : Type 0 where
  pub capacity_pos : pos 0 <ℤ lb.capacity
  pub interval_pos : pos 0 <ℤ lb.emission_interval
  pub decrement_pos : pos 0 <ℤ lb.decrement
  pub level_nonneg : pos 0 ≤ℤ lb.in_bucket

pub new_leaky_bucket_with_decrement-IsSound :
    (now i c k : ℤ) {lb : LeakyBucket}
    → new_leaky_bucket_with_decrement now i c k ≡ some lb
    → IsSound lb
unfolding new_leaky_bucket_with_decrement
new_leaky_bucket_with_decrement-IsSound now i c k h = ground arith

pub adjust-IsSound : (now : ℤ) (lb : LeakyBucket) → IsSound lb → IsSound (adjust now lb)
unfolding adjust
adjust-IsSound now lb v = ground arith

pour-IsSound :
    (now t n : ℤ) (lb : LeakyBucket)
    → IsSound lb
    → pos 0 <ℤ n
    → FitsInt64 (lb.in_bucket +ℤ n)
    → IsSound (pour now t n lb).0
unfolding pour
pour-IsSound now t n lb v p fits =
    rw (wrap_exact (lb.in_bucket +ℤ n) fits) (ground (arith, +ℤ_parts lb.in_bucket n))

-- A call at any instant keeps the bucket valid, with a level of at least 0, if the level after it is
-- a value of int64; the leak before it may overflow.
pub cal-IsSound :
    (now n : ℤ) (lb : LeakyBucket)
    → IsSound lb
    → FitsInt64 ((adjust now lb).in_bucket +ℤ n)
    → IsSound (cal now n lb).0
unfolding cal
cal-IsSound now n lb v fits =
    ground (arith, pour-IsSound now (tick_at now lb) n (adjust now lb) (adjust-IsSound now lb v))

-- The levels of a run of calls, each an instant and a number of units: the waits, in order.
unfoldable pub waits : LeakyBucket → List (ℤ × ℤ) → List ℤ
waits lb [] = []
waits lb ((now, n) ∷ calls) = (cal now n lb).1 ∷ waits (cal now n lb).0 calls

abbrev pub IsWithin : ℤ → List (ℤ × ℤ) → Type 0
IsWithin c [] = Unit
IsWithin c ((_, n) ∷ calls) = (n ≤ℤ c) × IsWithin c calls

cal_empty :
    (now n : ℤ) (lb : LeakyBucket)
    → lb.in_bucket ≡ pos 0
    → lb.capacity ≤ℤ max_int64
    → n ≤ℤ lb.capacity
    → cal now n lb ≡ (lb, pos 0)
unfolding cal
cal_empty now n lb e c_fits le = elim (Bool-cases (leb_ℤ n (pos 0))) [
  | inl none_asked ↦ rw none_asked
  | inr asked ↦
      let level : lb.in_bucket +ℤ n ≡ n =
        eq_of_parts _ _ (rw e (omega (arith, +ℤ_parts (pos 0) n))) in
      let low : pos 0 <ℤ n = ground arith in
      let exact : add64 lb.in_bucket n ≡ n =
        ap wrap level ∙ wrap_exact n (omega arith, omega arith) in
      ground arith
]

-- However many calls are made, and at whatever instants: from an empty bucket, calls that each ask for
-- no more than the capacity never wait.
pub waits_never :
    (lb : LeakyBucket) (calls : List (ℤ × ℤ))
    → lb.in_bucket ≡ pos 0
    → lb.capacity ≤ℤ max_int64
    → IsWithin lb.capacity calls
    → waits lb calls ≡ map (λ _. pos 0) calls
unfolding waits
waits_never lb [] e c_fits h = refl
waits_never lb ((now, n) ∷ calls) e c_fits (le, h) =
    rw (cal_empty now n lb e c_fits le) (ap (λ r. pos 0 ∷ r) (waits_never lb calls e c_fits h))

-- The wait for `over` units above the capacity: it is counted from the start of the bucket, but laid
-- from now, so that it holds the bucket's whole age, in ticks, once more.
wait_time_exact :
    (now : ℤ) (lb : LeakyBucket) (t over f k : ℕ)
    → lb.emission_interval ≡ pos f
    → lb.decrement ≡ pos k
    → over < 2 ^ 63
    → t + over / k < 2 ^ 63
    → (t + over / k) * f < 2 ^ 63
    → wait_time now (pos t) (pos over) lb ≡ pos ((t + over / k) * f)
unfolding wait_time
wait_time_exact now lb t over f k hf hk o_fits t_fits m_fits =
    rw
      (
        hk,
        quot64_exact over k o_fits,
        add64_pos t (over / k) t_fits,
        hf,
        mul64_exact (t + over / k) f m_fits,
      )
      (time_sub_exact now _ m_fits)

-- The tick of an instant `e` nanoseconds after the start.
tick_at_exact :
    (lb : LeakyBucket) (e f : ℕ)
    → e < 2 ^ 63
    → lb.emission_interval ≡ pos f
    → tick_at (lb.start_time +ℤ pos e) lb ≡ pos (e / f)
unfolding tick_at
tick_at_exact lb e f h i = rw (time_sub_exact lb.start_time e h, i) (quot64_exact e f h)

age_in_ticks : (e f k over : ℕ) → 0 < f → e < (e / f + over / k) * f + f
age_in_ticks e f k over h = grind arith

adjust_keeps :
    (now : ℤ) (lb : LeakyBucket)
    → ((adjust now lb).capacity ≡ lb.capacity)
      × ((adjust now lb).emission_interval ≡ lb.emission_interval)
      × ((adjust now lb).decrement ≡ lb.decrement)
unfolding adjust
adjust_keeps now lb = ground arith

cal_lem :
    (now n : ℤ) (lb : LeakyBucket)
    → pos 0 <ℤ n
    → cal now n lb ≡ pour now (tick_at now lb) n (adjust now lb)
unfolding cal
cal_lem now n lb h = let e : leb_ℤ n (pos 0) ≡ false = ground arith in rw e

pour_over :
    (now t n : ℤ) (lb : LeakyBucket) (over w : ℕ)
    → FitsInt64 (lb.in_bucket +ℤ n)
    → lb.in_bucket +ℤ n -ℤ lb.capacity ≡ pos (suc over)
    → suc over < 2 ^ 63
    → wait_time now t (pos (suc over)) lb ≡ pos w
    → w < 2 ^ 63 - 1
    → pour now t n lb ≡ (record lb { in_bucket = lb.in_bucket +ℤ n }, pos w)
pour_over now t n lb over w fits ho o_fits hw w_fits =
    let above : leb_ℤ (lb.in_bucket +ℤ n) lb.capacity ≡ false =
      ground (arith, -ℤ_parts (lb.in_bucket +ℤ n) lb.capacity) in
    let short : leb_ℤ max_wait (pos w) ≡ false = ground arith in
    unfold pour in
    rw (
      wrap_exact (lb.in_bucket +ℤ n) fits,
      above,
      ho,
      wrap_exact (pos (suc over)) (omega arith, omega arith),
      hw,
      short,
    )

-- A call that finds the bucket over its capacity by `over` units takes the level up by n, and waits
-- for (e / f + over / k) intervals, where e is the bucket's age: never for less than the age, less
-- one interval. The bounds keep the results within int64.
pub cal_over :
    (lb : LeakyBucket) (e f k over : ℕ) (n : ℤ)
    → IsSound lb
    → lb.emission_interval ≡ pos f
    → lb.decrement ≡ pos k
    → let now = lb.start_time +ℤ pos e in
      pos 0 <ℤ n
      → FitsInt64 ((adjust now lb).in_bucket +ℤ n)
      → (adjust now lb).in_bucket +ℤ n -ℤ lb.capacity ≡ pos (suc over)
      → e < 2 ^ 63
      → suc over < 2 ^ 63
      → e / f + suc over / k < 2 ^ 63
      → (e / f + suc over / k) * f < 2 ^ 63 - 1
      → ((cal now n lb).0.in_bucket ≡ (adjust now lb).in_bucket +ℤ n)
        × ((cal now n lb).1 ≡ pos ((e / f + suc over / k) * f))
        × (pos e <ℤ (cal now n lb).1 +ℤ pos f)
cal_over lb e f k over n v hf hk n_pos fits ho e_fits o_fits t_fits m_fits =
    let now = lb.start_time +ℤ pos e in
    let keeps = adjust_keeps now lb in
    let w = (e / f + suc over / k) * f in
    let waits : wait_time now (tick_at now lb) (pos (suc over)) (adjust now lb) ≡ pos w =
      rw (tick_at_exact lb e f e_fits hf) (
        wait_time_exact now (adjust now lb) (e / f) (suc over) f k (keeps.1 ∙ hf) (keeps.2 ∙ hk)
          o_fits t_fits (omega arith)) in
    rw
      (
        cal_lem now n lb n_pos,
        pour_over now (tick_at now lb) n (adjust now lb) over w fits (rw keeps.0 ho) o_fits waits
            m_fits,
      )
      (
        refl,
        refl,
        omega (
          arith,
          age_in_ticks e f k (suc over) (ground (arith, v.interval_pos)),
          +ℤ_parts (pos w) (pos f),
        ),
      )
