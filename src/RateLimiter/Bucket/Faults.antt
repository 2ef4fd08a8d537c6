-- ===== src/RateLimiter/Bucket/Faults.antt =====
-- Two ways in which the token bucket lets more through than its rate: the rounding of the wait, and
-- the tick that a full bucket does not keep.
use optimusprime.Prelude.{
  inl, inr, ℕ, suc, ◌+◌, ◌-◌, ◌*◌, ◌/◌, ◌^◌, ◌≤◌, ◌<◌, ◌≡◌, refl, arith, ap, ◌∙◌, false,
}
use optimusprime.Prelude.Int.{
  ℤ, pos, negsuc, ◌+ℤ◌, ◌-ℤ◌, ◌≤ℤ◌, ◌<ℤ◌, leb_ℤ, -ℤ_parts, +ℤ_parts, eq_of_parts,
}
use optimusprime.RateLimiter.Bucket.{Bucket, adjust, cal, tick_at}
use optimusprime.RateLimiter.Bucket.Exact.{mul64_exact, tick_at_exact, add64_exact, sub64_pos}
use optimusprime.RateLimiter.Bucket.Charge.{cal_charges}
use optimusprime.RateLimiter.Bucket.Repay.{cal_waits, end_of}

round_down : (e f : ℕ) → e / f * f ≤ e
round_down e f = grind arith

no_ticks : (d k : ℕ) → d < k → d / k ≡ 0
no_ticks d k h = grind arith

-- A call that goes into a debt below one increment is never made to sleep, although the bucket is
-- empty: it leaves a negative number of tokens, and its wait is 0 or below. The bounds keep
-- the products within int64.
pub cal_no_wait :
    (tb : Bucket) (d e f k : ℕ) (n : ℤ)
    → tb.fill_interval ≡ pos f
    → tb.increment ≡ pos k
    → pos 0 <ℤ n
    → (adjust (tb.start_time +ℤ pos e) tb).avail -ℤ n ≡ negsuc d
    → suc d < k
    → d < 2 ^ 62
    → e < 2 ^ 62
    → ((cal (tb.start_time +ℤ pos e) n tb).0.avail ≡ negsuc d)
      × ((cal (tb.start_time +ℤ pos e) n tb).1 ≤ℤ pos 0)
cal_no_wait tb d e f k n hf hk n_pos hd small d_fits e_fits =
    let none_due = no_ticks (suc d) k small in
    let down = round_down e f in
    let ticks : e / f ≤ e = grind arith in
    let end_le : (e / f + suc d / k) * f ≤ e = rw none_due (grind arith) in
    let (charged, waits) =
      cal_waits tb d e f k n hf hk n_pos hd d_fits (omega arith) (omega arith) (omega arith) in
    (
      ap (λ r. r.avail) charged,
      rw waits (omega (arith, -ℤ_parts (pos (end_of (e / f) d f k)) (pos e))),
    )

-- A full bucket stays as it is.
adjust_full : (now : ℤ) (tb : Bucket) → tb.capacity ≤ℤ tb.avail → adjust now tb ≡ tb
unfolding adjust
adjust_full now tb h = ground arith

adjust_empty :
    (now : ℤ) (tb : Bucket) (c t a k : ℕ)
    → tb.capacity ≡ pos c
    → tb.increment ≡ pos k
    → tb.avail ≡ pos 0
    → tb.avail_tick ≡ pos a
    → tick_at now tb ≡ pos t
    → 0 < c
    → a ≤ t
    → t < 2 ^ 63
    → (t - a) * k < 2 ^ 62
    → c ≤ (t - a) * k
    → (adjust now tb).avail ≡ pos c
adjust_empty now tb c t a k hc hk hv ha ht c_pos le t_fits fits enough =
    let low : leb_ℤ tb.capacity tb.avail ≡ false = ground arith in
    let grown : pos 0 +ℤ pos ((t - a) * k) ≡ pos ((t - a) * k) =
      eq_of_parts _ _ (omega (arith, +ℤ_parts (pos 0) (pos ((t - a) * k)))) in
    unfold adjust in
    rw
      (
        low,
        ht,
        hc,
        hk,
        hv,
        ha,
        sub64_pos t a le t_fits,
        mul64_exact (t - a) k (omega arith),
        add64_exact (pos 0) (pos ((t - a) * k)) (rw grown (omega arith, omega arith)),
        grown,
      )
      (ground arith)

pos-sub_self : (c : ℕ) → pos c -ℤ pos c ≡ pos 0
pos-sub_self c = eq_of_parts _ _ (omega (arith, -ℤ_parts (pos c) (pos c)))

-- A full bucket pays for one call of its whole capacity with no wait, and is then empty.
drain :
    (now : ℤ) (tb : Bucket) (c : ℕ)
    → (adjust now tb).avail ≡ pos c
    → 0 < c
    → ((cal now (pos c) tb).0 ≡ record (adjust now tb) { avail = pos 0 })
      × ((cal now (pos c) tb).1 ≡ pos 0)
drain now tb c hv c_pos =
    let e : (adjust now tb).avail -ℤ pos c ≡ pos 0 = rw hv (pos-sub_self c) in
    let (charged, free) =
      cal_charges now (pos c) tb (omega arith) (rw e (omega arith, omega arith)) in
    (
      charged ∙ ap (λ z. record (adjust now tb) { avail = z }) e,
      elim free [ inl few ↦ ground (arith, hv, few) | inr no_wait ↦ no_wait ],
    )

-- A full bucket whose last refill was long ago, so that the ticks since then are worth its capacity,
-- pays twice for its whole capacity at one and the same instant, with no wait.
pub cal_burst :
    (tb : Bucket) (c a e f k : ℕ)
    → tb.capacity ≡ pos c
    → tb.avail ≡ pos c
    → tb.fill_interval ≡ pos f
    → tb.increment ≡ pos k
    → tb.avail_tick ≡ pos a
    → 0 < c
    → a ≤ e / f
    → e < 2 ^ 62
    → (e / f - a) * k < 2 ^ 62
    → c ≤ (e / f - a) * k
    → let now = tb.start_time +ℤ pos e in
      let (after, w) = cal now (pos c) tb in (w ≡ pos 0) × ((cal now (pos c) after).1 ≡ pos 0)
cal_burst tb c a e f k hc hv hf hk ha c_pos le e_fits fits enough =
    let now = tb.start_time +ℤ pos e in
    let full : tb.capacity ≤ℤ tb.avail = rw (hc, hv) (omega arith) in
    let kept = adjust_full now tb full in
    let ticks : e / f ≤ e = grind arith in
    let empty : Bucket = record tb { avail = pos 0 } in
    let (first, free) = drain now tb c (ap (λ r. r.avail) kept ∙ hv) c_pos in
    let emptied : (cal now (pos c) tb).0 ≡ empty =
      first ∙ ap (λ (r : Bucket). record r { avail = pos 0 }) kept in
    let filled : (adjust now empty).avail ≡ pos c =
      adjust_empty now empty c (e / f) a k hc hk refl ha (tick_at_exact empty e f (omega arith) hf)
        c_pos le (omega arith) fits enough in
    (free, ap (λ r. (cal now (pos c) r).1) emptied ∙ (drain now empty c filled c_pos).1)
