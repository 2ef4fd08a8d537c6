-- ===== src/RateLimiter/Bucket/Repay.antt =====
-- What the token bucket's wait is worth: how far the tokens are paid back when it is over.
use optimusprime.Prelude.{
  ℕ, suc, ◌+◌, ◌-◌, ◌*◌, ◌/◌, ◌^◌, ◌≤◌, ◌<◌, ◌≡◌, refl, arith, ap, ◌∙◌, inl, inr, ◌⊎◌, false,
}
use optimusprime.Prelude.Int.{ℤ, pos, negsuc, ◌+ℤ◌, ◌-ℤ◌, ◌<ℤ◌, leb_ℤ, int_laws, -ℤ_parts, +ℤ_parts}
use optimusprime.Prelude.Word.{saturate_exact}
use optimusprime.RateLimiter.Bucket.{Bucket, adjust, refill, take_tokens, cal, wait_time, tick_at}
use optimusprime.RateLimiter.Bucket.Exact.{
  mul64_exact, quot64_exact, tick_at_exact, add64_exact, sub64_negsuc, sub64_pos, add64_pos,
}
use optimusprime.RateLimiter.Bucket.Charge.{IsValid, take_tokens_charges}

-- The instant up to which a debt of d + 1 tokens makes the caller wait, counted from the start.
abbrev pub end_of : (t d f k : ℕ) → ℕ
end_of t d f k = (t + suc d / k) * f

move : (s : ℤ) (m e : ℕ) → (s +ℤ pos m) -ℤ (s +ℤ pos e) ≡ pos m -ℤ pos e
move s m e = omega int_laws

wait_time_exact :
    (s : ℤ) (tb : Bucket) (t d e f k : ℕ)
    → tb.start_time ≡ s
    → tb.fill_interval ≡ pos f
    → tb.increment ≡ pos k
    → d < 2 ^ 62
    → e < 2 ^ 63
    → t + suc d / k < 2 ^ 63
    → end_of t d f k < 2 ^ 63
    → wait_time (s +ℤ pos e) (pos t) (negsuc d) tb ≡ pos (end_of t d f k) -ℤ pos e
unfolding wait_time
wait_time_exact s tb t d e f k hs hf hk hd he ht hm =
    rw
      (
        hs,
        sub64_negsuc d hd,
        hk,
        quot64_exact (suc d) k (omega arith),
        add64_pos t (suc d / k) ht,
        hf,
        mul64_exact (t + suc d / k) f hm,
        move s (end_of t d f k) e,
      )
      (saturate_exact _ (
        omega (arith, -ℤ_parts (pos (end_of t d f k)) (pos e)),
        omega (arith, -ℤ_parts (pos (end_of t d f k)) (pos e)),
      ))

debt-lt : (d k q : ℕ) → 0 < k → d / k ≤ q → d < q * k + k
debt-lt d k q h p = grind arith

mul_mono_sub : (t a k : ℕ) → (t - a) * k ≤ t * k
mul_mono_sub t a k = grind arith

-- A refill that comes at least as many ticks after the last one as the debt needs, rounded down,
-- leaves a debt below one increment.
refill_pays :
    (tb : Bucket) (c t a d k : ℕ)
    → tb.capacity ≡ pos c
    → tb.increment ≡ pos k
    → tb.avail ≡ negsuc d
    → tb.avail_tick ≡ pos a
    → 0 < k
    → a ≤ t
    → t < 2 ^ 63
    → d < 2 ^ 62
    → (t - a) * k < 2 ^ 62
    → suc d / k ≤ t - a
    → pos 0 <ℤ (refill (pos t) tb).avail +ℤ pos k
unfolding refill
refill_pays tb c t a d k hc hk hv ha k_pos le ht hd fits enough =
    rw
      (
        hc,
        hk,
        hv,
        ha,
        sub64_pos t a le ht,
        mul64_exact (t - a) k (omega arith),
        add64_exact (negsuc d) (pos ((t - a) * k)) (
          omega (arith, +ℤ_parts (negsuc d) (pos ((t - a) * k))),
          omega (arith, +ℤ_parts (negsuc d) (pos ((t - a) * k))),
        ),
      )
      (ground (
        arith,
        debt-lt (suc d) k (t - a) k_pos enough,
        +ℤ_parts (negsuc d) (pos ((t - a) * k)),
        +ℤ_parts (negsuc d +ℤ pos ((t - a) * k)) (pos k),
        +ℤ_parts (pos c) (pos k),
      ))

-- The instant of the end of a wait, and its tick.
later : (s : ℤ) (e m : ℕ) → (s +ℤ pos e) +ℤ (pos m -ℤ pos e) ≡ s +ℤ pos m
later s e m = omega int_laws

mul-div : (q f : ℕ) → 0 < f → q * f / f ≡ q
mul-div q f h = grind arith

-- A bucket with a debt, at the end of the wait for it.
adjust_pays :
    (s : ℤ) (tb : Bucket) (c t a d f k : ℕ)
    → tb.start_time ≡ s
    → tb.capacity ≡ pos c
    → tb.fill_interval ≡ pos f
    → tb.increment ≡ pos k
    → tb.avail ≡ negsuc d
    → tb.avail_tick ≡ pos a
    → 0 < f
    → 0 < k
    → a ≤ t
    → d < 2 ^ 62
    → t + suc d / k < 2 ^ 62
    → (t + suc d / k) * k < 2 ^ 62
    → end_of t d f k < 2 ^ 63
    → pos 0 <ℤ (adjust (s +ℤ pos (end_of t d f k)) tb).avail +ℤ pos k
adjust_pays s tb c t a d f k hs hc hf hk hv ha f_pos k_pos le hd ht hk2 hm =
    let e : tick_at (s +ℤ pos (end_of t d f k)) tb ≡ pos (t + suc d / k) =
      rw (← hs)
        (tick_at_exact tb (end_of t d f k) f hm hf ∙ ap pos (mul-div (t + suc d / k) f f_pos)) in
    let full : leb_ℤ tb.capacity tb.avail ≡ false = ground arith in
    unfold adjust in
    rw (full, e)
      (refill_pays tb c (t + suc d / k) a d k hc hk hv ha k_pos (omega arith) (omega arith) hd
        (omega (arith, mul_mono_sub (t + suc d / k) a k)) (omega arith))

-- A refill changes the tokens and the tick alone.
adjust_keeps :
    (now : ℤ) (tb : Bucket)
    → ((adjust now tb).start_time ≡ tb.start_time)
      × ((adjust now tb).capacity ≡ tb.capacity)
      × ((adjust now tb).fill_interval ≡ tb.fill_interval)
      × ((adjust now tb).increment ≡ tb.increment)
      × (((adjust now tb).avail_tick ≡ tb.avail_tick)
          ⊎ ((adjust now tb).avail_tick ≡ tick_at now tb))
unfolding adjust
adjust_keeps now tb = ground arith

cal_lem :
    (now n : ℤ) (tb : Bucket)
    → pos 0 <ℤ n
    → cal now n tb ≡ take_tokens now (tick_at now tb) n (adjust now tb)
unfolding cal
cal_lem now n tb h = let e : leb_ℤ n (pos 0) ≡ false = ground arith in rw e

-- A call that has to wait for a debt of d + 1 tokens.
pub cal_waits :
    (tb : Bucket) (d e f k : ℕ) (n : ℤ)
    → tb.fill_interval ≡ pos f
    → tb.increment ≡ pos k
    → pos 0 <ℤ n
    → (adjust (tb.start_time +ℤ pos e) tb).avail -ℤ n ≡ negsuc d
    → d < 2 ^ 62
    → e < 2 ^ 63
    → e / f + suc d / k < 2 ^ 62
    → (e / f + suc d / k) * f < 2 ^ 63
    → (cal (tb.start_time +ℤ pos e) n tb).0
        ≡ record (adjust (tb.start_time +ℤ pos e) tb) { avail = negsuc d }
      × ((cal (tb.start_time +ℤ pos e) n tb).1 ≡ pos (end_of (e / f) d f k) -ℤ pos e)
cal_waits tb d e f k n hf hk n_pos hd d_fits e_fits t_fits m_fits =
    let now = tb.start_time +ℤ pos e in
    let keeps = adjust_keeps now tb in
    let short : leb_ℤ (pos 0) (negsuc d) ≡ false = ground arith in
    let charged =
      take_tokens_charges now (tick_at now tb) n (adjust now tb)
        (rw hd (omega arith, omega arith)) in
    let waits =
      wait_time_exact tb.start_time (adjust now tb) (e / f) d e f k keeps.0 (keeps.2 ∙ hf)
        (keeps.3 ∙ hk) d_fits e_fits (omega arith) m_fits in
    rw (cal_lem now n tb n_pos) (
      charged.0 ∙ ap (λ z. record (adjust now tb) { avail = z }) hd,
      charged.1 ∙ rw (hd, short, tick_at_exact tb e f e_fits hf) waits,
    )

-- When a call that has to wait for a debt of d + 1 tokens returns the wait w, then at w after the
-- call the next refill leaves a debt below one increment: with an increment of 1 it leaves none.
-- The bucket is valid, the call is made at a tick not before that of the last refill, and no product
-- on the way leaves int64.
pub cal_repays :
    (tb : Bucket) (c a d e f k : ℕ) (n : ℤ)
    → IsValid tb
    → tb.capacity ≡ pos c
    → tb.fill_interval ≡ pos f
    → tb.increment ≡ pos k
    → tb.avail_tick ≡ pos a
    → a ≤ e / f
    → pos 0 <ℤ n
    → (adjust (tb.start_time +ℤ pos e) tb).avail -ℤ n ≡ negsuc d
    → d < 2 ^ 62
    → e < 2 ^ 63
    → e / f + suc d / k < 2 ^ 62
    → (e / f + suc d / k) * k < 2 ^ 62
    → (e / f + suc d / k) * f < 2 ^ 63
    → let now = tb.start_time +ℤ pos e in
      let (after, w) = cal now n tb in pos 0 <ℤ (adjust (now +ℤ w) after).avail +ℤ pos k
cal_repays tb c a d e f k n v hc hf hk ha le n_pos hd d_fits e_fits t_fits k_fits m_fits =
    let now = tb.start_time +ℤ pos e in
    let keeps = adjust_keeps now tb in
    let (charged, waits) = cal_waits tb d e f k n hf hk n_pos hd d_fits e_fits t_fits m_fits in
    rw (charged, waits, later tb.start_time e (end_of (e / f) d f k))
      (elim keeps.4 [
        | inl same ↦ repaid a le (same ∙ ha)
        | inr moved ↦ repaid (e / f) (omega arith) (moved ∙ tick_at_exact tb e f e_fits hf)
      ])
  where
    repaid :
        (t : ℕ)
        → t ≤ e / f
        → (adjust (tb.start_time +ℤ pos e) tb).avail_tick ≡ pos t
        → pos 0
          <ℤ (adjust
              (tb.start_time +ℤ pos (end_of (e / f) d f k))
              (record (adjust (tb.start_time +ℤ pos e) tb) { avail = negsuc d })).avail
            +ℤ pos k
    repaid t t_le tick =
        let keeps = adjust_keeps (tb.start_time +ℤ pos e) tb in
        adjust_pays tb.start_time (record (adjust (tb.start_time +ℤ pos e) tb) { avail = negsuc d })
          c (e / f) t d f k keeps.0 (keeps.1 ∙ hc) (keeps.2 ∙ hf) (keeps.3 ∙ hk) refl tick
          (ground (arith, v.interval_pos)) (ground (arith, v.increment_pos)) t_le d_fits t_fits
          k_fits m_fits
