-- ===== src/RateLimiter/Bucket/Exact.antt =====
-- The bucket's arithmetic where no result leaves int64.
use optimusprime.Prelude.{ℕ, suc, ◌+◌, ◌-◌, ◌*◌, ◌/◌, ◌^◌, ◌≤◌, ◌<◌, ◌≡◌, arith, ap, ◌∙◌}
use optimusprime.Prelude.Int.{
  ℤ, pos, negsuc, ◌+ℤ◌, ◌-ℤ◌, int_laws, *ℤ-pos_pos, quot-pos_pos, eq_of_parts, -ℤ_parts, +ℤ_parts,
}
use optimusprime.Prelude.Word.{
  wrap, wrap_exact, saturate_exact, saturate, add64, sub64, mul64, quot64, time_sub, FitsInt64,
}
use optimusprime.RateLimiter.Bucket.{Bucket, tick_at}

pub mul64_exact : (a b : ℕ) → a * b < 2 ^ 63 → mul64 (pos a) (pos b) ≡ pos (a * b)
mul64_exact a b h = ap wrap (*ℤ-pos_pos a b) ∙ wrap_exact (pos (a * b)) (omega arith, omega arith)

pub add64_exact : (a b : ℤ) → FitsInt64 (a +ℤ b) → add64 a b ≡ a +ℤ b
add64_exact a b h = wrap_exact (a +ℤ b) h

pub sub64_exact : (a b : ℤ) → FitsInt64 (a -ℤ b) → sub64 a b ≡ a -ℤ b
sub64_exact a b h = wrap_exact (a -ℤ b) h

div_le : (a b : ℕ) → a / b ≤ a
div_le a b = grind arith

pub quot64_exact : (a b : ℕ) → a < 2 ^ 63 → quot64 (pos a) (pos b) ≡ pos (a / b)
quot64_exact a b h =
    ap wrap (quot-pos_pos a b)
    ∙ wrap_exact (pos (a / b)) (omega (arith, div_le a b), omega (arith, div_le a b))

+ℤ-sub_self : (s : ℤ) (e : ℕ) → (s +ℤ pos e) -ℤ s ≡ pos e
+ℤ-sub_self s e = omega int_laws

pub time_sub_exact : (s : ℤ) (e : ℕ) → e < 2 ^ 63 → time_sub (s +ℤ pos e) s ≡ pos e
time_sub_exact s e h =
    ap saturate (+ℤ-sub_self s e) ∙ saturate_exact (pos e) (omega arith, omega arith)

-- The tick of an instant `e` nanoseconds after the start.
pub tick_at_exact :
    (tb : Bucket) (e f : ℕ)
    → e < 2 ^ 63
    → tb.fill_interval ≡ pos f
    → tick_at (tb.start_time +ℤ pos e) tb ≡ pos (e / f)
unfolding tick_at
tick_at_exact tb e f h i = rw (time_sub_exact tb.start_time e h, i) (quot64_exact e f h)

pub sub64_negsuc : (d : ℕ) → d < 2 ^ 62 → sub64 (pos 0) (negsuc d) ≡ pos (suc d)
sub64_negsuc d h =
    ap wrap
      (eq_of_parts (pos 0 -ℤ negsuc d) (pos (suc d)) (omega (arith, -ℤ_parts (pos 0) (negsuc d))))
    ∙ wrap_exact (pos (suc d)) (omega arith, omega arith)

pub sub64_pos : (t a : ℕ) → a ≤ t → t < 2 ^ 63 → sub64 (pos t) (pos a) ≡ pos (t - a)
sub64_pos t a h b =
    ap wrap (eq_of_parts (pos t -ℤ pos a) (pos (t - a)) (omega (arith, -ℤ_parts (pos t) (pos a))))
    ∙ wrap_exact (pos (t - a)) (omega arith, omega arith)

pub add64_pos : (a b : ℕ) → a + b < 2 ^ 63 → add64 (pos a) (pos b) ≡ pos (a + b)
add64_pos a b h =
    ap wrap (eq_of_parts (pos a +ℤ pos b) (pos (a + b)) (omega (arith, +ℤ_parts (pos a) (pos b))))
    ∙ wrap_exact (pos (a + b)) (omega arith, omega arith)
