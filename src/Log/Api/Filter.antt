-- ===== src/Log/Api/Filter.antt =====
-- Which line a call of Output gives, by the logger that it sees (log/logrotate.go).
use optimusprime.Prelude.{
  ℕ, ◌≤◌, ◌<◌, ◌≡◌, refl, sym, ◌∙◌, arith, Bool, true, false, Bool-cases, ◌⊎◌, inl, inr,
  if◌then◌else◌, leb, Option, none, some, [], ◌++◌, length,
}
use mathlib.Core.Path.{subst}
use optimusprime.Prelude.Text.{Bytes}
use optimusprime.Prelude.Int.{ℤ, pos, ltb_ℤ}
use optimusprime.Log.Logger.{Logger, Clock, Emitted, dropped, output, new_logger, level_info}
use optimusprime.Log.Logger.Line.{IsLine, output-IsLine, IsEnded}
use optimusprime.Log.Rotate.{
  RotateLogger, set_logf, rotate, rotate_if_large, check_rotate, count_line, put_with, put_old,
  put_early, put_seen, Seen, sees_old, sees_early, sees_open,
}
use optimusprime.Log.Api.{FileLogger, on_put, Logged, logged, exits, panicked}

-- The level k stands in the outer logger, in the rotation and in the logger on the open file, which
-- has its six counters.
pub record IsAt (k : ℕ) (f : FileLogger) : Type 0 where
  pub known : 1 ≤ k
  pub outer : f.outer.level ≡ pos k
  pub kept : f.rotation.level ≡ pos k
  pub inner : f.rotation.inner.level ≡ pos k
  pub six : length f.rotation.inner.level_stats ≡ 6

pub record RotationIsAt (k : ℕ) (rl : RotateLogger) : Type 0 where
  pub kept : rl.level ≡ pos k
  pub inner : rl.inner.level ≡ pos k
  pub six : length rl.inner.level_stats ≡ 6

pub count_line-IsAt :
    (k : ℕ) (stat : Option ℕ) (opens : Bool) (rl : RotateLogger)
    → RotationIsAt k rl
    → RotationIsAt k (count_line stat opens rl)
unfolding count_line check_rotate rotate_if_large rotate set_logf new_logger
count_line-IsAt k none opens rl h = ground arith
count_line-IsAt k (some s) opens rl h = ground arith

-- What a log call of level lvl gives: no line below the level k, and else one that holds the message
-- and ends in a newline unless the message is empty. A call above INFO that sees the next logger before
-- its level is set gives a line also below k. None panics or ends the process.
abbrev pub IsFiltered : ℕ → ℕ → Bytes → Seen → Logged → Type 0
IsFiltered k lvl s seen (logged none f) = (lvl < k) × IsAt k f
IsFiltered k lvl s seen (logged (some t) f) =
    ((k ≤ lvl) ⊎ ((seen ≡ sees_early) × (level_info < lvl)))
    × ((hd : Bytes) × (body : Bytes) × (t ≡ hd ++ body) × IsEnded s body)
    × IsAt k f
IsFiltered k lvl s seen exits = ⊥
IsFiltered k lvl s seen panicked = ⊥

output_quiet :
    (now : Clock) (lvl : ℕ) (s : Bytes) (l : Logger)
    → ltb_ℤ (pos lvl) l.level ≡ true
    → output now [] lvl s l ≡ dropped
unfolding output
output_quiet now lvl s l quiet = rw quiet refl

pub quiet_below : (k lvl : ℕ) (z : ℤ) → z ≡ pos k → ltb_ℤ (pos lvl) z ≡ true → lvl < k
quiet_below k lvl z e quiet = ground arith

pub loud_above : (k lvl : ℕ) (z : ℤ) → z ≡ pos k → ltb_ℤ (pos lvl) z ≡ false → k ≤ lvl
loud_above k lvl z e loud = ground arith

below_known : (k lvl : ℕ) → lvl < 1 → 1 ≤ k → lvl < k
below_known k lvl lt le = omega arith

pub above_info : (lvl : ℕ) → leb lvl level_info ≡ false → level_info < lvl
above_info lvl high = ground arith

early_loud :
    (k lvl : ℕ)
    → (k ≤ lvl) ⊎ (level_info < lvl)
    → (k ≤ lvl) ⊎ ((sees_early ≡ sees_early) × (level_info < lvl))
early_loud k lvl (inl le) = inl le
early_loud k lvl (inr lt) = inr (refl, lt)

pub seen_early :
    (b : Bool) (seen : Seen) → (if b then seen else sees_open) ≡ sees_early → seen ≡ sees_early
seen_early true seen e = e
seen_early false seen e = cc

pub with_rotation :
    (k : ℕ) (f : FileLogger) (rl : RotateLogger)
    → 1 ≤ k
    → f.outer.level ≡ pos k
    → RotationIsAt k rl
    → IsAt k (record f { rotation = rl })
with_rotation k f rl known o h = record {
  known = known;
  outer = o;
  kept = h.kept;
  inner = h.inner;
  six = h.six;
}

-- What Output gives on a logger of level z with its six counters.
data Gives (lvl : ℕ) (s : Bytes) (l : Logger) (e : Emitted) : Type 0 where
  gives_none : ltb_ℤ (pos lvl) l.level ≡ true → e ≡ dropped → Gives lvl s l e
  gives_line : ltb_ℤ (pos lvl) l.level ≡ false → IsLine lvl s l e → Gives lvl s l e

output-Gives :
    (now : Clock) (lvl : ℕ) (s : Bytes) (l : Logger)
    → lvl < 6
    → length l.level_stats ≡ 6
    → Gives lvl s l (output now [] lvl s l)
output-Gives now lvl s l small six = elim (Bool-cases (ltb_ℤ (pos lvl) l.level)) [
  | inl quiet ↦ gives_none quiet (output_quiet now lvl s l quiet)
  | inr loud ↦ gives_line loud (output-IsLine now [] lvl s l small six loud)
]

-- A call on the logger that stays, on the old one, and on the next one before its level is set.
put_with-IsFiltered :
    (k lvl : ℕ) (s : Bytes) (seen : Seen) (f : FileLogger) (rl : RotateLogger) (e : Emitted)
    → IsAt k (record f { rotation = rl })
    → Gives lvl s rl.inner e
    → IsFiltered k lvl s seen (on_put f (put_with rl e))
unfolding on_put put_with
put_with-IsFiltered k lvl s seen f rl e h (gives_none quiet is) =
    subst (λ x. IsFiltered k lvl s seen (on_put f (put_with rl x))) (sym is)
      (quiet_below k lvl rl.inner.level h.inner quiet, h)
put_with-IsFiltered k lvl s seen f rl e h (gives_line loud l) =
    subst (λ x. IsFiltered k lvl s seen (on_put f (put_with rl x))) (sym l.emits)
      (
        inl (loud_above k lvl rl.inner.level h.inner loud),
        (l.header, l.body, refl, l.ended),
        record {
          known = h.known;
          outer = h.outer;
          kept = h.kept;
          inner = h.inner;
          six = l.counted.same_length ∙ h.six;
        },
      )

put_old-IsFiltered :
    (k lvl : ℕ) (s : Bytes) (seen : Seen) (f : FileLogger) (rl : RotateLogger) (old : Logger)
    (e : Emitted)
    → IsAt k (record f { rotation = rl })
    → old.level ≡ pos k
    → Gives lvl s old e
    → IsFiltered k lvl s seen (on_put f (put_old rl e))
unfolding on_put put_old
put_old-IsFiltered k lvl s seen f rl old e h at (gives_none quiet is) =
    subst (λ x. IsFiltered k lvl s seen (on_put f (put_old rl x))) (sym is)
      (quiet_below k lvl old.level at quiet, h)
put_old-IsFiltered k lvl s seen f rl old e h at (gives_line loud l) =
    subst (λ x. IsFiltered k lvl s seen (on_put f (put_old rl x))) (sym l.emits)
      (inl (loud_above k lvl old.level at loud), (l.header, l.body, refl, l.ended), h)

put_early-IsFiltered :
    (k lvl : ℕ) (s : Bytes) (f : FileLogger) (rl : RotateLogger) (e : Emitted)
    → IsAt k (record f { rotation = rl })
    → (k ≤ lvl) ⊎ (level_info < lvl)
    → Gives lvl s (record rl.inner { level = pos 1 }) e
    → IsFiltered k lvl s sees_early (on_put f (put_early rl e))
unfolding on_put put_early
put_early-IsFiltered k lvl s f rl e h loud (gives_none quiet is) =
    subst (λ x. IsFiltered k lvl s sees_early (on_put f (put_early rl x))) (sym is)
      (below_known k lvl (quiet_below 1 lvl (pos 1) refl quiet) h.known, h)
put_early-IsFiltered k lvl s f rl e h loud (gives_line at l) =
    subst (λ x. IsFiltered k lvl s sees_early (on_put f (put_early rl x))) (sym l.emits)
      (
        early_loud k lvl loud,
        (l.header, l.body, refl, l.ended),
        record {
          known = h.known;
          outer = h.outer;
          kept = h.kept;
          inner = h.kept;
          six = l.counted.same_length ∙ h.six;
        },
      )

pub put_seen-IsFiltered :
    (now : Clock) (k lvl : ℕ) (s : Bytes) (seen sees : Seen) (f : FileLogger) (rl : RotateLogger)
    (old : Logger)
    → lvl < 6
    → IsAt k (record f { rotation = rl })
    → (k ≤ lvl) ⊎ (level_info < lvl)
    → old.level ≡ pos k
    → length old.level_stats ≡ 6
    → (sees ≡ sees_early → seen ≡ sees_early)
    → IsFiltered k lvl s seen (on_put f (put_seen now [] lvl s old rl sees))
unfolding put_seen
put_seen-IsFiltered now k lvl s seen sees_old f rl old small h loud at six same =
    put_old-IsFiltered k lvl s seen f rl old (output now [] lvl s old) h at
      (output-Gives now lvl s old small six)
put_seen-IsFiltered now k lvl s seen sees_early f rl old small h loud at six same =
    let l : Logger = record rl.inner { level = pos 1 } in
    subst (λ x. IsFiltered k lvl s x (on_put f (put_early rl (output now [] lvl s l))))
      (sym (same refl))
      (put_early-IsFiltered k lvl s f rl (output now [] lvl s l) h loud
        (output-Gives now lvl s l small h.six))
put_seen-IsFiltered now k lvl s seen sees_open f rl old small h loud at six same =
    put_with-IsFiltered k lvl s seen f rl (output now [] lvl s rl.inner) h
      (output-Gives now lvl s rl.inner small h.six)
