-- ===== src/Net/Packet/Limit.antt =====
-- The rate limiter of a reader, as `readPacket` uses it.
use optimusprime.Prelude.{ℕ, Option, none, some, ◌≡◌, refl, arith}
use optimusprime.Prelude.Int.{ℤ, pos}
use optimusprime.RateLimiter.Front.{RateLimit, Limiter, leaky, token, stop}
use optimusprime.RateLimiter.Bucket
use optimusprime.RateLimiter.Leaky
use optimusprime.Net.Packet.{Reader, ok, throttle}

abbrev HasBucket : Limiter → Type 0
HasBucket (leaky none) = ⊥
HasBucket (leaky (some _)) = Unit
HasBucket (token none) = ⊥
HasBucket (token (some _)) = Unit

-- There is no limiter, or one with a bucket.
abbrev pub IsUsable : Option RateLimit → Type 0
IsUsable none = Unit
IsUsable (some rl) = HasBucket rl.ratelimiter

-- A limiter with a bucket does not panic, and keeps a bucket.
stop_lem :
    (now n : ℤ) (rl : RateLimit) (l : Limiter)
    → rl.ratelimiter ≡ l
    → HasBucket l
    → (rl' : RateLimit) × (t : Option ℤ) × (stop now n rl ≡ some (rl', t))
      × HasBucket rl'.ratelimiter
unfolding stop
stop_lem now n rl (leaky none) e h = elim h [ ]
stop_lem now n rl (leaky (some lb)) e h = (
  record rl { ratelimiter = leaky (some (Leaky.wait now n lb).0) },
  (Leaky.wait now n lb).1,
  rw e,
  tt,
)
stop_lem now n rl (token none) e h = elim h [ ]
stop_lem now n rl (token (some tb)) e h = (
  record rl { ratelimiter = token (some (Bucket.wait now n tb).0) },
  (Bucket.wait now n tb).1,
  rw e,
  tt,
)

-- So the reader's limiter does not panic if it is usable, and stays usable.
pub throttle_lem :
    (now : ℤ) (n : ℕ) (r : Reader) (o : Option RateLimit)
    → r.limit ≡ o
    → IsUsable o
    → (l : Option RateLimit) × (throttle now n r ≡ (ok tt, record r { limit = l })) × IsUsable l
unfolding throttle
throttle_lem now n r none e u = (none, ground arith, tt)
throttle_lem now n r (some rl) e u =
    let (rl', t, stopped, usable) = stop_lem now (pos n) rl rl.ratelimiter refl u in
    (some rl', ground arith, usable)
