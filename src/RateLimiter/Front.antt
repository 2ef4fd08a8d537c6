-- ===== src/RateLimiter/Front.antt =====
-- net/ratelimiter/ratelimit.go: the front that chooses a strategy.
use Prim.Native.String.{String}
use optimusprime.Prelude.{
  Option, none, some, ◌||◌, ◌≡◌, refl, if◌then◌else◌, ap, ◌⊎◌, inl, inr, Bool-cases,
}
use optimusprime.Prelude.Text.{str_eq}
use optimusprime.Prelude.Int.{ℤ, pos, leb_ℤ}
use optimusprime.RateLimiter.Float.{Float32}
use optimusprime.RateLimiter.Search.{Search, found, exhausted, nil_pointer}
use optimusprime.RateLimiter.Bucket.{Bucket}
use optimusprime.RateLimiter.Bucket
use optimusprime.RateLimiter.Leaky.{LeakyBucket}
use optimusprime.RateLimiter.Leaky

-- The dynamic value of the interface RateLimiter; a nil pointer of a bucket type is `none`.
pub data Limiter : Type 0 where
  leaky : Option LeakyBucket → Limiter
  token : Option Bucket → Limiter

pub record RateLimit : Type 0 where
  pub strategy : String
  pub ratelimiter : Limiter

-- What a call of NewRateLimit comes to: a value, nil, or a panic at a nil bucket.
pub data Built : Type 0 where
  limit : RateLimit → Built
  nil : Built
  panic : Built

leaky_limit : String → Option (Search LeakyBucket) → Option Built
leaky_limit strategy none = none
leaky_limit strategy (some (found b)) =
    some (limit (record { strategy = strategy; ratelimiter = leaky (some b) }))
leaky_limit strategy (some exhausted) =
    some (limit (record { strategy = strategy; ratelimiter = leaky none }))
leaky_limit strategy (some nil_pointer) = some panic

token_limit : String → Option (Search Bucket) → Option Built
token_limit strategy none = none
token_limit strategy (some (found b)) =
    some (limit (record { strategy = strategy; ratelimiter = token (some b) }))
token_limit strategy (some exhausted) =
    some (limit (record { strategy = strategy; ratelimiter = token none }))
token_limit strategy (some nil_pointer) = some panic

-- `Stop`: the limit after the wait for n units at the instant `now`, and the time that it sleeps. The
-- result is `none` where the bucket is nil.
unfoldable pub stop : ℤ → ℤ → RateLimit → Option (RateLimit × Option ℤ)
stop now n rl = elim rl.ratelimiter [
  | leaky none ↦ none
  | token none ↦ none
  | leaky (some lb) ↦
      let (lb', t) = Leaky.wait now n lb in some (record rl { ratelimiter = leaky (some lb') }, t)
  | token (some tb) ↦
      let (tb', t) = Bucket.wait now n tb in some (record rl { ratelimiter = token (some tb') }, t)
]

-- `Capacity`, on a limiter whose bucket is not nil.
unfoldable pub capacity : RateLimit → Option ℤ
capacity rl = elim rl.ratelimiter [
  | leaky none ↦ none
  | token none ↦ none
  | leaky (some lb) ↦ some lb.capacity
  | token (some tb) ↦ some tb.capacity
]

module _ (fl : Float32) where
  open fl use {Float, le, zero_float}

  -- `Rate`, on a limiter whose bucket is not nil.
  pub rate : RateLimit → Option Float
  rate rl = elim rl.ratelimiter [
    | leaky none ↦ none
    | token none ↦ none
    | leaky (some lb) ↦ some (Leaky.Rate.rate fl lb)
    | token (some tb) ↦ some (Bucket.Rate.rate fl tb)
  ]

  -- The result is `none` only if the fuel of a search runs out.
  unfoldable pub new_rate_limit : (ℤ → ℤ) → String → Float → ℤ → Option Built
  unfolding leaky_limit token_limit
  new_rate_limit clock strategy r c =
      if le r zero_float || leb_ℤ c (pos 0)
      then some nil
      else if str_eq strategy "leaky"
      then leaky_limit strategy (Leaky.Rate.new_leaky_bucket_with_rate fl clock r c)
      else if str_eq strategy "token"
      then token_limit strategy (Bucket.Rate.new_bucket_with_rate fl clock r c)
      else some nil

  -- What holds of a limit that was built for a strategy and a capacity: it carries the strategy, and
  -- unless its bucket is nil that bucket has the capacity.
  abbrev pub IsFor : String → ℤ → Option Built → Type 0
  IsFor strategy c (some (limit rl)) =
      (rl.strategy ≡ strategy) × ((capacity rl ≡ none) ⊎ (capacity rl ≡ some c))
  IsFor strategy c (some nil) = Unit
  IsFor strategy c (some panic) = Unit
  IsFor strategy c none = ⊥

  leaky_limit-IsFor :
      (clock : ℤ → ℤ) (strategy : String) (r : Float) (c : ℤ)
      → IsFor strategy c (leaky_limit strategy (Leaky.Rate.new_leaky_bucket_with_rate fl clock r c))
  unfolding leaky_limit capacity
  leaky_limit-IsFor clock strategy r c =
      let (s, e) = Leaky.Rate.new_leaky_bucket_with_rate_total fl clock r c in outcome s e
    where
      outcome :
          (s : Search LeakyBucket)
          → Leaky.Rate.new_leaky_bucket_with_rate fl clock r c ≡ some s
          → IsFor strategy c
              (leaky_limit strategy (Leaky.Rate.new_leaky_bucket_with_rate fl clock r c))
      outcome (found b) e =
          rw e
            (refl, inr (ap some (Leaky.Rate.new_leaky_bucket_with_rate-Suits fl clock r c b e).1))
      outcome exhausted e = rw e (refl, inl refl)
      outcome nil_pointer e = rw e tt

  token_limit-IsFor :
      (clock : ℤ → ℤ) (strategy : String) (r : Float) (c : ℤ)
      → IsFor strategy c (token_limit strategy (Bucket.Rate.new_bucket_with_rate fl clock r c))
  unfolding token_limit capacity
  token_limit-IsFor clock strategy r c =
      let (s, e) = Bucket.Rate.new_bucket_with_rate_total fl clock r c in outcome s e
    where
      outcome :
          (s : Search Bucket)
          → Bucket.Rate.new_bucket_with_rate fl clock r c ≡ some s
          → IsFor strategy c (token_limit strategy (Bucket.Rate.new_bucket_with_rate fl clock r c))
      outcome (found b) e =
          rw e (refl, inr (ap some (Bucket.Rate.new_bucket_with_rate-Suits fl clock r c b e).1))
      outcome exhausted e = rw e (refl, inl refl)
      outcome nil_pointer e = rw e tt

  -- The front always comes to a result; a limit that it returns carries the strategy that was asked
  -- for, and its bucket, unless it is nil, has the capacity that was asked for.
  pub new_rate_limit-IsFor :
      (clock : ℤ → ℤ) (strategy : String) (r : Float) (c : ℤ)
      → IsFor strategy c (new_rate_limit clock strategy r c)
  unfolding new_rate_limit
  new_rate_limit-IsFor clock strategy r c = elim (Bool-cases (le r zero_float || leb_ℤ c (pos 0))) [
    | inl bad ↦ rw bad tt
    | inr good ↦ elim (Bool-cases (str_eq strategy "leaky")) [
      | inl l ↦ rw (good, l) (leaky_limit-IsFor clock strategy r c)
      | inr nl ↦ elim (Bool-cases (str_eq strategy "token")) [
        | inl t ↦ rw (good, nl, t) (token_limit-IsFor clock strategy r c)
        | inr nt ↦ rw (good, nl, nt) tt
      ]
    ]
  ]
