-- ===== src/RateLimiter.antt =====
-- net/ratelimiter: the token bucket, the leaky bucket and the front that chooses between them.
pub mod Bucket
pub mod Float
pub mod Search
pub mod Leaky
pub mod Front
mod Tests
