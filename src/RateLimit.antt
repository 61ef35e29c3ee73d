-- ===== src/RateLimit.antt =====
-- src/veloce/ratelimit.py: what the strategies and the backend share.
-- A time is a number of ticks, `u` of them to the second, so that a fraction of a second and a
-- quotient of the source's floats are exact; the rounding of floats is not modelled.
pub mod Result
pub mod Time
pub mod Fixed
pub mod Sliding
pub mod Bucket
pub mod Backend
