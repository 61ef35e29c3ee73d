-- ===== src/RateLimit/Bucket.antt =====
-- `TokenBucket` of src/veloce/ratelimit.py. `per` is in ticks, and tokens are counted in parts of
-- which `per` make a token: `rate` parts flow in with each tick, so the refill is exact,
-- where the floats of the source round.
pub mod Laws
use veloce.Prelude.{
  ℕ, ◌+◌, ◌-◌, ◌*◌, ◌/◌, max, not, Option, none, some, leb, if◌then◌else◌, ceil_div,
}
use veloce.Prelude.Int.{ℤ, pos, negsuc, pos_part, neg_part, sub_ℕ, ltb_ℤ, min_ℤ, ◌+ℤ◌}
use veloce.RateLimit.Result.{RateLimitResult, Step}

pub record TokenBucket : Type 0 where
  pub rate : ℕ
  pub per : ℕ
  pub burst : ℕ

-- `tokens` in parts; a clock that was set back makes it negative.
pub record State : Type 0 where
  pub tokens : ℤ
  pub ts : ℕ

-- `ValueError` is `none`.
unfoldable pub init : ℕ → ℕ → Option ℕ → Option TokenBucket
init rate per none =
    if leb 1 rate
    then if leb 1 per then some (record { rate = rate; per = per; burst = rate }) else none
    else none
init rate per (some burst) =
    if leb 1 rate
    then if leb 1 per
      then if leb 1 burst then some (record { rate = rate; per = per; burst = burst }) else none
      else none
    else none

-- The tokens before this request: (now - ts) * rate parts more, up to a full bucket.
abbrev pub refilled : TokenBucket → Option State → ℕ → ℤ
refilled b none now = pos (b.burst * b.per)
refilled b (some s) now =
    min_ℤ (pos (b.burst * b.per)) (s.tokens +ℤ sub_ℕ (now * b.rate) (s.ts * b.rate))

-- int(tokens), which drops the fraction towards 0
abbrev pub whole_tokens : TokenBucket → ℤ → ℤ
whole_tokens b (pos n) = pos (n / b.per)
whole_tokens b (negsuc n) = sub_ℕ 0 ((n + 1) / b.per)

-- `a - tokens`, for tokens that do not pass `a`
abbrev pub missing : ℕ → ℤ → ℕ
missing a tokens = a + neg_part tokens - pos_part tokens

module _ (u : ℕ) where
  -- max(1, math.ceil((1 - tokens) / self._refill))
  abbrev pub retry_after_of : TokenBucket → ℤ → ℕ
  retry_after_of b tokens = max 1 (ceil_div (missing b.per tokens) (u * b.rate))

  -- The decision and the stored state, from the refilled tokens.
  unfoldable pub spend : TokenBucket → ℤ → ℕ → Step State
  spend b tokens now =
      let allowed = not (ltb_ℤ tokens (pos b.per)) in
      let left = if allowed then tokens +ℤ sub_ℕ 0 b.per else tokens in
      let full = b.burst * b.per in
      (
        record {
          allowed = allowed;
          limit = b.burst;
          remaining = whole_tokens b left;
          retry_after = if allowed then 0 else retry_after_of b tokens;
          reset = if ltb_ℤ left (pos full) then ceil_div (missing full left) (u * b.rate) else 0;
        },
        record { tokens = left; ts = now },
        ceil_div full (u * b.rate) + 1,
      )

  unfoldable pub evaluate : TokenBucket → Option State → ℕ → Step State
  unfolding spend
  evaluate b state now = spend b (refilled b state now) now
