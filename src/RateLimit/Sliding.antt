-- ===== src/RateLimit/Sliding.antt =====
-- `SlidingWindow` of src/veloce/ratelimit.py. The weighted estimate is compared after both sides
-- are multiplied by the window's ticks, so no fraction is rounded.
pub mod Laws
use veloce.Prelude.{
  ℕ, ◌+◌, ◌-◌, ◌*◌, ◌/◌, ◌%◌, max, Option, none, some, ◌==◌, nat_eq, leb, ltb, if◌then◌else◌,
}
use veloce.Prelude.Int.{pos}
use veloce.RateLimit.Result.{RateLimitResult, Step}

pub record SlidingWindow : Type 0 where
  pub limit : ℕ
  pub window : ℕ

pub record State : Type 0 where
  pub window : ℕ
  pub prev : ℕ
  pub curr : ℕ

-- `ValueError` is `none`.
unfoldable pub init : ℕ → ℕ → Option SlidingWindow
init limit window =
    if leb 1 limit
    then if leb 1 window then some (record { limit = limit; window = window }) else none
    else none

-- (prev, curr) as the window that `now` falls in sees them
abbrev pub counts : ℕ → Option State → ℕ × ℕ
counts window none = (0, 0)
counts window (some s) =
    if s.window == window
    then (s.prev, s.curr)
    else if s.window + 1 == window
    then (s.curr, 0)
    else (0, 0)

module _ (u : ℕ) where
  abbrev pub window_of : SlidingWindow → ℕ → ℕ
  window_of f now = now / (u * f.window)

  abbrev pub reset_of : SlidingWindow → ℕ → ℕ
  reset_of f now = f.window - now / u % f.window

  -- prev * (1 - fraction) + curr, times the ticks of a window
  abbrev pub estimate : SlidingWindow → ℕ → ℕ → ℕ → ℕ
  estimate f now prev curr = let span = u * f.window in prev * (span - now % span) + curr * span

  unfoldable pub evaluate : SlidingWindow → Option State → ℕ → Step State
  evaluate f state now =
      let window = window_of f now in
      let span = u * f.window in
      let prev = (counts window state).0 in
      let curr = (counts window state).1 in
      let allowed = ltb (estimate f now prev curr) (f.limit * span) in
      let curr' = if allowed then curr + 1 else curr in
      let reset = reset_of f now in
      (
        record {
          allowed = allowed;
          limit = f.limit;
          remaining = pos ((f.limit * span - estimate f now prev curr') / span);
          retry_after = if allowed then 0 else max 1 reset;
          reset = reset;
        },
        record { window = window; prev = prev; curr = curr' },
        f.window * 2,
      )
