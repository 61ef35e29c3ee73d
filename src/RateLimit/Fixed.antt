-- ===== src/RateLimit/Fixed.antt =====
-- `FixedWindow` of src/veloce/ratelimit.py.
pub mod Laws
use veloce.Prelude.{
  ℕ, ◌+◌, ◌-◌, ◌*◌, ◌/◌, ◌%◌, Option, none, some, ◌==◌, nat_eq, leb, if◌then◌else◌,
}
use veloce.Prelude.Int.{pos}
use veloce.RateLimit.Result.{RateLimitResult, Step}

pub record FixedWindow : Type 0 where
  pub limit : ℕ
  pub window : ℕ

pub record State : Type 0 where
  pub window : ℕ
  pub count : ℕ

-- `ValueError` is `none`.
unfoldable pub init : ℕ → ℕ → Option FixedWindow
init limit window =
    if leb 1 limit
    then if leb 1 window then some (record { limit = limit; window = window }) else none
    else none

-- The count with this request, which starts again where the window is another one.
abbrev next_count : ℕ → Option State → ℕ
next_count window none = 1
next_count window (some s) = if s.window == window then s.count + 1 else 1

module _ (u : ℕ) where
  -- int(now // self.window)
  abbrev pub window_of : FixedWindow → ℕ → ℕ
  window_of f now = now / (u * f.window)

  -- self.window - int(now) % self.window
  abbrev pub reset_of : FixedWindow → ℕ → ℕ
  reset_of f now = f.window - now / u % f.window

  unfoldable pub evaluate : FixedWindow → Option State → ℕ → Step State
  evaluate f state now =
      let window = window_of f now in
      let count = next_count window state in
      let allowed = leb count f.limit in
      let reset = reset_of f now in
      (
        record {
          allowed = allowed;
          limit = f.limit;
          remaining = pos (f.limit - count);
          retry_after = if allowed then 0 else reset;
          reset = reset;
        },
        record { window = window; count = count },
        f.window,
      )
