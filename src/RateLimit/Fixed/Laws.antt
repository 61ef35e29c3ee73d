-- ===== src/RateLimit/Fixed/Laws.antt =====
-- Lemmas on `FixedWindow` of src/veloce/ratelimit.py: what is admitted, and the retry time.
use native.Mathlib.Nat.{mod-lt}
use veloce.Prelude.{
  refl, nat_beq_self, nat_beq_ne, le→leb, ℕ, ◌+◌, ◌-◌, ◌*◌, ◌/◌, ◌≤◌, min, ◌≡◌, true, Option, none,
  some, List, [], ◌∷◌, if◌then◌else◌, length, All, arith,
}
use veloce.RateLimit.Time.{next_window}
use veloce.RateLimit.Result.{allowed_count}
use veloce.RateLimit.Fixed.{FixedWindow, State, window_of, evaluate}

module _ (u : ℕ) (f : FixedWindow) where
  -- From a count `c` of the window, the next n requests in it are admitted up to the limit.
  allowed_count_from :
      (w c : ℕ) (times : List ℕ)
      → All (λ now. window_of u f now ≡ w) times
      → allowed_count (evaluate u f) (some (record { window = w; count = c })) times
        ≡ min (length times) (f.limit - c)
  unfolding allowed_count evaluate
  allowed_count_from w c [] h = omega arith
  allowed_count_from w c (now ∷ later) h =
      rw (h.0, nat_beq_self) (ground (arith, allowed_count_from w (c + 1) later h.1))

  -- From no state, n requests within one window: exactly min(n, limit) of them are allowed.
  pub allowed_count-Fixed :
      (w : ℕ) (times : List ℕ)
      → 1 ≤ f.limit
      → All (λ now. window_of u f now ≡ w) times
      → allowed_count (evaluate u f) none times ≡ min (length times) f.limit
  unfolding allowed_count evaluate
  allowed_count-Fixed w [] l h = omega arith
  allowed_count-Fixed w (now ∷ later) l h =
      rw h.0 (ground (arith, allowed_count_from w 1 later h.1))

  -- The reset lies in 1 to the width of the window; a rejected request is told the reset, an
  -- allowed one 0; and the first request `reset` seconds later is in the next window, where it is
  -- allowed whatever this window's count.
  pub retry_after-Fixed :
      (state : Option State) (now : ℕ)
      → 1 ≤ u
      → 1 ≤ f.limit
      → 1 ≤ f.window
      → let (result, next, ttl) = evaluate u f state now in
        (1 ≤ result.reset)
        × (result.reset ≤ f.window)
        × (result.retry_after ≡ (if result.allowed then 0 else result.reset))
        × ((evaluate u f (some next) (now + result.reset * u)).0.allowed ≡ true)
  unfolding evaluate
  retry_after-Fixed state now hu hl hw = (
    omega (arith, mod-lt (now / u) {m = f.window} hw),
    omega arith,
    refl,
    rw
        (
          next_window u f.window now hu hw,
          nat_beq_ne (now / (u * f.window)) (now / (u * f.window) + 1) (omega arith),
        )
        (le→leb _ _ hl),
  )
