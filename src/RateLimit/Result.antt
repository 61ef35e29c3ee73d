-- ===== src/RateLimit/Result.antt =====
-- `RateLimitResult` of src/veloce/ratelimit.py, and runs of a strategy over a list of times.
use veloce.Prelude.Int.{ℤ}
use veloce.Prelude.{ℕ, ◌+◌, Bool, true, false, Option, some, List, [], ◌∷◌}

pub record RateLimitResult : Type 0 where
  pub allowed : Bool
  pub limit : ℕ
  pub remaining : ℤ
  pub retry_after : ℕ
  pub reset : ℕ

-- What `evaluate` returns: the decision, the next state, and its time to live in seconds.
abbrev pub Step : Type 0 → Type 0
Step S = RateLimitResult × S × ℕ

abbrev pub one_if : Bool → ℕ
one_if true = 1
one_if false = 0

module _ {S : Type 0} (evaluate : Option S → ℕ → Step S) where
  -- How many of the requests at the given times are allowed, each from its predecessor's state.
  unfoldable pub allowed_count : Option S → List ℕ → ℕ
  allowed_count s [] = 0
  allowed_count s (now ∷ later) =
      let rest = allowed_count (some (evaluate s now).1) later in
      one_if (evaluate s now).0.allowed + rest
