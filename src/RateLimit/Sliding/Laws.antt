-- ===== src/RateLimit/Sliding/Laws.antt =====
-- Lemmas on `SlidingWindow` of src/veloce/ratelimit.py: counts, estimate and retry time.
use native.Mathlib.Nat.{mod-lt, le_trans, le-add_right}
use veloce.Prelude.{
  ℕ, ◌+◌, ◌-◌, ◌*◌, ◌/◌, ◌%◌, ◌≤◌, ◌<◌, ◌≡◌, refl, Bool, true, false, Option, none, some, List, [],
  ◌∷◌, ltb, if◌then◌else◌, All, arith, nat_beq_self, nat_beq_ne, ltb→lt, ap,
}
use veloce.RateLimit.Result.{allowed_count, one_if}
use veloce.RateLimit.Time.{next_window, next_window_offset}
use veloce.RateLimit.Sliding.{SlidingWindow, State, window_of, counts, estimate, evaluate}

-- Both counts of a stored state are at most the limit; no state is fine.
abbrev pub IsWithin : SlidingWindow → Option State → Type 0
IsWithin f none = Unit
IsWithin f (some s) = (s.prev ≤ f.limit) × (s.curr ≤ f.limit)

counts-le :
    (f : SlidingWindow) (w : ℕ) (state : Option State)
    → IsWithin f state
    → ((counts w state).0 ≤ f.limit) × ((counts w state).1 ≤ f.limit)
counts-le f w none h = omega arith
counts-le f w (some s) h = ground arith

-- An estimate below the limit leaves room for one more in the current window.
curr-lt_of_estimate :
    (span rest prev curr limit : ℕ) → prev * rest + curr * span < limit * span → curr < limit
curr-lt_of_estimate span rest prev curr limit h = grind arith

-- A request that is counted keeps the count at most the limit.
admit-le :
    (span rest prev curr limit : ℕ)
    → curr ≤ limit
    → (if ltb (prev * rest + curr * span) (limit * span) then curr + 1 else curr) ≤ limit
admit-le span rest prev curr limit h = ground (arith, curr-lt_of_estimate span rest prev curr limit)

-- Counting one request raises the estimate below the limit to at most one more.
admit_estimate :
    (span rest prev curr limit : ℕ)
    → prev * rest + curr * span < limit * span
    → prev * rest + (curr + 1) * span < (limit + 1) * span
admit_estimate span rest prev curr limit h = omega arith

-- One decision in front of later ones, which together stay in the room that is left.
admitted-le :
    (b : Bool) (c limit : ℕ) (later : ℕ → ℕ)
    → c ≤ limit
    → (b ≡ true → c < limit)
    → ((c' : ℕ) → c' ≤ limit → later c' + c' ≤ limit)
    → one_if b + later (if b then c + 1 else c) + c ≤ limit
admitted-le true c limit later h room rest =
    omega (arith, room refl, rest (c + 1) (omega (arith, room refl)))
admitted-le false c limit later h room rest = omega (arith, rest c h)

module _ (u : ℕ) (f : SlidingWindow) where
  -- Every decision, at any time, keeps both stored counts at most the limit.
  pub evaluate-IsWithin :
      (state : Option State) (now : ℕ)
      → IsWithin f state
      → IsWithin f (some (evaluate u f state now).1)
  unfolding evaluate
  evaluate-IsWithin state now h =
      let (p, c) = counts-le f (window_of u f now) state h in
      let span = u * f.window in
      (
        p,
        admit-le span (span - now % span) (counts (window_of u f now) state).0
            (counts (window_of u f now) state).1 f.limit c,
      )

  count_from :
      (w prev c : ℕ) (times : List ℕ)
      → c ≤ f.limit
      → All (λ now. window_of u f now ≡ w) times
      → allowed_count (evaluate u f) (some (record { window = w; prev = prev; curr = c })) times + c
        ≤ f.limit
  unfolding allowed_count evaluate
  count_from w prev c [] h a = omega arith
  count_from w prev c (now ∷ later) h (e, a) =
      let span = u * f.window in
      let rest = span - now % span in
      rw (e, nat_beq_self)
        (admitted-le (ltb (prev * rest + c * span) (f.limit * span)) c f.limit
          (λ c'.
            allowed_count (evaluate u f) (some (record { window = w; prev = prev; curr = c' }))
              later)
          h (λ t. curr-lt_of_estimate span rest prev c f.limit (ltb→lt _ _ t))
          (λ c' h'. count_from w prev c' later h' a))

  -- From a state whose counts are at most the limit, the requests of one window that are admitted are at
  -- most the limit.
  pub allowed_count-le-limit :
      (state : Option State) (w : ℕ) (times : List ℕ)
      → IsWithin f state
      → All (λ now. window_of u f now ≡ w) times
      → allowed_count (evaluate u f) state times ≤ f.limit
  unfolding allowed_count evaluate
  allowed_count-le-limit state w [] h a = omega arith
  allowed_count-le-limit state w (now ∷ later) h (e, a) =
      let (p, c) = counts-le f w state h in
      let span = u * f.window in
      let prev = (counts w state).0 in
      let curr = (counts w state).1 in
      let rest = span - now % span in
      rw e (
        le_trans (le-add_right _ curr) (
          admitted-le (ltb (prev * rest + curr * span) (f.limit * span)) curr f.limit
            (λ c'.
              allowed_count (evaluate u f) (some (record { window = w; prev = prev; curr = c' }))
                later)
            c (λ t. curr-lt_of_estimate span rest prev curr f.limit (ltb→lt _ _ t))
            (λ c' h'. count_from w prev c' later h' a)))

  -- When a request is admitted, the weighted estimate that includes it is below limit + 1; when it
  -- is rejected, the estimate was at least the limit, and both counts are kept.
  pub estimate-evaluate :
      (state : Option State) (now : ℕ)
      → let (result, next, ttl) = evaluate u f state now in
        let span = u * f.window in
        if result.allowed
        then estimate u f now next.prev next.curr < (f.limit + 1) * span
        else (f.limit * span ≤ estimate u f now next.prev next.curr)
          × ((next.prev, next.curr) ≡ counts (window_of u f now) state)
  unfolding evaluate
  estimate-evaluate state now =
      let span = u * f.window in
      let rest = span - now % span in
      ground (
        arith,
        admit_estimate span rest (counts (window_of u f now) state).0
            (counts (window_of u f now) state).1 f.limit,
      )

  -- The reset lies in 1 to the width of the window; a rejected request is told to retry after it.
  -- Then `curr` is the previous count, and the retry is admitted exactly when that count, weighted
  -- by what is left of the window, is below the limit.
  pub retry_after-Sliding :
      (state : Option State) (now : ℕ)
      → 1 ≤ u
      → 1 ≤ f.window
      → let (result, next, ttl) = evaluate u f state now in
        (1 ≤ result.reset)
        × (result.reset ≤ f.window)
        × (result.retry_after ≡ (if result.allowed then 0 else result.reset))
        × ((evaluate u f (some next) (now + result.reset * u)).0.allowed
            ≡ ltb (next.curr * (u * f.window - now % u)) (f.limit * (u * f.window)))
  unfolding evaluate
  retry_after-Sliding state now hu hw = (
    omega (arith, mod-lt (now / u) {m = f.window} hw),
    omega arith,
    ap (if◌then◌else◌ (evaluate u f state now).0.allowed 0)
        (omega (arith, mod-lt (now / u) {m = f.window} hw)),
    rw
        (
          next_window u f.window now hu hw,
          next_window_offset u f.window now hu hw,
          nat_beq_ne (now / (u * f.window)) (now / (u * f.window) + 1) (omega arith),
          nat_beq_self,
        )
        (ap (λ (t : ℕ). ltb t (f.limit * (u * f.window))) (omega arith)),
  )
