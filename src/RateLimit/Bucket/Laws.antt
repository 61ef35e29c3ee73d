-- ===== src/RateLimit/Bucket/Laws.antt =====
-- Lemmas on `TokenBucket` of src/veloce/ratelimit.py: what is admitted, and the retry time.
use native.Mathlib.Nat.{le_trans, one-le-mul, mul-le-mul_right}
use veloce.Prelude.{
  ℕ, ◌+◌, ◌-◌, ◌*◌, ◌≤◌, ◌≡◌, true, false, Option, none, some, List, [], ◌∷◌, not, if◌then◌else◌,
  arith, ceil_div, leb, min, ap, ◌∙◌,
}
use veloce.Prelude.Int.{ℤ, pos, pos_part, neg_part, sub_ℕ, ltb_ℤ, min_ℤ, ◌+ℤ◌, ◌≤ℤ◌}
use veloce.RateLimit.Result.{allowed_count, one_if}
use veloce.RateLimit.Bucket.{TokenBucket, State, refilled, missing, evaluate, retry_after_of}

-- Times that never go back, from `t` on, and the last of them.
abbrev pub Ascending : ℕ → List ℕ → Type 0
Ascending t [] = Unit
Ascending t (now ∷ later) = (t ≤ now) × Ascending now later

abbrev pub last_time : ℕ → List ℕ → ℕ
last_time t [] = t
last_time t (now ∷ later) = last_time now later

-- What a decision takes from the bucket is what it admits.
spend_parts :
    (per : ℕ) (tokens : ℤ)
    → let allowed = not (ltb_ℤ tokens (pos per)) in
      let left = if allowed then tokens +ℤ sub_ℕ 0 per else tokens in
      one_if allowed * per + pos_part left + neg_part tokens ≡ neg_part left + pos_part tokens
unfolding ◌+ℤ◌
spend_parts per tokens = ground arith

spend_nonneg :
    (per n : ℕ)
    → neg_part (if not (ltb_ℤ (pos n) (pos per)) then pos n +ℤ sub_ℕ 0 per else pos n) ≡ 0
unfolding ◌+ℤ◌
spend_nonneg per n = ground arith

ceil_div-enough : (a b : ℕ) → 1 ≤ b → a ≤ ceil_div a b * b
ceil_div-enough a b h = grind arith

spend_le :
    (per full : ℕ) (tokens : ℤ)
    → tokens ≤ℤ pos full
    → (if not (ltb_ℤ tokens (pos per)) then tokens +ℤ sub_ℕ 0 per else tokens) ≤ℤ pos full
unfolding ◌+ℤ◌
spend_le per full tokens h = ground arith

refilled-le :
    (b : TokenBucket) (state : Option State) (now : ℕ)
    → refilled b state now ≤ℤ pos (b.burst * b.per)
refilled-le b none now = omega arith
refilled-le b (some s) now = ground arith

-- Refilling a bucket that is not below 0, at a time that is not earlier, only fills it.
refilled_parts :
    (full n gain : ℕ) (tokens : ℤ)
    → tokens ≡ min_ℤ (pos full) (pos n +ℤ pos gain)
    → (neg_part tokens ≡ 0) × (pos_part tokens ≤ n + gain)
unfolding ◌+ℤ◌
refilled_parts full n gain tokens h = ground arith

refilled-pos :
    (full n x y : ℕ) → y ≤ x → min_ℤ (pos full) (pos n +ℤ sub_ℕ x y) ≡ pos (min full (n + (x - y)))
unfolding ◌+ℤ◌
refilled-pos full n x y h = ground arith

spent : ℕ → ℕ → ℕ
spent per m = if leb per m then m - per else m

spend-pos :
    (per m : ℕ)
    → (if not (ltb_ℤ (pos m) (pos per)) then pos m +ℤ sub_ℕ 0 per else pos m) ≡ pos (spent per m)
unfolding ◌+ℤ◌ spent
spend-pos per m = ground arith

spent_parts : (per m : ℕ) → one_if (not (ltb_ℤ (pos m) (pos per))) * per + spent per m ≡ m
unfolding spent
spent_parts per m = ground arith

le-last_time : (t : ℕ) (times : List ℕ) → Ascending t times → t ≤ last_time t times
le-last_time t [] a = omega arith
le-last_time t (now ∷ later) (h, a) = omega (arith, le-last_time now later a)

-- One decision and the later ones, with what flows in before each.
paid :
    (one later_count per m left n t now last rate : ℕ)
    → one * per + left ≡ m
    → m ≤ n + (now * rate - t * rate)
    → later_count * per ≤ left + (last - now) * rate
    → t ≤ now
    → now ≤ last
    → (one + later_count) * per ≤ n + (last - t) * rate
paid one later_count per m left n t now last rate h k l p q =
    let d : last ≡ t + (now - t) + (last - now) = omega arith in
    let e : last - t ≡ (now - t) + (last - now) = omega arith in
    let f : now ≡ t + (now - t) = omega arith in
    let g : now * rate ≡ t * rate + (now - t) * rate = ap (λ (x : ℕ). x * rate) f ∙ omega arith in
    rw e (omega (arith, g))

refill_gain : (now wait rate : ℕ) → (now + wait) * rate ≡ now * rate + wait * rate
refill_gain now wait rate = omega arith

-- Waiting until the missing parts have flowed in makes a whole token.
gain_enough :
    (per full now more : ℕ) (tokens : ℤ)
    → per ≤ full
    → missing per tokens ≤ more
    → not (ltb_ℤ (min_ℤ (pos full) (tokens +ℤ sub_ℕ (now + more) now)) (pos per)) ≡ true
unfolding ◌+ℤ◌
gain_enough per full now more tokens h k = ground arith

retry_enough :
    (per full now wait rate : ℕ) (tokens : ℤ)
    → per ≤ full
    → missing per tokens ≤ wait * rate
    → not (ltb_ℤ (min_ℤ (pos full) (tokens +ℤ sub_ℕ ((now + wait) * rate) (now * rate))) (pos per))
      ≡ true
retry_enough per full now wait rate tokens h k =
    rw (refill_gain now wait rate) (gain_enough per full (now * rate) (wait * rate) tokens h k)

module _ (u : ℕ) (b : TokenBucket) where
  -- Whatever the clock does, the stored tokens never pass a full bucket.
  pub evaluate-le-burst :
      (state : Option State) (now : ℕ) → (evaluate u b state now).1.tokens ≤ℤ pos (b.burst * b.per)
  unfolding evaluate
  evaluate-le-burst state now =
      spend_le b.per (b.burst * b.per) (refilled b state now) (refilled-le b state now)

  -- In exact arithmetic, a request that is told to wait is admitted when it comes back after that many seconds.
  pub retry_after-Bucket :
      (state : Option State) (now : ℕ)
      → 1 ≤ u
      → 1 ≤ b.rate
      → 1 ≤ b.burst
      → (evaluate u b state now).0.allowed ≡ false
      → let (result, next, ttl) = evaluate u b state now in
        (1 ≤ result.retry_after)
        × ((evaluate u b (some next) (now + result.retry_after * u)).0.allowed ≡ true)
  unfolding evaluate
  retry_after-Bucket state now hu hr hb h =
      let tokens = refilled b state now in
      let wait = retry_after_of u b tokens in
      let e : not (ltb_ℤ tokens (pos b.per)) ≡ false = h in
      rw e (
        omega arith,
        retry_enough b.per (b.burst * b.per) now (wait * u) b.rate tokens (grind arith) (
            le_trans (ceil_div-enough (missing b.per tokens) (u * b.rate) (one-le-mul hu hr))
              (grind arith)),
      )

  count_from :
      (n t : ℕ) (times : List ℕ)
      → Ascending t times
      → allowed_count (evaluate u b) (some (record { tokens = pos n; ts = t })) times * b.per
        ≤ n + (last_time t times - t) * b.rate
  unfolding allowed_count evaluate
  count_from n t [] h = omega arith
  count_from n t (now ∷ later) (h, a) =
      let m = min (b.burst * b.per) (n + (now * b.rate - t * b.rate)) in
      let e =
        refilled-pos (b.burst * b.per) n (now * b.rate) (t * b.rate) (mul-le-mul_right b.rate h) in
      rw (e, spend-pos b.per m)
        (paid _ _ b.per m (spent b.per m) n t now (last_time now later) b.rate (spent_parts b.per m)
          (omega arith) (count_from (spent b.per m) now later a) h (le-last_time now later a))

  -- From a full bucket, with times that do not go back, the admitted requests cost no more than the
  -- burst and what has flowed in since the first: count * per <= burst * per + elapsed * rate.
  pub allowed_count-Bucket :
      (first : ℕ) (later : List ℕ)
      → 1 ≤ b.burst
      → Ascending first later
      → allowed_count (evaluate u b) none (first ∷ later) * b.per
        ≤ b.burst * b.per + (last_time first later - first) * b.rate
  unfolding allowed_count evaluate
  allowed_count-Bucket first later hb a =
      let m = b.burst * b.per in
      rw (spend-pos b.per m) (
        paid _ _ b.per m (spent b.per m) m first first (last_time first later) b.rate
          (spent_parts b.per m) (omega arith) (count_from (spent b.per m) first later a)
          (omega arith) (le-last_time first later a))
