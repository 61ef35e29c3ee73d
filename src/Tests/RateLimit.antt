-- ===== src/Tests/RateLimit.antt =====
-- Tests of RateLimit, with ten ticks to the second.
use veloce.Prelude.{
  ℕ, ◌+◌, ◌-◌, ◌*◌, ◌%◌, ◌≤◌, ◌≡◌, refl, ◌⊎◌, ltb, false, Option, none, some, List, [], ◌∷◌,
  string_eq, if◌then◌else◌, length, arith,
}
use veloce.Prelude.Dict.{has}
use veloce.RateLimit.Result.{allowed_count}
use veloce.RateLimit.Fixed
use veloce.RateLimit.Fixed.{FixedWindow}
use veloce.RateLimit.Fixed.Laws.{allowed_count-Fixed}
use veloce.RateLimit.Sliding
use veloce.RateLimit.Sliding.{SlidingWindow}
use veloce.RateLimit.Sliding.Laws.{allowed_count-le-limit, retry_after-Sliding}
use veloce.RateLimit.Bucket
use veloce.RateLimit.Bucket.{TokenBucket}
use veloce.RateLimit.Bucket.Laws.{allowed_count-Bucket}
use veloce.RateLimit.Backend
use veloce.RateLimit.Backend.{Backend}
use veloce.RateLimit.Backend.Laws.{evaluate-client, evaluate-others, view}

abbrev two_a_minute : FixedWindow
two_a_minute = record { limit = 2; window = 60 }

abbrev times : List ℕ
times = 1 ∷ 5 ∷ 9 ∷ []

allowed_count-Fixed_example : allowed_count (Fixed.evaluate 10 two_a_minute) none times ≡ 2
allowed_count-Fixed_example =
    allowed_count-Fixed 10 two_a_minute 0 times (omega arith) (refl, (refl, (refl, tt)))

abbrev sliding : SlidingWindow
sliding = record { limit = 2; window = 60 }

abbrev used : Option Sliding.State
used = some (record { window = 0; prev = 1; curr = 2 })

allowed_count-le-limit_example : allowed_count (Sliding.evaluate 10 sliding) used times ≤ 2
allowed_count-le-limit_example =
    allowed_count-le-limit 10 sliding used 0 times (omega arith) (refl, (refl, (refl, tt)))

abbrev bucket : TokenBucket
bucket = record { rate = 1; per = 10; burst = 2 }

allowed_count-Bucket_example :
    allowed_count (Bucket.evaluate 10 bucket) none (1 ∷ 2 ∷ 3 ∷ 25 ∷ []) * 10
    ≤ 2 * 10 + (25 - 1) * 1
allowed_count-Bucket_example =
    allowed_count-Bucket 10 bucket 1 (2 ∷ 3 ∷ 25 ∷ []) (omega arith) (omega arith)

retry_after-Sliding_example :
    let (result, next, ttl) = Sliding.evaluate 10 sliding used 30 in
    (1 ≤ result.reset)
    × (result.reset ≤ 60)
    × (result.retry_after ≡ (if result.allowed then 0 else result.reset))
    × ((Sliding.evaluate 10 sliding (some next) (30 + result.reset * 10)).0.allowed
        ≡ ltb (next.curr * (10 * 60 - 30 % 10)) (2 * (10 * 60)))
retry_after-Sliding_example = retry_after-Sliding 10 sliding used 30 (omega arith) (omega arith)

-- A table for two clients, of which one is stored and has not expired.
abbrev table : Backend Fixed.State
table = record { states = ("alice", (record { window = 0; count = 2 }, 600)) ∷ []; max_keys = 2 }

evaluate-client_example :
    let strategy = Fixed.evaluate 10 two_a_minute in
    let (result, b') = Backend.evaluate 10 strategy table "alice" 20 in
    let (decision, next, ttl) = strategy (view table "alice" 20) 20 in
    (result ≡ decision)
    × (view b' "alice" 700 ≡ (if ltb 700 (20 + ttl * 10) then some next else none))
evaluate-client_example = evaluate-client 10 (Fixed.evaluate 10 two_a_minute) table "alice" 20 700

evaluate-others_example :
    let strategy = Fixed.evaluate 10 two_a_minute in
    let b' = (Backend.evaluate 10 strategy table "bob" 20).1 in
    (view b' "alice" 30 ≡ view table "alice" 30)
    ⊎ ((view b' "alice" 30 ≡ none)
        × (has "bob" table.states ≡ false)
        × (table.max_keys ≤ length table.states))
evaluate-others_example =
    evaluate-others 10 (Fixed.evaluate 10 two_a_minute) table "bob" "alice" 20 30 refl
