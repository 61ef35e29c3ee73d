-- ===== src/RateLimit/Backend.antt =====
-- `InMemoryRateLimitBackend` of src/veloce/ratelimit.py, over any strategy.
pub mod Laws
use veloce.Prelude.{
  ℕ, ◌+◌, ◌*◌, String, Bool, not, ◌&&◌, Option, none, some, string_eq, ltb, leb, if◌then◌else◌,
  length, [],
}
use veloce.Prelude.Dict.{Dict, get, has, put}
use veloce.Prelude.Dict.Evict
use veloce.RateLimit.Result.{RateLimitResult, Step}

-- key -> (state, expiry)
pub record Backend (S : Type 0) : Type 0 where
  pub states : Dict String (S × ℕ)
  pub max_keys : ℕ

-- `ValueError` is `none`.
unfoldable pub init : {S : Type 0} → ℕ → Option (Backend S)
init max_keys = if leb 1 max_keys then some (record { states = []; max_keys = max_keys }) else none

module _ {S : Type 0} where
  -- The stored state of an entry that has not expired.
  unfoldable pub live : ℕ → Option (S × ℕ) → Option S
  live now none = none
  live now (some (state, expiry)) = if ltb now expiry then some state else none

  -- An expired entry is one that `_evict` drops first.
  abbrev pub stale : ℕ → S × ℕ → Bool
  stale now (state, expiry) = leb expiry now

  unfoldable pub evict : Backend S → ℕ → Dict String (S × ℕ)
  evict b now = Evict.evict (stale now) b.max_keys b.states

  module _ (u : ℕ) (strategy : Option S → ℕ → Step S) where
    unfoldable pub evaluate : Backend S → String → ℕ → RateLimitResult × Backend S
    unfolding live evict
    evaluate b key now =
        let (result, new_state, ttl) = strategy (live now (get key b.states)) now in
        let room =
          if not (has key b.states) && leb b.max_keys (length b.states)
          then evict b now
          else b.states in
        (result, record b { states = put key (new_state, now + ttl * u) room })
