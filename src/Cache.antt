-- ===== src/Cache.antt =====
-- `InMemoryCache` of src/veloce/cache.py. The clock is an argument of the operations that read it.
pub mod Laws
use veloce.Prelude.{
  ℕ, ◌+◌, String, Bool, not, ◌&&◌, Option, none, some, List, [], ◌∷◌, string_eq, leb, length,
  if◌then◌else◌,
}
use veloce.Prelude.Dict
use veloce.Prelude.Dict.{Dict}
use veloce.Prelude.Dict.Evict

-- key -> (value, expiry)
pub record InMemoryCache (V : Type 0) : Type 0 where
  pub entries : Dict String (V × ℕ)
  pub max_entries : ℕ

-- `ValueError` is `none`.
unfoldable pub init : {V : Type 0} → ℕ → Option (InMemoryCache V)
init max_entries =
    if leb 1 max_entries then some (record { entries = []; max_entries = max_entries }) else none

module _ {V : Type 0} where
  abbrev pub has_expired : ℕ → V × ℕ → Bool
  has_expired now (value, expires_at) = leb expires_at now

  unfoldable pub evict : ℕ → InMemoryCache V → Dict String (V × ℕ)
  evict now c = Evict.evict (has_expired now) c.max_entries c.entries

  -- What `get` makes of the entry it found; an expired one is deleted.
  unfoldable pub read : String → ℕ → Option (V × ℕ) → InMemoryCache V → Option V × InMemoryCache V
  read key now none c = (none, c)
  read key now (some (value, expires_at)) c =
      if leb expires_at now
      then (none, record c { entries = Dict.pop key c.entries })
      else (some value, c)

  unfoldable pub get : String → ℕ → InMemoryCache V → Option V × InMemoryCache V
  unfolding read
  get key now c = read key now (Dict.get key c.entries) c

  unfoldable pub set : String → V → ℕ → ℕ → InMemoryCache V → InMemoryCache V
  unfolding evict
  set key value ttl now c =
      let room =
        if not (Dict.has key c.entries) && leb c.max_entries (length c.entries)
        then evict now c
        else c.entries in
      record c { entries = Dict.put key (value, now + ttl) room }

  unfoldable pub delete : String → InMemoryCache V → InMemoryCache V
  delete key c = record c { entries = Dict.pop key c.entries }

-- A call of the cache, at the time it is made.
pub data Call (V : Type 0) : Type 0 where
  get_call : String → ℕ → Call V
  set_call : String → V → ℕ → ℕ → Call V
  delete_call : String → Call V

module _ {V : Type 0} where
  unfoldable pub step : Call V → InMemoryCache V → InMemoryCache V
  unfolding get set delete
  step (get_call key now) c = (get key now c).1
  step (set_call key value ttl now) c = set key value ttl now c
  step (delete_call key) c = delete key c

  unfoldable pub run : List (Call V) → InMemoryCache V → InMemoryCache V
  unfolding step
  run [] c = c
  run (call ∷ later) c = run later (step call c)
