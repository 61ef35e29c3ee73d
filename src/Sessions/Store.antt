-- ===== src/Sessions/Store.antt =====
-- `InMemorySessionStore` of src/veloce/sessions.py. The clock is an argument, and so is what
-- `random.random() < self._sweep_probability` says, for the calls that ask it.
pub mod Laws
pub mod Revoked
use veloce.Prelude.{
  ℕ, ◌+◌, ◌-◌, String, Bool, true, false, not, ◌&&◌, Option, none, some, List, [], ◌∷◌, string_eq,
  leb, ltb, length, map, is_empty, if◌then◌else◌,
}
use veloce.Prelude.Dict
use veloce.Prelude.Dict.{Dict}

-- session_id -> (payload, time at which it expires)
pub record SessionStore (P : Type 0) : Type 0 where
  pub entries : Dict String (P × ℕ)
  pub sweep_threshold : ℕ

-- `__init__`
unfoldable pub init : {P : Type 0} → ℕ → SessionStore P
init sweep_threshold = record { entries = []; sweep_threshold = sweep_threshold }

abbrev is_set : Option ℕ → Bool
is_set none = false
is_set (some t) = true

module _ {P : Type 0} where
  abbrev pub is_expired : ℕ → P × ℕ → Bool
  is_expired now (payload, expires_at) = leb expires_at now

  -- The entry, where there is one and its time is not over.
  abbrev pub live : ℕ → Option (P × ℕ) → Option (P × ℕ)
  live now none = none
  live now (some (payload, expires_at)) =
      if leb expires_at now then none else some (payload, expires_at)

  unfoldable pub drop_entry : String → SessionStore P → SessionStore P
  drop_entry session_id s = record s { entries = Dict.pop session_id s.entries }

  unfoldable pub sweep_expired : ℕ → SessionStore P → ℕ × SessionStore P
  sweep_expired now s =
      let expired = Dict.keys_where (is_expired now) s.entries in
      (length expired, record s { entries = Dict.pop_all expired s.entries })

  -- `_maybe_sweep`
  unfoldable pub maybe_sweep : ℕ → Bool → SessionStore P → SessionStore P
  unfolding sweep_expired
  maybe_sweep now roll s =
      if leb s.sweep_threshold (length s.entries) && roll then (sweep_expired now s).1 else s

  abbrev pub payload_of : Option (P × ℕ) → Option P
  payload_of none = none
  payload_of (some (payload, expires_at)) = some payload

  -- What `read` makes of the entry that it found.
  unfoldable pub read_entry :
      ℕ → String → Option (P × ℕ) → SessionStore P → Option P × SessionStore P
  unfolding drop_entry
  read_entry now session_id none s = (none, s)
  read_entry now session_id (some (payload, expires_at)) s =
      if leb expires_at now then (none, drop_entry session_id s) else (some payload, s)

  unfoldable pub read : ℕ → String → SessionStore P → Option P × SessionStore P
  unfolding read_entry
  read now session_id s = read_entry now session_id (Dict.get session_id s.entries) s

  abbrev pub stored : String → P → ℕ → SessionStore P → SessionStore P
  stored session_id payload expires_at s = record s {
    entries = Dict.put session_id (payload, expires_at) s.entries;
  }

  unfoldable pub write : ℕ → Bool → String → P → ℕ → SessionStore P → SessionStore P
  unfolding maybe_sweep
  write now roll session_id payload max_age s =
      maybe_sweep now roll (stored session_id payload (now + max_age) s)

  unfoldable pub delete : String → SessionStore P → SessionStore P
  unfolding drop_entry
  delete session_id s = drop_entry session_id s

  unfoldable pub replace_entry :
      ℕ → Bool → String → P → ℕ → Option (P × ℕ) → SessionStore P → Bool × SessionStore P
  unfolding drop_entry maybe_sweep
  replace_entry now roll session_id payload max_age none s = (false, drop_entry session_id s)
  replace_entry now roll session_id payload max_age (some old) s =
      (true, maybe_sweep now roll (stored session_id payload (now + max_age) s))

  unfoldable pub replace : ℕ → Bool → String → P → ℕ → SessionStore P → Bool × SessionStore P
  unfolding replace_entry
  replace now roll session_id payload max_age s =
      replace_entry now roll session_id payload max_age (live now (Dict.get session_id s.entries)) s

  unfoldable pub touch_entry :
      ℕ → String → ℕ → Option (P × ℕ) → SessionStore P → Bool × SessionStore P
  unfolding drop_entry
  touch_entry now session_id max_age none s = (false, drop_entry session_id s)
  touch_entry now session_id max_age (some (payload, expires_at)) s =
      (true, stored session_id payload (now + max_age) s)

  unfoldable pub touch : ℕ → String → ℕ → SessionStore P → Bool × SessionStore P
  unfolding touch_entry
  touch now session_id max_age s =
      touch_entry now session_id max_age (live now (Dict.get session_id s.entries)) s

  unfoldable pub clear : SessionStore P → ℕ × SessionStore P
  clear s = (length s.entries, record s { entries = [] })

  abbrev pub expiry_of : Option (P × ℕ) → Option ℕ
  expiry_of none = none
  expiry_of (some (payload, expires_at)) = some expires_at

  unfoldable pub expires_at : ℕ → String → SessionStore P → Option ℕ
  expires_at now session_id s = expiry_of (live now (Dict.get session_id s.entries))

  -- `__contains__`
  unfoldable pub contains : ℕ → String → SessionStore P → Bool
  unfolding expires_at
  contains now session_id s = is_set (expires_at now session_id s)

  -- `__iter__`, and `__len__`, which counts the same entries
  unfoldable pub iter : ℕ → SessionStore P → List String
  iter now s = Dict.keys_where (λ e. not (is_expired now e)) s.entries

  unfoldable pub len : ℕ → SessionStore P → ℕ
  unfolding iter
  len now s = length (iter now s)

-- A call that changes the store, with its time.
pub data Call (P : Type 0) : Type 0 where
  read_call : ℕ → String → Call P
  write_call : ℕ → Bool → String → P → ℕ → Call P
  delete_call : ℕ → String → Call P
  replace_call : ℕ → Bool → String → P → ℕ → Call P
  touch_call : ℕ → String → ℕ → Call P
  sweep_call : ℕ → Call P
  clear_call : ℕ → Call P

module _ {P : Type 0} where
  abbrev pub time_of : Call P → ℕ
  time_of (read_call now id) = now
  time_of (write_call now roll id payload max_age) = now
  time_of (delete_call now id) = now
  time_of (replace_call now roll id payload max_age) = now
  time_of (touch_call now id max_age) = now
  time_of (sweep_call now) = now
  time_of (clear_call now) = now

  unfoldable pub step : Call P → SessionStore P → SessionStore P
  unfolding read write delete replace touch sweep_expired clear
  step (read_call now id) s = (read now id s).1
  step (write_call now roll id payload max_age) s = write now roll id payload max_age s
  step (delete_call now id) s = delete id s
  step (replace_call now roll id payload max_age) s = (replace now roll id payload max_age s).1
  step (touch_call now id max_age) s = (touch now id max_age s).1
  step (sweep_call now) s = (sweep_expired now s).1
  step (clear_call now) s = (clear s).1

  unfoldable pub run : List (Call P) → SessionStore P → SessionStore P
  unfolding step
  run [] s = s
  run (call ∷ later) s = run later (step call s)
