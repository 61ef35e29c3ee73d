-- ===== src/RateLimit/Backend/Laws.antt =====
-- Lemmas on `InMemoryRateLimitBackend` of src/veloce/ratelimit.py: its bound and its clients.
use text.Mathlib.TextPositions.{eq_refl}
use veloce.Prelude.{
  ap, ℕ, ◌+◌, ◌*◌, ◌≤◌, ◌≡◌, refl, ◌⊎◌, inl, inr, String, false, Option, none, some, string_eq, ltb,
  if◌then◌else◌, length, ◌==◌,
}
use veloce.Prelude.Dict.{get, has}
use veloce.Prelude.Dict.Laws.{get-put}
use veloce.Prelude.Dict.Evict
use veloce.RateLimit.Result.{Step}
use veloce.RateLimit.Backend.{Backend, live, stale, evaluate}

abbrev pub IsBounded : {S : Type 0} → Backend S → Type 0
IsBounded b = (1 ≤ b.max_keys) × (length b.states ≤ b.max_keys)

module _ {S : Type 0} where
  -- The state that a client's next request would be decided on.
  abbrev pub view : Backend S → String → ℕ → Option S
  view b key now = live now (get key b.states)

  live-some :
      (now expiry : ℕ) (state : S)
      → live now (some (state, expiry)) ≡ (if ltb now expiry then some state else none)
  unfolding live
  live-some now expiry state = refl

  view-make_room :
      (b : Backend S) (key other : String) (now now' : ℕ)
      → let room = Evict.make_room (stale now) b.max_keys key b.states in
        (live now' (get other room) ≡ view b other now')
        ⊎ ((live now' (get other room) ≡ none)
            × (has key b.states ≡ false)
            × (b.max_keys ≤ length b.states))
  unfolding live
  view-make_room b key other now now' =
      elim (Evict.get-make_room (stale now) b.max_keys key other b.states) [
        | inl same ↦ inl (ap (live now') same)
        | inr (gone, new, full) ↦ inr (ap (live now') gone, new, full)
      ]

  module _ (u : ℕ) (strategy : Option S → ℕ → Step S) where
    -- The table never holds more than max_keys clients.
    pub evaluate-IsBounded :
        (b : Backend S) (key : String) (now : ℕ)
        → IsBounded b
        → IsBounded (evaluate u strategy b key now).1
    unfolding evaluate Evict.make_room
    evaluate-IsBounded b key now h =
        let (result, new_state, ttl) = strategy (live now (get key b.states)) now in
        (h.0, Evict.length-put-make_room (stale now) b.max_keys key _ b.states h.0 h.1)

    -- The decision is the strategy's on the client's live state, and what the next request of the
    -- client at a time now' is decided on is the strategy's new state until its expiry, then nothing.
    pub evaluate-client :
        (b : Backend S) (key : String) (now now' : ℕ)
        → let (result, b') = evaluate u strategy b key now in
          let (decision, next, ttl) = strategy (view b key now) now in
          (result ≡ decision)
          × (view b' key now' ≡ (if ltb now' (now + ttl * u) then some next else none))
    unfolding evaluate Evict.make_room
    evaluate-client b key now now' =
        let (result, new_state, ttl) = strategy (live now (get key b.states)) now in
        let room = Evict.make_room (stale now) b.max_keys key b.states in
        (
          refl,
          rw (get-put key key (new_state, now + ttl * u) room, eq_refl)
              (live-some now' (now + ttl * u) new_state),
        )

    -- After a request of one client, the state that another is decided on is what it was, or it was
    -- evicted, which happens only for a new client when the table is full.
    pub evaluate-others :
        (b : Backend S) (key other : String) (now now' : ℕ)
        → (key == other) ≡ false
        → let b' = (evaluate u strategy b key now).1 in
          (view b' other now' ≡ view b other now')
          ⊎ ((view b' other now' ≡ none)
              × (has key b.states ≡ false)
              × (b.max_keys ≤ length b.states))
    unfolding evaluate Evict.make_room
    evaluate-others b key other now now' h =
        let (result, new_state, ttl) = strategy (live now (get key b.states)) now in
        let room = Evict.make_room (stale now) b.max_keys key b.states in
        rw (get-put key other (new_state, now + ttl * u) room, h)
          (view-make_room b key other now now')
