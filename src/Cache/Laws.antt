-- ===== src/Cache/Laws.antt =====
-- Lemmas on `InMemoryCache` of src/veloce/cache.py, and the unbounded table it is compared with.
use text.Mathlib.TextPositions.{eq_refl}
use veloce.Prelude.{
  ℕ, ◌+◌, ◌≤◌, ◌≡◌, refl, ap, String, false, Option, none, some, List, [], ◌∷◌, ◌==◌, string_eq,
  ltb, leb, length, if◌then◌else◌, arith, ◌⊎◌, inl, inr, Option-cases, Bool-cases,
}
use veloce.Prelude.Dict
use veloce.Prelude.Dict.Laws.{get-put, get-pop, length-pop-le}
use veloce.Prelude.Dict.Evict
use veloce.Cache.{
  InMemoryCache, Call, get_call, set_call, delete_call, has_expired, read, get, set, delete, step,
  run,
}

abbrev pub IsBounded : {V : Type 0} → InMemoryCache V → Type 0
IsBounded c = (1 ≤ c.max_entries) × (length c.entries ≤ c.max_entries)

-- The abstract cache: every key's last value and its expiry, with no bound on their number.
abbrev pub Table : Type 0 → Type 0
Table V = String → Option (V × ℕ)

module _ {V : Type 0} where
  abbrev pub empty_table : Table V
  empty_table k = none

  abbrev pub call_table : Call V → Table V → Table V
  call_table (get_call key now) t k = t k
  call_table (set_call key value ttl now) t k = if key == k then some (value, now + ttl) else t k
  call_table (delete_call key) t k = if key == k then none else t k

  abbrev pub run_table : List (Call V) → Table V → Table V
  run_table [] t = t
  run_table (call ∷ later) t = run_table later (call_table call t)

  -- The value of an entry that has not expired.
  abbrev pub fresh : ℕ → Option (V × ℕ) → Option V
  fresh now none = none
  fresh now (some (value, expires_at)) = if leb expires_at now then none else some value

  -- A table with some of the entries of another.
  abbrev IsPart : InMemoryCache V → Table V → Type 0
  IsPart c t = (k : String) → (Dict.get k c.entries ≡ t k) ⊎ (Dict.get k c.entries ≡ none)

  get-fresh :
      (key : String) (now : ℕ) (c : InMemoryCache V)
      → (get key now c).0 ≡ fresh now (Dict.get key c.entries)
  unfolding get
  get-fresh key now c = elim (Option-cases (Dict.get key c.entries)) [
    | inl e ↦ rw e refl
    | inr ((value, expires_at), e) ↦
        rw e (elim (Bool-cases (leb expires_at now)) [ inl t ↦ rw t refl | inr f ↦ rw f refl ])
  ]

  read-pop :
      (key : String) (now : ℕ) (o : Option (V × ℕ)) (c : InMemoryCache V)
      → ((read key now o c).1 ≡ c) ⊎ ((read key now o c).1 ≡ delete key c)
  unfolding read delete
  read-pop key now none c = inl refl
  read-pop key now (some (value, expires_at)) c = elim (Bool-cases (leb expires_at now)) [
    | inl t ↦ rw t (inr refl)
    | inr f ↦ rw f (inl refl)
  ]

  delete-IsBounded : (key : String) (c : InMemoryCache V) → IsBounded c → IsBounded (delete key c)
  unfolding delete
  delete-IsBounded key c (h, l) = (h, omega (arith, length-pop-le key c.entries))

  step-IsBounded : (call : Call V) (c : InMemoryCache V) → IsBounded c → IsBounded (step call c)
  unfolding step Evict.make_room
  step-IsBounded (get_call key now) c h = elim (read-pop key now (Dict.get key c.entries) c) [
    | inl e ↦ rw e h
    | inr e ↦ rw e (delete-IsBounded key c h)
  ]
  step-IsBounded (set_call key value ttl now) c (h, l) =
      (h, Evict.length-put-make_room (has_expired now) c.max_entries key _ c.entries h l)
  step-IsBounded (delete_call key) c h = delete-IsBounded key c h

  -- After any calls a cache that was within its bound, which is not 0, still is.
  pub run-IsBounded :
      (calls : List (Call V)) (c : InMemoryCache V) → IsBounded c → IsBounded (run calls c)
  unfolding run
  run-IsBounded [] c h = h
  run-IsBounded (call ∷ later) c h = run-IsBounded later (step call c) (step-IsBounded call c h)

  delete-IsPart :
      (key : String) (c : InMemoryCache V) (t : Table V) → IsPart c t → IsPart (delete key c) t
  unfolding delete
  delete-IsPart key c t h k = ground (arith, get-pop key k c.entries, h k)

  step-IsPart :
      (call : Call V) (c : InMemoryCache V) (t : Table V)
      → IsPart c t
      → IsPart (step call c) (call_table call t)
  unfolding step Evict.make_room delete
  step-IsPart (get_call key now) c t h k = elim (read-pop key now (Dict.get key c.entries) c) [
    | inl e ↦ rw e (h k)
    | inr e ↦ rw e (delete-IsPart key c t h k)
  ]
  step-IsPart (set_call key value ttl now) c t h k =
      let room = Evict.make_room (has_expired now) c.max_entries key c.entries in
      ground (
        arith,
        get-put key k (value, now + ttl) room,
        Evict.get-make_room (has_expired now) c.max_entries key k c.entries,
        h k,
      )
  step-IsPart (delete_call key) c t h k = ground (arith, get-pop key k c.entries, h k)

  run-IsPart :
      (calls : List (Call V)) (c : InMemoryCache V) (t : Table V)
      → IsPart c t
      → IsPart (run calls c) (run_table calls t)
  unfolding run
  run-IsPart [] c t h = h
  run-IsPart (call ∷ later) c t h =
      run-IsPart later (step call c) (call_table call t) (step-IsPart call c t h)

  -- Whatever calls came before, from an empty cache, `get` answers what the unbounded table holds
  -- for the key and has not expired, or it misses.
  pub get-run :
      (calls : List (Call V)) (max_entries : ℕ) (key : String) (now : ℕ)
      → let c = run calls (record { entries = []; max_entries = max_entries }) in
        ((get key now c).0 ≡ fresh now (run_table calls empty_table key))
        ⊎ ((get key now c).0 ≡ none)
  unfolding Dict.get
  get-run calls max_entries key now =
      let c = run calls (record { entries = []; max_entries = max_entries }) in
      rw (get-fresh key now c)
        (elim (run-IsPart calls (record { entries = []; max_entries = max_entries }) empty_table
          (λ k. inl refl) key) [ inl e ↦ inl (ap (fresh now) e) | inr e ↦ inr (ap (fresh now) e) ])

  -- A value that was set is answered until its time is over, and then nothing.
  pub get-set :
      (key : String) (value : V) (ttl now later : ℕ) (c : InMemoryCache V)
      → (get key later (set key value ttl now c)).0
        ≡ (if ltb later (now + ttl) then some value else none)
  unfolding set Evict.make_room
  get-set key value ttl now later c =
      let room = Evict.make_room (has_expired now) c.max_entries key c.entries in
      rw
        (
          get-fresh key later (set key value ttl now c),
          get-put key key (value, now + ttl) room,
          eq_refl,
        )
        (ground arith)

  -- Setting one key changes no answer for another, unless the key is new and the cache is full.
  pub get-set_other :
      (key other : String) (value : V) (ttl now later : ℕ) (c : InMemoryCache V)
      → (key == other) ≡ false
      → ((get other later (set key value ttl now c)).0 ≡ (get other later c).0)
        ⊎ ((Dict.has key c.entries ≡ false) × (c.max_entries ≤ length c.entries))
  unfolding set Evict.make_room
  get-set_other key other value ttl now later c apart =
      let room = Evict.make_room (has_expired now) c.max_entries key c.entries in
      rw
        (
          get-fresh other later (set key value ttl now c),
          get-fresh other later c,
          get-put key other (value, now + ttl) room,
          apart,
        )
        (elim (Evict.get-make_room (has_expired now) c.max_entries key other c.entries) [
          | inl e ↦ inl (ap (fresh later) e)
          | inr (gone, new, full) ↦ inr (new, full)
        ])
