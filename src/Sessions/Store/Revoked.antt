-- ===== src/Sessions/Store/Revoked.antt =====
-- Sessions of src/veloce/sessions.py that were deleted.
use veloce.Prelude.{
  ℕ, ◌+◌, ◌≡◌, refl, ap, ◌∙◌, String, Bool, true, false, ◌&&◌, Option, none, some, List, [], ◌∷◌,
  ◌==◌, string_eq, leb, length, All, arith, inl, inr, Option-cases, Bool-cases,
}
use veloce.Prelude.Dict
use veloce.Prelude.Dict.{get}
use veloce.Prelude.Dict.Laws.{get-put, get-pop, get-pop_all}
use veloce.Sessions.Store.{
  SessionStore, Call, read_call, write_call, delete_call, replace_call, touch_call, sweep_call,
  clear_call, is_expired, live, drop_entry, sweep_expired, maybe_sweep, stored, read_entry, read,
  delete, replace_entry, touch_entry, step, run,
}

module _ {P : Type 0} where
  -- Whether a call writes a session whether it exists or not.
  abbrev pub writes : String → Call P → Bool
  writes id (write_call now roll id' payload max_age) = id' == id
  writes id call = false

  abbrev IsAbsent : String → SessionStore P → Type 0
  IsAbsent id s = get id s.entries ≡ none

  drop-IsAbsent : (id k : String) (s : SessionStore P) → IsAbsent k s → IsAbsent k (drop_entry id s)
  unfolding drop_entry
  drop-IsAbsent id k s h = ground (arith, get-pop id k s.entries)

  sweep-IsAbsent :
      (now : ℕ) (k : String) (s : SessionStore P)
      → IsAbsent k s
      → IsAbsent k (sweep_expired now s).1
  unfolding sweep_expired
  sweep-IsAbsent now k s h =
      let expired = Dict.keys_where (is_expired now) s.entries in
      elim (Option-cases (get k (Dict.pop_all expired s.entries))) [
        | inl e ↦ e
        | inr (v, e) ↦ cc (get-pop_all (is_expired now) expired k s.entries v e, h)
      ]

  stored-IsAbsent :
      (now : ℕ) (roll : Bool) (id k : String) (payload : P) (expires_at : ℕ) (s : SessionStore P)
      → (id == k) ≡ false
      → IsAbsent k s
      → IsAbsent k (maybe_sweep now roll (stored id payload expires_at s))
  unfolding maybe_sweep
  stored-IsAbsent now roll id k payload expires_at s f h =
      let s' = stored id payload expires_at s in
      let h' : IsAbsent k s' = get-put id k (payload, expires_at) s.entries ∙ rw f h in
      elim (Bool-cases (leb s'.sweep_threshold (length s'.entries) && roll)) [
        | inl e ↦ rw e (sweep-IsAbsent now k s' h')
        | inr e ↦ rw e h'
      ]

  read_entry-IsAbsent :
      (now : ℕ) (id k : String) (o : Option (P × ℕ)) (s : SessionStore P)
      → IsAbsent k s
      → IsAbsent k (read_entry now id o s).1
  unfolding read_entry
  read_entry-IsAbsent now id k none s h = h
  read_entry-IsAbsent now id k (some (payload, expires_at)) s h =
      elim (Bool-cases (leb expires_at now)) [
        | inl e ↦ rw e (drop-IsAbsent id k s h)
        | inr e ↦ rw e h
      ]

  replace_entry-IsAbsent :
      (now : ℕ) (roll : Bool) (id k : String) (payload : P) (max_age : ℕ) (o : Option (P × ℕ))
      (s : SessionStore P)
      → ((id == k) ≡ true → o ≡ none)
      → IsAbsent k s
      → IsAbsent k (replace_entry now roll id payload max_age o s).1
  unfolding replace_entry
  replace_entry-IsAbsent now roll id k payload max_age none s q h = drop-IsAbsent id k s h
  replace_entry-IsAbsent now roll id k payload max_age (some old) s q h =
      elim (Bool-cases (id == k)) [
        | inl e ↦ cc (q e)
        | inr f ↦ stored-IsAbsent now roll id k payload (now + max_age) s f h
      ]

  touch_entry-IsAbsent :
      (now : ℕ) (id k : String) (max_age : ℕ) (o : Option (P × ℕ)) (s : SessionStore P)
      → ((id == k) ≡ true → o ≡ none)
      → IsAbsent k s
      → IsAbsent k (touch_entry now id max_age o s).1
  unfolding touch_entry
  touch_entry-IsAbsent now id k max_age none s q h = drop-IsAbsent id k s h
  touch_entry-IsAbsent now id k max_age (some (payload, old)) s q h = elim (Bool-cases (id == k)) [
    | inl e ↦ cc (q e)
    | inr f ↦ get-put id k (payload, now + max_age) s.entries ∙ rw f h
  ]

  -- The live entry of the absent session itself.
  live-IsAbsent :
      (now : ℕ) (id k : String) (s : SessionStore P)
      → (id == k) ≡ true
      → IsAbsent k s
      → live now (get id s.entries) ≡ none
  live-IsAbsent now id k s e h =
      ap (λ (x : String). live now (get x s.entries)) ((string_eq.same_iff id k).0 e)
      ∙ ap (live now) h

  step-IsAbsent :
      (call : Call P) (k : String) (s : SessionStore P)
      → writes k call ≡ false
      → IsAbsent k s
      → IsAbsent k (step call s)
  unfolding step
  step-IsAbsent (read_call now id) k s f h = read_entry-IsAbsent now id k (get id s.entries) s h
  step-IsAbsent (write_call now roll id payload max_age) k s f h =
      stored-IsAbsent now roll id k payload (now + max_age) s f h
  step-IsAbsent (delete_call now id) k s f h = drop-IsAbsent id k s h
  step-IsAbsent (replace_call now roll id payload max_age) k s f h =
      replace_entry-IsAbsent now roll id k payload max_age (live now (get id s.entries)) s
        (λ e. live-IsAbsent now id k s e h) h
  step-IsAbsent (touch_call now id max_age) k s f h =
      touch_entry-IsAbsent now id k max_age (live now (get id s.entries)) s
        (λ e. live-IsAbsent now id k s e h) h
  step-IsAbsent (sweep_call now) k s f h = sweep-IsAbsent now k s h
  step-IsAbsent (clear_call now) k s f h = unfold get in refl

  run-IsAbsent :
      (calls : List (Call P)) (k : String) (s : SessionStore P)
      → All (λ call. writes k call ≡ false) calls
      → IsAbsent k s
      → IsAbsent k (run calls s)
  unfolding run
  run-IsAbsent [] k s f h = h
  run-IsAbsent (call ∷ later) k s (f, fs) h =
      run-IsAbsent later k (step call s) fs (step-IsAbsent call k s f h)

  -- A deleted session stays deleted: no later call but `write` of its id, at whatever time, makes
  -- `read` answer with it, so a request in flight cannot revive it by `replace` or `touch`.
  pub read-delete :
      (calls : List (Call P)) (id : String) (s : SessionStore P) (now : ℕ)
      → All (λ call. writes id call ≡ false) calls
      → (read now id (run calls (delete id s))).0 ≡ none
  unfolding read delete drop_entry
  read-delete calls id s now f =
      let gone : IsAbsent id (delete id s) =
        get-pop id id s.entries ∙ rw ((string_eq.same_iff id id).1 refl) refl in
      rw (run-IsAbsent calls id (delete id s) f gone) refl
