-- ===== src/Sessions/Store/Laws.antt =====
-- Lemmas on `InMemorySessionStore` of src/veloce/sessions.py, against a table with no sweeps.
use mathlib.Core.Path.{sym}
use veloce.Prelude.{
  ℕ, ◌+◌, ◌≤◌, ◌≡◌, refl, ap, ◌∙◌, String, Bool, ◌&&◌, Option, none, some, List, [], ◌∷◌, ◌==◌,
  string_eq, leb, length, if◌then◌else◌, arith, inl, inr, Bool-cases,
}
use veloce.Prelude.Dict
use veloce.Prelude.Dict.{Dict, get}
use veloce.Prelude.Dict.Laws.{get-put, get-pop}
use veloce.Prelude.Dict.Unique.{
  IsUnique, put-IsUnique, pop-IsUnique, pop_all-IsUnique, kept, get-pop_all_where,
}
use veloce.Sessions.Store.{
  SessionStore, Call, read_call, write_call, delete_call, replace_call, touch_call, sweep_call,
  clear_call, time_of, is_expired, live, payload_of, expiry_of, drop_entry, sweep_expired,
  maybe_sweep, stored, read_entry, read, replace_entry, touch_entry, expires_at, step, run,
}

-- The abstract store: every session's payload and expiry, of which none is ever swept.
abbrev pub Table : Type 0 → Type 0
Table P = String → Option (P × ℕ)

module _ {P : Type 0} where
  abbrev pub empty_table : Table P
  empty_table id = none

  abbrev pub set_row : String → Option (P × ℕ) → Table P → Table P
  set_row id row t k = if id == k then row else t k

  abbrev pub replaced : Option (P × ℕ) → P → ℕ → Option (P × ℕ)
  replaced none payload expires_at = none
  replaced (some old) payload expires_at = some (payload, expires_at)

  abbrev pub touched : Option (P × ℕ) → ℕ → Option (P × ℕ)
  touched none expires_at = none
  touched (some (payload, old)) expires_at = some (payload, expires_at)

  abbrev pub call_table : Call P → Table P → Table P
  call_table (read_call now id) t = t
  call_table (write_call now roll id payload max_age) t =
      set_row id (some (payload, now + max_age)) t
  call_table (delete_call now id) t = set_row id none t
  call_table (replace_call now roll id payload max_age) t =
      set_row id (replaced (live now (t id)) payload (now + max_age)) t
  call_table (touch_call now id max_age) t =
      set_row id (touched (live now (t id)) (now + max_age)) t
  call_table (sweep_call now) t = t
  call_table (clear_call now) t = empty_table

  abbrev pub run_table : List (Call P) → Table P → Table P
  run_table [] t = t
  run_table (call ∷ later) t = run_table later (call_table call t)

  -- Calls whose times never go back, from `now` on, and the last of the times.
  abbrev pub Ascending : ℕ → List (Call P) → Type 0
  Ascending now [] = Unit
  Ascending now (call ∷ later) = (now ≤ time_of call) × Ascending (time_of call) later

  abbrev pub last_time : ℕ → List (Call P) → ℕ
  last_time now [] = now
  last_time now (call ∷ later) = last_time (time_of call) later

  -- From a time on, the store and the table hold the same live sessions.
  abbrev Agrees : ℕ → Dict String (P × ℕ) → Table P → Type 0
  Agrees now d t = (id : String) (now' : ℕ) → now ≤ now' → live now' (get id d) ≡ live now' (t id)

  live-later :
      (now now' : ℕ) (o : Option (P × ℕ)) → now ≤ now' → live now o ≡ none → live now' o ≡ none
  live-later now now' none h e = refl
  live-later now now' (some (payload, expires_at)) h e = ground arith

  live-kept :
      (now now' : ℕ) (o : Option (P × ℕ))
      → now ≤ now'
      → live now' (kept (is_expired now) o) ≡ live now' o
  live-kept now now' none h = refl
  live-kept now now' (some (payload, expires_at)) h = ground arith

  sweep-Agrees :
      (now : ℕ) (s : SessionStore P) (t : Table P)
      → IsUnique s.entries
      → Agrees now s.entries t
      → Agrees now (sweep_expired now s).1.entries t
  unfolding sweep_expired
  sweep-Agrees now s t u a id now' h =
      rw (get-pop_all_where (is_expired now) id s.entries u)
        (live-kept now now' (get id s.entries) h ∙ a id now' h)

  -- A store with no key twice that agrees with a table.
  abbrev IsView : ℕ → SessionStore P → Table P → Type 0
  IsView now s t = IsUnique s.entries × Agrees now s.entries t

  sweep-IsView :
      (now : ℕ) (s : SessionStore P) (t : Table P)
      → IsView now s t
      → IsView now (sweep_expired now s).1 t
  unfolding sweep_expired
  sweep-IsView now s t (u, a) = (
    pop_all-IsUnique (Dict.keys_where (is_expired now) s.entries) s.entries u,
    sweep-Agrees now s t u a,
  )

  maybe_sweep-IsView :
      (now : ℕ) (roll : Bool) (s : SessionStore P) (t : Table P)
      → IsView now s t
      → IsView now (maybe_sweep now roll s) t
  unfolding maybe_sweep
  maybe_sweep-IsView now roll s t h =
      elim (Bool-cases (leb s.sweep_threshold (length s.entries) && roll)) [
        | inl e ↦ rw e (sweep-IsView now s t h)
        | inr e ↦ rw e h
      ]

  stored-IsView :
      (now : ℕ) (id : String) (payload : P) (expires_at : ℕ) (s : SessionStore P) (t : Table P)
      → IsView now s t
      → IsView now (stored id payload expires_at s) (set_row id (some (payload, expires_at)) t)
  stored-IsView now id payload expires_at s t (u, a) = (
    put-IsUnique id (payload, expires_at) s.entries u,
    λ k now' h. ground (arith, get-put id k (payload, expires_at) s.entries, a k now' h),
  )

  -- Dropping the entry of a session that has none in the table for later times.
  drop-IsView :
      (now : ℕ) (id : String) (row : Option (P × ℕ)) (s : SessionStore P) (t : Table P)
      → IsView now s t
      → live now row ≡ none
      → IsView now (drop_entry id s) (set_row id row t)
  unfolding drop_entry
  drop-IsView now id row s t (u, a) e = (
    pop-IsUnique id s.entries u,
    λ k now' h. ground (arith, get-pop id k s.entries, a k now' h, live-later now now' row h e),
  )

  -- A row that is written back.
  same_row-IsView :
      (now : ℕ) (id : String) (s : SessionStore P) (t : Table P)
      → IsView now s (set_row id (t id) t)
      → IsView now s t
  same_row-IsView now id s t (u, a) = (
    u,
    λ k now' h. elim (Bool-cases (id == k)) [
      | inl e ↦
          let same : set_row id (t id) t k ≡ t k = rw e (ap t ((string_eq.same_iff id k).0 e)) in
          a k now' h ∙ ap (live now') same
      | inr e ↦ a k now' h ∙ ap (live now') (rw e refl)
    ],
  )

  read-IsView :
      (now : ℕ) (id : String) (o : Option (P × ℕ)) (s : SessionStore P) (t : Table P)
      → IsView now s t
      → live now o ≡ live now (t id)
      → IsView now (read_entry now id o s).1 t
  unfolding read_entry
  read-IsView now id none s t h e = h
  read-IsView now id (some (payload, expires_at)) s t h e = elim (Bool-cases (leb expires_at now)) [
    | inl x ↦ rw x (
        same_row-IsView now id (drop_entry id s) t
          (drop-IsView now id (t id) s t h (sym e ∙ rw x refl)))
    | inr x ↦ rw x h
  ]

  replace-IsView :
      (now : ℕ) (roll : Bool) (id : String) (payload : P) (max_age : ℕ) (o : Option (P × ℕ))
      (s : SessionStore P) (t : Table P)
      → IsView now s t
      → IsView now
          (replace_entry now roll id payload max_age o s).1
          (set_row id (replaced o payload (now + max_age)) t)
  unfolding replace_entry
  replace-IsView now roll id payload max_age none s t h = drop-IsView now id none s t h refl
  replace-IsView now roll id payload max_age (some old) s t h =
      maybe_sweep-IsView now roll _ _ (stored-IsView now id payload (now + max_age) s t h)

  touch-IsView :
      (now : ℕ) (id : String) (max_age : ℕ) (o : Option (P × ℕ)) (s : SessionStore P) (t : Table P)
      → IsView now s t
      → IsView now (touch_entry now id max_age o s).1 (set_row id (touched o (now + max_age)) t)
  unfolding touch_entry
  touch-IsView now id max_age none s t h = drop-IsView now id none s t h refl
  touch-IsView now id max_age (some (payload, old)) s t h =
      stored-IsView now id payload (now + max_age) s t h

  later-IsView :
      (now now' : ℕ) (s : SessionStore P) (t : Table P)
      → now ≤ now'
      → IsView now s t
      → IsView now' s t
  later-IsView now now' s t h (u, a) = (u, λ id n k. a id n (omega arith))

  step-IsView :
      (call : Call P) (s : SessionStore P) (t : Table P)
      → IsView (time_of call) s t
      → IsView (time_of call) (step call s) (call_table call t)
  unfolding step
  step-IsView (read_call now id) s t h =
      read-IsView now id (get id s.entries) s t h (h.1 id now (omega arith))
  step-IsView (write_call now roll id payload max_age) s t h =
      maybe_sweep-IsView now roll _ _ (stored-IsView now id payload (now + max_age) s t h)
  step-IsView (delete_call now id) s t h = drop-IsView now id none s t h refl
  step-IsView (replace_call now roll id payload max_age) s t h =
      rw (← h.1 id now (omega arith))
        (replace-IsView now roll id payload max_age (live now (get id s.entries)) s t h)
  step-IsView (touch_call now id max_age) s t h =
      rw (← h.1 id now (omega arith))
        (touch-IsView now id max_age (live now (get id s.entries)) s t h)
  step-IsView (sweep_call now) s t h = sweep-IsView now s t h
  step-IsView (clear_call now) s t h = (tt, λ id n k. unfold get in refl)

  run-IsView :
      (now : ℕ) (calls : List (Call P)) (s : SessionStore P) (t : Table P)
      → Ascending now calls
      → IsView now s t
      → IsView (last_time now calls) (run calls s) (run_table calls t)
  unfolding run
  run-IsView now [] s t a h = h
  run-IsView now (call ∷ later) s t (l, a) h =
      run-IsView (time_of call) later (step call s) (call_table call t) a
        (step-IsView call s t (later-IsView now (time_of call) s t l h))

  read_entry-payload_of :
      (now : ℕ) (id : String) (o : Option (P × ℕ)) (s : SessionStore P)
      → (read_entry now id o s).0 ≡ payload_of (live now o)
  unfolding read_entry
  read_entry-payload_of now id none s = refl
  read_entry-payload_of now id (some (payload, expires_at)) s =
      elim (Bool-cases (leb expires_at now)) [ inl x ↦ rw x refl | inr x ↦ rw x refl ]

  -- After any calls at times that do not go back, at no earlier time the store answers for a session
  -- with the payload and the expiry that the table without sweeps holds, if its time is not over.
  pub read-run :
      (calls : List (Call P)) (sweep_threshold : ℕ) (id : String) (now : ℕ)
      → Ascending 0 calls
      → last_time 0 calls ≤ now
      → let s = run calls (record { entries = []; sweep_threshold = sweep_threshold }) in
        let row = live now (run_table calls empty_table id) in
        ((read now id s).0 ≡ payload_of row) × (expires_at now id s ≡ expiry_of row)
  unfolding read expires_at
  read-run calls sweep_threshold id now a l =
      let start : SessionStore P = record { entries = []; sweep_threshold = sweep_threshold } in
      let s = run calls start in
      let same : live now (get id s.entries) ≡ live now (run_table calls empty_table id) =
        (run-IsView 0 calls start empty_table a (tt, λ id n k. unfold get in refl)).1 id now l in
      (read_entry-payload_of now id (get id s.entries) s ∙ ap payload_of same, ap expiry_of same)
