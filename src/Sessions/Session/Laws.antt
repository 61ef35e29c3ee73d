-- ===== src/Sessions/Session/Laws.antt =====
-- Lemmas on `Session` of src/veloce/sessions.py: what its flag says of its entries.
use veloce.Prelude.{
  ◌≡◌, refl, ◌∙◌, Bool, true, false, String, string_eq, List, [], ◌∷◌, if◌then◌else◌, arith, inl,
  inr, ◌⊎◌,
}
use veloce.Prelude.Dict.{Dict, has, put, pop}
use veloce.Sessions.Session.{
  Session, Argument, missing, mapping, pairs, Call, regenerate_call, clear_call, pop_call,
  popitem_call, setdefault_call, update_call, set_call, del_call, merge_call, update, put_all,
  pop_last, changed, step, run,
}

module _ {V : Type 0} where
  -- Marked as modified, or as it was.
  abbrev Tracked : Session V → Session V → Type 0
  Tracked s t = (t.modified ≡ true) ⊎ ((t.items ≡ s.items) × (t.modified ≡ s.modified))

  if-Tracked :
      (b : Bool) (s : Session V) (items : Dict String V)
      → Tracked s (if b then changed s items else s)
  if-Tracked true s items = inl refl
  if-Tracked false s items = inr (refl, refl)

  if-Tracked_not :
      (b : Bool) (s : Session V) (items : Dict String V)
      → Tracked s (if b then s else changed s items)
  if-Tracked_not true s items = inr (refl, refl)
  if-Tracked_not false s items = inl refl

  update-Tracked :
      (argument : Argument V) (kwargs : Dict String V) (s : Session V)
      → Tracked s (update argument kwargs s)
  unfolding update put_all
  update-Tracked missing [] s = inr (refl, refl)
  update-Tracked missing (e ∷ kwargs) s = inl refl
  update-Tracked (mapping []) [] s = inr (refl, refl)
  update-Tracked (mapping (e ∷ d)) [] s = inl refl
  update-Tracked (mapping d) (e ∷ kwargs) s = inl refl
  update-Tracked (pairs l) kwargs s = inl refl

  pop_last-Tracked : (s : Session V) (items : Dict String V) → Tracked s (pop_last s items).1
  pop_last-Tracked s [] = inr (refl, refl)
  pop_last-Tracked s (e ∷ d) = inl refl

  step-Tracked : (call : Call V) (s : Session V) → Tracked s (step call s)
  unfolding step
  step-Tracked regenerate_call s = inl refl
  step-Tracked clear_call s = inl refl
  step-Tracked (pop_call key) s = if-Tracked (has key s.items) s (pop key s.items)
  step-Tracked popitem_call s = pop_last-Tracked s s.items
  step-Tracked (setdefault_call key default) s =
      if-Tracked_not (has key s.items) s (put key default s.items)
  step-Tracked (update_call argument kwargs) s = update-Tracked argument kwargs s
  step-Tracked (set_call key value) s = inl refl
  step-Tracked (del_call key) s = if-Tracked (has key s.items) s (pop key s.items)
  step-Tracked (merge_call other) s = inl refl

  -- No call takes the mark back.
  step-modified :
      (call : Call V) (s : Session V) → s.modified ≡ true → (step call s).modified ≡ true
  step-modified call s h = ground (arith, step-Tracked call s)

  run-modified :
      (calls : List (Call V)) (s : Session V) → s.modified ≡ true → (run calls s).modified ≡ true
  unfolding run
  run-modified [] s h = h
  run-modified (call ∷ later) s h = run-modified later (step call s) (step-modified call s h)

  -- A session that is not marked as modified after any calls holds what it held before them, so no
  -- change is lost when only marked sessions are saved.
  pub run-unmodified :
      (calls : List (Call V)) (s : Session V)
      → (run calls s).modified ≡ false
      → (run calls s).items ≡ s.items
  unfolding run
  run-unmodified [] s h = refl
  run-unmodified (call ∷ later) s h = elim (step-Tracked call s) [
    | inl t ↦ cc (run-modified later (step call s) t, h)
    | inr (e, m) ↦ run-unmodified later (step call s) h ∙ e
  ]
