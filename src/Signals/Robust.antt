-- ===== src/Signals/Robust.antt =====
-- `send_robust` and `has_receivers_for` of src/veloce/signals.py.
use mathlib.Core.List.{append_assoc, append-nil}
use veloce.Prelude.{
  suc, ◌≡◌, refl, ◌∙◌, sym, ap, Bool, not, some, List, [], ◌∷◌, ◌++◌, map, length, is_empty, inl,
  inr, Bool-cases, Option-cases,
}
use veloce.Signals.{Sub, matches, target, apply_all, has_receivers_for}
use veloce.Signals.Send.{Value, Outcome, returned, Program, send_robust, visit_robust, robust_value}
use veloce.Signals.Quiet.{fold, live_subs, targets, walk-quiet, prune-live_subs}
use veloce.Signals.Laws.{IsQuiet}

module _ {R S V E C : Type 0} (p : Program R S V E C) where
  -- A target, and what is recorded of it.
  abbrev pub recorded : R × Bool → R × Value V E C
  recorded (r, is_async) = (r, robust_value p (p.call r).0)

  abbrev step : R → Bool → List (R × Value V E C) → Outcome E (List (R × Value V E C))
  step r is_async acc = returned (acc ++ (recorded (r, is_async) ∷ []))

  fold-step :
      (ts : List (R × Bool)) (acc : List (R × Value V E C))
      → fold step ts acc ≡ returned (acc ++ map recorded ts)
  unfolding fold
  fold-step [] acc = ap returned (sym (append-nil acc))
  fold-step ((r, b) ∷ ts) acc =
      fold-step ts (acc ++ (recorded (r, b) ∷ []))
      ∙ ap returned (append_assoc acc (recorded (r, b) ∷ []) (map recorded ts))

  quiet_step :
      IsQuiet p
      → (r : R) (b : Bool) (acc : List (R × Value V E C)) (subs : List (Sub R S))
      → visit_robust p r b acc subs ≡ (step r b acc, subs)
  unfolding apply_all
  quiet_step q r b acc subs = rw (q r) refl

  has_receivers_for-targets :
      (sender : S) (subs : List (Sub R S))
      → has_receivers_for p.objects sender subs
        ≡ not (is_empty (map recorded (targets p.objects sender subs)))
  unfolding has_receivers_for targets
  has_receivers_for-targets sender [] = refl
  has_receivers_for-targets sender (s ∷ subs) = elim (Option-cases (target p.objects s)) [
    | inl n ↦ rw n (has_receivers_for-targets sender subs)
    | inr (r, t) ↦ rw t (elim (Bool-cases (matches p.objects s.sender sender)) [
      | inl m ↦ rw m refl
      | inr m ↦ rw m (has_receivers_for-targets sender subs)
    ])
  ]

  -- If no receiver changes the subscriptions, `send_robust` returns with one more than their number as
  -- fuel and never raises: it records one entry for each live subscription that matches, in order, and
  -- keeps the live subscriptions; and `has_receivers_for` said whether there would be an entry.
  pub send_robust-recorded :
      (sender : S) (subs : List (Sub R S))
      → IsQuiet p
      → (results : List (R × Value V E C)) × (send_robust p sender (suc (length subs)) subs
          ≡ some (returned results, live_subs p.objects subs))
        × (results ≡ map recorded (targets p.objects sender subs))
        × (has_receivers_for p.objects sender subs ≡ not (is_empty results))
  unfolding send_robust
  send_robust-recorded sender subs q = (
    map recorded (targets p.objects sender subs),
    rw
        (
          walk-quiet p.objects sender (visit_robust p) step (quiet_step q) [] subs,
          fold-step (targets p.objects sender subs) [],
          prune-live_subs p.objects subs,
        )
        refl,
    refl,
    has_receivers_for-targets sender subs,
  )
