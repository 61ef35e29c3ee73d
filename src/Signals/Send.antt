-- ===== src/Signals/Send.antt =====
-- The sends of `Signal`, src/veloce/signals.py. A receiver is what a call of it answers, and the calls
-- of `connect` and `disconnect` on the same signal that it makes meanwhile. Awaiting a coroutine
-- is a function of it.
use veloce.Prelude.{
  ℕ, zero, suc, Bool, true, false, Option, none, some, List, [], ◌∷◌, ◌++◌, nat_beq, length,
  get_elem?, is_empty, if◌then◌else◌,
}
use veloce.Signals.{Objects, Sub, Change, matches, target, apply_all}

-- What a receiver gave: `failure e` is the exception e as a value.
pub data Value (V E C : Type 0) : Type 0 where
  plain : V → Value V E C
  coroutine : C → Value V E C
  failure : E → Value V E C

pub data Outcome (E A : Type 0) : Type 0 where
  returned : A → Outcome E A
  raised : E → Outcome E A

abbrev pub is_coroutine : {V E C : Type 0} → Value V E C → Bool
is_coroutine (plain v) = false
is_coroutine (coroutine c) = true
is_coroutine (failure e) = false

pub record Program (R S V E C : Type 0) : Type 0 where
  pub objects : Objects R S
  pub call : R → Outcome E (Value V E C) × List (Change R S)
  pub await_value : Value V E C → Value V E C
  -- the TypeError that `send_robust` records in place of a coroutine
  pub type_error : E
  -- Python's None
  pub no_value : V

module _ {R S : Type 0} where
  -- The list that the walk kept takes the place of the subscriptions if their lengths differ.
  abbrev pub prune : List (Sub R S) → List (Sub R S) → List (Sub R S)
  prune live subs = if nat_beq (length live) (length subs) then subs else live

  -- `_iter_live_pairs` and the loop over what it yields: `visit` is the body of that loop. The list
  -- is walked by index, since a receiver may change it meanwhile. `none` is out of fuel.
  module _ {A E : Type 0} (o : Objects R S) (sender : S)
      (visit : R → Bool → A → List (Sub R S) → Outcome E A × List (Sub R S)) where
    abbrev pub Walked : Type 0
    Walked = Option (Outcome E A × List (Sub R S))

    abbrev pub visited :
        (List (Sub R S) → A → List (Sub R S) → Walked)
        → List (Sub R S)
        → Outcome E A × List (Sub R S)
        → Walked
    visited again live (returned acc, subs) = again live acc subs
    visited again live (raised e, subs) = some (raised e, subs)

    abbrev pub at_target :
        (List (Sub R S) → A → List (Sub R S) → Walked)
        → List (Sub R S)
        → A
        → List (Sub R S)
        → Sub R S
        → Option R
        → Walked
    at_target again live acc subs s none = again live acc subs
    at_target again live acc subs s (some r) =
        if matches o s.sender sender
        then visited again (live ++ (s ∷ [])) (visit r s.is_async acc subs)
        else again (live ++ (s ∷ [])) acc subs

    abbrev pub at_entry :
        (List (Sub R S) → A → List (Sub R S) → Walked)
        → List (Sub R S)
        → A
        → List (Sub R S)
        → Option (Sub R S)
        → Walked
    at_entry again live acc subs none = some (returned acc, prune live subs)
    at_entry again live acc subs (some s) = at_target again live acc subs s (target o s)

    unfoldable pub walk : ℕ → ℕ → List (Sub R S) → A → List (Sub R S) → Walked
    unfolding target matches
    walk zero i live acc subs = none
    walk (suc fuel) i live acc subs =
        at_entry (λ l a t. walk fuel (suc i) l a t) live acc subs (get_elem? subs i)

module _ {R S V E C : Type 0} (p : Program R S V E C) where
  abbrev pub after_call : R → List (Sub R S) → List (Sub R S)
  after_call r subs = apply_all p.objects (p.call r).1 subs

  abbrev pub put_result : {A : Type 0} → (Value V E C → A) → Outcome E (Value V E C) → Outcome E A
  put_result f (returned v) = returned (f v)
  put_result f (raised e) = raised e

  abbrev pub visit_send :
      R
      → Bool
      → List (R × Value V E C)
      → List (Sub R S)
      → Outcome E (List (R × Value V E C)) × List (Sub R S)
  visit_send r is_async acc subs =
      (put_result (λ v. acc ++ ((r, v) ∷ [])) (p.call r).0, after_call r subs)

  -- What `send_robust` records; what is raised is an `Exception`, the others are not caught and not modelled.
  abbrev pub robust_value : Outcome E (Value V E C) → Value V E C
  robust_value (returned v) = if is_coroutine v then failure p.type_error else v
  robust_value (raised e) = failure e

  abbrev pub visit_robust :
      R
      → Bool
      → List (R × Value V E C)
      → List (Sub R S)
      → Outcome E (List (R × Value V E C)) × List (Sub R S)
  visit_robust r is_async acc subs =
      (returned (acc ++ ((r, robust_value (p.call r).0) ∷ [])), after_call r subs)

module _ {R S V E C : Type 0} (p : Program R S V E C) (sender : S) where
  unfoldable pub send :
      ℕ → List (Sub R S) → Option (Outcome E (List (R × Value V E C)) × List (Sub R S))
  unfolding walk apply_all
  send fuel subs =
      if is_empty subs
      then some (returned [], subs)
      else walk p.objects sender (visit_send p) fuel 0 [] [] subs

  unfoldable pub send_robust :
      ℕ → List (Sub R S) → Option (Outcome E (List (R × Value V E C)) × List (Sub R S))
  unfolding walk apply_all
  send_robust fuel subs = walk p.objects sender (visit_robust p) fuel 0 [] [] subs
