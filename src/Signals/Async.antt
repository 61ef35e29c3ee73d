-- ===== src/Signals/Async.antt =====
-- `asend` and `send_robust_async` of src/veloce/signals.py: what a receiver gives at once takes its
-- place, what is to be awaited leaves a slot, and all slots are filled when every coroutine has ended.
use veloce.Prelude.{
  ℕ, zero, suc, Bool, ◌||◌, Option, none, some, List, [], ◌∷◌, ◌++◌, map, length, is_empty,
  if◌then◌else◌,
}
use veloce.Signals.{Sub, apply_all}
use veloce.Signals.Send.{
  Value, plain, coroutine, failure, Outcome, returned, raised, Program, walk, is_coroutine,
  after_call,
}

-- targets[slot] = (target, value)
unfoldable pub set_value {ℓ κ} : {A : Type ℓ} {B : Type κ} → ℕ → B → List (A × B) → List (A × B)
set_value slot v [] = []
set_value zero v ((r, w) ∷ targets) = (r, v) ∷ targets
set_value (suc slot) v (t ∷ targets) = t ∷ set_value slot v targets

-- The loop over zip(coro_slots, awaited).
unfoldable pub fill {ℓ κ} :
    {A : Type ℓ} {B : Type κ} → List ℕ → List B → List (A × B) → List (A × B)
unfolding set_value
fill [] values targets = targets
fill (slot ∷ slots) [] targets = targets
fill (slot ∷ slots) (v ∷ values) targets = fill slots values (set_value slot v targets)

abbrev pub or_first {ℓ} : {A : Type ℓ} → Option A → Option A → Option A
or_first (some a) other = some a
or_first none other = other

pub record Pending (R V E C : Type 0) : Type 0 where
  pub targets : List (R × Value V E C)
  pub coros : List (Value V E C)
  pub coro_slots : List ℕ

abbrev pub nothing : {R V E C : Type 0} → Pending R V E C
nothing = record { targets = []; coros = []; coro_slots = [] }

module _ {V E C : Type 0} where
  abbrev pub exception : Value V E C → Option E
  exception (failure e) = some e
  exception (plain v) = none
  exception (coroutine c) = none

  -- The first of the awaited values that is an exception.
  unfoldable pub first_exc : List (Value V E C) → Option E
  first_exc [] = none
  first_exc (v ∷ values) = or_first (exception v) (first_exc values)

abbrev pub raise_or : {E A : Type 0} → Option E → A → Outcome E A
raise_or none a = returned a
raise_or (some e) a = raised e

abbrev pub then_finish : {A B T : Type 0} → (A → B) → Option (A × T) → Option (B × T)
then_finish f none = none
then_finish f (some (a, subs)) = some (f a, subs)

module _ {R S V E C : Type 0} (p : Program R S V E C) where
  abbrev pub deferred : R → Value V E C → Pending R V E C → Pending R V E C
  deferred r v acc = record {
    targets = acc.targets ++ ((r, plain p.no_value) ∷ []);
    coros = acc.coros ++ (v ∷ []);
    coro_slots = acc.coro_slots ++ (length acc.targets ∷ []);
  }

  abbrev pub at_once : R → Value V E C → Pending R V E C → Pending R V E C
  at_once r v acc = record acc { targets = acc.targets ++ ((r, v) ∷ []) }

  abbrev pub answered : R → Bool → Value V E C → Pending R V E C → Pending R V E C
  answered r is_async v acc =
      if is_async || is_coroutine v then deferred r v acc else at_once r v acc

  abbrev pub call_asend :
      R → Bool → Pending R V E C → Outcome E (Value V E C) → Outcome E (Pending R V E C)
  call_asend r is_async acc (returned v) = returned (answered r is_async v acc)
  call_asend r is_async acc (raised e) = raised e

  abbrev pub call_robust : R → Bool → Pending R V E C → Outcome E (Value V E C) → Pending R V E C
  call_robust r is_async acc (returned v) = answered r is_async v acc
  call_robust r is_async acc (raised e) = at_once r (failure e) acc

  abbrev pub finished : Pending R V E C → List (R × Value V E C)
  finished acc = fill acc.coro_slots (map p.await_value acc.coros) acc.targets

  abbrev pub finish_asend : Outcome E (Pending R V E C) → Outcome E (List (R × Value V E C))
  finish_asend (returned acc) = raise_or (first_exc (map p.await_value acc.coros)) (finished acc)
  finish_asend (raised e) = raised e

  abbrev pub finish_robust : Outcome E (Pending R V E C) → Outcome E (List (R × Value V E C))
  finish_robust (returned acc) = returned (finished acc)
  finish_robust (raised e) = raised e

module _ {R S V E C : Type 0} (p : Program R S V E C) where
  abbrev pub visit_asend :
      R → Bool → Pending R V E C → List (Sub R S) → Outcome E (Pending R V E C) × List (Sub R S)
  visit_asend r is_async acc subs = (call_asend p r is_async acc (p.call r).0, after_call p r subs)

  abbrev pub visit_robust_async :
      R → Bool → Pending R V E C → List (Sub R S) → Outcome E (Pending R V E C) × List (Sub R S)
  visit_robust_async r is_async acc subs =
      (returned (call_robust p r is_async acc (p.call r).0), after_call p r subs)

module _ {R S V E C : Type 0} (p : Program R S V E C) (sender : S) where
  unfoldable pub asend :
      ℕ → List (Sub R S) → Option (Outcome E (List (R × Value V E C)) × List (Sub R S))
  unfolding walk apply_all first_exc fill
  asend fuel subs =
      if is_empty subs
      then some (returned [], subs)
      else then_finish (finish_asend p)
          (walk p.objects sender (visit_asend p) fuel 0 [] nothing subs)

  unfoldable pub send_robust_async :
      ℕ → List (Sub R S) → Option (Outcome E (List (R × Value V E C)) × List (Sub R S))
  unfolding walk apply_all fill
  send_robust_async fuel subs =
      if is_empty subs
      then some (returned [], subs)
      else then_finish (finish_robust p)
          (walk p.objects sender (visit_robust_async p) fuel 0 [] nothing subs)
