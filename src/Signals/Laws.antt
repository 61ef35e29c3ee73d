-- ===== src/Signals/Laws.antt =====
-- What the sends of a signal answer, and what `disconnect` takes, src/veloce/signals.py.
use mathlib.Core.List.{map-append, append_assoc, append-nil}
use veloce.Prelude.{
  ℕ, suc, ◌≤◌, ◌<◌, ◌≡◌, refl, ap, ◌∙◌, sym, Bool, ◌||◌, some, List, [], ◌∷◌, ◌++◌, map, length,
  length-append, All, All-append, if◌then◌else◌, inl, inr, Bool-cases, arith,
}
use veloce.Signals.{Sub, apply_all}
use veloce.Signals.Send.{Value, plain, Outcome, returned, raised, Program, is_coroutine}
use veloce.Signals.Async.{
  fill, Pending, nothing, answered, deferred, at_once, finished, first_exc, asend, visit_asend,
  call_asend, raise_or, finish_asend, then_finish,
}
use veloce.Signals.Quiet.{bind, fold, live_subs, targets, ended, walk-quiet, prune-live_subs}
use veloce.Signals.Slots.{fill-front, fill-deferred}

module _ {R S V E C : Type 0} (p : Program R S V E C) where
  -- No receiver changes the subscriptions.
  abbrev pub IsQuiet : Type 0
  IsQuiet = (r : R) → (p.call r).1 ≡ []

  -- A target with its `is_async`, and what the call of it answered.
  abbrev pub Call : Type 0
  Call = R × Bool × Value V E C

  abbrev pub called : R → Bool → Outcome E (Value V E C) → Outcome E Call
  called r is_async (returned v) = returned (r, is_async, v)
  called r is_async (raised e) = raised e

  -- Calling each target in turn, up to the first that raises.
  unfoldable pub calls : List (R × Bool) → Outcome E (List Call)
  calls [] = returned []
  calls ((r, is_async) ∷ ts) =
      bind (called r is_async (p.call r).0) (λ c. bind (calls ts) (λ cs. returned (c ∷ cs)))

  -- What is awaited of a call: everything of an `async def`, and a coroutine of any other.
  abbrev pub is_awaited : Call → Bool
  is_awaited (r, is_async, v) = is_async || is_coroutine v

  abbrev pub settled : Call → R × Value V E C
  settled (r, is_async, v) = (r, if is_async || is_coroutine v then p.await_value v else v)

  -- The values of those that are awaited.
  unfoldable pub awaited : List Call → List (Value V E C)
  awaited [] = []
  awaited ((r, is_async, v) ∷ cs) =
      if is_async || is_coroutine v then p.await_value v ∷ awaited cs else awaited cs

  abbrev pub settle : List Call → Outcome E (List (R × Value V E C))
  settle cs = raise_or (first_exc (awaited cs)) (map settled cs)

  pend : List Call → Pending R V E C → Pending R V E C
  pend [] acc = acc
  pend ((r, is_async, v) ∷ cs) acc = pend cs (answered p r is_async v acc)

  abbrev after_calls : {A : Type 0} → (List Call → A) → Outcome E (List Call) → Outcome E A
  after_calls f (returned cs) = returned (f cs)
  after_calls f (raised e) = raised e

  abbrev asend_step : R → Bool → Pending R V E C → Outcome E (Pending R V E C)
  asend_step r is_async acc = call_asend p r is_async acc (p.call r).0

  after_calls-cons :
      {A : Type 0} (f : List Call → A) (c : Call) (o : Outcome E (List Call))
      → after_calls (λ cs. f (c ∷ cs)) o ≡ after_calls f (bind o (λ cs. returned (c ∷ cs)))
  after_calls-cons f c (returned cs) = refl
  after_calls-cons f c (raised e) = refl

  after_first :
      (r : R) (b : Bool) (ts : List (R × Bool)) (acc : Pending R V E C)
      (o : Outcome E (Value V E C))
      → ((a : Pending R V E C) → fold asend_step ts a ≡ after_calls (λ cs. pend cs a) (calls ts))
      → bind (call_asend p r b acc o) (λ a. fold asend_step ts a)
        ≡ after_calls
            (λ cs. pend cs acc)
            (bind (called r b o) (λ c. bind (calls ts) (λ cs. returned (c ∷ cs))))
  unfolding pend
  after_first r b ts acc (returned v) h =
      h (answered p r b v acc) ∙ after_calls-cons (λ cs. pend cs acc) (r, b, v) (calls ts)
  after_first r b ts acc (raised e) h = refl

  fold-asend_step :
      (ts : List (R × Bool)) (acc : Pending R V E C)
      → fold asend_step ts acc ≡ after_calls (λ cs. pend cs acc) (calls ts)
  unfolding fold calls pend
  fold-asend_step [] acc = refl
  fold-asend_step ((r, is_async) ∷ ts) acc =
      after_first r is_async ts acc (p.call r).0 (λ a. fold-asend_step ts a)

  -- The slots are places among the targets, one for each coroutine.
  record IsPending (acc : Pending R V E C) : Type 0 where
    slots : length acc.coro_slots ≡ length (map p.await_value acc.coros)
    places : All (λ k. k < length acc.targets) acc.coro_slots

  All-lt-weaken : (n m : ℕ) (ks : List ℕ) → n ≤ m → All (λ k. k < n) ks → All (λ k. k < m) ks
  All-lt-weaken n m [] h a = tt
  All-lt-weaken n m (k ∷ ks) h (hk, a) = (omega (arith, h, hk), All-lt-weaken n m ks h a)

  abbrev one_more : Pending R V E C → R × Value V E C → ℕ
  one_more acc t = length (acc.targets ++ (t ∷ []))

  length-one_more :
      (acc : Pending R V E C) (t : R × Value V E C) → one_more acc t ≡ suc (length acc.targets)
  length-one_more acc t = omega (arith, length-append acc.targets (t ∷ []))

  deferred-IsPending :
      (r : R) (v : Value V E C) (acc : Pending R V E C)
      → IsPending acc
      → IsPending (deferred p r v acc)
        × (finished p (deferred p r v acc) ≡ finished p acc ++ ((r, p.await_value v) ∷ []))
  deferred-IsPending r v acc h =
      let n = length acc.targets in
      let t : R × Value V E C = (r, plain p.no_value) in
      (
        record {
          slots = rw map-append (
              omega (
                arith,
                h.slots,
                length-append acc.coro_slots (n ∷ []),
                length-append (map p.await_value acc.coros) (p.await_value v ∷ []),
              ));
          places =
              All-append _ acc.coro_slots (n ∷ [])
                (All-lt-weaken n (one_more acc t) acc.coro_slots
                  (omega (arith, length-one_more acc t)) h.places)
                (omega (arith, length-one_more acc t), tt);
        },
        rw map-append (
            fill-deferred acc.coro_slots (map p.await_value acc.coros) r (p.await_value v)
              (plain p.no_value) acc.targets h.slots h.places),
      )

  at_once-IsPending :
      (r : R) (v : Value V E C) (acc : Pending R V E C)
      → IsPending acc
      → IsPending (at_once p r v acc)
        × (finished p (at_once p r v acc) ≡ finished p acc ++ ((r, v) ∷ []))
  at_once-IsPending r v acc h =
      let n = length acc.targets in
      (
        record {
          slots = h.slots;
          places =
              All-lt-weaken n (one_more acc (r, v)) acc.coro_slots
                (omega (arith, length-one_more acc (r, v))) h.places;
        },
        fill-front acc.coro_slots (map p.await_value acc.coros) acc.targets ((r, v) ∷ []) h.places,
      )

  answered-IsPending :
      (r : R) (b : Bool) (v : Value V E C) (acc : Pending R V E C)
      → IsPending acc
      → IsPending (answered p r b v acc)
        × (finished p (answered p r b v acc) ≡ finished p acc ++ (settled (r, b, v) ∷ []))
  answered-IsPending r b v acc h = elim (Bool-cases (b || is_coroutine v)) [
    | inl t ↦ rw t (deferred-IsPending r v acc h)
    | inr n ↦ rw n (at_once-IsPending r v acc h)
  ]

  finished-pend :
      (cs : List Call) (acc : Pending R V E C)
      → IsPending acc
      → finished p (pend cs acc) ≡ finished p acc ++ map settled cs
  unfolding pend
  finished-pend [] acc h = sym (append-nil (finished p acc))
  finished-pend ((r, b, v) ∷ cs) acc h =
      let (h', e) = answered-IsPending r b v acc h in
      finished-pend cs (answered p r b v acc) h'
      ∙ ap (λ ts. ts ++ map settled cs) e
      ∙ append_assoc (finished p acc) (settled (r, b, v) ∷ []) (map settled cs)

  coros-answered :
      (r : R) (b : Bool) (v : Value V E C) (cs : List Call) (acc : Pending R V E C)
      → map p.await_value (answered p r b v acc).coros ++ awaited cs
        ≡ map p.await_value acc.coros ++ awaited ((r, b, v) ∷ cs)
  unfolding awaited
  coros-answered r b v cs acc = elim (Bool-cases (b || is_coroutine v)) [
    | inl t ↦
        rw (t, map-append)
          (append_assoc (map p.await_value acc.coros) (p.await_value v ∷ []) (awaited cs))
    | inr n ↦ rw n refl
  ]

  coros-pend :
      (cs : List Call) (acc : Pending R V E C)
      → map p.await_value (pend cs acc).coros ≡ map p.await_value acc.coros ++ awaited cs
  unfolding pend awaited
  coros-pend [] acc = sym (append-nil (map p.await_value acc.coros))
  coros-pend ((r, b, v) ∷ cs) acc =
      coros-pend cs (answered p r b v acc) ∙ coros-answered r b v cs acc

  -- What `asend` makes of the calls, and of the subscriptions.
  finish-pend : (cs : List Call) → finish_asend p (returned (pend cs nothing)) ≡ settle cs
  unfolding fill
  finish-pend cs =
      rw (finished-pend cs nothing (record { slots = refl; places = tt }), coros-pend cs nothing)
        refl

  -- What a send leads to: an exception in a call leaves the subscriptions as they are, and after all
  -- calls those whose receiver was collected are gone.
  abbrev pub outcome :
      {A : Type 0}
      → (List Call → Outcome E A)
      → List (Sub R S)
      → Outcome E (List Call)
      → Outcome E A × List (Sub R S)
  outcome f subs (returned cs) = (f cs, live_subs p.objects subs)
  outcome f subs (raised e) = (raised e, subs)

  ended-pend :
      (sender : S) (subs : List (Sub R S)) (o : Outcome E (List Call))
      → then_finish (finish_asend p) (
          some (
            ended p.objects sender
              (live_subs p.objects subs)
              subs
              (after_calls (λ cs. pend cs nothing) o)))
        ≡ some (outcome settle subs o)
  ended-pend sender subs (returned cs) =
      rw (prune-live_subs p.objects subs)
        (ap (λ r. some (r, live_subs p.objects subs)) (finish-pend cs))
  ended-pend sender subs (raised e) = refl

  visit_asend_quiet :
      IsQuiet
      → (r : R) (b : Bool) (acc : Pending R V E C) (subs : List (Sub R S))
      → visit_asend p r b acc subs ≡ (asend_step r b acc, subs)
  unfolding apply_all
  visit_asend_quiet q r b acc subs = rw (q r) refl

  -- If no receiver changes the subscriptions, `asend` returns with one more than their number as fuel.
  -- It calls the live subscriptions that match in order and ends with the first call that raises. Else
  -- it ends as if each awaitable value had been awaited in its place, with the first exception among
  -- those if there is one, and the subscriptions that are left are the live ones.
  pub asend-calls :
      (sender : S) (subs : List (Sub R S))
      → IsQuiet
      → asend p sender (suc (length subs)) subs
        ≡ some (outcome settle subs (calls (targets p.objects sender subs)))
  unfolding asend
  asend-calls sender [] q = unfold calls targets live_subs awaited first_exc in refl
  asend-calls sender (s ∷ subs) q =
      rw
        (
          walk-quiet p.objects sender (visit_asend p) asend_step (visit_asend_quiet q) nothing
              (s ∷ subs),
          fold-asend_step (targets p.objects sender (s ∷ subs)) nothing,
        )
        (ended-pend sender (s ∷ subs) (calls (targets p.objects sender (s ∷ subs))))
