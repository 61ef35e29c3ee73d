-- ===== src/Tests/Signals.antt =====
-- Tests of Signals.
use veloce.Prelude.{
  arith, ℕ, ◌≡◌, refl, Bool, true, not, Option, none, some, List, [], ◌∷◌, nat_eq, nat_beq, length,
  if◌then◌else◌, map, is_empty,
}
use veloce.Prelude.Dict.{get, put}
use veloce.Signals.{
  Objects, Sub, Change, disconnect_change, matches, target, disconnect, apply, apply_all,
  has_receivers_for,
}
use veloce.Signals.Send.{
  Value, plain, coroutine, failure, Outcome, returned, raised, Program, walk, send, send_robust,
}
use veloce.Signals.Async.{set_value, fill, first_exc, asend, send_robust_async}
use veloce.Signals.Quiet.{live_subs, targets}
use veloce.Signals.Laws.{settle, outcome, calls, asend-calls}
use veloce.Signals.Robust.{recorded, send_robust-recorded}
use veloce.Signals.Disconnect.{to_any, disconnect-to_any}
use veloce.Signals.Namespace.{Namespace, signal}

-- Senders are numbers, 0 is ANY_SENDER, and comparing 9 raises. Receiver 5 was collected, and 2 is a
-- coroutine function.
abbrev compared : ℕ → ℕ → Option Bool
compared a b = if nat_beq a 9 then none else some (nat_beq a b)

abbrev objects : Objects ℕ ℕ
objects = record {
  any_sender = 0;
  senders = nat_eq;
  equals = compared;
  receivers = nat_eq;
  is_alive = λ r. not (nat_beq r 5);
  is_coroutine_function = λ r. nat_beq r 2;
}

-- Receiver 4 raises, 2 and 3 give coroutines, every other a number.
abbrev answer : ℕ → Outcome ℕ (Value ℕ ℕ ℕ)
answer r =
    if nat_beq r 4
    then raised 44
    else if nat_beq r 2
    then returned (coroutine 20)
    else if nat_beq r 3
    then returned (coroutine 30)
    else returned (plain r)

-- The coroutine 30 raises.
abbrev ended : Value ℕ ℕ ℕ → Value ℕ ℕ ℕ
ended (coroutine c) = if nat_beq c 30 then failure 33 else plain c
ended (plain v) = plain v
ended (failure e) = failure e

-- Receiver 6 disconnects itself.
abbrev changes : ℕ → List (Change ℕ ℕ)
changes r = if nat_beq r 6 then disconnect_change 6 0 ∷ [] else []

abbrev program : (ℕ → List (Change ℕ ℕ)) → Program ℕ ℕ ℕ ℕ ℕ
program cs = record {
  objects = objects;
  call = λ r. (answer r, cs r);
  await_value = ended;
  type_error = 77;
  no_value = 0;
}

abbrev quiet : Program ℕ ℕ ℕ ℕ ℕ
quiet = program (λ r. [])

abbrev sub : ℕ → ℕ → Sub ℕ ℕ
sub sender receiver = record {
  sender = sender;
  receiver = receiver;
  is_weak = true;
  is_async = nat_beq receiver 2;
}

abbrev subs : List (Sub ℕ ℕ)
subs = sub 0 2 ∷ sub 7 1 ∷ sub 0 5 ∷ sub 8 4 ∷ sub 9 1 ∷ []

send_tests :
    (asend quiet 7 6 subs
      ≡ some (
        returned ((2, plain 20) ∷ (1, plain 1) ∷ []),
        sub 0 2 ∷ sub 7 1 ∷ sub 8 4 ∷ sub 9 1 ∷ [],
      ))
    × (send quiet 8 6 subs ≡ some (raised 44, subs))
    × (asend quiet 7 3 (sub 0 3 ∷ sub 0 1 ∷ []) ≡ some (raised 33, sub 0 3 ∷ sub 0 1 ∷ []))
    × (send_robust_async quiet 7 3 (sub 0 4 ∷ sub 0 3 ∷ [])
        ≡ some (returned ((4, failure 44) ∷ (3, failure 33) ∷ []), sub 0 4 ∷ sub 0 3 ∷ []))
unfolding asend send send_robust_async walk target matches apply_all fill set_value first_exc
send_tests = (refl, refl, refl, refl)

-- The detach of a receiver that disconnects itself when it is called: the only one is connected again by
-- the walk, and of two the second is not called.
self_detach_tests :
    (send (program changes) 0 2 (sub 0 6 ∷ []) ≡ some (returned ((6, plain 6) ∷ []), sub 0 6 ∷ []))
    × (send (program changes) 0 3 (sub 0 6 ∷ sub 0 1 ∷ [])
        ≡ some (returned ((6, plain 6) ∷ []), sub 0 1 ∷ []))
unfolding send walk target matches apply_all apply disconnect
self_detach_tests = (refl, refl)

abbrev named : Namespace
named = record { signals = []; made = [] }

namespace_tests :
    ((signal "a" none (signal "b" none (signal "a" (some "first") named).1).1).0 ≡ 0)
    × (length (signal "a" none (signal "b" none (signal "a" none named).1).1).1.made ≡ 2)
unfolding signal get put
namespace_tests = (refl, refl)

asend-calls_example :
    asend quiet 7 6 subs
    ≡ some (outcome quiet (settle quiet) subs (calls quiet (targets objects 7 subs)))
asend-calls_example = asend-calls quiet 7 subs (λ r. refl)

send_robust-recorded_example :
    (results : List (ℕ × Value ℕ ℕ ℕ)) × (send_robust quiet 8 6 subs
      ≡ some (returned results, live_subs objects subs))
    × (results ≡ map (recorded quiet) (targets objects 8 subs))
    × (has_receivers_for objects 8 subs ≡ not (is_empty results))
send_robust-recorded_example = send_robust-recorded quiet 8 subs (λ r. refl)

disconnect-to_any_example : to_any objects (disconnect objects 2 7 subs) ≡ to_any objects subs
disconnect-to_any_example = disconnect-to_any objects 2 7 subs (λ e. omega (arith, e)) (λ e. cc)
