-- ===== src/Signals.antt =====
-- `Signal` of src/veloce/signals.py: the list `_subs` of its subscriptions, with what connects,
-- disconnects and looks at it; and `Namespace`.
pub mod Send
pub mod Async
pub mod Quiet
pub mod Slots
pub mod Robust
pub mod Disconnect
pub mod Namespace
pub mod Laws
use veloce.Prelude.{
  ℕ, ◌≡◌, Bool, true, false, not, ◌&&◌, ◌||◌, Option, none, some, List, [], ◌∷◌, ◌++◌, length,
  if◌then◌else◌, Key,
}

-- How the interpreter compares senders by `is` and by `==`, which may raise, and receivers by `==`;
-- which receivers were not collected; and what `inspect.iscoroutinefunction` says of one.
pub record Objects (R S : Type 0) : Type 0 where
  pub any_sender : S
  pub senders : Key S
  pub equals : S → S → Option Bool
  pub receivers : Key R
  pub is_alive : R → Bool
  pub is_coroutine_function : R → Bool

-- An entry of `_subs`.
pub record Sub (R S : Type 0) : Type 0 where
  pub sender : S
  pub receiver : R
  pub is_weak : Bool
  pub is_async : Bool

abbrev pub known_true : Option Bool → Bool
known_true none = false
known_true (some b) = b

module _ {R S : Type 0} (o : Objects R S) where
  -- `_matches`
  unfoldable pub matches : S → S → Bool
  matches subscribed sent =
      o.senders.same subscribed o.any_sender
      || (o.senders.same subscribed sent || known_true (o.equals subscribed sent))

  -- ref() if is_weak else ref; of a subscription whose receiver was collected it is `none`.
  unfoldable pub target : Sub R S → Option R
  target s = if s.is_weak && not (o.is_alive s.receiver) then none else some s.receiver

  unfoldable pub connect : R → Bool → S → List (Sub R S) → List (Sub R S)
  connect receiver weak sender subs =
      subs
      ++ (record {
        sender = sender;
        receiver = receiver;
        is_weak = weak;
        is_async = o.is_coroutine_function receiver;
      }
          ∷ [])

  abbrev pub is_target : R → Option R → Bool
  is_target receiver none = false
  is_target receiver (some r) = o.receivers.same r receiver

  -- Whether `disconnect` for `sender` takes a subscription for `stored`.
  abbrev pub detaches : S → S → Bool
  detaches sender stored =
      o.senders.same sender o.any_sender
      || (o.senders.same stored sender || known_true (o.equals stored sender))

  unfoldable pub disconnect : R → S → List (Sub R S) → List (Sub R S)
  unfolding target
  disconnect receiver sender [] = []
  disconnect receiver sender (s ∷ subs) =
      let rest = disconnect receiver sender subs in
      if is_target receiver (target s) && detaches sender s.sender then subs else s ∷ rest

  abbrev receiver_count : List (Sub R S) → ℕ
  receiver_count subs = length subs

  -- `rest` is what the later subscriptions say.
  abbrev pub reaches : S → Sub R S → Option R → Bool → Bool
  reaches sender s none rest = rest
  reaches sender s (some r) rest = matches s.sender sender || rest

  unfoldable pub has_receivers_for : S → List (Sub R S) → Bool
  unfolding target matches
  has_receivers_for sender [] = false
  has_receivers_for sender (s ∷ subs) = reaches sender s (target s) (has_receivers_for sender subs)

-- A call that changes the subscriptions.
pub data Change (R S : Type 0) : Type 0 where
  connect_change : R → Bool → S → Change R S
  disconnect_change : R → S → Change R S

unfoldable pub apply : {R S : Type 0} → Objects R S → Change R S → List (Sub R S) → List (Sub R S)
unfolding connect disconnect
apply o (connect_change receiver weak sender) subs = connect o receiver weak sender subs
apply o (disconnect_change receiver sender) subs = disconnect o receiver sender subs

unfoldable pub apply_all :
    {R S : Type 0} → Objects R S → List (Change R S) → List (Sub R S) → List (Sub R S)
unfolding apply
apply_all o [] subs = subs
apply_all o (change ∷ later) subs = apply_all o later (apply o change subs)
