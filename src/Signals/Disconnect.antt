-- ===== src/Signals/Disconnect.antt =====
-- `disconnect` of src/veloce/signals.py.
use veloce.Prelude.{
  Option, none, some, and_parts, ◌≡◌, refl, Bool, true, false, not, ◌&&◌, ◌||◌, List, [], ◌∷◌, ◌++◌,
  All, if◌then◌else◌, ◌⊎◌, sym, inl, inr, Bool-cases,
}
use veloce.Signals.{Objects, Sub, target, connect, disconnect, is_target, detaches, known_true}

module _ {R S : Type 0} (o : Objects R S) where
  -- Whether a call of `disconnect` takes the subscription.
  abbrev pub is_taken : R → S → Sub R S → Bool
  is_taken receiver sender s = is_target o receiver (target o s) && detaches o sender s.sender

  -- The subscriptions to every sender.
  unfoldable pub to_any : List (Sub R S) → List (Sub R S)
  to_any [] = []
  to_any (s ∷ subs) = if o.senders.same s.sender o.any_sender then s ∷ to_any subs else to_any subs

  never_dead : (b : Bool) → b && not true ≡ false
  never_dead true = refl
  never_dead false = refl

  other_sender :
      (sender stored : S)
      → detaches o sender stored ≡ true
      → detaches o sender o.any_sender ≡ false
      → o.senders.same stored o.any_sender ≡ false
  other_sender sender stored t h = elim (Bool-cases (o.senders.same stored o.any_sender)) [
    | inl e ↦ cc (t, h, (o.senders.same_iff stored o.any_sender).0 e)
    | inr n ↦ n
  ]

  not_any :
      (sender : S)
      → (sender ≡ o.any_sender → ⊥)
      → (o.equals o.any_sender sender ≡ some true → ⊥)
      → detaches o sender o.any_sender ≡ false
  not_any sender h h' =
      by_tests (Bool-cases (o.senders.same sender o.any_sender))
        (Bool-cases (o.senders.same o.any_sender sender)) (o.equals o.any_sender sender) h'
    where
      by_tests :
          (o.senders.same sender o.any_sender ≡ true) ⊎ (o.senders.same sender o.any_sender ≡ false)
          → (o.senders.same o.any_sender sender ≡ true)
            ⊎ (o.senders.same o.any_sender sender ≡ false)
          → (e : Option Bool) → (e ≡ some true → ⊥)
          → o.senders.same sender o.any_sender
              || (o.senders.same o.any_sender sender || known_true e)
            ≡ false
      by_tests (inl t) t' e k = absurd (h ((o.senders.same_iff sender o.any_sender).0 t))
      by_tests (inr f) (inl t) e k = absurd (h (sym ((o.senders.same_iff o.any_sender sender).0 t)))
      by_tests (inr f) (inr f') none k = rw (f, f') refl
      by_tests (inr f) (inr f') (some true) k = absurd (k refl)
      by_tests (inr f) (inr f') (some false) k = rw (f, f') refl

  kept-to_any :
      (receiver : R) (sender : S) (subs : List (Sub R S))
      → detaches o sender o.any_sender ≡ false
      → to_any (disconnect o receiver sender subs) ≡ to_any subs
  unfolding disconnect to_any
  kept-to_any receiver sender [] h = refl
  kept-to_any receiver sender (s ∷ subs) h = elim (Bool-cases (is_taken receiver sender s)) [
    | inl t ↦
        rw
          (
            t,
            other_sender sender s.sender
                (and_parts (is_target o receiver (target o s)) (detaches o sender s.sender) t).1 h,
          )
          refl
    | inr n ↦ rw (n, kept-to_any receiver sender subs h) refl
  ]

  -- A detach for a sender that is neither ANY_SENDER nor equal to it keeps every subscription to all
  -- senders.
  pub disconnect-to_any :
      (receiver : R) (sender : S) (subs : List (Sub R S))
      → (sender ≡ o.any_sender → ⊥)
      → (o.equals o.any_sender sender ≡ some true → ⊥)
      → to_any (disconnect o receiver sender subs) ≡ to_any subs
  disconnect-to_any receiver sender subs h h' =
      kept-to_any receiver sender subs (not_any sender h h')

  disconnect-append :
      (receiver : R) (sender : S) (s : Sub R S) (subs : List (Sub R S))
      → All (λ s'. is_taken receiver sender s' ≡ false) subs
      → is_taken receiver sender s ≡ true
      → disconnect o receiver sender (subs ++ (s ∷ [])) ≡ subs
  unfolding disconnect
  disconnect-append receiver sender s [] a h = rw h refl
  disconnect-append receiver sender s (s' ∷ subs) (n, a) h =
      rw (n, disconnect-append receiver sender s subs a h) refl

  -- A receiver that is connected and then disconnected leaves the subscriptions as they were, if the
  -- detach covers the sender it was connected for and takes no earlier subscription.
  pub disconnect-connect :
      (receiver : R) (weak : Bool) (sender target_sender : S) (subs : List (Sub R S))
      → o.is_alive receiver ≡ true
      → detaches o target_sender sender ≡ true
      → All (λ s. is_taken receiver target_sender s ≡ false) subs
      → disconnect o receiver target_sender (connect o receiver weak sender subs) ≡ subs
  unfolding connect target
  disconnect-connect receiver weak sender target_sender subs ha hd hs =
      disconnect-append receiver target_sender _ subs hs
        (rw (ha, hd, never_dead weak, (o.receivers.same_iff receiver receiver).1 refl) refl)
