-- ===== src/Signals/Quiet.antt =====
-- Sends whose receivers leave the subscriptions alone: the walk by index is then a fold over the live
-- subscriptions that match.
use veloce.Prelude.{
  ℕ, zero, suc, ◌≤◌, ◌<◌, ◌≡◌, refl, ap, Bool, Option, none, some, List, [], ◌∷◌, ◌++◌, sym,
  nat_beq, nat_beq_iff, length, get_elem?, drop, if◌then◌else◌, inl, inr, Bool-cases, Option-cases,
  arith,
}
use mathlib.Core.List.{append_assoc, append-nil}
use veloce.Signals.{Objects, Sub, matches, target}
use veloce.Signals.Send.{Outcome, returned, raised, walk, prune, visited, at_target}

-- The loop's body on each target in turn, up to the first that raises.
abbrev pub bind : {E A B : Type 0} → Outcome E A → (A → Outcome E B) → Outcome E B
bind (returned a) f = f a
bind (raised e) f = raised e

unfoldable pub fold :
    {E A R : Type 0} → (R → Bool → A → Outcome E A) → List (R × Bool) → A → Outcome E A
fold f [] acc = returned acc
fold f ((r, is_async) ∷ ts) acc = bind (f r is_async acc) (λ a. fold f ts a)

module _ {R S : Type 0} (o : Objects R S) where
  -- The subscriptions whose receiver was not collected.
  abbrev pub kept : Sub R S → Option R → List (Sub R S) → List (Sub R S)
  kept s none rest = rest
  kept s (some r) rest = s ∷ rest

  unfoldable pub live_subs : List (Sub R S) → List (Sub R S)
  live_subs [] = []
  live_subs (s ∷ subs) = kept s (target o s) (live_subs subs)

  length-live_subs : (subs : List (Sub R S)) → length (live_subs subs) ≤ length subs
  unfolding live_subs
  length-live_subs [] = omega arith
  length-live_subs (s ∷ subs) = elim (Option-cases (target o s)) [
    | inl n ↦ rw n (omega (arith, length-live_subs subs))
    | inr (r, t) ↦ rw t (omega (arith, length-live_subs subs))
  ]

  live_subs_same :
      (subs : List (Sub R S)) → length (live_subs subs) ≡ length subs → live_subs subs ≡ subs
  unfolding live_subs
  live_subs_same [] = λ h. refl
  live_subs_same (s ∷ subs) = elim (Option-cases (target o s)) [
    | inl n ↦ rw n (λ h. absurd (omega (arith, length-live_subs subs, h)))
    | inr (r, t) ↦ rw t (λ h. ap (◌∷◌ s) (live_subs_same subs (omega (arith, h))))
  ]

  pub prune-live_subs : (subs : List (Sub R S)) → prune (live_subs subs) subs ≡ live_subs subs
  prune-live_subs subs = elim (Bool-cases (nat_beq (length (live_subs subs)) (length subs))) [
    | inl t ↦ rw t (sym (live_subs_same subs ((nat_beq_iff _ _).0 t)))
    | inr f ↦ rw f refl
  ]

module _ {R S : Type 0} (o : Objects R S) (sender : S) where
  -- Those of them that a send from `sender` reaches, each with its `is_async`.
  abbrev pub reached : Sub R S → Option R → List (R × Bool) → List (R × Bool)
  reached s none rest = rest
  reached s (some r) rest = if matches o s.sender sender then (r, s.is_async) ∷ rest else rest

  unfoldable pub targets : List (Sub R S) → List (R × Bool)
  targets [] = []
  targets (s ∷ subs) = reached s (target o s) (targets subs)

-- The entry at an index is what is left from there on.
at-drop {ℓ} :
    {A : Type ℓ} (i : ℕ) (xs : List A) (y : A) (ys : List A)
    → drop i xs ≡ y ∷ ys
    → (get_elem? xs i ≡ some y) × (drop (suc i) xs ≡ ys)
at-drop zero [] y ys h = cc
at-drop zero (x ∷ xs) y ys h = (cc, cc)
at-drop (suc i) [] y ys h = cc
at-drop (suc i) (x ∷ xs) y ys h = at-drop i xs y ys h

past_end {ℓ} : {A : Type ℓ} (i : ℕ) (xs : List A) → drop i xs ≡ [] → get_elem? xs i ≡ none
past_end zero [] h = refl
past_end zero (x ∷ xs) h = cc
past_end (suc i) [] h = refl
past_end (suc i) (x ∷ xs) h = past_end i xs h

module _ {R S A E : Type 0} (o : Objects R S) (sender : S) where
  -- What a walk ends with: it prunes, unless something was raised.
  abbrev pub ended : List (Sub R S) → List (Sub R S) → Outcome E A → Outcome E A × List (Sub R S)
  ended live subs (returned acc) = (returned acc, prune live subs)
  ended live subs (raised e) = (raised e, subs)

  module _ (visit : R → Bool → A → List (Sub R S) → Outcome E A × List (Sub R S))
      (f : R → Bool → A → Outcome E A)
      (quiet : (r : R) (b : Bool) (acc : A) (subs : List (Sub R S))
        → visit r b acc subs ≡ (f r b acc, subs)) where
    abbrev Reads : ℕ → ℕ → List (Sub R S) → A → List (Sub R S) → List (Sub R S) → Type 0
    Reads fuel i live acc subs post =
        walk o sender visit fuel i live acc subs
        ≡ some (ended (live ++ live_subs o post) subs (fold f (targets o sender post) acc))

    after_visit :
        (fuel i : ℕ) (live subs post : List (Sub R S)) (out : Outcome E A)
        → ((a : A) → Reads fuel i live a subs post)
        → visited o sender visit (λ l a t. walk o sender visit fuel i l a t) live (out, subs)
          ≡ some (
              ended
                (live ++ live_subs o post)
                subs
                (bind out (λ a. fold f (targets o sender post) a)))
    after_visit fuel i live subs post (returned a) again = again a
    after_visit fuel i live subs post (raised e) again = refl

    -- One step, after which the rest of the walk does as it should.
    step :
        (fuel i : ℕ) (live : List (Sub R S)) (acc : A) (subs post : List (Sub R S)) (s : Sub R S)
        → ((l : List (Sub R S)) (a : A) → Reads fuel (suc i) l a subs post)
        → (o' : Option R)
        → at_target o sender visit
            (λ l a t. walk o sender visit fuel (suc i) l a t)
            live
            acc
            subs
            s
            o'
          ≡ some (
              ended
                (live ++ kept o s o' (live_subs o post))
                subs
                (fold f (reached o sender s o' (targets o sender post)) acc))
    unfolding fold
    step fuel i live acc subs post s again none = again live acc
    step fuel i live acc subs post s again (some r) =
        elim (Bool-cases (matches o s.sender sender)) [
          | inl t ↦
              rw
                (
                  t,
                  quiet r s.is_async acc subs,
                  sym (append_assoc live (s ∷ []) (live_subs o post)),
                )
                (after_visit fuel (suc i) (live ++ (s ∷ [])) subs post (f r s.is_async acc)
                  (again (live ++ (s ∷ []))))
          | inr n ↦
              rw (n, sym (append_assoc live (s ∷ []) (live_subs o post)))
                (again (live ++ (s ∷ [])) acc)
        ]

    walk-eq-fold :
        (fuel i : ℕ) (live : List (Sub R S)) (acc : A) (subs post : List (Sub R S))
        → drop i subs ≡ post
        → length post < fuel
        → Reads fuel i live acc subs post
    unfolding walk live_subs targets fold
    walk-eq-fold zero i live acc subs post hd hf = absurd (omega (arith, hf))
    walk-eq-fold (suc fuel) i live acc subs [] hd hf =
        rw (past_end i subs hd)
          (ap (λ l. some (returned acc, prune l subs)) (sym (append-nil live)))
    walk-eq-fold (suc fuel) i live acc subs (s ∷ post) hd hf = rw (at-drop i subs s post hd).0 (
        step fuel i live acc subs post s
          (λ l a.
            walk-eq-fold fuel (suc i) l a subs post (at-drop i subs s post hd).1
              (omega (arith, hf)))
          (target o s))

    -- The whole walk, with the length of the subscriptions and one more as its fuel.
    pub walk-quiet :
        (acc : A) (subs : List (Sub R S))
        → walk o sender visit (suc (length subs)) 0 [] acc subs
          ≡ some (ended (live_subs o subs) subs (fold f (targets o sender subs) acc))
    walk-quiet acc subs = walk-eq-fold (suc (length subs)) 0 [] acc subs subs refl (omega arith)
