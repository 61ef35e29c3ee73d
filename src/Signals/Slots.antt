-- ===== src/Signals/Slots.antt =====
-- Filling the slots of `asend` after the fact gives what awaiting each receiver in its turn would give.
use veloce.Prelude.{
  ℕ, zero, suc, ◌<◌, ◌≡◌, refl, ap, ◌∙◌, sym, List, [], ◌∷◌, ◌++◌, length, All, arith,
}
use veloce.Signals.Async.{set_value, fill}

module _ {A B : Type 0} where
  length-set_value : (k : ℕ) (v : B) (ts : List (A × B)) → length (set_value k v ts) ≡ length ts
  unfolding set_value
  length-set_value k v [] = refl
  length-set_value zero v ((r, w) ∷ ts) = refl
  length-set_value (suc k) v ((r, w) ∷ ts) = ap suc (length-set_value k v ts)

  set_value-front :
      (k : ℕ) (v : B) (ts us : List (A × B))
      → k < length ts
      → set_value k v (ts ++ us) ≡ set_value k v ts ++ us
  unfolding set_value
  set_value-front k v [] us h = absurd (omega (arith, h))
  set_value-front zero v ((r, w) ∷ ts) us h = refl
  set_value-front (suc k) v ((r, w) ∷ ts) us h =
      ap (◌∷◌ (r, w)) (set_value-front k v ts us (omega (arith, h)))

  set_value-last :
      (r : A) (v w : B) (ts : List (A × B))
      → set_value (length ts) v (ts ++ ((r, w) ∷ [])) ≡ ts ++ ((r, v) ∷ [])
  unfolding set_value
  set_value-last r v w [] = refl
  set_value-last r v w ((q, x) ∷ ts) = ap (◌∷◌ (q, x)) (set_value-last r v w ts)

  length-fill : (ks : List ℕ) (vs : List B) (ts : List (A × B)) → length (fill ks vs ts) ≡ length ts
  unfolding fill
  length-fill [] vs ts = refl
  length-fill (k ∷ ks) [] ts = refl
  length-fill (k ∷ ks) (v ∷ vs) ts = length-fill ks vs (set_value k v ts) ∙ length-set_value k v ts

  pub fill-front :
      (ks : List ℕ) (vs : List B) (ts us : List (A × B))
      → All (λ k. k < length ts) ks
      → fill ks vs (ts ++ us) ≡ fill ks vs ts ++ us
  unfolding fill
  fill-front [] vs ts us h = refl
  fill-front (k ∷ ks) [] ts us h = refl
  fill-front (k ∷ ks) (v ∷ vs) ts us (hk, hks) =
      rw (set_value-front k v ts us hk)
        (fill-front ks vs (set_value k v ts) us (rw (length-set_value k v ts) hks))

  fill-snoc :
      (ks : List ℕ) (vs : List B) (k : ℕ) (v : B) (ts : List (A × B))
      → length ks ≡ length vs
      → fill (ks ++ (k ∷ [])) (vs ++ (v ∷ [])) ts ≡ set_value k v (fill ks vs ts)
  unfolding fill
  fill-snoc [] [] k v ts h = refl
  fill-snoc [] (w ∷ vs) k v ts h = absurd (omega (arith, h))
  fill-snoc (j ∷ ks) [] k v ts h = absurd (omega (arith, h))
  fill-snoc (j ∷ ks) (w ∷ vs) k v ts h = fill-snoc ks vs k v (set_value j w ts) (omega (arith, h))

  -- A slot that is opened at the end and filled after the others is the value at the end.
  pub fill-deferred :
      (ks : List ℕ) (vs : List B) (r : A) (v w : B) (ts : List (A × B))
      → length ks ≡ length vs
      → All (λ k. k < length ts) ks
      → fill (ks ++ (length ts ∷ [])) (vs ++ (v ∷ [])) (ts ++ ((r, w) ∷ []))
        ≡ fill ks vs ts ++ ((r, v) ∷ [])
  fill-deferred ks vs r v w ts hl h =
      rw
        (
          fill-snoc ks vs (length ts) v (ts ++ ((r, w) ∷ [])) hl,
          fill-front ks vs ts ((r, w) ∷ []) h,
          sym (length-fill ks vs ts),
        )
        (set_value-last r v w (fill ks vs ts))
