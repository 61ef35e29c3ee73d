-- ===== src/Prelude/Dict/Unique.antt =====
-- Dictionaries in which no key stands twice, as every one that the operations build.
use mathlib.Core.Path.{◌≡◌, refl, sym, ap, ◌∙◌}
use mathlib.Core.Logic.{inl, inr}
use mathlib.Core.Bool.{Bool, false, ◌||◌}
use mathlib.Core.List.{List, [], ◌∷◌}
use mathlib.Core.Option.{Option, none, some}
use native.Mathlib.Omega.{arith}
use veloce.Prelude.Tests.{if◌then◌else◌, Bool-cases}
use veloce.Prelude.Keys.{Key, ◌==◌}
use veloce.Prelude.Dict.{Dict, get, put, pop, pop_all, keys_where}
use veloce.Prelude.Dict.Laws.{get-put, get-pop}

elem {ℓ} : {K : Type ℓ} ⦃e : Key K⦄ → K → List K → Bool
elem j [] = false
elem j (k ∷ ks) = (k == j) || elem j ks

abbrev test : {V : Type 0} → (V → Bool) → Option V → Bool
test p none = false
test p (some v) = p v

-- What is left of an entry when those that `p` holds of are dropped.
abbrev pub kept : {V : Type 0} → (V → Bool) → Option V → Option V
kept p none = none
kept p (some v) = if p v then none else some v

if-kept : {V : Type 0} (p : V → Bool) (o : Option V) → (if test p o then none else o) ≡ kept p o
if-kept p none = refl
if-kept p (some v) = refl

module _ {K V : Type 0} ⦃e : Key K⦄ where
  abbrev pub IsUnique : Dict K V → Type 0
  IsUnique [] = Unit
  IsUnique ((k, v) ∷ d) = (get k d ≡ none) × IsUnique d

  pub put-IsUnique : (k : K) (v : V) (d : Dict K V) → IsUnique d → IsUnique (put k v d)
  unfolding put get
  put-IsUnique k v [] u = (refl, tt)
  put-IsUnique k v ((j, w) ∷ d) (new, u) = elim (Bool-cases (j == k)) [
    | inl t ↦ rw t (new, u)
    | inr f ↦
        let apart : (k == j) ≡ false = ground (arith, e.same_iff j k, e.same_iff k j) in
        rw f ((get-put k j v d ∙ rw apart new), put-IsUnique k v d u)
  ]

  pub pop-IsUnique : (k : K) (d : Dict K V) → IsUnique d → IsUnique (pop k d)
  unfolding pop
  pop-IsUnique k [] u = tt
  pop-IsUnique k ((j, w) ∷ d) (new, u) = elim (Bool-cases (j == k)) [
    | inl t ↦ rw t (pop-IsUnique k d u)
    | inr f ↦ rw f (ground (arith, get-pop k j d), pop-IsUnique k d u)
  ]

  pub pop_all-IsUnique : (ks : List K) (d : Dict K V) → IsUnique d → IsUnique (pop_all ks d)
  unfolding pop_all
  pop_all-IsUnique [] d u = u
  pop_all-IsUnique (k ∷ ks) d u = pop_all-IsUnique ks (pop k d) (pop-IsUnique k d u)

  get-pop_all-elem :
      (ks : List K) (j : K) (d : Dict K V)
      → get j (pop_all ks d) ≡ (if elem j ks then none else get j d)
  unfolding pop_all elem
  get-pop_all-elem [] j d = refl
  get-pop_all-elem (k ∷ ks) j d = ground (arith, get-pop_all-elem ks j (pop k d), get-pop k j d)

  elem-keys_where :
      (p : V → Bool) (j : K) (d : Dict K V)
      → IsUnique d
      → elem j (keys_where p d) ≡ test p (get j d)
  unfolding elem keys_where get
  elem-keys_where p j [] u = refl
  elem-keys_where p j ((k, v) ∷ d) (new, u) = elim (Bool-cases (k == j)) [
    | inl t ↦
        let same : get j d ≡ none = ap (λ (x : K). get x d) (sym ((e.same_iff k j).0 t)) ∙ new in
        let rest : elem j (keys_where p d) ≡ false = elem-keys_where p j d u ∙ ap (test p) same in
        elim (Bool-cases (p v)) [ inl q ↦ rw (t, q, t) refl | inr q ↦ rw (t, q) rest ]
    | inr f ↦ elim (Bool-cases (p v)) [
      | inl q ↦ rw (f, q, f) (elem-keys_where p j d u)
      | inr q ↦ rw (f, q) (elem-keys_where p j d u)
    ]
  ]

  pub get-pop_all_where :
      (p : V → Bool) (j : K) (d : Dict K V)
      → IsUnique d
      → get j (pop_all (keys_where p d) d) ≡ kept p (get j d)
  get-pop_all_where p j d u =
      rw (get-pop_all-elem (keys_where p d) j d, elem-keys_where p j d u) (if-kept p (get j d))
