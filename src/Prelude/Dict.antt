-- ===== src/Prelude/Dict.antt =====
-- Python's `dict` as the list of its entries in insertion order: assignment to a present key keeps
-- its place, a new key goes to the end.
pub mod Laws
pub mod Evict
pub mod Unique
use mathlib.Core.Bool.{Bool, true, false}
use mathlib.Core.List.{List, [], ◌∷◌}
use mathlib.Core.Option.{Option, none, some}
use veloce.Prelude.Tests.{if◌then◌else◌}
use veloce.Prelude.Keys.{Key, ◌==◌}

abbrev pub Dict {ℓ κ} : Type ℓ → Type κ → Type (ℓ ⊔ κ)
Dict K V = List (K × V)

module _ {ℓ κ} {K : Type ℓ} {V : Type κ} ⦃e : Key K⦄ where
  -- d.get(k)
  unfoldable pub get : K → Dict K V → Option V
  get k [] = none
  get k ((j, v) ∷ d) = if j == k then some v else get k d

  -- k in d
  unfoldable pub has : K → Dict K V → Bool
  has k [] = false
  has k ((j, v) ∷ d) = if j == k then true else has k d

  -- d[k] = v
  unfoldable pub put : K → V → Dict K V → Dict K V
  put k v [] = (k, v) ∷ []
  put k v ((j, w) ∷ d) = if j == k then (j, v) ∷ d else (j, w) ∷ put k v d

  -- d.pop(k, None)
  unfoldable pub pop : K → Dict K V → Dict K V
  pop k [] = []
  pop k ((j, w) ∷ d) = let rest = pop k d in if j == k then rest else (j, w) ∷ rest

  -- for k in ks: d.pop(k, None)
  unfoldable pub pop_all : List K → Dict K V → Dict K V
  unfolding pop
  pop_all [] d = d
  pop_all (k ∷ ks) d = pop_all ks (pop k d)

  -- del d[next(iter(d))], where d is not empty
  unfoldable pub pop_first : Dict K V → Dict K V
  unfolding pop
  pop_first [] = []
  pop_first ((k, v) ∷ d) = pop k ((k, v) ∷ d)

-- [k for k, v in d.items() if p(v)]
unfoldable pub keys_where {ℓ κ} : {K : Type ℓ} {V : Type κ} → (V → Bool) → Dict K V → List K
keys_where p [] = []
keys_where p ((k, v) ∷ d) = let rest = keys_where p d in if p v then k ∷ rest else rest
