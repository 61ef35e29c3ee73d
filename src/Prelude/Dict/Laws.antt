-- ===== src/Prelude/Dict/Laws.antt =====
-- The laws of dictionaries.
use mathlib.Core.Path.{◌≡◌, refl}
use mathlib.Core.Bool.{Bool}
use mathlib.Core.List.{List, [], ◌∷◌}
use mathlib.Core.Option.{none, some}
use native.Mathlib.Omega.{arith}
use Prim.Native.Nat.{◌+◌, ◌≤◌, ◌<◌}
use veloce.Prelude.Tests.{if◌then◌else◌}
use veloce.Prelude.Lists.{length}
use veloce.Prelude.Keys.{Key, ◌==◌}
use veloce.Prelude.Dict.{Dict, get, has, put, pop, pop_all, pop_first}

module _ {ℓ κ} {K : Type ℓ} {V : Type κ} ⦃e : Key K⦄ where
  pub get-put :
      (k j : K) (v : V) (d : Dict K V) → get j (put k v d) ≡ (if k == j then some v else get j d)
  unfolding get put
  get-put k j v [] = refl
  get-put k j v ((i, w) ∷ d) =
      ground (arith, e.same_iff k j, e.same_iff i k, e.same_iff i j, get-put k j v d)

  pub get-pop : (k j : K) (d : Dict K V) → get j (pop k d) ≡ (if k == j then none else get j d)
  unfolding get pop
  get-pop k j [] = ground arith
  get-pop k j ((i, w) ∷ d) =
      ground (arith, e.same_iff k j, e.same_iff i k, e.same_iff i j, get-pop k j d)

  pub length-pop-le : (k : K) (d : Dict K V) → length (pop k d) ≤ length d
  unfolding pop
  length-pop-le k [] = omega arith
  length-pop-le k ((i, w) ∷ d) = ground (arith, length-pop-le k d)

  pub length-pop_all-le : (ks : List K) (d : Dict K V) → length (pop_all ks d) ≤ length d
  unfolding pop_all
  length-pop_all-le [] d = omega arith
  length-pop_all-le (k ∷ ks) d = omega (arith, length-pop_all-le ks (pop k d), length-pop-le k d)

  pub length-pop_first : (d : Dict K V) → 0 < length d → length (pop_first d) < length d
  unfolding pop_first
  length-pop_first [] h = absurd (omega arith)
  length-pop_first ((k, v) ∷ d) h = ground (arith, length-pop-le k d, e.same_iff k k)

  pub length-put :
      (k : K) (v : V) (d : Dict K V)
      → length (put k v d) ≡ (if has k d then length d else length d + 1)
  unfolding has put
  length-put k v [] = omega arith
  length-put k v ((i, w) ∷ d) = ground (arith, length-put k v d)

  pub get-pop_all :
      (p : V → Bool) (ks : List K) (j : K) (d : Dict K V) (v : V)
      → get j (pop_all ks d) ≡ some v
      → get j d ≡ some v
  unfolding pop_all
  get-pop_all p [] j d v h = h
  get-pop_all p (k ∷ ks) j d v h = ground (arith, get-pop_all p ks j (pop k d) v h, get-pop k j d)
