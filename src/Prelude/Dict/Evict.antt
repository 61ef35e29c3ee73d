-- ===== src/Prelude/Dict/Evict.antt =====
-- Making room in a dictionary of a bounded size: the entries that `stale` holds of go first, and if
-- that is not enough the oldest one goes.
use mathlib.Core.Path.{◌≡◌, refl}
use mathlib.Core.Logic.{◌⊎◌, inl}
use mathlib.Core.Bool.{Bool, false, not, ◌&&◌}
use mathlib.Core.List.{List, [], ◌∷◌}
use mathlib.Core.Option.{none}
use native.Mathlib.Omega.{arith}
use Prim.Native.Nat.{ℕ, ◌≤◌, ◌<◌}
use veloce.Prelude.Tests.{if◌then◌else◌, leb}
use veloce.Prelude.Lists.{length}
use veloce.Prelude.Keys.{Key}
use veloce.Prelude.Dict.{Dict, get, has, put, pop, pop_all, pop_first, keys_where}
use veloce.Prelude.Dict.Laws.{get-pop, length-put, length-pop_all-le, length-pop_first}

module _ {K V : Type 0} ⦃e : Key K⦄ where
  unfoldable pub evict : (V → Bool) → ℕ → Dict K V → Dict K V
  evict stale limit d =
      let d' = pop_all (keys_where stale d) d in if leb limit (length d') then pop_first d' else d'

  -- From a dictionary that is not over its bound, there is room for one more.
  pub length-evict :
      (stale : V → Bool) (limit : ℕ) (d : Dict K V)
      → 1 ≤ limit
      → length d ≤ limit
      → length (evict stale limit d) < limit
  unfolding evict
  length-evict stale limit d h k =
      let ks = keys_where stale d in
      ground (arith, length-pop_all-le ks d, length-pop_first (pop_all ks d))

  get-pop_or : (k j : K) (d : Dict K V) → (get j (pop k d) ≡ get j d) ⊎ (get j (pop k d) ≡ none)
  get-pop_or k j d = ground (arith, get-pop k j d)

  get-pop_all_or :
      (ks : List K) (j : K) (d : Dict K V)
      → (get j (pop_all ks d) ≡ get j d) ⊎ (get j (pop_all ks d) ≡ none)
  unfolding pop_all
  get-pop_all_or [] j d = inl refl
  get-pop_all_or (k ∷ ks) j d = ground (arith, get-pop_all_or ks j (pop k d), get-pop_or k j d)

  get-pop_first_or :
      (j : K) (d : Dict K V) → (get j (pop_first d) ≡ get j d) ⊎ (get j (pop_first d) ≡ none)
  unfolding pop_first
  get-pop_first_or j [] = inl refl
  get-pop_first_or j ((k, v) ∷ d) = get-pop_or k j ((k, v) ∷ d)

  -- Nothing is altered: an entry stays as it is, or it is gone.
  pub get-evict :
      (stale : V → Bool) (limit : ℕ) (j : K) (d : Dict K V)
      → (get j (evict stale limit d) ≡ get j d) ⊎ (get j (evict stale limit d) ≡ none)
  unfolding evict
  get-evict stale limit j d =
      let ks = keys_where stale d in
      ground (arith, get-pop_all_or ks j d, get-pop_first_or j (pop_all ks d))

  -- `if k not in d and len(d) >= limit: evict()`
  unfoldable pub make_room : (V → Bool) → ℕ → K → Dict K V → Dict K V
  make_room stale limit k d =
      if not (has k d) && leb limit (length d) then evict stale limit d else d

  -- Storing an entry after making room keeps the bound.
  pub length-put-make_room :
      (stale : V → Bool) (limit : ℕ) (k : K) (v : V) (d : Dict K V)
      → 1 ≤ limit
      → length d ≤ limit
      → length (put k v (make_room stale limit k d)) ≤ limit
  unfolding make_room
  length-put-make_room stale limit k v d h l =
      ground
        (arith, length-evict stale limit d, length-put k v d, length-put k v (evict stale limit d))

  -- An entry of another key stays, or is evicted; that needs a new key and a full dictionary.
  pub get-make_room :
      (stale : V → Bool) (limit : ℕ) (k j : K) (d : Dict K V)
      → (get j (make_room stale limit k d) ≡ get j d)
        ⊎ ((get j (make_room stale limit k d) ≡ none) × (has k d ≡ false) × (limit ≤ length d))
  unfolding make_room
  get-make_room stale limit k j d = ground (arith, get-evict stale limit j d)
