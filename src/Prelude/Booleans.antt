-- ===== src/Prelude/Booleans.antt =====
-- Lemmas on Booleans, conditionals and options that the components share.
use mathlib.Core.Path.{◌≡◌, refl}
use mathlib.Core.Bool.{Bool, true, false, not, ◌&&◌, ◌||◌}
use mathlib.Core.Logic.{◌⊎◌, inl, inr}
use mathlib.Core.Option.{Option, none, some}
use veloce.Prelude.Tests.{if◌then◌else◌}

pub or_true : (b : Bool) → b || true ≡ true
or_true true = refl
or_true false = refl

pub or_false : (b : Bool) → b || false ≡ b
or_false true = refl
or_false false = refl

pub or_assoc : (a b c : Bool) → (a || b) || c ≡ a || (b || c)
or_assoc true b c = refl
or_assoc false b c = refl

pub and_parts : (a b : Bool) → a && b ≡ true → (a ≡ true) × (b ≡ true)
and_parts true b h = (refl, h)
and_parts false b h = cc

pub or_inverse : (a b : Bool) → a || b ≡ true → (a ≡ true) ⊎ (b ≡ true)
or_inverse true b h = inl refl
or_inverse false b h = inr h

pub or_parts : (a b : Bool) → a || b ≡ false → (a ≡ false) × (b ≡ false)
or_parts true b h = cc
or_parts false b h = (refl, h)

pub not-false : (b : Bool) → not b ≡ false → b ≡ true
not-false true h = refl
not-false false h = cc

module _ {ℓ} {A : Type ℓ} where
  pub some_injective : (a b : A) → some a ≡ some b → a ≡ b
  some_injective a b h = cc

  -- What an option under a test says, where it is something.
  pub under_test :
      (b : Bool) (x y : A) → (if b then some x else none) ≡ some y → (b ≡ true) × (x ≡ y)
  under_test true x y h = (refl, cc)
  under_test false x y h = cc

  pub unless_test :
      (b : Bool) (x : Option A) (y : A)
      → (if b then none else x) ≡ some y
      → (b ≡ false) × (x ≡ some y)
  unless_test true x y h = cc
  unless_test false x y h = (refl, h)

  -- A result that is not the one under the test.
  pub unless_refused :
      (b : Bool) (x y z : A) → (x ≡ z → ⊥) → (if b then x else y) ≡ z → (b ≡ false) × (y ≡ z)
  unless_refused true x y z n h = absurd (n h)
  unless_refused false x y z n h = (refl, h)

-- A property of both branches is one of the conditional.
pub either_branch {ℓ κ} :
    {T : Type ℓ} (P : T → Type κ) (b : Bool) (x y : T)
    → (b ≡ true → P x)
    → (b ≡ false → P y)
    → P (if b then x else y)
either_branch P true x y hx hy = hx refl
either_branch P false x y hx hy = hy refl
