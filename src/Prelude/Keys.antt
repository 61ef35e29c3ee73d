-- ===== src/Prelude/Keys.antt =====
-- Keys of a dict: an instance says when two of them are the same.
use Prim.Native.String.{String}
use Prim.Native.Nat.{ℕ}
use text.Mathlib.TextEquality.{eq_iff}
use text.Mathlib.Text.{◌==◌ as string_beq}
use mathlib.Core.Bool.{Bool, true}
use mathlib.Core.Logic.{◌↔◌}
use mathlib.Core.Path.{◌≡◌}
use veloce.Prelude.Tests.{nat_beq, nat_beq_iff}

infix 50 ◌==◌
-- What `k1 == k2` answers, and that it answers as equality does.
pub record Key {ℓ} (K : Type ℓ) : Type ℓ where
  pub same : K → K → Bool
  pub same_iff : (k1 k2 : K) → (same k1 k2 ≡ true) ↔ (k1 ≡ k2)

instance abbrev pub string_eq : Key String
string_eq = record { same = string_beq; same_iff = eq_iff }

instance abbrev pub nat_eq : Key ℕ
nat_eq = record { same = nat_beq; same_iff = nat_beq_iff }

abbrev pub ◌==◌ {ℓ} : {K : Type ℓ} ⦃key : Key K⦄ → K → K → Bool
◌==◌ ⦃key = key⦄ = key.same
