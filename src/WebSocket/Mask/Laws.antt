-- ===== src/WebSocket/Mask/Laws.antt =====
-- `_unmask` of src/veloce/websocket.py against RFC 6455, section 5.3.
use Prim.Native.Nat.{bit_xor, bit_xor-bitwise, digits, differ}
use veloce.Prelude.{
  ℕ, zero, suc, ◌+◌, ◌*◌, ◌/◌, ◌%◌, ◌≤◌, ◌<◌, ◌≡◌, refl, ap, List, [], ◌∷◌, ◌++◌, leb, length, take,
  drop, arith, length-drop, Bool-cases, inl, inr,
}
use veloce.WebSocket.Mask.{block_masks, repeat, tiled, xor, unmask_blocks, unmask}

-- RFC 6455, section 5.3: octet i is combined with octet i modulo 4 of the key.
unfoldable pub cycle : ℕ → ℕ → ℕ → ℕ → List ℕ → List ℕ
cycle a b c d [] = []
cycle a b c d (x ∷ p) = bit_xor x a ∷ cycle b c d a p

-- Blocks of four, then what is left.
xor-repeat :
    (k a b c d : ℕ) (p : List ℕ)
    → length p ≤ 4 * k
    → xor p (take (length p) (repeat k (a ∷ b ∷ c ∷ d ∷ []))) ≡ cycle a b c d p
unfolding xor repeat cycle
xor-repeat zero a b c d [] h = refl
xor-repeat zero a b c d (w ∷ p) h = absurd (omega arith)
xor-repeat (suc k) a b c d [] h = refl
xor-repeat (suc k) a b c d (w ∷ []) h = refl
xor-repeat (suc k) a b c d (w ∷ x ∷ []) h = refl
xor-repeat (suc k) a b c d (w ∷ x ∷ y ∷ []) h = refl
xor-repeat (suc k) a b c d (w ∷ x ∷ y ∷ z ∷ p) h =
    ap (λ (q : List ℕ). bit_xor w a ∷ bit_xor x b ∷ bit_xor y c ∷ bit_xor z d ∷ q)
      (xor-repeat k a b c d p (omega arith))

xor-block :
    (k a b c d : ℕ) (p : List ℕ)
    → 4 * k ≤ length p
    → xor (take (4 * k) p) (repeat k (a ∷ b ∷ c ∷ d ∷ [])) ++ cycle a b c d (drop (4 * k) p)
      ≡ cycle a b c d p
unfolding xor repeat cycle
xor-block zero a b c d p h = refl
xor-block (suc k) a b c d (w ∷ x ∷ y ∷ z ∷ p) h =
    let e : 4 * suc k ≡ suc (suc (suc (suc (4 * k)))) = omega arith in
    rw e (
      ap (λ (q : List ℕ). bit_xor w a ∷ bit_xor x b ∷ bit_xor y c ∷ bit_xor z d ∷ q)
        (xor-block k a b c d p (omega arith)))
xor-block (suc k) a b c d [] h = absurd (omega arith)
xor-block (suc k) a b c d (w ∷ []) h = absurd (omega arith)
xor-block (suc k) a b c d (w ∷ x ∷ []) h = absurd (omega arith)
xor-block (suc k) a b c d (w ∷ x ∷ y ∷ []) h = absurd (omega arith)

unmask_blocks-cycle :
    (masks a b c d fuel : ℕ) (p : List ℕ)
    → 1 ≤ masks
    → length p ≤ fuel
    → unmask_blocks masks (a ∷ b ∷ c ∷ d ∷ []) fuel p ≡ cycle a b c d p
unfolding unmask_blocks cycle tiled
unmask_blocks-cycle masks a b c d zero [] m h = refl
unmask_blocks-cycle masks a b c d zero (x ∷ p) m h = absurd (omega arith)
unmask_blocks-cycle masks a b c d (suc fuel) p m h =
    elim (Bool-cases (leb (length p) (4 * masks))) [
      | inl t ↦ rw t (xor-repeat ((length p + 3) / 4) a b c d p (omega arith))
      | inr f ↦
          rw
            (
              f,
              unmask_blocks-cycle masks a b c d fuel (drop (4 * masks) p) m
                  (omega (arith, length-drop (4 * masks) p)),
            )
            (xor-block masks a b c d p (ground arith))
    ]

-- The optimised routine, with its blocks, is the one of the RFC.
pub unmask-cycle : (a b c d : ℕ) (p : List ℕ) → unmask p (a ∷ b ∷ c ∷ d ∷ []) ≡ cycle a b c d p
unfolding unmask unmask_blocks tiled
unmask-cycle a b c d p = elim (Bool-cases (leb (length p) (4 * block_masks))) [
  | inl t ↦ rw t (xor-repeat ((length p + 3) / 4) a b c d p (omega arith))
  | inr f ↦ rw f (unmask_blocks-cycle block_masks a b c d (length p) p (omega arith) (omega arith))
]

xor_digits :
    (n m a b : ℕ) → a ≤ n → a ≤ m → digits (λ b. b) differ n a b ≡ digits (λ b. b) differ m a b
xor_digits zero zero a b p q = refl
xor_digits zero (suc m) zero b p q = refl
xor_digits zero (suc m) (suc a) b p q = absurd (omega arith)
xor_digits (suc n) zero zero b p q = refl
xor_digits (suc n) zero (suc a) b p q = absurd (omega arith)
xor_digits (suc n) (suc m) zero b p q = refl
xor_digits (suc n) (suc m) (suc a) b p q =
    omega (arith, xor_digits n m (suc a / 2) (b / 2) (omega arith) (omega arith))

bit_xor_digit : (a b : ℕ) → bit_xor a b ≡ bit_xor (a / 2) (b / 2) * 2 + differ (a % 2) (b % 2)
bit_xor_digit zero b = omega (arith, bit_xor-bitwise 0 b, bit_xor-bitwise 0 (b / 2))
bit_xor_digit (suc a) b = omega (
  arith,
  bit_xor-bitwise (suc a) b,
  bit_xor-bitwise (suc a / 2) (b / 2),
  xor_digits a (suc a / 2) (suc a / 2) (b / 2) (omega arith) (omega arith),
)

differ-undo : (x y : ℕ) → x < 2 → y < 2 → (differ (differ x y) y ≡ x) × (differ x y < 2)
differ-undo zero zero h k = (refl, omega arith)
differ-undo zero (suc zero) h k = (refl, omega arith)
differ-undo zero (suc (suc y)) h k = absurd (omega arith)
differ-undo (suc x) zero h k = (refl, h)
differ-undo (suc zero) (suc zero) h k = (refl, omega arith)
differ-undo (suc (suc x)) (suc y) h k = absurd (omega arith)
differ-undo (suc zero) (suc (suc y)) h k = absurd (omega arith)

xor-undo_fuel : (n a b : ℕ) → a ≤ n → b ≤ n → bit_xor (bit_xor a b) b ≡ a
xor-undo_fuel zero zero zero h k = refl
xor-undo_fuel zero (suc a) b h k = absurd (omega arith)
xor-undo_fuel zero zero (suc b) h k = absurd (omega arith)
xor-undo_fuel (suc n) a b h k =
    let x = bit_xor (a / 2) (b / 2) in
    let d = differ (a % 2) (b % 2) in
    let (u, l) = differ-undo (a % 2) (b % 2) (omega arith) (omega arith) in
    let p : (x * 2 + d) / 2 ≡ x = omega arith in
    let q : (x * 2 + d) % 2 ≡ d = omega arith in
    rw
      (
        bit_xor_digit a b,
        bit_xor_digit (x * 2 + d) b,
        p,
        q,
        u,
        xor-undo_fuel n (a / 2) (b / 2) (omega arith) (omega arith),
      )
      (omega arith)

cycle-undo : (a b c d : ℕ) (p : List ℕ) → cycle a b c d (cycle a b c d p) ≡ p
unfolding cycle
cycle-undo a b c d [] = refl
cycle-undo a b c d (x ∷ p) =
    rw (xor-undo_fuel (x + a) x a (omega arith) (omega arith), cycle-undo b c d a p) refl

-- Masking twice with the same mask is no change.
pub unmask-unmask :
    (a b c d : ℕ) (p : List ℕ) → unmask (unmask p (a ∷ b ∷ c ∷ d ∷ [])) (a ∷ b ∷ c ∷ d ∷ []) ≡ p
unmask-unmask a b c d p =
    rw (unmask-cycle a b c d p, unmask-cycle a b c d (cycle a b c d p)) (cycle-undo a b c d p)

pub length-cycle : (a b c d : ℕ) (p : List ℕ) → length (cycle a b c d p) ≡ length p
unfolding cycle
length-cycle a b c d [] = refl
length-cycle a b c d (x ∷ p) = ap suc (length-cycle b c d a p)
