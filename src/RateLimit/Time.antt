-- ===== src/RateLimit/Time.antt =====
-- Windows of time: arithmetic that the strategies of src/veloce/ratelimit.py share.
use native.Mathlib.Nat.{
  div-div-eq-div-mul, add-mul-div_right, mod-lt, div-add-mod, mul-add-mod_self_left, mod-eq_of_lt,
  le_trans, le-mul_of_pos_right,
}
use veloce.Prelude.{ℕ, ◌+◌, ◌-◌, ◌*◌, ◌/◌, ◌%◌, ◌≤◌, ◌≡◌, ap, arith}

-- One full step of `w` from the start of a block ends in the next block.
block-suc : (q w : ℕ) → 1 ≤ w → (q + (w - q % w)) / w ≡ q / w + 1
block-suc q w hw =
    let e : q + (w - q % w) ≡ w * (q / w) + w =
      omega (arith, div-add-mod q w, mod-lt q {m = w} hw) in
    rw e (grind arith)

-- The time `reset` seconds from now is in the next window.
pub next_window :
    (u w now : ℕ) → 1 ≤ u → 1 ≤ w → (now + (w - now / u % w) * u) / (u * w) ≡ now / (u * w) + 1
next_window u w now hu hw =
    rw
      (
        ← div-div-eq-div-mul (now + (w - now / u % w) * u) u w,
        ← div-div-eq-div-mul now u w,
        add-mul-div_right now (w - now / u % w) {z = u} hu,
      )
      (block-suc (now / u) w hw)

regroup : (u w now q s r k : ℕ) → u * q + s ≡ now → q + r ≡ w * k → now + r * u ≡ u * w * k + s
regroup u w now q s r k h e = omega (arith, ap (λ (t : ℕ). u * t) e)

-- and it lies as far into that window as `now` lies into its second.
pub next_window_offset :
    (u w now : ℕ) → 1 ≤ u → 1 ≤ w → (now + (w - now / u % w) * u) % (u * w) ≡ now % u
next_window_offset u w now hu hw =
    let q = now / u in
    let e : q + (w - q % w) ≡ w * (q / w + 1) =
      omega (arith, div-add-mod q w, mod-lt q {m = w} hw) in
    let f : now + (w - q % w) * u ≡ u * w * (q / w + 1) + now % u =
      regroup u w now q (now % u) (w - q % w) (q / w + 1) (div-add-mod now u) e in
    rw (f, mul-add-mod_self_left)
      (mod-eq_of_lt (le_trans (mod-lt now {m = u} hu) (le-mul_of_pos_right u hw)))
