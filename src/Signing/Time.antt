-- ===== src/Signing/Time.antt =====
-- struct.pack(">Q", n) and struct.unpack(">Q", b)[0], which src/veloce/signing.py keeps the time in.
use veloce.Prelude.{
  ℕ, zero, suc, ◌+◌, ◌*◌, ◌/◌, ◌%◌, ◌<◌, ◌≡◌, refl, ◌∙◌, Option, none, some, List, [], ◌∷◌, ◌++◌,
  ltb, length, length-append, if◌then◌else◌, arith,
}

-- The octets of n from the highest on; what does not fit in so many is lost.
unfoldable pub octets : ℕ → ℕ → List ℕ
octets zero n = []
octets (suc width) n = octets width (n / 256) ++ ((n % 256) ∷ [])

-- `none` is struct.error
unfoldable pub pack : ℕ → Option (List ℕ)
unfolding octets
pack n = if ltb n 18446744073709551616 then some (octets 8 n) else none

unfoldable pub value_from : ℕ → List ℕ → ℕ
value_from acc [] = acc
value_from acc (b ∷ bs) = value_from (acc * 256 + b) bs

unfoldable pub unpack : List ℕ → ℕ
unfolding value_from
unpack bs = value_from 0 bs

pub length-octets : (width n : ℕ) → length (octets width n) ≡ width
unfolding octets
length-octets zero n = refl
length-octets (suc width) n =
    omega (
      arith,
      length-append (octets width (n / 256)) ((n % 256) ∷ []),
      length-octets width (n / 256),
    )

value_from-append :
    (acc : ℕ) (bs : List ℕ) (b : ℕ) → value_from acc (bs ++ (b ∷ [])) ≡ value_from acc bs * 256 + b
unfolding value_from
value_from-append acc [] b = refl
value_from-append acc (c ∷ bs) b = value_from-append (acc * 256 + c) bs b

-- 256 ^ width
abbrev room : ℕ → ℕ
room zero = 1
room (suc width) = room width * 256

value_from-octets : (width n : ℕ) → n < room width → value_from 0 (octets width n) ≡ n
unfolding octets
value_from-octets zero n h = unfold value_from in omega (arith, h)
value_from-octets (suc width) n h =
    value_from-append 0 (octets width (n / 256)) (n % 256)
    ∙ rw (value_from-octets width (n / 256) (omega (arith, h))) (omega arith)

-- A time that is packed is read back.
pub unpack-octets : (n : ℕ) → n < 18446744073709551616 → unpack (octets 8 n) ≡ n
unfolding unpack
unpack-octets n h = value_from-octets 8 n (omega (arith, h))
