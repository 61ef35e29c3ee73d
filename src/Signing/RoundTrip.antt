-- ===== src/Signing/RoundTrip.antt =====
-- Base64 as src/veloce/_internal.py writes and reads it.
use veloce.Prelude.{
  ℕ, zero, suc, ◌+◌, ◌-◌, ◌*◌, ◌/◌, ◌%◌, ◌<◌, ◌≡◌, ◌≢◌, refl, ◌∙◌, true, false, Option, some, List,
  [], ◌∷◌, ◌++◌, nat_eq, nat_beq, ltb, length, All, arith,
}
use veloce.Text.{Text}
use veloce.Text.Strip.{rstrip_char, cons_unless_end}
use veloce.Signing.Time.{octets}
use veloce.Signing.Base64.{
  char_of, value_of, urlsafe_b64encode, b64encode, b64decode, a2b, take_value, emit, pad, is_ascii,
  Quad, q0, q1, q2, q3,
}

char_of-not_pad : (v : ℕ) → nat_beq (char_of v) b'=' ≡ false
char_of-not_pad v = ground arith

value_of-char_of : (v : ℕ) → v < 64 → value_of (char_of v) ≡ some v
value_of-char_of v h = ground arith

char_of-lt : (v : ℕ) → ltb (char_of v) 128 ≡ true
char_of-lt v = ground arith

rstrip-char_of :
    (v : ℕ) (s : Text) → rstrip_char b'=' (char_of v ∷ s) ≡ char_of v ∷ rstrip_char b'=' s
unfolding rstrip_char
rstrip-char_of v s = kept (rstrip_char b'=' s)
  where
    kept : (t : Text) → cons_unless_end b'=' (char_of v) t ≡ char_of v ∷ t
    kept [] = rw char_of-not_pad refl
    kept (d ∷ t) = refl

-- The encoding without its padding.
unpadded : List ℕ → Text
unpadded [] = []
unpadded (a ∷ []) = char_of (a / 4) ∷ char_of (a % 4 * 16) ∷ []
unpadded (a ∷ b ∷ []) = char_of (a / 4) ∷ char_of (a % 4 * 16 + b / 16) ∷ char_of (b % 16 * 4) ∷ []
unpadded (a ∷ b ∷ c ∷ bytes) =
    char_of (a / 4)
    ∷ char_of (a % 4 * 16 + b / 16)
    ∷ char_of (b % 16 * 4 + c / 64)
    ∷ char_of (c % 64)
    ∷ unpadded bytes

b64encode-unpadded : (bytes : List ℕ) → b64encode bytes ≡ unpadded bytes
unfolding b64encode urlsafe_b64encode unpadded
b64encode-unpadded [] = unfold rstrip_char in refl
b64encode-unpadded (a ∷ []) =
    rw (rstrip-char_of (a / 4), rstrip-char_of (a % 4 * 16)) (unfold rstrip_char in refl)
b64encode-unpadded (a ∷ b ∷ []) =
    rw (rstrip-char_of (a / 4), rstrip-char_of (a % 4 * 16 + b / 16), rstrip-char_of (b % 16 * 4))
      (unfold rstrip_char in refl)
b64encode-unpadded (a ∷ b ∷ c ∷ bytes) =
    rw
      (
        rstrip-char_of (a / 4),
        rstrip-char_of (a % 4 * 16 + b / 16),
        rstrip-char_of (b % 16 * 4 + c / 64),
        rstrip-char_of (c % 64),
        b64encode-unpadded bytes,
      )
      refl

missing : ℕ → ℕ
missing n = (4 - n % 4) % 4

padded :
    (bytes : List ℕ)
    → unpadded bytes ++ pad (missing (length (unpadded bytes))) ≡ urlsafe_b64encode bytes
unfolding unpadded urlsafe_b64encode missing
padded [] = refl
padded (a ∷ []) = refl
padded (a ∷ b ∷ []) = refl
padded (a ∷ b ∷ c ∷ bytes) =
    let n = length (unpadded bytes) in
    let e : (4 - suc (suc (suc (suc n))) % 4) % 4 ≡ (4 - n % 4) % 4 = omega arith in
    rw (e, padded bytes) refl

all_ascii : (bytes : List ℕ) → is_ascii (urlsafe_b64encode bytes) ≡ true
unfolding urlsafe_b64encode
all_ascii [] = refl
all_ascii (a ∷ []) = rw (char_of-lt (a / 4), char_of-lt (a % 4 * 16)) refl
all_ascii (a ∷ b ∷ []) =
    rw (char_of-lt (a / 4), char_of-lt (a % 4 * 16 + b / 16), char_of-lt (b % 16 * 4)) refl
all_ascii (a ∷ b ∷ c ∷ bytes) =
    rw
      (
        char_of-lt (a / 4),
        char_of-lt (a % 4 * 16 + b / 16),
        char_of-lt (b % 16 * 4 + c / 64),
        char_of-lt (c % 64),
        all_ascii bytes,
      )
      refl

-- A character of the encoding is read as its six bits.
a2b-char_of :
    (v : ℕ) (s : Text) (quad : Quad) (left pads : ℕ)
    → v < 64
    → a2b (char_of v ∷ s) quad left pads ≡ take_value (λ q l p. a2b s q l p) quad left v
unfolding a2b
a2b-char_of v s quad left pads h = rw (char_of-not_pad v, value_of-char_of v h) refl

-- A first and a second character leave four bits, and a third one two.
two_chars :
    (v w : ℕ) (s : Text) (left : ℕ)
    → v < 64
    → w < 64
    → a2b (char_of v ∷ char_of w ∷ s) q0 left 0 ≡ emit (v * 4 + w / 16) (a2b s q2 (w % 16) 0)
two_chars v w s left hv hw = a2b-char_of v (char_of w ∷ s) q0 left 0 hv ∙ a2b-char_of w s q1 v 0 hw

abbrev pub IsByte : ℕ → Type 0
IsByte b = b < 256

emit-eq : (b b' : ℕ) (o o' : Option (List ℕ)) → b ≡ b' → o ≡ o' → emit b o ≡ emit b' o'
emit-eq b b' o o' e e' = rw (e, e') refl

decoded :
    (bytes : List ℕ) (left : ℕ)
    → All IsByte bytes
    → a2b (urlsafe_b64encode bytes) q0 left 0 ≡ some bytes
unfolding urlsafe_b64encode
decoded [] left h = unfold a2b in refl
decoded (a ∷ []) left (ha, h) =
    two_chars (a / 4) (a % 4 * 16) (b'=' ∷ b'=' ∷ []) left (omega (arith, ha)) (omega arith)
    ∙ emit-eq _ a (a2b (b'=' ∷ b'=' ∷ []) q2 (a % 4 * 16 % 16) 0) (some []) (omega (arith, ha))
        (unfold a2b in refl)
decoded (a ∷ b ∷ []) left (ha, (hb, h)) =
    let v = a % 4 * 16 + b / 16 in
    two_chars (a / 4) v (char_of (b % 16 * 4) ∷ b'=' ∷ []) left (omega (arith, ha))
      (omega (arith, hb))
    ∙ emit-eq _ a (a2b (char_of (b % 16 * 4) ∷ b'=' ∷ []) q2 (v % 16) 0) (some (b ∷ []))
        (omega (arith, ha, hb))
        (a2b-char_of (b % 16 * 4) (b'=' ∷ []) q2 (v % 16) 0 (omega arith)
          ∙ emit-eq _ b (a2b (b'=' ∷ []) q3 (b % 16 * 4 % 4) 0) (some []) (omega (arith, hb))
              (unfold a2b in refl))
decoded (a ∷ b ∷ c ∷ bytes) left (ha, (hb, (hc, h))) =
    let v = a % 4 * 16 + b / 16 in
    let w = b % 16 * 4 + c / 64 in
    let s = urlsafe_b64encode bytes in
    two_chars (a / 4) v (char_of w ∷ char_of (c % 64) ∷ s) left (omega (arith, ha))
      (omega (arith, hb))
    ∙ emit-eq _ a (a2b (char_of w ∷ char_of (c % 64) ∷ s) q2 (v % 16) 0) (some (b ∷ c ∷ bytes))
        (omega (arith, ha, hb))
        (a2b-char_of w (char_of (c % 64) ∷ s) q2 (v % 16) 0 (omega (arith, hc))
          ∙ emit-eq _ b (a2b (char_of (c % 64) ∷ s) q3 (w % 4) 0) (some (c ∷ bytes))
              (omega (arith, hb, hc))
              (a2b-char_of (c % 64) s q3 (w % 4) 0 (omega arith)
                ∙ emit-eq _ c (a2b s q0 0 0) (some bytes) (omega (arith, hc)) (decoded bytes 0 h)))

-- Bytes that are encoded without padding are decoded to themselves.
pub b64decode-b64encode :
    (bytes : List ℕ) → All IsByte bytes → b64decode (b64encode bytes) ≡ some bytes
unfolding b64decode missing
b64decode-b64encode bytes h =
    rw (b64encode-unpadded bytes, padded bytes, all_ascii bytes) (decoded bytes 0 h)

-- What a segment of a token is made of: ASCII without a dot.
abbrev pub IsSegmentChar : ℕ → Type 0
IsSegmentChar c = (c ≢ b'.') × (c < 128)

char_of-IsSegmentChar : (v : ℕ) → IsSegmentChar (char_of v)
char_of-IsSegmentChar v = (λ e. ground arith, ground arith)

unpadded-segment : (bytes : List ℕ) → All IsSegmentChar (unpadded bytes)
unfolding unpadded
unpadded-segment [] = tt
unpadded-segment (a ∷ []) =
    (char_of-IsSegmentChar (a / 4), (char_of-IsSegmentChar (a % 4 * 16), tt))
unpadded-segment (a ∷ b ∷ []) = (
  char_of-IsSegmentChar (a / 4),
  (char_of-IsSegmentChar (a % 4 * 16 + b / 16), (char_of-IsSegmentChar (b % 16 * 4), tt)),
)
unpadded-segment (a ∷ b ∷ c ∷ bytes) = (
  char_of-IsSegmentChar (a / 4),
  (
    char_of-IsSegmentChar (a % 4 * 16 + b / 16),
    (
      char_of-IsSegmentChar (b % 16 * 4 + c / 64),
      (char_of-IsSegmentChar (c % 64), unpadded-segment bytes),
    ),
  ),
)

pub b64encode-segment : (bytes : List ℕ) → All IsSegmentChar (b64encode bytes)
b64encode-segment bytes = rw (b64encode-unpadded bytes) (unpadded-segment bytes)

snoc-IsByte : (bs : List ℕ) (b : ℕ) → All IsByte bs → b < 256 → All IsByte (bs ++ (b ∷ []))
snoc-IsByte [] b h k = (k, tt)
snoc-IsByte (c ∷ bs) b (hc, h) k = (hc, snoc-IsByte bs b h k)

pub octets-IsByte : (width n : ℕ) → All IsByte (octets width n)
unfolding octets
octets-IsByte zero n = tt
octets-IsByte (suc width) n =
    snoc-IsByte (octets width (n / 256)) (n % 256) (octets-IsByte width (n / 256)) (omega arith)
