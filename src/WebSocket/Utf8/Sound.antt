-- ===== src/WebSocket/Utf8/Sound.antt =====
-- `_Utf8Validator` of src/veloce/websocket.py against the encoding of RFC 3629.
use mathlib.Core.Path.{subst}
use veloce.Prelude.{
  zero, suc, ℕ, ◌+◌, ◌-◌, ◌*◌, ◌/◌, ◌%◌, ◌≤◌, ◌<◌, ◌≡◌, refl, true, ◌||◌, ◌↔◌, ◌⊎◌, inl, inr,
  Option, none, some, List, [], ◌∷◌, ◌++◌, ltb, nat_beq, if◌then◌else◌, and_then, arith, Bool-cases,
  Option-cases,
}
use veloce.WebSocket.Utf8.{
  Validator, state, ready, is_done, within, first_byte, next_byte, feed_byte, feed, is_utf8,
}

-- A Unicode scalar value: a code point that is no surrogate.
abbrev pub IsScalar : ℕ → Type 0
IsScalar c = (c < 0xD800) ⊎ ((0xE000 ≤ c) × (c < 0x110000))

-- The bytes of a code point, as RFC 3629 lays its bits out.
unfoldable pub encode : ℕ → List ℕ
encode c =
    if ltb c 0x80
    then c ∷ []
    else if ltb c 0x800
    then (0xC0 + c / 64) ∷ (0x80 + c % 64) ∷ []
    else if ltb c 0x10000
    then (0xE0 + c / 4096) ∷ (0x80 + c / 64 % 64) ∷ (0x80 + c % 64) ∷ []
    else (0xF0 + c / 262144) ∷ (0x80 + c / 4096 % 64) ∷ (0x80 + c / 64 % 64) ∷ (0x80 + c % 64) ∷ []

-- The encodings of the sequences of scalar values.
pub data IsUtf8 : List ℕ → Type 0 where
  empty : IsUtf8 []
  char : (c : ℕ) {s t : List ℕ} → IsScalar c → encode c ++ s ≡ t → IsUtf8 s → IsUtf8 t

-- However a text is cut, the validator ends as on the whole of it.
pub feed-append : (s t : List ℕ) (v : Validator) → feed (s ++ t) v ≡ and_then (feed s v) (feed t)
unfolding feed
feed-append [] t v = refl
feed-append (byte ∷ s) t v = elim (Option-cases (feed_byte v byte)) [
  | inl e ↦ rw e refl
  | inr (w, e) ↦ rw e (feed-append s t w)
]

-- What may follow where `need` bytes are missing.
abbrev After : ℕ → ℕ → ℕ → List ℕ → Type 0
After zero lo hi s = IsUtf8 s
After (suc n) lo hi [] = ⊥
After (suc n) lo hi (byte ∷ s) = (lo ≤ byte) × (byte ≤ hi) × After n 0x80 0xBF s

encode-two :
    (x y : ℕ) → 2 ≤ x → x < 32 → y < 64 → encode (x * 64 + y) ≡ (0xC0 + x) ∷ (0x80 + y) ∷ []
unfolding encode
encode-two x y l h k =
    let q : (x * 64 + y) / 64 ≡ x = omega arith in
    let r : (x * 64 + y) % 64 ≡ y = omega arith in rw (q, r) (ground arith)

encode-three :
    (x y z : ℕ)
    → 0x800 ≤ x * 4096 + y * 64 + z
    → x < 16
    → y < 64
    → z < 64
    → encode (x * 4096 + y * 64 + z) ≡ (0xE0 + x) ∷ (0x80 + y) ∷ (0x80 + z) ∷ []
unfolding encode
encode-three x y z l h k m =
    let q : (x * 4096 + y * 64 + z) / 4096 ≡ x = omega arith in
    let r : (x * 4096 + y * 64 + z) / 64 % 64 ≡ y = omega arith in
    let t : (x * 4096 + y * 64 + z) % 64 ≡ z = omega arith in rw (q, r, t) (ground arith)

encode-four :
    (w x y z : ℕ)
    → 0x10000 ≤ w * 262144 + x * 4096 + y * 64 + z
    → w < 8
    → x < 64
    → y < 64
    → z < 64
    → encode (w * 262144 + x * 4096 + y * 64 + z)
      ≡ (0xF0 + w) ∷ (0x80 + x) ∷ (0x80 + y) ∷ (0x80 + z) ∷ []
unfolding encode
encode-four w x y z l h k m n =
    let q : (w * 262144 + x * 4096 + y * 64 + z) / 262144 ≡ w = omega arith in
    let p : (w * 262144 + x * 4096 + y * 64 + z) / 4096 % 64 ≡ x = omega arith in
    let r : (w * 262144 + x * 4096 + y * 64 + z) / 64 % 64 ≡ y = omega arith in
    let t : (w * 262144 + x * 4096 + y * 64 + z) % 64 ≡ z = omega arith in
    rw (q, p, r, t) (ground arith)

-- The bytes behind a first byte complete it to one code point.
one : (b : ℕ) (s : List ℕ) → b < 0x80 → IsUtf8 s → IsUtf8 (b ∷ s)
unfolding encode
one b s h a = char b (inl (omega arith)) (ground arith) a

two : (b : ℕ) (s : List ℕ) → 0xC2 ≤ b → b ≤ 0xDF → After 1 0x80 0xBF s → IsUtf8 (b ∷ s)
two b [] l h a = absurd a
two b (c ∷ s) l h (l1, h1, a) =
    char ((b - 0xC0) * 64 + (c - 0x80)) (inl (omega arith))
      (rw (encode-two (b - 0xC0) (c - 0x80) (omega arith) (omega arith) (omega arith))
        (ground arith))
      a

three :
    (lo hi b : ℕ) (s : List ℕ)
    → 0xE0 ≤ b
    → b ≤ 0xEF
    → 0x80 ≤ lo
    → hi ≤ 0xBF
    → (b ≡ 0xE0 → lo ≡ 0xA0)
    → (b ≡ 0xED → hi ≡ 0x9F)
    → After 2 lo hi s
    → IsUtf8 (b ∷ s)
three lo hi b [] l h p q e f a = absurd a
three lo hi b (c ∷ []) l h p q e f (l1, h1, a) = absurd a
three lo hi b (c ∷ d ∷ s) l h p q e f (l1, h1, (l2, h2, a)) =
    char ((b - 0xE0) * 4096 + (c - 0x80) * 64 + (d - 0x80)) (ground arith)
      (rw
        (encode-three (b - 0xE0) (c - 0x80) (d - 0x80) (ground arith) (omega arith) (omega arith)
          (omega arith))
        (ground arith))
      a

four :
    (lo hi b : ℕ) (s : List ℕ)
    → 0xF0 ≤ b
    → b ≤ 0xF4
    → 0x80 ≤ lo
    → hi ≤ 0xBF
    → (b ≡ 0xF0 → lo ≡ 0x90)
    → (b ≡ 0xF4 → hi ≡ 0x8F)
    → After 3 lo hi s
    → IsUtf8 (b ∷ s)
four lo hi b [] l h p q e f a = absurd a
four lo hi b (c ∷ []) l h p q e f (l1, h1, a) = absurd a
four lo hi b (c ∷ d ∷ []) l h p q e f (l1, h1, (l2, h2, a)) = absurd a
four lo hi b (c ∷ d ∷ g ∷ s) l h p q e f (l1, h1, (l2, h2, (l3, h3, a))) =
    char ((b - 0xF0) * 262144 + (c - 0x80) * 4096 + (d - 0x80) * 64 + (g - 0x80))
      (inr (ground arith))
      (rw
        (encode-four (b - 0xF0) (c - 0x80) (d - 0x80) (g - 0x80) (ground arith) (omega arith)
          (omega arith) (omega arith) (omega arith))
        (ground arith))
      a

abbrev lo_of : ℕ → ℕ
lo_of b = if nat_beq b 0xE0 then 0xA0 else if nat_beq b 0xF0 then 0x90 else 0x80

abbrev hi_of : ℕ → ℕ
hi_of b = if nat_beq b 0xED then 0x9F else if nat_beq b 0xF4 then 0x8F else 0xBF

-- The first bytes by their number of later ones.
first_byte-classes :
    (b : ℕ) (v : Validator)
    → first_byte v b ≡ (
        if ltb b 0x80
        then some v
        else if within 0xC2 0xDF b
        then some (state 1 0x80 0xBF)
        else if within 0xE0 0xEF b
        then some (state 2 (lo_of b) (hi_of b))
        else if within 0xF0 0xF4 b
        then some (state 3 (lo_of b) (hi_of b))
        else none)
unfolding first_byte
first_byte-classes b v = ground arith

-- What is left after a byte that the validator took completes the text with it.
AfterOption : Option Validator → List ℕ → Type 0
AfterOption none s = ⊥
AfterOption (some w) s = After w.need w.lo w.hi s

first-After :
    (b : ℕ) (v : Validator) (s : List ℕ)
    → v.need ≡ 0
    → AfterOption (first_byte v b) s
    → IsUtf8 (b ∷ s)
unfolding AfterOption
first-After b v s z = rw (first_byte-classes b v) (elim (Bool-cases (ltb b 0x80)) [
  | inl t1 ↦ rw (t1, z) (one b s (ground arith))
  | inr f1 ↦ rw f1 (elim (Bool-cases (within 0xC2 0xDF b)) [
    | inl t2 ↦ rw t2 (two b s (ground arith) (ground arith))
    | inr f2 ↦ rw f2 (elim (Bool-cases (within 0xE0 0xEF b)) [
      | inl t3 ↦ rw t3 (
          three (lo_of b) (hi_of b) b s (ground arith) (ground arith) (ground arith) (ground arith)
            (ground arith) (ground arith))
      | inr f3 ↦ rw f3 (elim (Bool-cases (within 0xF0 0xF4 b)) [
        | inl t4 ↦ rw t4 (
            four (lo_of b) (hi_of b) b s (ground arith) (ground arith) (ground arith) (ground arith)
              (ground arith) (ground arith))
        | inr f4 ↦ rw f4 (λ a. absurd a)
      ])
    ])
  ])
])

pred_suc : (n : ℕ) → suc n - 1 ≡ n
pred_suc n = omega arith

next-After :
    (n lo hi b : ℕ) (s : List ℕ)
    → AfterOption (next_byte (state (suc n) lo hi) b) s
    → After (suc n) lo hi (b ∷ s)
unfolding AfterOption next_byte
next-After n lo hi b s = elim (Bool-cases (ltb b lo || ltb hi b)) [
  | inl t ↦ rw t (λ a. absurd a)
  | inr f ↦
      rw f (λ a. (ground arith, ground arith, subst (λ m. After m 0x80 0xBF s) (pred_suc n) a))
]

and_then-After :
    (o : Option Validator) (s : List ℕ)
    → ((n lo hi : ℕ) → is_done (feed s (state n lo hi)) ≡ true → After n lo hi s)
    → is_done (and_then o (feed s)) ≡ true
    → AfterOption o s
unfolding AfterOption
and_then-After none s rest h = absurd (ground arith)
and_then-After (some w) s rest h = rest w.need w.lo w.hi h

-- An accepted text is one that completes the state.
feed-After : (s : List ℕ) (n lo hi : ℕ) → is_done (feed s (state n lo hi)) ≡ true → After n lo hi s
unfolding feed feed_byte
feed-After [] zero lo hi h = empty
feed-After [] (suc n) lo hi h = absurd (ground arith)
feed-After (b ∷ s) zero lo hi h =
    first-After b (state 0 lo hi) s refl
      (and_then-After (first_byte (state 0 lo hi) b) s (feed-After s) h)
feed-After (b ∷ s) (suc n) lo hi h =
    next-After n lo hi b s
      (and_then-After (next_byte (state (suc n) lo hi) b) s (feed-After s) (ground arith))

feed_one : (c : ℕ) (s : List ℕ) → c < 0x80 → feed (c ∷ s) ready ≡ feed s ready
unfolding feed feed_byte first_byte
feed_one c s h = ground arith

feed_two :
    (b c : ℕ) (s : List ℕ)
    → within 0xC2 0xDF b ≡ true
    → within 0x80 0xBF c ≡ true
    → feed (b ∷ c ∷ s) ready ≡ feed s ready
unfolding feed feed_byte next_byte
feed_two b c s h k = rw (first_byte-classes b ready) (ground arith)

feed_three :
    (b c d : ℕ) (s : List ℕ)
    → within 0xE0 0xEF b ≡ true
    → within (lo_of b) (hi_of b) c ≡ true
    → within 0x80 0xBF d ≡ true
    → feed (b ∷ c ∷ d ∷ s) ready ≡ feed s ready
unfolding feed feed_byte next_byte
feed_three b c d s h k l = rw (first_byte-classes b ready) (ground arith)

feed_four :
    (b c d e : ℕ) (s : List ℕ)
    → within 0xF0 0xF4 b ≡ true
    → within (lo_of b) (hi_of b) c ≡ true
    → within 0x80 0xBF d ≡ true
    → within 0x80 0xBF e ≡ true
    → feed (b ∷ c ∷ d ∷ e ∷ s) ready ≡ feed s ready
unfolding feed feed_byte next_byte
feed_four b c d e s h k l m = rw (first_byte-classes b ready) (ground arith)

feed-encode : (c : ℕ) (s : List ℕ) → IsScalar c → feed (encode c ++ s) ready ≡ feed s ready
unfolding encode
feed-encode c s h = elim (Bool-cases (ltb c 0x80)) [
  | inl t1 ↦ rw t1 (feed_one c s (ground arith))
  | inr f1 ↦ rw f1 (elim (Bool-cases (ltb c 0x800)) [
    | inl t2 ↦ rw t2 (feed_two _ _ s (ground arith) (ground arith))
    | inr f2 ↦ rw f2 (elim (Bool-cases (ltb c 0x10000)) [
      | inl t3 ↦ rw t3 (feed_three _ _ _ s (ground arith) (ground arith) (ground arith))
      | inr f3 ↦
          rw f3 (feed_four _ _ _ _ s (ground arith) (ground arith) (ground arith) (ground arith))
    ])
  ])
]

IsUtf8-accepted : (s : List ℕ) → IsUtf8 s → feed s ready ≡ some ready
unfolding feed
IsUtf8-accepted _ empty = refl
IsUtf8-accepted t (char c {s = s} h e a) = rw (← e, feed-encode c s h) (IsUtf8-accepted s a)

-- Fed a whole text from the start, the validator accepts exactly the encodings of sequences of
-- scalar values, so no overlong form, no surrogate and nothing above U+10FFFF.
pub is_utf8-iff-IsUtf8 : (s : List ℕ) → (is_utf8 s ≡ true) ↔ IsUtf8 s
unfolding is_utf8
is_utf8-iff-IsUtf8 s = (feed-After s 0 0x80 0xBF, λ h. rw (IsUtf8-accepted s h) refl)
