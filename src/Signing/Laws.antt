-- ===== src/Signing/Laws.antt =====
-- What `loads` of src/veloce/signing.py accepts.
use veloce.Prelude.{
  or_true, ℕ, ◌-◌, ◌≤◌, ◌<◌, ◌≡◌, refl, ap, sym, ◌∙◌, true, false, Option, none, some, List, [],
  ◌∷◌, ◌++◌, nat_eq, nat_beq, nat_beq_iff, nat_beq_ne, ltb, All, arith, lt→ltb, Bool-cases, inl,
  inr,
}
use mathlib.Core.List.{append_assoc}
use veloce.Prelude.Int.{ℤ, pos, ltb_ℤ}
use veloce.Text.{Text, text_eq, text_beq, text_beq_iff, text_beq_refl, is_in}
use veloce.Signing.{
  Bytes, Library, Signer, Loaded, data_of, joined, cut, cons_cut, parts, after_first, second,
  check_age, token_of, is_signed, of_payload, loads,
}
use veloce.Signing.Base64.{b64encode, b64decode, is_ascii}
use veloce.Signing.RoundTrip.{
  IsByte, octets-IsByte, IsSegmentChar, b64decode-b64encode, b64encode-segment,
}
use veloce.Signing.Time.{octets, length-octets, unpack-octets}

cut-append : (p s : Text) → All IsSegmentChar p → cut b'.' (p ++ (b'.' ∷ s)) ≡ some (p, s)
unfolding cut
cut-append [] s h = refl
cut-append (c ∷ p) s ((n, _), h) = rw (cut-append p s h, nat_beq_ne c b'.' n) refl

-- The parts of a token.
parts-joined :
    (payload ts sig : Text)
    → All IsSegmentChar payload
    → All IsSegmentChar ts
    → parts (joined (joined payload ts) sig) ≡ some (payload, ts, sig)
unfolding parts
parts-joined payload ts sig hp ht =
    rw
      (
        append_assoc payload (b'.' ∷ ts) (b'.' ∷ sig),
        cut-append payload (ts ++ (b'.' ∷ sig)) hp,
        cut-append ts sig ht,
      )
      refl

-- What a cut says of the text.
abbrev IsCut : Text → Option (Text × Text) → Type 0
IsCut s none = Unit
IsCut s (some (head, rest)) = s ≡ head ++ (b'.' ∷ rest)

cons_cut-IsCut :
    (c : ℕ) (s : Text) (o : Option (Text × Text)) → IsCut s o → IsCut (c ∷ s) (cons_cut c o)
cons_cut-IsCut c s none h = tt
cons_cut-IsCut c s (some (head, rest)) h = ap (◌∷◌ c) h

cut-IsCut : (s : Text) → IsCut s (cut b'.' s)
unfolding cut
cut-IsCut [] = tt
cut-IsCut (c ∷ s) = elim (Bool-cases (nat_beq c b'.')) [
  | inl t ↦ rw t (ap (λ d. d ∷ s) ((nat_beq_iff c b'.').0 t))
  | inr f ↦ rw f (cons_cut-IsCut c s (cut b'.' s) (cut-IsCut s))
]

-- A token is what its parts make up.
abbrev pub IsSplit : Text → Option (Text × Text × Text) → Type 0
IsSplit token none = Unit
IsSplit token (some (payload, ts, sig)) = token ≡ joined (joined payload ts) sig

second-IsSplit :
    (token payload rest : Text) (o : Option (Text × Text))
    → token ≡ payload ++ (b'.' ∷ rest)
    → IsCut rest o
    → IsSplit token (second payload o)
second-IsSplit token payload rest none h k = tt
second-IsSplit token payload rest (some (ts, sig)) h k =
    h ∙ ap (λ r. payload ++ (b'.' ∷ r)) k ∙ sym (append_assoc payload (b'.' ∷ ts) (b'.' ∷ sig))

first-IsSplit :
    (token : Text) (o : Option (Text × Text)) → IsCut token o → IsSplit token (after_first o)
first-IsSplit token none h = tt
first-IsSplit token (some (payload, rest)) h =
    second-IsSplit token payload rest (cut b'.' rest) h (cut-IsCut rest)

pub parts-IsSplit : (token : Text) → IsSplit token (parts token)
unfolding parts
parts-IsSplit token = first-IsSplit token (cut b'.' token) (cut-IsCut token)

ascii_segment : (s : Text) → All IsSegmentChar s → is_ascii s ≡ true
ascii_segment [] h = refl
ascii_segment (c ∷ s) ((_, h), hs) = rw (lt→ltb c 128 h, ascii_segment s hs) refl

ascii_joined :
    (payload ts : Text)
    → All IsSegmentChar payload
    → All IsSegmentChar ts
    → is_ascii (joined payload ts) ≡ true
ascii_joined [] ts hp ht = ascii_segment ts ht
ascii_joined (c ∷ payload) ts ((_, h), hp) ht =
    rw (lt→ltb c 128 h, ascii_joined payload ts hp ht) refl

-- The times and the age at which a token is taken.
abbrev pub IsFresh : ℕ → ℕ → Option ℤ → Type 0
IsFresh now later none = Unit
IsFresh now later (some max_age) = (now ≤ later) × (ltb_ℤ max_age (pos (later - now)) ≡ false)

check_age-fresh :
    {A : Type 0} (max_age : Option ℤ) (now later : ℕ) (rest : Loaded A)
    → IsFresh now later max_age
    → check_age max_age later now rest ≡ rest
check_age-fresh none now later rest f = refl
check_age-fresh (some max_age) now later rest (h, f) = rw (not_before now later h, f) refl
  where
    not_before : (a b : ℕ) → a ≤ b → ltb b a ≡ false
    not_before a b h = ground arith

module _ {A : Type 0} (lib : Library A) where
  is_signed-key :
      (key : Bytes) (message : Text) (keys : List Bytes)
      → is_in key keys ≡ true
      → is_signed lib (lib.mac key message) message keys ≡ true
  unfolding is_signed is_in
  is_signed-key key message [] = λ h. cc
  is_signed-key key message (k ∷ keys) = elim (Bool-cases (text_beq k key)) [
    | inl t ↦ λ h. rw ((text_beq_iff k key).0 t, text_beq_refl (lib.mac key message)) refl
    | inr f ↦ rw f (λ h.
        rw (is_signed-key key message keys h)
          (or_true (text_beq (lib.mac key message) (lib.mac k message))))
  ]

  -- What is taken of the parts that `dumps` writes.
  pub loads-token_of :
      (s t : Signer) (now later : ℕ) (value : A) (max_age : Option ℤ)
      → now < 18446744073709551616
      → lib.json_loads (lib.json_dumps value) ≡ some value
      → All IsByte (lib.json_dumps value)
      → ((key message : Bytes) → All IsByte (lib.mac key message))
      → is_in s.key t.secret_keys ≡ true
      → IsFresh now later max_age
      → loads lib t later
          (token_of lib s (b64encode (lib.json_dumps value)) (b64encode (octets 8 now)))
          max_age
        ≡ data_of value
  unfolding loads
  loads-token_of s t now later value max_age hn hj hb hm hk hf =
      let payload = b64encode (lib.json_dumps value) in
      let ts = b64encode (octets 8 now) in
      let hp = b64encode-segment (lib.json_dumps value) in
      let ht = b64encode-segment (octets 8 now) in
      rw
        (
          parts-joined payload ts (b64encode (lib.mac s.key (joined payload ts))) hp ht,
          b64decode-b64encode (lib.mac s.key (joined payload ts)) (hm s.key (joined payload ts)),
          ascii_joined payload ts hp ht,
          is_signed-key s.key (joined payload ts) t.secret_keys hk,
          b64decode-b64encode (octets 8 now) (octets-IsByte 8 now),
          length-octets 8 now,
          unpack-octets now hn,
          check_age-fresh max_age now later (of_payload lib (b64decode payload)) hf,
          b64decode-b64encode (lib.json_dumps value) hb,
          hj,
        )
        refl
