-- ===== src/Signing/Accepted.antt =====
-- What a token that `loads` of src/veloce/signing.py takes has, and that those of `dumps` are taken.
use veloce.Prelude.{
  or_true, not-false, unless_refused, under_test, some_injective, ℕ, ◌-◌, ◌≤◌, ◌<◌, ◌≡◌, refl, ap,
  sym, ◌∙◌, true, false, not, Option, none, some, List, [], ◌∷◌, nat_beq, nat_beq_iff, ltb, ltb→lt,
  length, if◌then◌else◌, All, arith, Bool-cases, inl, inr,
}
use veloce.Prelude.Int.{ℤ, pos, ltb_ℤ}
use veloce.Text.{Text, text_eq, text_beq, text_beq_iff, text_beq_refl, is_in}
use veloce.Signing.{
  Bytes, Library, Signer, Loaded, data_of, bad_signature, bad_time, bad_data, joined, parts,
  check_age, token_of, dumps, dumps_at, is_signed, of_json, of_payload, of_time, of_signature,
  of_parts, loads,
}
use veloce.Signing.Base64.{b64encode, b64decode, is_ascii}
use veloce.Signing.Laws.{IsFresh, IsSplit, parts-IsSplit, loads-token_of}
use veloce.Signing.RoundTrip.{IsByte}
use veloce.Signing.Time.{pack, unpack, octets}

packed :
    (now : ℕ) (ts : Bytes) → pack now ≡ some ts → (now < 18446744073709551616) × (octets 8 now ≡ ts)
unfolding pack
packed now ts h =
    let (t, e) = under_test (ltb now 18446744073709551616) (octets 8 now) ts h in
    (ltb→lt now 18446744073709551616 t, e)

unless_early :
    (a b : ℕ) {T : Type 0} (x y z : T)
    → (x ≡ z → ⊥)
    → (if ltb a b then x else y) ≡ z
    → (b ≤ a) × (y ≡ z)
unless_early a b x y z n = elim (Bool-cases (ltb a b)) [
  | inl t ↦ rw t (λ h. absurd (n h))
  | inr f ↦ rw f (λ h. (not_lt f, h))
]
  where
    not_lt : ltb a b ≡ false → b ≤ a
    not_lt f = ground arith

module _ {A : Type 0} (lib : Library A) where
  -- The bytes of a time that were signed, and the age that they give.
  abbrev pub IsTimely : ℕ → Option ℤ → Option Bytes → Type 0
  IsTimely now max_age none = ⊥
  IsTimely now max_age (some ts) = (length ts ≡ 8) × IsFresh (unpack ts) now max_age

  -- The payload's value.
  abbrev pub IsValue : A → Option Bytes → Type 0
  IsValue value none = ⊥
  IsValue value (some payload) = lib.json_loads payload ≡ some value

  abbrev pub IsAccepted : Signer → ℕ → Option ℤ → Text → A → Type 0
  IsAccepted signer now max_age token value =
      (payload : Text) × (ts : Text) × (sig : Text) × (key : Bytes) × (token
        ≡ joined (joined payload ts) sig)
      × (is_in key signer.secret_keys ≡ true)
      × (b64decode sig ≡ some (lib.mac key (joined payload ts)))
      × IsTimely now max_age (b64decode ts)
      × IsValue value (b64decode payload)

  of_json-data_of : (o : Option A) (value : A) → of_json lib o ≡ data_of value → o ≡ some value
  of_json-data_of none value h = cc
  of_json-data_of (some v) value h = cc

  of_payload-IsValue :
      (o : Option Bytes) (value : A) → of_payload lib o ≡ data_of value → IsValue value o
  of_payload-IsValue none value h = cc
  of_payload-IsValue (some payload) value h = of_json-data_of (lib.json_loads payload) value h

  check_age-inverse :
      (max_age : Option ℤ) (now signed_at : ℕ) (rest : Loaded A) (value : A)
      → check_age max_age now signed_at rest ≡ data_of value
      → IsFresh signed_at now max_age × (rest ≡ data_of value)
  check_age-inverse none now signed_at rest value h = (tt, h)
  check_age-inverse (some max_age) now signed_at rest value h =
      let (le, h') = unless_early now signed_at bad_time _ (data_of value) (λ e. cc) h in
      let (young, e) =
        unless_refused (ltb_ℤ max_age (pos (now - signed_at))) bad_time rest (data_of value)
          (λ e. cc) h' in
      ((le, young), e)

  of_time-inverse :
      (payload : Text) (now : ℕ) (max_age : Option ℤ) (o : Option Bytes) (value : A)
      → of_time lib payload now max_age o ≡ data_of value
      → IsTimely now max_age o × IsValue value (b64decode payload)
  of_time-inverse payload now max_age none value = λ h. cc
  of_time-inverse payload now max_age (some ts) value = elim (Bool-cases (nat_beq (length ts) 8)) [
    | inl t ↦ rw t (λ h.
        let (f, e) =
          check_age-inverse max_age now (unpack ts) (of_payload lib (b64decode payload)) value h in
        (((nat_beq_iff (length ts) 8).0 t, f), of_payload-IsValue (b64decode payload) value e))
    | inr n ↦ rw n (λ h. cc)
  ]

  signing_key :
      (sig : Bytes) (message : Text) (keys : List Bytes)
      → is_signed lib sig message keys ≡ true
      → (key : Bytes) × (is_in key keys ≡ true) × (sig ≡ lib.mac key message)
  unfolding is_signed is_in
  signing_key sig message [] = λ h. cc
  signing_key sig message (k ∷ keys) = elim (Bool-cases (text_beq sig (lib.mac k message))) [
    | inl t ↦ λ h. (k, rw text_beq_refl refl, (text_beq_iff sig (lib.mac k message)).0 t)
    | inr f ↦ rw f (λ h.
        let (key, m, e) = signing_key sig message keys h in
        (key, rw m (or_true (text_beq k key)), e))
  ]

  of_signature-inverse :
      (signer : Signer) (now : ℕ) (max_age : Option ℤ) (token payload ts sig : Text)
      (o : Option Bytes) (value : A)
      → token ≡ joined (joined payload ts) sig
      → b64decode sig ≡ o
      → of_signature lib signer now max_age payload ts o ≡ data_of value
      → IsAccepted signer now max_age token value
  of_signature-inverse signer now max_age token payload ts sig none value ht hs h = cc
  of_signature-inverse signer now max_age token payload ts sig (some bytes) value ht hs h =
      let message = joined payload ts in
      let (_, h1) =
        unless_refused (not (is_ascii message)) bad_data _ (data_of value) (λ e. cc) h in
      let (signed, h2) =
        unless_refused (not (is_signed lib bytes message signer.secret_keys)) bad_signature _
          (data_of value) (λ e. cc) h1 in
      let (key, m, e) =
        signing_key bytes message signer.secret_keys
          (not-false (is_signed lib bytes message signer.secret_keys) signed) in
      let (timely, valued) = of_time-inverse payload now max_age (b64decode ts) value h2 in
      (payload, ts, sig, key, ht, m, hs ∙ ap some e, timely, valued)

  of_parts-inverse :
      (signer : Signer) (now : ℕ) (max_age : Option ℤ) (token : Text)
      (o : Option (Text × Text × Text)) (value : A)
      → IsSplit token o
      → of_parts lib signer now max_age o ≡ data_of value
      → IsAccepted signer now max_age token value
  of_parts-inverse signer now max_age token none value k h = cc
  of_parts-inverse signer now max_age token (some (payload, ts, sig)) value k h =
      of_signature-inverse signer now max_age token payload ts sig (b64decode sig) value k refl h

  -- Whatever token is taken, it is a payload, a time and a signature, in that order and between dots; the
  -- signature is that of the first two under one of the signer's keys, the time is eight bytes that give an
  -- age within what was asked for, and the value is what the payload says.
  pub loads-IsAccepted :
      (signer : Signer) (now : ℕ) (token : Text) (max_age : Option ℤ) (value : A)
      → loads lib signer now token max_age ≡ data_of value
      → IsAccepted signer now max_age token value
  unfolding loads
  loads-IsAccepted signer now token max_age value h =
      of_parts-inverse signer now max_age token (parts token) value (parts-IsSplit token) h

  -- A token that one signer wrote is read by every signer that has its key, as when secrets are rotated,
  -- within the age that is asked for: the value comes back. JSON is to read what it wrote, and it and
  -- the keyed hash give bytes.
  pub loads-dumps :
      (s t : Signer) (now later : ℕ) (value : A) (token : Text) (max_age : Option ℤ)
      → lib.json_loads (lib.json_dumps value) ≡ some value
      → All IsByte (lib.json_dumps value)
      → ((key message : Bytes) → All IsByte (lib.mac key message))
      → is_in s.key t.secret_keys ≡ true
      → IsFresh now later max_age
      → dumps lib s now value ≡ some token
      → loads lib t later token max_age ≡ data_of value
  unfolding dumps
  loads-dumps s t now later value token max_age hj hb hm hk hf h =
      written (pack now) (λ ts e. packed now ts e) h
    where
      written :
          (o : Option Bytes)
          → ((ts : Bytes) → o ≡ some ts → (now < 18446744073709551616) × (octets 8 now ≡ ts))
          → dumps_at lib s (lib.json_dumps value) o ≡ some token
          → loads lib t later token max_age ≡ data_of value
      written none k e = cc
      written (some ts) k e =
          let (hn, eq) = k ts refl in
          ap (λ u. loads lib t later u max_age)
            (sym (some_injective _ token e)
              ∙ ap (λ b. token_of lib s (b64encode (lib.json_dumps value)) (b64encode b)) (sym eq))
          ∙ loads-token_of lib s t now later value max_age hn hj hb hm hk hf
