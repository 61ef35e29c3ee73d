-- ===== src/Signing.antt =====
-- `Signer` of src/veloce/signing.py. The keyed hash and the JSON of src/veloce/_json.py are parameters, and
-- the clock is an argument; secrets are the bytes that `_coerce_secret_bytes` gives.
pub mod Base64
pub mod Time
pub mod Laws
pub mod RoundTrip
pub mod Accepted
use veloce.Prelude.{
  ℕ, ◌+◌, ◌-◌, ◌≡◌, Bool, true, false, not, ◌&&◌, ◌||◌, Option, none, some, List, [], ◌∷◌, ◌++◌,
  ◌==◌, nat_eq, leb, ltb, nat_beq, all, length, is_empty, if◌then◌else◌,
}
use veloce.Prelude.Int.{ℤ, pos, ltb_ℤ}
use veloce.Text.{Text, text_eq, text_beq, is_in}
use veloce.Signing.Base64.{b64encode, b64decode, is_ascii}
use veloce.Signing.Time.{pack, unpack}

abbrev pub Bytes : Type 0
Bytes = List ℕ

-- `mac` is hmac.new(key, message, sha256).digest(); `loads` of what is no JSON is `none`.
pub record Library (A : Type 0) : Type 0 where
  pub mac : Bytes → Bytes → Bytes
  pub json_dumps : A → Bytes
  pub json_loads : Bytes → Option A

pub record Signer : Type 0 where
  pub key : Bytes
  pub secret_keys : List Bytes

-- The exceptions that `loads` raises.
pub data Loaded (A : Type 0) : Type 0 where
  data_of : A → Loaded A
  bad_signature bad_time bad_data : Loaded A

abbrev pub joined : Text → Text → Text
joined payload ts = payload ++ (b'.' ∷ ts)

abbrev pub cons_cut : ℕ → Option (Text × Text) → Option (Text × Text)
cons_cut c none = none
cons_cut c (some (head, rest)) = some (c ∷ head, rest)

-- The text up to the first separator, and what stands behind it.
unfoldable pub cut : ℕ → Text → Option (Text × Text)
cut sep [] = none
cut sep (c ∷ s) = let rest = cons_cut c (cut sep s) in if c == sep then some ([], s) else rest

abbrev pub second : Text → Option (Text × Text) → Option (Text × Text × Text)
second payload none = none
second payload (some (ts, sig)) = some (payload, ts, sig)

abbrev pub after_first : Option (Text × Text) → Option (Text × Text × Text)
after_first none = none
after_first (some (payload, rest)) = second payload (cut b'.' rest)

-- token.split(".", 2), where it has three parts
unfoldable pub parts : Text → Option (Text × Text × Text)
unfolding cut
parts token = after_first (cut b'.' token)

-- `max_age` and the time at which a token was signed.
abbrev pub check_age : {A : Type 0} → Option ℤ → ℕ → ℕ → Loaded A → Loaded A
check_age none now signed_at rest = rest
check_age (some max_age) now signed_at rest =
    if ltb now signed_at
    then bad_time
    else if ltb_ℤ max_age (pos (now - signed_at))
    then bad_time
    else rest

module _ {A : Type 0} (lib : Library A) where
  -- `_derive_key`
  abbrev derive_key : Bytes → Bytes → Bytes
  derive_key secret salt = lib.mac secret salt

  -- `__init__`; `none` is ValueError.
  unfoldable pub init : Bytes → Bytes → Option Signer
  init secret salt =
      if is_empty secret
      then none
      else some (record { key = derive_key secret salt; secret_keys = derive_key secret salt ∷ [] })

  unfoldable pub add_fallback_secret : Bytes → Bytes → Signer → Option Signer
  add_fallback_secret secret salt signer =
      if is_empty secret
      then none
      else some
          (record signer { secret_keys = signer.secret_keys ++ (derive_key secret salt ∷ []) })

  abbrev pub token_of : Signer → Text → Text → Text
  token_of signer payload ts =
      joined (joined payload ts) (b64encode (lib.mac signer.key (joined payload ts)))

  abbrev pub dumps_at : Signer → Bytes → Option Bytes → Option Text
  dumps_at signer payload none = none
  dumps_at signer payload (some ts) = some (token_of signer (b64encode payload) (b64encode ts))

  -- `dumps` at the time `now`; `none` is the error of a time past 2^64.
  unfoldable pub dumps : Signer → ℕ → A → Option Text
  unfolding pack b64encode
  dumps signer now value = dumps_at signer (lib.json_dumps value) (pack now)

  -- any(hmac.compare_digest(sig, ...) for key in keys)
  unfoldable pub is_signed : Bytes → Text → List Bytes → Bool
  is_signed sig message [] = false
  is_signed sig message (key ∷ keys) =
      text_beq sig (lib.mac key message) || is_signed sig message keys

  abbrev pub of_json : Option A → Loaded A
  of_json none = bad_data
  of_json (some value) = data_of value

  abbrev pub of_payload : Option Bytes → Loaded A
  of_payload none = bad_data
  of_payload (some payload) = of_json (lib.json_loads payload)

  abbrev pub of_time : Text → ℕ → Option ℤ → Option Bytes → Loaded A
  of_time payload now max_age none = bad_data
  of_time payload now max_age (some ts) =
      if nat_beq (length ts) 8
      then check_age max_age now (unpack ts) (of_payload (b64decode payload))
      else bad_data

  abbrev pub of_signature : Signer → ℕ → Option ℤ → Text → Text → Option Bytes → Loaded A
  of_signature signer now max_age payload ts none = bad_data
  of_signature signer now max_age payload ts (some sig) =
      if not (is_ascii (joined payload ts))
      then bad_data
      else if not (is_signed sig (joined payload ts) signer.secret_keys)
      then bad_signature
      else of_time payload now max_age (b64decode ts)

  abbrev pub of_parts : Signer → ℕ → Option ℤ → Option (Text × Text × Text) → Loaded A
  of_parts signer now max_age none = bad_data
  of_parts signer now max_age (some (payload, ts, sig)) =
      of_signature signer now max_age payload ts (b64decode sig)

  -- `loads` of a text, at the time `now`
  unfoldable pub loads : Signer → ℕ → Text → Option ℤ → Loaded A
  unfolding parts is_signed b64decode unpack
  loads signer now token max_age = of_parts signer now max_age (parts token)
