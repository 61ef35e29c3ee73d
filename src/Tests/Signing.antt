-- ===== src/Tests/Signing.antt =====
-- Tests of Signing.
use veloce.Prelude.{ℕ, ◌+◌, ◌%◌, ◌≡◌, refl, Option, none, some, [], ◌∷◌, ◌++◌, codes, arith}
use veloce.Prelude.Int.{pos}
use veloce.Text.{Text, text_beq, is_in}
use veloce.Text.Strip.{rstrip_char}
use veloce.Signing.{
  Bytes, Library, Signer, data_of, bad_signature, bad_time, bad_data, dumps, loads, init,
  add_fallback_secret, parts, cut, is_signed,
}
use veloce.Signing.Base64.{b64encode, b64decode, urlsafe_b64encode, a2b}
use veloce.Signing.Time.{pack, octets, unpack, value_from}
use veloce.Signing.Accepted.{IsAccepted, loads-IsAccepted, loads-dumps}

-- The last octet of a sum in place of the keyed hash, and a number as its own JSON.
abbrev pub checksum : Bytes → ℕ
checksum [] = 7
checksum (b ∷ bs) = b + (checksum bs + 3) % 251

abbrev number_of : Bytes → Option ℕ
number_of [] = none
number_of (b ∷ []) = some b
number_of (b ∷ c ∷ bs) = none

abbrev library : Library ℕ
library = record {
  mac = λ key message. checksum (key ++ message) % 256 ∷ 200 ∷ [];
  json_dumps = λ n. n ∷ [];
  json_loads = number_of;
}

abbrev pub old_signer : Signer
old_signer = record { key = 1 ∷ []; secret_keys = (1 ∷ []) ∷ [] }

abbrev new_signer : Signer
new_signer = record { key = 2 ∷ []; secret_keys = (2 ∷ []) ∷ (1 ∷ []) ∷ [] }

base64_tests :
    (b64encode (codes "fo") ≡ codes "Zm8")
    × (b64encode (251 ∷ 255 ∷ 254 ∷ []) ≡ codes "-__-")
    × (b64decode (codes "Zm8") ≡ some (codes "fo"))
    × (b64decode (codes "+//-") ≡ some (251 ∷ 255 ∷ 254 ∷ []))
    × (b64decode (codes "Zm8*") ≡ none)
    × (b64decode (codes "Z") ≡ none)
unfolding b64encode urlsafe_b64encode rstrip_char b64decode a2b
base64_tests = (refl, refl, refl, refl, refl, refl)

signer_tests :
    (init library [] (codes "salt") ≡ none)
    × (add_fallback_secret library [] (codes "salt") old_signer ≡ none)
unfolding init add_fallback_secret
signer_tests = (refl, refl)

-- The token of 65 at the time 1000, by the old signer.
abbrev pub token : Text
token = codes "QQ.AAAAAAAAA-g.8cg"

token_tests :
    (dumps library old_signer 1000 65 ≡ some token)
    × (loads library new_signer 1010 token (some (pos 10)) ≡ data_of 65)
    × (loads library new_signer 1011 token (some (pos 10)) ≡ bad_time)
    × (loads library new_signer 999 token (some (pos 10)) ≡ bad_time)
    × (loads library (record new_signer { secret_keys = (2 ∷ []) ∷ [] }) 1010 token none
        ≡ bad_signature)
    × (loads library new_signer 1010 (codes "QQ.AAAAAAAAA-g") none ≡ bad_data)
unfolding dumps loads parts cut is_signed pack octets unpack value_from b64encode urlsafe_b64encode
    rstrip_char b64decode a2b text_beq
token_tests = (refl, refl, refl, refl, refl, refl)

loads-IsAccepted_example : IsAccepted library new_signer 1010 (some (pos 10)) token 65
unfolding loads parts cut is_signed unpack value_from b64decode a2b text_beq
loads-IsAccepted_example = loads-IsAccepted library new_signer 1010 token (some (pos 10)) 65 refl

loads-dumps_example : loads library new_signer 1010 token (some (pos 10)) ≡ data_of 65
unfolding dumps pack octets b64encode urlsafe_b64encode rstrip_char is_in text_beq
loads-dumps_example =
    loads-dumps library old_signer new_signer 1000 1010 65 token (some (pos 10)) refl
      (omega arith, tt) (λ key message. (omega arith, (omega arith, tt))) refl (omega arith, refl)
      refl
