-- ===== src/Signing/Base64.antt =====
-- `_b64encode` and `_b64decode` of src/veloce/_internal.py, and what they call of the base64 module: the decoder
-- passes over characters that stand for nothing, and ends at enough padding.
use veloce.Prelude.{
  ℕ, zero, suc, ◌+◌, ◌-◌, ◌*◌, ◌/◌, ◌%◌, Bool, true, false, ◌&&◌, ◌||◌, Option, none, some, List,
  [], ◌∷◌, ◌++◌, ◌==◌, nat_eq, leb, ltb, all, length, if◌then◌else◌,
}
use veloce.Text.{Text}
use veloce.Text.Strip.{rstrip_char}

-- The character for six bits, of the URL-safe alphabet.
abbrev pub char_of : ℕ → ℕ
char_of v =
    if ltb v 26
    then v + 65
    else if ltb v 52
    then v + 71
    else if ltb v 62
    then v - 4
    else if ltb v 63
    then b'-'
    else b'_'

-- `-` and `_` are translated to `+` and `/`, which are read as well.
abbrev pub value_of : ℕ → Option ℕ
value_of c =
    if leb 65 c && leb c 90
    then some (c - 65)
    else if leb 97 c && leb c 122
    then some (c - 71)
    else if leb 48 c && leb c 57
    then some (c + 4)
    else if c == b'-' || c == b'+'
    then some 62
    else if c == b'_' || c == b'/'
    then some 63
    else none

-- base64.urlsafe_b64encode
unfoldable pub urlsafe_b64encode : List ℕ → Text
urlsafe_b64encode [] = []
urlsafe_b64encode (a ∷ []) = char_of (a / 4) ∷ char_of (a % 4 * 16) ∷ b'=' ∷ b'=' ∷ []
urlsafe_b64encode (a ∷ b ∷ []) =
    char_of (a / 4) ∷ char_of (a % 4 * 16 + b / 16) ∷ char_of (b % 16 * 4) ∷ b'=' ∷ []
urlsafe_b64encode (a ∷ b ∷ c ∷ bytes) =
    char_of (a / 4)
    ∷ char_of (a % 4 * 16 + b / 16)
    ∷ char_of (b % 16 * 4 + c / 64)
    ∷ char_of (c % 64)
    ∷ urlsafe_b64encode bytes

-- `_b64encode`
unfoldable pub b64encode : List ℕ → Text
unfolding urlsafe_b64encode rstrip_char
b64encode bytes = rstrip_char b'=' (urlsafe_b64encode bytes)

-- Where the decoder stands in a group of four characters.
pub data Quad : Type 0 where
  q0 q1 q2 q3 : Quad

abbrev pub emit : ℕ → Option (List ℕ) → Option (List ℕ)
emit b none = none
emit b (some bs) = some (b ∷ bs)

-- What the rest of the text decodes to, from a place, the bits that are left over and the padding so far.
abbrev pub Rest : Type 0
Rest = Quad → ℕ → ℕ → Option (List ℕ)

abbrev pub take_value : Rest → Quad → ℕ → ℕ → Option (List ℕ)
take_value again q0 left v = again q1 v 0
take_value again q1 left v = emit (left * 4 + v / 16) (again q2 (v % 16) 0)
take_value again q2 left v = emit (left * 16 + v / 4) (again q3 (v % 4) 0)
take_value again q3 left v = emit (left * 64 + v) (again q0 0 0)

abbrev pub after_pad : Rest → ℕ → ℕ → Bool → Option (List ℕ)
after_pad again left pads true = some []
after_pad again left pads false = again q2 left (suc pads)

-- Padding counts from the third character of a group on, and four of both end the text.
abbrev pub take_pad : Rest → Quad → ℕ → ℕ → Option (List ℕ)
take_pad again q0 left pads = again q0 left pads
take_pad again q1 left pads = again q1 left pads
take_pad again q2 left pads = after_pad again left pads (leb 4 (2 + suc pads))
take_pad again q3 left pads = some []

abbrev pub take_char : Rest → Quad → ℕ → ℕ → Bool → Option ℕ → Option (List ℕ)
take_char again quad left pads true value = take_pad again quad left pads
take_char again quad left pads false none = again quad left pads
take_char again quad left pads false (some v) = take_value again quad left v

abbrev pub at_text_end : Quad → Option (List ℕ)
at_text_end q0 = some []
at_text_end q1 = none
at_text_end q2 = none
at_text_end q3 = none

-- binascii.a2b_base64, which is not strict; `none` is its error.
unfoldable pub a2b : Text → Quad → ℕ → ℕ → Option (List ℕ)
a2b [] quad left pads = at_text_end quad
a2b (c ∷ s) quad left pads =
    take_char (λ q l p. a2b s q l p) quad left pads (c == b'=') (value_of c)

abbrev pub pad : ℕ → Text
pad zero = []
pad (suc n) = b'=' ∷ pad n

abbrev pub is_ascii : Text → Bool
is_ascii s = all (λ c. ltb c 128) s

-- `_b64decode`; a text that is not ASCII is a ValueError as well.
unfoldable pub b64decode : Text → Option (List ℕ)
unfolding a2b
b64decode text =
    let padded = text ++ pad ((4 - length text % 4) % 4) in
    if is_ascii padded then a2b padded q0 0 0 else none
