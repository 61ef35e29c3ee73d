-- ===== src/WebSocket/Utf8.antt =====
-- `_Utf8Validator` of src/veloce/websocket.py. A chunk is a list of bytes.
pub mod Sound
use veloce.Prelude.{
  ℕ, ◌-◌, Bool, true, false, ◌&&◌, ◌||◌, Option, none, some, List, [], ◌∷◌, leb, ltb, nat_beq,
  if◌then◌else◌, and_then,
}

pub record Validator : Type 0 where
  pub need : ℕ
  pub lo : ℕ
  pub hi : ℕ

abbrev pub state : ℕ → ℕ → ℕ → Validator
state n l h = record { need = n; lo = l; hi = h }

-- `__init__`
abbrev pub ready : Validator
ready = state 0 0x80 0xBF

abbrev pub done : Validator → Bool
done v = nat_beq v.need 0

abbrev pub is_done : Option Validator → Bool
is_done none = false
is_done (some v) = done v

abbrev pub within : ℕ → ℕ → ℕ → Bool
within lo hi byte = leb lo byte && leb byte hi

-- The first byte of a code point; `none` is `return False`.
unfoldable pub first_byte : Validator → ℕ → Option Validator
first_byte v byte =
    if ltb byte 0x80
    then some v
    else if within 0xC2 0xDF byte
    then some (state 1 0x80 0xBF)
    else if nat_beq byte 0xE0
    then some (state 2 0xA0 0xBF)
    else if within 0xE1 0xEC byte || (nat_beq byte 0xEE || nat_beq byte 0xEF)
    then some (state 2 0x80 0xBF)
    else if nat_beq byte 0xED
    then some (state 2 0x80 0x9F)
    else if nat_beq byte 0xF0
    then some (state 3 0x90 0xBF)
    else if within 0xF1 0xF3 byte
    then some (state 3 0x80 0xBF)
    else if nat_beq byte 0xF4
    then some (state 3 0x80 0x8F)
    else none

-- A later byte.
unfoldable pub next_byte : Validator → ℕ → Option Validator
next_byte v byte =
    if ltb byte v.lo || ltb v.hi byte then none else some (state (v.need - 1) 0x80 0xBF)

unfoldable pub feed_byte : Validator → ℕ → Option Validator
unfolding first_byte next_byte
feed_byte v byte = if nat_beq v.need 0 then first_byte v byte else next_byte v byte

-- The states that the loop over the chunk passes, and the one that `feed` stores at its end.
unfoldable pub feed : List ℕ → Validator → Option Validator
unfolding feed_byte
feed [] v = some v
feed (byte ∷ chunk) v = and_then (feed_byte v byte) (feed chunk)

-- `feed` of the whole text, then `done`
unfoldable pub is_utf8 : List ℕ → Bool
unfolding feed
is_utf8 s = is_done (feed s ready)
