-- ===== src/WebSocket/Frame.antt =====
-- Frames of src/veloce/websocket.py: the reading half of `_parse_frame`, up to where the opcode
-- takes over, and `_send_frame`.
pub mod RoundTrip
use veloce.Prelude.{
  ℕ, zero, suc, ◌+◌, ◌-◌, ◌*◌, ◌/◌, ◌%◌, Bool, true, false, not, ◌&&◌, ◌||◌, Option, none, some,
  List, [], ◌∷◌, ◌++◌, leb, ltb, nat_beq, length, take, drop, if◌then◌else◌,
}
use veloce.WebSocket.Mask.{unmask}

-- struct.pack of the last `width` bytes of a number, the highest first
unfoldable pub pack : ℕ → ℕ → List ℕ
pack zero n = []
pack (suc width) n = pack width (n / 256) ++ (n % 256 ∷ [])

-- struct.unpack of bytes, behind those that `acc` stands for
unfoldable pub unpack : ℕ → List ℕ → ℕ
unpack acc [] = acc
unpack acc (b ∷ bs) = unpack (acc * 256 + b) bs

-- What the buffer holds from its start: less than a frame, a frame that closes the connection with
-- 1002 or 1009, or a frame, its payload unmasked, and its size.
pub data Parsed : Type 0 where
  incomplete : Parsed
  protocol_error : Parsed
  too_big : Parsed
  frame : Bool → ℕ → List ℕ → ℕ → Parsed

abbrev pub is_control : ℕ → Bool
is_control opcode = nat_beq opcode 8 || (nat_beq opcode 9 || nat_beq opcode 10)

-- buf & 0x80, buf & 0x0F, buf & 0x70 and buf & 0x7F of a byte
abbrev pub high_bit : ℕ → Bool
high_bit b = not (nat_beq (b / 128 % 2) 0)

abbrev pub low_nibble : ℕ → ℕ
low_nibble b = b % 16

abbrev pub has_rsv : ℕ → Bool
has_rsv b = not (nat_beq (b / 16 % 8) 0)

abbrev pub low_bits : ℕ → ℕ
low_bits b = b % 128

-- The width of the extended length.
abbrev pub length_width : ℕ → ℕ
length_width n = if nat_beq n 126 then 2 else if nat_beq n 127 then 8 else 0

module _ (max_frame_size : ℕ) where
  -- From the mask on, with the length known. `offset` bytes were read before it.
  unfoldable pub read_payload : Bool → ℕ → ℕ → ℕ → List ℕ → Parsed
  read_payload fin opcode payload_len offset buf =
      if ltb max_frame_size payload_len
      then too_big
      else if is_control opcode && (ltb 125 payload_len || not fin)
      then protocol_error
      else if ltb (length buf) 4
      then incomplete
      else if ltb (length buf) (4 + payload_len)
      then incomplete
      else let payload = take payload_len (drop 4 buf) in
        frame fin opcode (if ltb 0 payload_len then unmask payload (take 4 buf) else payload)
          (offset + 4 + payload_len)

  unfoldable pub read_frame : List ℕ → Parsed
  unfolding read_payload unpack
  read_frame [] = incomplete
  read_frame (first ∷ []) = incomplete
  read_frame (first ∷ second ∷ buf) =
      let fin = high_bit first in
      let opcode = low_nibble first in
      let n = low_bits second in
      let width = length_width n in
      if has_rsv first
      then protocol_error
      else if not (high_bit second)
      then protocol_error
      else if ltb (length buf) width
      then incomplete
      else read_payload fin opcode (if ltb 0 width then unpack 0 (take width buf) else n)
          (2 + width) (drop width buf)

-- The length byte and the extended length, with `bit` added to the former.
abbrev pub length_bytes : ℕ → ℕ → List ℕ
length_bytes bit n =
    if ltb n 126
    then (bit + n) ∷ []
    else if ltb n 65536
    then (bit + 126) ∷ pack 2 n
    else (bit + 127) ∷ pack 8 n

-- `_send_frame`: what goes to the transport. 0x80 | opcode, for an opcode below 16.
unfoldable pub send_frame : List ℕ → ℕ → List ℕ
unfolding pack
send_frame payload opcode = (128 + opcode) ∷ (length_bytes 0 (length payload) ++ payload)
