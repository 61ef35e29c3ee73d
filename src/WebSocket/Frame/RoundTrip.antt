-- ===== src/WebSocket/Frame/RoundTrip.antt =====
-- Frames as a peer writes them, and as `_parse_frame` of src/veloce/websocket.py reads them.
use mathlib.Core.List.{append_assoc}
use veloce.Prelude.{
  ℕ, zero, suc, ◌+◌, ◌-◌, ◌*◌, ◌/◌, ◌%◌, ◌≤◌, ◌<◌, ◌≡◌, refl, sym, ap, ◌∙◌, Bool, true, false, not,
  ◌&&◌, ◌||◌, List, [], ◌∷◌, ◌++◌, ltb, length, take, drop, if◌then◌else◌, arith, length-append,
  take-append_left, drop-append_left, Bool-cases, inl, inr,
}
use veloce.WebSocket.Mask.{unmask}
use veloce.WebSocket.Mask.Laws.{cycle, unmask-cycle, unmask-unmask, length-cycle}
use veloce.WebSocket.Frame.{
  pack, unpack, protocol_error, frame, send_frame, is_control, read_payload, read_frame,
  length_bytes, length_width, high_bit, low_nibble, has_rsv, low_bits,
}

-- What a peer sends (RFC 6455, section 5.2): `_send_frame` with the mask bit and a mask.
unfoldable pub peer_frame : Bool → ℕ → ℕ → ℕ → ℕ → ℕ → List ℕ → List ℕ
unfolding pack
peer_frame fin opcode a b c d payload =
    ((if fin then 128 else 0) + opcode)
    ∷ (length_bytes 128 (length payload) ++ (a ∷ b ∷ c ∷ d ∷ unmask payload (a ∷ b ∷ c ∷ d ∷ [])))

length-pack : (width n : ℕ) → length (pack width n) ≡ width
unfolding pack
length-pack zero n = refl
length-pack (suc width) n =
    rw (length-append (pack width (n / 256)) (n % 256 ∷ []))
      (omega (arith, length-pack width (n / 256)))

unpack-append : (acc b : ℕ) (bs : List ℕ) → unpack acc (bs ++ (b ∷ [])) ≡ unpack acc bs * 256 + b
unfolding unpack
unpack-append acc b [] = refl
unpack-append acc b (x ∷ bs) = unpack-append (acc * 256 + x) b bs

unpack-pack_two : (n : ℕ) → n < 65536 → unpack 0 (pack 2 n) ≡ n
unfolding pack unpack
unpack-pack_two n h = omega arith

unpack-pack_eight : (n : ℕ) → n < 18446744073709551616 → unpack 0 (pack 8 n) ≡ n
unfolding pack unpack
unpack-pack_eight n h = omega arith

extended_two :
    (n : ℕ)
    → n < 65536
    → (if ltb 0 (length (pack 2 n)) then unpack 0 (pack 2 n) else (254 - 128)) ≡ n
extended_two n h = rw (length-pack 2 n) (unpack-pack_two n h)

extended_eight :
    (n : ℕ)
    → n < 18446744073709551616
    → (if ltb 0 (length (pack 8 n)) then unpack 0 (pack 8 n) else (255 - 128)) ≡ n
extended_eight n h = rw (length-pack 8 n) (unpack-pack_eight n h)

length-unmask : (a b c d : ℕ) (p : List ℕ) → length (unmask p (a ∷ b ∷ c ∷ d ∷ [])) ≡ length p
length-unmask a b c d p = rw (unmask-cycle a b c d p) (length-cycle a b c d p)

unmask_empty : (a b c d : ℕ) (p : List ℕ) → length p ≡ 0 → unmask p (a ∷ b ∷ c ∷ d ∷ []) ≡ p
unfolding cycle
unmask_empty a b c d [] h = unmask-cycle a b c d []
unmask_empty a b c d (x ∷ p) h = absurd (omega arith)

unmask_nonempty :
    (a b c d : ℕ) (p : List ℕ)
    → let q = unmask p (a ∷ b ∷ c ∷ d ∷ []) in
      (if ltb 0 (length p) then unmask q (a ∷ b ∷ c ∷ d ∷ []) else q) ≡ p
unmask_nonempty a b c d p = elim (Bool-cases (ltb 0 (length p))) [
  | inl t ↦ rw t (unmask-unmask a b c d p)
  | inr f ↦ rw f (unmask_empty a b c d p (ground arith))
]

short_unmasked : (n : ℕ) → n < 126 → high_bit (0 + n) ≡ false
short_unmasked n h = ground arith

module _ (max_frame_size : ℕ) where
  -- The mask and the payload, whatever comes behind them.
  read_payload-whole :
      (fin : Bool) (opcode offset a b c d : ℕ) (p rest : List ℕ)
      → length p ≤ max_frame_size
      → (is_control opcode && (ltb 125 (length p) || not fin)) ≡ false
      → read_payload max_frame_size fin opcode
          (length p)
          offset
          (a ∷ b ∷ c ∷ d ∷ (unmask p (a ∷ b ∷ c ∷ d ∷ []) ++ rest))
        ≡ frame fin opcode p (offset + 4 + length p)
  unfolding read_payload
  read_payload-whole fin opcode offset a b c d p rest h k =
      let q = unmask p (a ∷ b ∷ c ∷ d ∷ []) in
      let e : take (length p) (q ++ rest) ≡ q =
        ap (λ (n : ℕ). take n (q ++ rest)) (sym (length-unmask a b c d p))
        ∙ take-append_left q rest in
      let l : length (q ++ rest) ≡ length p + length rest =
        rw (length-append q rest, length-unmask a b c d p) refl in
      let w : (if ltb 0 (length p) then unmask q (a ∷ b ∷ c ∷ d ∷ []) else q) ≡ p =
        unmask_nonempty a b c d p in
      rw (k, e, w) (ground (arith, l))

  -- The header of a masked frame, with the extended length if there is one.
  read_header :
      (fin : Bool) (opcode bit_and_length n : ℕ) (ext buf : List ℕ)
      → opcode < 16
      → 128 ≤ bit_and_length
      → bit_and_length < 256
      → length ext ≡ length_width (bit_and_length - 128)
      → (if ltb 0 (length ext) then unpack 0 ext else (bit_and_length - 128)) ≡ n
      → read_frame max_frame_size
          (((if fin then 128 else 0) + opcode) ∷ bit_and_length ∷ (ext ++ buf))
        ≡ read_payload max_frame_size fin opcode n (2 + length ext) buf
  unfolding read_frame
  read_header fin opcode second n ext buf h l u w e =
      let first = (if fin then 128 else 0) + opcode in
      let f : high_bit first ≡ fin = ground arith in
      let o : low_nibble first ≡ opcode = ground arith in
      let r : has_rsv first ≡ false = ground arith in
      let m : high_bit second ≡ true = ground arith in
      let s : low_bits second ≡ second - 128 = omega arith in
      let t : take (length ext) (ext ++ buf) ≡ ext = take-append_left ext buf in
      let v : drop (length ext) (ext ++ buf) ≡ buf = drop-append_left ext buf in
      let g : ltb (length ext + length buf) (length ext) ≡ false = ground arith in
      rw (f, o, r, m, s, ← w, t, v, length-append ext buf, e, g) refl

  -- The header, the mask and the payload.
  read_whole :
      (fin : Bool) (opcode second a b c d : ℕ) (ext p rest : List ℕ)
      → opcode < 16
      → 128 ≤ second
      → second < 256
      → length ext ≡ length_width (second - 128)
      → (if ltb 0 (length ext) then unpack 0 ext else (second - 128)) ≡ length p
      → length p ≤ max_frame_size
      → (is_control opcode && (ltb 125 (length p) || not fin)) ≡ false
      → let masked = ext ++ (a ∷ b ∷ c ∷ d ∷ unmask p (a ∷ b ∷ c ∷ d ∷ [])) in
        read_frame max_frame_size (((if fin then 128 else 0) + opcode) ∷ second ∷ (masked ++ rest))
        ≡ frame fin opcode p (suc (suc (length masked)))
  read_whole fin opcode second a b c d ext p rest h l u w e m k =
      let q = unmask p (a ∷ b ∷ c ∷ d ∷ []) in
      rw (append_assoc ext (a ∷ b ∷ c ∷ d ∷ q) rest) (
        read_header fin opcode second (length p) ext (a ∷ b ∷ c ∷ d ∷ (q ++ rest)) h l u w e
        ∙ read_payload-whole fin opcode (2 + length ext) a b c d p rest m k
        ∙ ap (frame fin opcode p)
            (omega (arith, length-unmask a b c d p, length-append ext (a ∷ b ∷ c ∷ d ∷ q))))

  -- The frame of a peer, at the start of any buffer, is read as its flag, its opcode, its payload
  -- and its size, if the payload is at most the limit and below 2^64 bytes, and a control frame is
  -- final and has at most 125.
  pub read_frame-peer_frame :
      (fin : Bool) (opcode a b c d : ℕ) (p rest : List ℕ)
      → opcode < 16
      → length p ≤ max_frame_size
      → length p < 18446744073709551616
      → (is_control opcode && (ltb 125 (length p) || not fin)) ≡ false
      → let whole = peer_frame fin opcode a b c d p in
        read_frame max_frame_size (whole ++ rest) ≡ frame fin opcode p (length whole)
  unfolding peer_frame
  read_frame-peer_frame fin opcode a b c d p rest h m z k =
      let n = length p in
      elim (Bool-cases (ltb n 126)) [
        | inl t ↦ rw t (
            read_whole fin opcode (128 + n) a b c d [] p rest h (omega arith) (ground arith)
              (ground arith) (omega arith) m k)
        | inr f ↦ elim (Bool-cases (ltb n 65536)) [
          | inl t ↦
              rw (f, t)
                (read_whole fin opcode 254 a b c d (pack 2 n) p rest h (omega arith) (omega arith)
                  (length-pack 2 n) (extended_two n (ground arith)) m k)
          | inr g ↦
              rw (f, g)
                (read_whole fin opcode 255 a b c d (pack 8 n) p rest h (omega arith) (omega arith)
                  (length-pack 8 n) (extended_eight n z) m k)
        ]
      ]

  -- A frame as the server itself sends it, with an opcode below 16, is not masked and refused.
  pub read_frame-send_frame :
      (payload : List ℕ) (opcode : ℕ)
      → opcode < 16
      → read_frame max_frame_size (send_frame payload opcode) ≡ protocol_error
  unfolding read_frame send_frame
  read_frame-send_frame payload opcode h =
      let r : has_rsv (128 + opcode) ≡ false = ground arith in
      elim (Bool-cases (ltb (length payload) 126)) [
        | inl t ↦ rw (t, r, short_unmasked (length payload) (ground arith)) refl
        | inr f ↦ elim (Bool-cases (ltb (length payload) 65536)) [
          | inl t ↦ rw (f, t, r) refl
          | inr g ↦ rw (f, g, r) refl
        ]
      ]
