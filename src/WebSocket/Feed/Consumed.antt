-- ===== src/WebSocket/Feed/Consumed.antt =====
-- Lemmas on how many bytes `_parse_frame` of src/veloce/websocket.py takes, and on frames in longer
-- buffers.
use veloce.Prelude.{
  ℕ, suc, ◌+◌, ◌≤◌, ◌<◌, ◌≡◌, refl, sym, Bool, true, false, not, ◌||◌, ◌&&◌, Option, none, some,
  List, [], ◌∷◌, ◌++◌, ltb, nat_beq, length, length-append, take-front, drop-front, length-drop,
  take, drop, if◌then◌else◌, arith, Bool-cases, ◌⊎◌, inl, inr,
}
use veloce.WebSocket.Utf8.{Validator, ready, feed}
use veloce.WebSocket.Frame.{
  unpack, Parsed, incomplete, protocol_error, too_big, frame, read_frame, read_payload, has_rsv,
  high_bit, low_bits, low_nibble, length_width, is_control,
}
use veloce.WebSocket.Connection.{
  Socket, Config, Outcome, consumed, disconnect, Fragments, terminate_raw, close_control,
  finish_message, keep_fragments, open_message, open_text, extend, continue_message, continue_in,
  extend_text, handle_pong, handle_peer_close, handle_frame, all_done, in_message,
}

-- A frame of `n` bytes was taken whole, or it closed the connection, or it raised.
abbrev pub Takes : ℕ → Outcome × Socket → Type 0
Takes n (consumed m, s) = (m ≡ n) ⊎ ((m ≡ 0) × (s.closed ≡ true))
Takes n (disconnect code, s) = Unit

module _ (config : Config) where
  refused-Takes : (n code : ℕ) (s : Socket) → Takes n (consumed 0, close_control config code s)
  unfolding close_control terminate_raw
  refused-Takes n code s = inr (refl, refl)

  finish_message-Takes :
      (payload : List ℕ) (v : Option Validator) (n : ℕ) (s : Socket)
      → Takes n (finish_message config payload v n s)
  unfolding finish_message
  finish_message-Takes payload v n s = elim (Bool-cases (not (all_done config v))) [
    | inl t ↦ rw t (refused-Takes n 1007 s)
    | inr f ↦ rw f (inl refl)
  ]

  keep_fragments-Takes :
      (f : Fragments) (n : ℕ) (s : Socket) → Takes n (keep_fragments config f n s)
  unfolding keep_fragments
  keep_fragments-Takes f n s = elim (Bool-cases (ltb config.max_message_size (length f.buffer))) [
    | inl t ↦ rw t (refused-Takes n 1009 (record s { fragments = some f }))
    | inr e ↦ rw e (inl refl)
  ]

  open_message-Takes :
      (fin : Bool) (payload : List ℕ) (v : Option Validator) (n : ℕ) (s : Socket)
      → Takes n (open_message config fin payload v n s)
  unfolding open_message
  open_message-Takes true payload v n s = finish_message-Takes payload v n s
  open_message-Takes false payload v n s =
      keep_fragments-Takes (record { buffer = payload; validator = v }) n s

  open_text-Takes :
      (fin : Bool) (payload : List ℕ) (n : ℕ) (s : Socket) (o : Option Validator)
      → Takes n (open_text config fin payload n s o)
  unfolding open_text
  open_text-Takes fin payload n s none = refused-Takes n 1007 s
  open_text-Takes fin payload n s (some v) = open_message-Takes fin payload (some v) n s

  extend-Takes :
      (fin : Bool) (f : Fragments) (n : ℕ) (s : Socket) → Takes n (extend config fin f n s)
  unfolding extend
  extend-Takes fin f n s = elim (Bool-cases (ltb config.max_message_size (length f.buffer))) [
    | inl t ↦ rw t (refused-Takes n 1009 (record s { fragments = some f }))
    | inr e ↦ rw e (elim (Bool-cases fin) [
      | inl t' ↦
          rw t' (finish_message-Takes f.buffer f.validator n (record s { fragments = some f }))
      | inr f' ↦ rw f' (inl refl)
    ])
  ]

  extend_text-Takes :
      (fin : Bool) (buffer payload : List ℕ) (n : ℕ) (s : Socket) (o : Option Validator)
      → Takes n (extend_text config fin buffer payload n s o)
  unfolding extend_text
  extend_text-Takes fin buffer payload n s none = refused-Takes n 1007 s
  extend_text-Takes fin buffer payload n s (some v) =
      extend-Takes fin (record { buffer = buffer ++ payload; validator = some v }) n s

  continue_in-Takes :
      (fin : Bool) (buffer payload : List ℕ) (n : ℕ) (s : Socket) (o : Option Validator)
      → Takes n (continue_in config fin buffer payload n s o)
  unfolding continue_in
  continue_in-Takes fin buffer payload n s none =
      extend-Takes fin (record { buffer = buffer ++ payload; validator = none }) n s
  continue_in-Takes fin buffer payload n s (some v) =
      extend_text-Takes fin buffer payload n s (feed payload v)

  continue_message-Takes :
      (fin : Bool) (payload : List ℕ) (n : ℕ) (s : Socket) (o : Option Fragments)
      → Takes n (continue_message config fin payload n s o)
  unfolding continue_message
  continue_message-Takes fin payload n s none = refused-Takes n 1002 s
  continue_message-Takes fin payload n s (some f) =
      continue_in-Takes fin f.buffer payload n s f.validator

  data_frame-Takes :
      (fin : Bool) (opcode : ℕ) (payload : List ℕ) (n : ℕ) (s : Socket)
      → Takes n (
          if in_message config s.fragments
          then (consumed 0, close_control config 1002 s)
          else if nat_beq opcode 1
          then open_text config fin payload n s (feed payload ready)
          else open_message config fin payload none n s)
  data_frame-Takes fin opcode payload n s = elim (Bool-cases (in_message config s.fragments)) [
    | inl t ↦ rw t (refused-Takes n 1002 s)
    | inr f ↦ rw f (elim (Bool-cases (nat_beq opcode 1)) [
      | inl t ↦ rw t (open_text-Takes fin payload n s (feed payload ready))
      | inr f ↦ rw f (open_message-Takes fin payload none n s)
    ])
  ]

  pub handle_frame-Takes :
      (fin : Bool) (opcode : ℕ) (payload : List ℕ) (n : ℕ) (s : Socket)
      → Takes n (handle_frame config fin opcode payload n s)
  unfolding handle_frame handle_peer_close handle_pong
  handle_frame-Takes fin opcode payload n s = elim (Bool-cases (nat_beq opcode 8)) [
    | inl t ↦ rw t tt
    | inr f ↦ rw f (elim (Bool-cases (nat_beq opcode 9)) [
      | inl t ↦ rw t (inl refl)
      | inr f ↦ rw f (elim (Bool-cases (nat_beq opcode 10)) [
        | inl t ↦ rw t (inl refl)
        | inr f ↦ rw f (elim (Bool-cases (nat_beq opcode 1 || nat_beq opcode 2)) [
          | inl t ↦ rw t (data_frame-Takes fin opcode payload n s)
          | inr f ↦ rw f (elim (Bool-cases (nat_beq opcode 0)) [
            | inl t ↦ rw t (continue_message-Takes fin payload n s s.fragments)
            | inr f ↦ rw f (inl refl)
          ])
        ])
      ])
    ])
  ]

-- What was read of `l` bytes stands, too, when more bytes follow; a frame lies within the bytes and
-- is not empty.
abbrev pub Settles : ℕ → Parsed → Parsed → Type 0
Settles l later incomplete = Unit
Settles l later protocol_error = later ≡ protocol_error
Settles l later too_big = later ≡ too_big
Settles l later (frame fin opcode payload n) =
    (later ≡ frame fin opcode payload n) × (n ≤ l) × (0 < n)

module _ (max_frame_size : ℕ) where
  whole_payload-Settles :
      (fin : Bool) (opcode len offset : ℕ) (buf more : List ℕ)
      → ltb max_frame_size len ≡ false
      → (is_control opcode && (ltb 125 len || not fin)) ≡ false
      → 4 + len ≤ length buf
      → Settles
          (offset + length buf)
          (read_payload max_frame_size fin opcode len offset (buf ++ more))
          (read_payload max_frame_size fin opcode len offset buf)
  unfolding read_payload
  whole_payload-Settles fin opcode len offset buf more small fine h =
      let enough : (ltb (length (buf ++ more)) 4 ≡ false)
          × (ltb (length (buf ++ more)) (4 + len) ≡ false) =
        rw (length-append buf more) (ground arith) in
      let enough' : (ltb (length buf) 4 ≡ false) × (ltb (length buf) (4 + len) ≡ false) =
        ground arith in
      rw
        (
          small,
          fine,
          enough.0,
          enough.1,
          enough'.0,
          enough'.1,
          take-front 4 buf more (omega arith),
          drop-front 4 buf more (omega arith),
          take-front len (drop 4 buf) more (omega (arith, length-drop 4 buf)),
        )
        (refl, omega arith, omega arith)

  read_payload-Settles :
      (fin : Bool) (opcode len offset : ℕ) (buf more : List ℕ)
      → Settles
          (offset + length buf)
          (read_payload max_frame_size fin opcode len offset (buf ++ more))
          (read_payload max_frame_size fin opcode len offset buf)
  read_payload-Settles fin opcode len offset buf more = elim (Bool-cases (ltb max_frame_size len)) [
    | inl t ↦ unfold read_payload in rw t refl
    | inr f ↦ elim (Bool-cases (is_control opcode && (ltb 125 len || not fin))) [
      | inl t' ↦ unfold read_payload in rw (f, t') refl
      | inr f' ↦ elim (Bool-cases (ltb (length buf) 4)) [
        | inl t'' ↦ unfold read_payload in rw (f, f', t'') tt
        | inr f'' ↦ elim (Bool-cases (ltb (length buf) (4 + len))) [
          | inl short ↦ unfold read_payload in rw (f, f', f'', short) tt
          | inr long ↦ whole_payload-Settles fin opcode len offset buf more f f' (ground arith)
        ]
      ]
    ]
  ]

  extended-Settles :
      (first second : ℕ) (buf more : List ℕ)
      → has_rsv first ≡ false
      → not (high_bit second) ≡ false
      → ltb (length buf) (length_width (low_bits second)) ≡ false
      → Settles
          (suc (suc (length buf)))
          (read_frame max_frame_size (first ∷ second ∷ (buf ++ more)))
          (read_frame max_frame_size (first ∷ second ∷ buf))
  unfolding read_frame
  extended-Settles first second buf more f f' f'' =
      let w = length_width (low_bits second) in
      let len = if ltb 0 w then unpack 0 (take w buf) else low_bits second in
      let le : w ≤ length buf = ground arith in
      let far : ltb (length (buf ++ more)) w ≡ false = rw (length-append buf more) (ground arith) in
      let size : 2 + w + length (drop w buf) ≡ suc (suc (length buf)) =
        omega (arith, length-drop w buf) in
      rw (f, f', f'', far, take-front w buf more le, drop-front w buf more le, sym size)
        (read_payload-Settles (high_bit first) (low_nibble first) len (2 + w) (drop w buf) more)

  pub read_frame-Settles :
      (buf more : List ℕ)
      → Settles
          (length buf)
          (read_frame max_frame_size (buf ++ more))
          (read_frame max_frame_size buf)
  read_frame-Settles [] more = unfold read_frame in tt
  read_frame-Settles (first ∷ []) more = unfold read_frame in tt
  read_frame-Settles (first ∷ second ∷ buf) more = elim (Bool-cases (has_rsv first)) [
    | inl t ↦ unfold read_frame in rw t refl
    | inr f ↦ elim (Bool-cases (not (high_bit second))) [
      | inl t' ↦ unfold read_frame in rw (f, t') refl
      | inr f' ↦ elim (Bool-cases (ltb (length buf) (length_width (low_bits second)))) [
        | inl t'' ↦ unfold read_frame in rw (f, f', t'') tt
        | inr f'' ↦ extended-Settles first second buf more f f' f''
      ]
    ]
  ]
