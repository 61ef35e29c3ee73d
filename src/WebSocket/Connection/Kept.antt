-- ===== src/WebSocket/Connection/Kept.antt =====
-- What every frame keeps: lemmas on `_parse_frame` of src/veloce/websocket.py.
use veloce.Prelude.{
  ℕ, ◌++◌, ◌≡◌, Bool, true, false, not, ◌||◌, Option, none, some, List, [], ◌∷◌, ltb, nat_beq,
  length, if◌then◌else◌, Bool-cases, inl, inr,
}
use veloce.WebSocket.Utf8.{Validator, ready, feed, is_utf8}
use veloce.WebSocket.Frame.{
  unpack, Parsed, incomplete, protocol_error, too_big, frame, read_frame, send_frame,
}
use veloce.WebSocket.Connection.{
  Item, Socket, Config, Outcome, Fragments, has_room, put_nowait, terminate_raw, close_control,
  handle_close_code, handle_close_frame, enqueue_or_close, finish_message, keep_fragments,
  open_message, open_text, extend, continue_message, continue_in, extend_text, handle_ping,
  handle_pong, handle_peer_close, handle_frame, handle_parsed, parse_frame, is_peer_close_code,
  all_done, in_message, answered,
}

-- A property of the connection that each single change of `_parse_frame` keeps.
pub record IsKept (config : Config) (P : Socket → Type 0) : Type 0 where
  pub terminate :
      (code : ℕ) (recorded : Bool) (s : Socket) → P s → P (terminate_raw config code recorded s)
  pub set_reason :
      (code : Option ℕ) (reason : List ℕ) (s : Socket)
      → P s
      → P (record s { close_code = code; close_reason = reason })
  pub peer_close : (s : Socket) → P s → P (record s { peer_closed = true })
  pub set_fragments : (f : Option Fragments) (s : Socket) → P s → P (record s { fragments = f })
  pub enqueue :
      (item : Item) (s : Socket)
      → P s
      → has_room config s.queue ≡ true
      → P (record s { queue = s.queue ++ (item ∷ []) })
  pub write :
      (bytes : List ℕ) (s : Socket) → P s → P (record s { written = s.written ++ (bytes ∷ []) })
  pub set_pong : (o : Option (List ℕ)) (s : Socket) → P s → P (record s { pending_pong = o })
  pub set_token : (o : Option ℕ) (s : Socket) → P s → P (record s { hb_token = o })

module _ {config : Config} {P : Socket → Type 0} (kept : IsKept config P) where
  close_control-Kept : (code : ℕ) (s : Socket) → P s → P (close_control config code s)
  unfolding close_control
  close_control-Kept code s h = kept.terminate code true s h

  handle_close_code-Kept :
      (code : ℕ) (reason : List ℕ) (s : Socket) → P s → P (handle_close_code config code reason s)
  unfolding handle_close_code
  handle_close_code-Kept code reason s h = elim (Bool-cases (not (is_peer_close_code code))) [
    | inl t ↦ rw t (close_control-Kept 1002 s h)
    | inr f ↦ rw f (elim (Bool-cases (not (is_utf8 reason))) [
      | inl t' ↦ rw t' (close_control-Kept 1007 s h)
      | inr f' ↦ rw f' (
          kept.terminate code false (record s { close_code = some code; close_reason = reason })
            (kept.set_reason (some code) reason s h))
    ])
  ]

  handle_close_frame-Kept :
      (payload : List ℕ) (s : Socket) → P s → P (handle_close_frame config payload s)
  unfolding handle_close_frame
  handle_close_frame-Kept [] s h =
      kept.terminate 1000 false (record s { close_code = some 1005 })
        (kept.set_reason (some 1005) s.close_reason s h)
  handle_close_frame-Kept (b ∷ []) s h = close_control-Kept 1002 s h
  handle_close_frame-Kept (b ∷ c ∷ reason) s h =
      handle_close_code-Kept (unpack 0 (b ∷ c ∷ [])) reason s h

  enqueue_or_close-Kept :
      (payload : List ℕ) (s : Socket) → P s → P (enqueue_or_close config payload s)
  unfolding enqueue_or_close put_nowait
  enqueue_or_close-Kept payload s h = elim (Bool-cases (has_room config s.queue)) [
    | inl t ↦ rw t (kept.enqueue (Item.message payload) s h t)
    | inr f ↦ rw f (close_control-Kept 1009 s h)
  ]

  finish_message-Kept :
      (payload : List ℕ) (v : Option Validator) (n : ℕ) (s : Socket)
      → P s
      → P (finish_message config payload v n s).1
  unfolding finish_message
  finish_message-Kept payload v n s h = elim (Bool-cases (not (all_done config v))) [
    | inl t ↦ rw t (close_control-Kept 1007 s h)
    | inr f ↦ rw f (
        kept.set_fragments none (enqueue_or_close config payload s)
          (enqueue_or_close-Kept payload s h))
  ]

  keep_fragments-Kept :
      (f : Fragments) (n : ℕ) (s : Socket) → P s → P (keep_fragments config f n s).1
  unfolding keep_fragments
  keep_fragments-Kept f n s h = elim (Bool-cases (ltb config.max_message_size (length f.buffer))) [
    | inl t ↦ rw t (
        close_control-Kept 1009 (record s { fragments = some f }) (kept.set_fragments (some f) s h))
    | inr e ↦ rw e (kept.set_fragments (some f) s h)
  ]

  open_message-Kept :
      (fin : Bool) (payload : List ℕ) (v : Option Validator) (n : ℕ) (s : Socket)
      → P s
      → P (open_message config fin payload v n s).1
  unfolding open_message
  open_message-Kept true payload v n s h = finish_message-Kept payload v n s h
  open_message-Kept false payload v n s h = keep_fragments-Kept _ n s h

  open_text-Kept :
      (fin : Bool) (payload : List ℕ) (n : ℕ) (s : Socket) (o : Option Validator)
      → P s
      → P (open_text config fin payload n s o).1
  unfolding open_text
  open_text-Kept fin payload n s none h = close_control-Kept 1007 s h
  open_text-Kept fin payload n s (some v) h = open_message-Kept fin payload (some v) n s h

  extend-Kept :
      (fin : Bool) (f : Fragments) (n : ℕ) (s : Socket) → P s → P (extend config fin f n s).1
  unfolding extend
  extend-Kept fin f n s h = elim (Bool-cases (ltb config.max_message_size (length f.buffer))) [
    | inl t ↦ rw t (
        close_control-Kept 1009 (record s { fragments = some f }) (kept.set_fragments (some f) s h))
    | inr e ↦ rw e (elim (Bool-cases fin) [
      | inl t' ↦ rw t' (
          finish_message-Kept f.buffer f.validator n (record s { fragments = some f })
            (kept.set_fragments (some f) s h))
      | inr f' ↦ rw f' (kept.set_fragments (some f) s h)
    ])
  ]

  extend_text-Kept :
      (fin : Bool) (buffer payload : List ℕ) (n : ℕ) (s : Socket) (o : Option Validator)
      → P s
      → P (extend_text config fin buffer payload n s o).1
  unfolding extend_text
  extend_text-Kept fin buffer payload n s none h = close_control-Kept 1007 s h
  extend_text-Kept fin buffer payload n s (some v) h = extend-Kept fin _ n s h

  continue_in-Kept :
      (fin : Bool) (buffer payload : List ℕ) (n : ℕ) (s : Socket) (o : Option Validator)
      → P s
      → P (continue_in config fin buffer payload n s o).1
  unfolding continue_in
  continue_in-Kept fin buffer payload n s none h = extend-Kept fin _ n s h
  continue_in-Kept fin buffer payload n s (some v) h =
      extend_text-Kept fin buffer payload n s (feed payload v) h

  continue_message-Kept :
      (fin : Bool) (payload : List ℕ) (n : ℕ) (s : Socket) (o : Option Fragments)
      → P s
      → P (continue_message config fin payload n s o).1
  unfolding continue_message
  continue_message-Kept fin payload n s none h = close_control-Kept 1002 s h
  continue_message-Kept fin payload n s (some f) h =
      continue_in-Kept fin f.buffer payload n s f.validator h

  handle_ping-Kept : (payload : List ℕ) (s : Socket) → P s → P (handle_ping config payload s)
  unfolding handle_ping
  handle_ping-Kept payload s h = elim (Bool-cases config.gate_open) [
    | inl t ↦ rw t (kept.write (send_frame payload 10) s h)
    | inr f ↦ rw f (kept.set_pong (some payload) s h)
  ]

  data_frame-Kept :
      (fin : Bool) (opcode : ℕ) (payload : List ℕ) (n : ℕ) (s : Socket)
      → P s
      → P (
          (if in_message config s.fragments
            then (Outcome.consumed 0, close_control config 1002 s)
            else if nat_beq opcode 1
            then open_text config fin payload n s (feed payload ready)
            else open_message config fin payload none n s).1)
  data_frame-Kept fin opcode payload n s h = elim (Bool-cases (in_message config s.fragments)) [
    | inl t ↦ rw t (close_control-Kept 1002 s h)
    | inr f ↦ rw f (elim (Bool-cases (nat_beq opcode 1)) [
      | inl t ↦ rw t (open_text-Kept fin payload n s (feed payload ready) h)
      | inr f ↦ rw f (open_message-Kept fin payload none n s h)
    ])
  ]

  handle_frame-Kept :
      (fin : Bool) (opcode : ℕ) (payload : List ℕ) (n : ℕ) (s : Socket)
      → P s
      → P (handle_frame config fin opcode payload n s).1
  unfolding handle_frame handle_peer_close handle_pong
  handle_frame-Kept fin opcode payload n s h = elim (Bool-cases (nat_beq opcode 8)) [
    | inl t ↦
        rw t
          (handle_close_frame-Kept payload (record s { peer_closed = true }) (kept.peer_close s h))
    | inr f ↦ rw f (elim (Bool-cases (nat_beq opcode 9)) [
      | inl t ↦ rw t (handle_ping-Kept payload s h)
      | inr f ↦ rw f (elim (Bool-cases (nat_beq opcode 10)) [
        | inl t ↦ rw t (kept.set_token (answered config payload s.hb_token) s h)
        | inr f ↦ rw f (elim (Bool-cases (nat_beq opcode 1 || nat_beq opcode 2)) [
          | inl t ↦ rw t (data_frame-Kept fin opcode payload n s h)
          | inr f ↦ rw f (elim (Bool-cases (nat_beq opcode 0)) [
            | inl t ↦ rw t (continue_message-Kept fin payload n s s.fragments h)
            | inr f ↦ rw f h
          ])
        ])
      ])
    ])
  ]

  handle_parsed-Kept : (parsed : Parsed) (s : Socket) → P s → P (handle_parsed config parsed s).1
  unfolding handle_parsed
  handle_parsed-Kept incomplete s h = h
  handle_parsed-Kept protocol_error s h = close_control-Kept 1002 s h
  handle_parsed-Kept too_big s h = close_control-Kept 1009 s h
  handle_parsed-Kept (frame fin opcode payload n) s h = handle_frame-Kept fin opcode payload n s h

  pub parse_frame-Kept : (buffer : List ℕ) (s : Socket) → P s → P (parse_frame config buffer s).1
  unfolding parse_frame
  parse_frame-Kept buffer s h = handle_parsed-Kept (read_frame config.max_frame_size buffer) s h
