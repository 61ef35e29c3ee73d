-- ===== src/WebSocket/Connection.antt =====
-- The receiving side of a raw connection in src/veloce/websocket.py: what `_parse_frame` does with
-- a frame, and the ways to close.
pub mod Laws
pub mod Kept
use veloce.Prelude.{
  ℕ, ◌+◌, Bool, true, false, not, ◌&&◌, ◌||◌, Option, none, some, List, [], ◌∷◌, ◌++◌, leb, ltb,
  nat_beq, ◌==◌, length, drop, if◌then◌else◌,
}
use veloce.Text.{text_eq}
use veloce.WebSocket.Utf8.{Validator, ready, done, feed, is_utf8}
use veloce.WebSocket.Frame.{
  pack, unpack, Parsed, incomplete, protocol_error, too_big, frame, read_frame, send_frame,
}

-- An item of the receive queue: a message, or `_RAW_DISCONNECT`.
pub data Item : Type 0 where
  message : List ℕ → Item
  raw_disconnect : Item

-- `_frag_opcode` and `_frag_buffer`, and `_frag_validator`, which binary messages lack; none of
-- them is set where no message is in progress.
pub record Fragments : Type 0 where
  pub buffer : List ℕ
  pub validator : Option Validator

-- `hb_armed` is that `_hb_handle` is a timer.
pub record Socket : Type 0 where
  pub closed : Bool
  pub close_frame_sent : Bool
  pub peer_closed : Bool
  pub close_code : Option ℕ
  pub close_reason : List ℕ
  pub fragments : Option Fragments
  pub queue : List Item
  pub written : List (List ℕ)
  pub transport_open : Bool
  pub pending_pong : Option (List ℕ)
  pub hb_armed : Bool
  pub hb_token : Option ℕ
  pub hb_next_token : ℕ
  pub hb_saw_inbound : Bool

-- What the class and its constructor fix: the bounds of a frame, of a message and of the queue,
-- what the send gate answers, and whether there is a heartbeat.
pub record Config : Type 0 where
  pub max_frame_size : ℕ
  pub max_message_size : ℕ
  pub queue_size : ℕ
  pub gate_open : Bool
  pub heartbeat : Bool

-- The bytes that a frame took, 0 for `return 0`, or `WebSocketDisconnect`.
pub data Outcome : Type 0 where
  consumed : ℕ → Outcome
  disconnect : ℕ → Outcome

abbrev pub is_peer_close_code : ℕ → Bool
is_peer_close_code code =
    leb 3000 code && leb code 4999
    || (leb 1000 code && leb code 1003 || leb 1007 code && leb code 1014)

abbrev pub set_close_code : Bool → ℕ → Option ℕ → Option ℕ
set_close_code true code old = some code
set_close_code false code old = old

module _ (config : Config) where
  -- not queue.full(): a queue of size 0 has no bound, and nor has one of a negative size, which is 0 here
  abbrev pub has_room : List Item → Bool
  has_room queue = nat_beq config.queue_size 0 || ltb (length queue) config.queue_size

  -- queue.put_nowait, or `QueueFull`
  unfoldable pub put_nowait : Item → List Item → Option (List Item)
  put_nowait item queue = if has_room queue then some (queue ++ (item ∷ [])) else none

  abbrev pub or_same : Option (List Item) → List Item → List Item
  or_same none queue = queue
  or_same (some queue') queue = queue'

  -- `_cancel_heartbeat`
  unfoldable pub cancel_heartbeat : Socket → Socket
  cancel_heartbeat s = record s { hb_armed = false; hb_token = none; hb_saw_inbound = false }

  -- `_terminate_raw`
  unfoldable pub terminate_raw : ℕ → Bool → Socket → Socket
  unfolding put_nowait cancel_heartbeat
  terminate_raw code record_close_code s = record (cancel_heartbeat s) {
    written = s.written ++ (send_frame (pack 2 code) 8 ∷ []);
    close_code = set_close_code record_close_code code s.close_code;
    closed = true;
    close_frame_sent = true;
    queue = or_same (put_nowait raw_disconnect s.queue) s.queue;
    transport_open = false;
  }

  -- `_close_control`, with 1002, 1007 and 1009
  unfoldable pub close_control : ℕ → Socket → Socket
  unfolding terminate_raw
  close_control code s = terminate_raw code true s

  -- A close frame of two bytes or more.
  unfoldable pub handle_close_code : ℕ → List ℕ → Socket → Socket
  unfolding close_control
  handle_close_code code reason s =
      if not (is_peer_close_code code)
      then close_control 1002 s
      else if not (is_utf8 reason)
      then close_control 1007 s
      else terminate_raw code false (record s { close_code = some code; close_reason = reason })

  -- `_handle_close_frame`
  unfoldable pub handle_close_frame : List ℕ → Socket → Socket
  unfolding handle_close_code
  handle_close_frame [] s = terminate_raw 1000 false (record s { close_code = some 1005 })
  handle_close_frame (b ∷ []) s = close_control 1002 s
  handle_close_frame (b ∷ c ∷ reason) s = handle_close_code (unpack 0 (b ∷ c ∷ [])) reason s

  abbrev enqueue_result : Option (List Item) → Socket → Socket
  enqueue_result none s = close_control 1009 s
  enqueue_result (some queue) s = record s { queue = queue }

  -- `_enqueue_or_close`
  unfoldable pub enqueue_or_close : List ℕ → Socket → Socket
  unfolding close_control put_nowait
  enqueue_or_close payload s = enqueue_result (put_nowait (message payload) s.queue) s

  -- Whether the validator, if there is one, is at the end of a code point.
  abbrev pub all_done : Option Validator → Bool
  all_done none = true
  all_done (some v) = done v

  -- The message is whole, and does not end within a code point.
  unfoldable pub finish_message : List ℕ → Option Validator → ℕ → Socket → Outcome × Socket
  unfolding enqueue_or_close
  finish_message payload validator frame_len s =
      if not (all_done validator)
      then (consumed 0, close_control 1007 s)
      else (consumed frame_len, record (enqueue_or_close payload s) { fragments = none })

  -- More of the message is to come.
  unfoldable pub keep_fragments : Fragments → ℕ → Socket → Outcome × Socket
  unfolding close_control
  keep_fragments f frame_len s =
      let s' = record s { fragments = some f } in
      if ltb config.max_message_size (length f.buffer)
      then (consumed 0, close_control 1009 s')
      else (consumed frame_len, s')

  -- A text or binary frame that opens a message, its validator fed already.
  unfoldable pub open_message : Bool → List ℕ → Option Validator → ℕ → Socket → Outcome × Socket
  unfolding finish_message keep_fragments
  open_message fin payload validator frame_len s =
      if fin
      then finish_message payload validator frame_len s
      else keep_fragments (record { buffer = payload; validator = validator }) frame_len s

  -- A text frame feeds a new validator.
  unfoldable pub open_text : Bool → List ℕ → ℕ → Socket → Option Validator → Outcome × Socket
  unfolding open_message
  open_text fin payload frame_len s none = (consumed 0, close_control 1007 s)
  open_text fin payload frame_len s (some v) = open_message fin payload (some v) frame_len s

  -- A continuation whose bytes the validator took.
  unfoldable pub extend : Bool → Fragments → ℕ → Socket → Outcome × Socket
  unfolding finish_message
  extend fin f frame_len s =
      let s' = record s { fragments = some f } in
      if ltb config.max_message_size (length f.buffer)
      then (consumed 0, close_control 1009 s')
      else if fin
      then finish_message f.buffer f.validator frame_len s'
      else (consumed frame_len, s')

  unfoldable pub extend_text :
      Bool → List ℕ → List ℕ → ℕ → Socket → Option Validator → Outcome × Socket
  unfolding extend
  extend_text fin buffer payload frame_len s none = (consumed 0, close_control 1007 s)
  extend_text fin buffer payload frame_len s (some v) =
      extend fin (record { buffer = buffer ++ payload; validator = some v }) frame_len s

  -- A continuation of the message in progress.
  unfoldable pub continue_in :
      Bool → List ℕ → List ℕ → ℕ → Socket → Option Validator → Outcome × Socket
  unfolding extend feed
  continue_in fin buffer payload frame_len s none =
      extend fin (record { buffer = buffer ++ payload; validator = none }) frame_len s
  continue_in fin buffer payload frame_len s (some v) =
      extend_text fin buffer payload frame_len s (feed payload v)

  -- A continuation frame.
  unfoldable pub continue_message : Bool → List ℕ → ℕ → Socket → Option Fragments → Outcome × Socket
  unfolding continue_in
  continue_message fin payload frame_len s none = (consumed 0, close_control 1002 s)
  continue_message fin payload frame_len s (some f) =
      continue_in fin f.buffer payload frame_len s f.validator

  unfoldable pub handle_ping : List ℕ → Socket → Socket
  handle_ping payload s =
      if config.gate_open
      then record s { written = s.written ++ (send_frame payload 10 ∷ []) }
      else record s { pending_pong = some payload }

  abbrev pub answered : List ℕ → Option ℕ → Option ℕ
  answered payload none = none
  answered payload (some token) = if payload == pack 4 token then none else some token

  unfoldable pub handle_pong : List ℕ → Socket → Socket
  handle_pong payload s = record s { hb_token = answered payload s.hb_token }

  abbrev or_normal : Option ℕ → ℕ
  or_normal none = 1000
  or_normal (some code) = if nat_beq code 0 then 1000 else code

  unfoldable pub handle_peer_close : List ℕ → Socket → Outcome × Socket
  unfolding handle_close_frame
  handle_peer_close payload s =
      let s' = handle_close_frame payload (record s { peer_closed = true }) in
      (disconnect (or_normal s'.close_code), s')

  abbrev pub in_message : Option Fragments → Bool
  in_message none = false
  in_message (some f) = true

  -- A whole frame.
  unfoldable pub handle_frame : Bool → ℕ → List ℕ → ℕ → Socket → Outcome × Socket
  unfolding handle_peer_close handle_ping handle_pong open_text continue_message
  handle_frame fin opcode payload frame_len s =
      if nat_beq opcode 8
      then handle_peer_close payload s
      else if nat_beq opcode 9
      then (consumed frame_len, handle_ping payload s)
      else if nat_beq opcode 10
      then (consumed frame_len, handle_pong payload s)
      else if nat_beq opcode 1 || nat_beq opcode 2
      then if in_message s.fragments
        then (consumed 0, close_control 1002 s)
        else if nat_beq opcode 1
        then open_text fin payload frame_len s (feed payload ready)
        else open_message fin payload none frame_len s
      else if nat_beq opcode 0
      then continue_message fin payload frame_len s s.fragments
      else (consumed frame_len, s)

  unfoldable pub handle_parsed : Parsed → Socket → Outcome × Socket
  unfolding handle_frame
  handle_parsed incomplete s = (consumed 0, s)
  handle_parsed protocol_error s = (consumed 0, close_control 1002 s)
  handle_parsed too_big s = (consumed 0, close_control 1009 s)
  handle_parsed (frame fin opcode payload frame_len) s = handle_frame fin opcode payload frame_len s

  -- `_parse_frame`, on the bytes of the buffer from `start` on
  unfoldable pub parse_frame : List ℕ → Socket → Outcome × Socket
  unfolding handle_parsed
  parse_frame buffer s = handle_parsed (read_frame config.max_frame_size buffer) s
