-- ===== src/WebSocket/Feed.antt =====
-- `feed_data` of src/veloce/websocket.py: what a run of bytes from the transport does.
pub mod Consumed
pub mod Loop
pub mod Ended
pub mod Cut
use veloce.Prelude.{
  ℕ, zero, suc, Bool, true, false, ◌&&◌, Option, none, some, List, [], ◌∷◌, ◌++◌, nat_beq, length,
  drop, if◌then◌else◌,
}
use veloce.WebSocket.Connection.{Socket, Config, Outcome, consumed, disconnect, parse_frame}

-- A connection and its `_recv_buffer`, with the code of a `WebSocketDisconnect` that was raised.
pub record Fed : Type 0 where
  pub raised : Option ℕ
  pub buffer : List ℕ
  pub socket : Socket

abbrev pub returned : List ℕ → Socket → Fed
returned buffer s = record { raised = none; buffer = buffer; socket = s }

abbrev pub is_nil : List ℕ → Bool
is_nil [] = true
is_nil (b ∷ bs) = false

module _ (config : Config) where
  -- `_note_heartbeat_inbound`
  unfoldable pub note_heartbeat_inbound : Socket → Socket
  note_heartbeat_inbound s =
      if config.heartbeat && s.hb_armed then record s { hb_saw_inbound = true } else s

  -- What a round of the loop leads to; `again` are the rounds that follow.
  abbrev pub next : (List ℕ → Socket → Fed) → List ℕ → Outcome × Socket → Fed
  next again buffer (disconnect code, s) = record {
    raised = some code;
    buffer = buffer;
    socket = s;
  }
  next again buffer (consumed n, s) =
      if nat_beq n 0 then returned buffer s else again (drop n buffer) s

  -- The loop, on the buffer from `pos` on.
  unfoldable pub feed_frames : ℕ → List ℕ → Socket → Fed
  unfolding parse_frame
  feed_frames zero buffer s = returned buffer s
  feed_frames (suc fuel) buffer s =
      if s.closed
      then returned buffer s
      else next (λ b t. feed_frames fuel b t) buffer (parse_frame config buffer s)

  -- Every round takes a byte, so the buffer's length is enough fuel.
  unfoldable pub feed_data : List ℕ → List ℕ → Socket → Fed
  unfolding note_heartbeat_inbound feed_frames
  feed_data bytes buffer s =
      if is_nil bytes
      then returned buffer s
      else feed_frames (length (buffer ++ bytes)) (buffer ++ bytes) (note_heartbeat_inbound s)
