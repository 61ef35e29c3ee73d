-- ===== src/WebSocket/Heartbeat.antt =====
-- The heartbeat of src/veloce/websocket.py, which finds a peer that has gone: a timer, whose ticks
-- are calls of `heartbeat_tick`.
pub mod Laws
use veloce.Prelude.{
  ℕ, ◌+◌, ◌%◌, Bool, true, false, not, ◌||◌, Option, none, some, List, [], ◌∷◌, ◌++◌, if◌then◌else◌,
}
use veloce.WebSocket.Frame.{pack, send_frame}
use veloce.WebSocket.Connection.{
  Item, raw_disconnect, Socket, Config, put_nowait, or_same, cancel_heartbeat,
}

-- `_schedule_heartbeat`
abbrev pub schedule_heartbeat : Socket → Socket
schedule_heartbeat s = record s { hb_armed = true }

-- self._hb_handle = None
abbrev pub disarm : Socket → Socket
disarm s = record s { hb_armed = false }

-- Bytes came in since the last tick.
abbrev pub keep_alive : Socket → Socket
keep_alive s = schedule_heartbeat (record s { hb_saw_inbound = false; hb_token = none })

-- A PING with the next token.
abbrev pub probe : Socket → Socket
probe s = schedule_heartbeat (record s {
  hb_next_token = (s.hb_next_token + 1) % 4294967296;
  hb_token = some s.hb_next_token;
  written = s.written ++ (send_frame (pack 4 s.hb_next_token) 9 ∷ []);
})

module _ (config : Config) where
  unfoldable pub start_heartbeat : Socket → Socket
  start_heartbeat s =
      if not config.heartbeat || (s.closed || s.hb_armed) then s else schedule_heartbeat s

  -- `_close_heartbeat_timeout`
  unfoldable pub close_heartbeat_timeout : Socket → Socket
  unfolding put_nowait cancel_heartbeat
  close_heartbeat_timeout s = record (cancel_heartbeat config s) {
    closed = true;
    close_code = some 1006;
    queue = or_same config (put_nowait config raw_disconnect s.queue) s.queue;
    transport_open = false;
  }

  -- No bytes came in since the last tick.
  unfoldable pub silent_tick : Option ℕ → Socket → Socket
  unfolding close_heartbeat_timeout pack send_frame
  silent_tick (some token) s = close_heartbeat_timeout s
  silent_tick none s = probe s

  -- `_heartbeat_tick`
  unfoldable pub heartbeat_tick : Socket → Socket
  unfolding silent_tick
  heartbeat_tick s =
      if s.closed
      then disarm s
      else if s.hb_saw_inbound
      then keep_alive (disarm s)
      else silent_tick s.hb_token (disarm s)
