-- ===== src/Tests/WebSocket.antt =====
-- Tests of WebSocket.
use veloce.Prelude.{
  ◌≤◌, ℕ, ◌≡◌, refl, ◌↔◌, true, false, List, [], ◌∷◌, ◌++◌, none, some, inl, inr, length, arith,
  ◌⊎◌,
}
use veloce.WebSocket.Utf8.{is_utf8}
use veloce.WebSocket.Utf8.Sound.{IsUtf8, is_utf8-iff-IsUtf8}
use veloce.WebSocket.Mask.{unmask}
use veloce.WebSocket.Mask.Laws.{cycle, unmask-cycle}
use veloce.WebSocket.Frame.{frame, incomplete, read_frame}
use veloce.WebSocket.Frame.RoundTrip.{peer_frame, read_frame-peer_frame}
use veloce.WebSocket.Connection.{Socket, Config, consumed, parse_frame, message, raw_disconnect}
use veloce.WebSocket.Connection.Laws.{IsValid, parse_frame-IsValid}
use veloce.WebSocket.Connection.{is_peer_close_code}
use veloce.WebSocket.Feed.{feed_data}
use veloce.WebSocket.Feed.Cut.{then_feed, feed_data-append}
use veloce.WebSocket.Feed.Ended.{IsEnded, feed_data-IsEnded}
use veloce.WebSocket.Heartbeat.{start_heartbeat, heartbeat_tick}
use veloce.WebSocket.Heartbeat.Laws.{IsDead, heartbeat_tick-IsDead}
use veloce.WebSocket.Closing.{sanitise_close, sanitise_close-IsValid}

-- The euro sign, and a surrogate.
abbrev euro : List ℕ
euro = 0xE2 ∷ 0x82 ∷ 0xAC ∷ []

utf8_tests : (is_utf8 euro ≡ true) × (is_utf8 (0xED ∷ 0xA0 ∷ 0x80 ∷ []) ≡ false)
unfolding is_utf8
utf8_tests = (refl, refl)

is_utf8-iff-IsUtf8_example : (is_utf8 euro ≡ true) ↔ IsUtf8 euro
is_utf8-iff-IsUtf8_example = is_utf8-iff-IsUtf8 euro

-- "Hello", as RFC 6455 masks it in section 5.7.
abbrev hello : List ℕ
hello = 0x48 ∷ 0x65 ∷ 0x6C ∷ 0x6C ∷ 0x6F ∷ []

abbrev hello_frame : List ℕ
hello_frame = 0x81 ∷ 0x85 ∷ 0x37 ∷ 0xFA ∷ 0x21 ∷ 0x3D ∷ 0x7F ∷ 0x9F ∷ 0x4D ∷ 0x51 ∷ 0x58 ∷ []

frame_tests :
    (read_frame 100 hello_frame ≡ frame true 1 hello 11)
    × (read_frame 100 (0x81 ∷ 0x85 ∷ 0x37 ∷ []) ≡ incomplete)
    × (peer_frame true 1 0x37 0xFA 0x21 0x3D hello ≡ hello_frame)
unfolding read_frame unmask peer_frame
frame_tests = (refl, refl, refl)

unmask-cycle_example :
    unmask hello (0x37 ∷ 0xFA ∷ 0x21 ∷ 0x3D ∷ []) ≡ cycle 0x37 0xFA 0x21 0x3D hello
unmask-cycle_example = unmask-cycle 0x37 0xFA 0x21 0x3D hello

read_frame-peer_frame_example :
    let whole = peer_frame true 1 0x37 0xFA 0x21 0x3D hello in
    read_frame 100 (whole ++ (0x81 ∷ [])) ≡ frame true 1 hello (length whole)
read_frame-peer_frame_example =
    read_frame-peer_frame 100 true 1 0x37 0xFA 0x21 0x3D hello (0x81 ∷ []) (omega arith)
      (omega arith) (omega arith) refl

abbrev opened : Socket
opened = record {
  closed = false;
  close_frame_sent = false;
  peer_closed = false;
  close_code = none;
  close_reason = [];
  fragments = none;
  queue = [];
  written = [];
  transport_open = true;
  pending_pong = none;
  hb_armed = false;
  hb_token = none;
  hb_next_token = 0;
  hb_saw_inbound = false;
}

abbrev config : Config
config = record {
  max_frame_size = 100;
  max_message_size = 100;
  queue_size = 1;
  gate_open = true;
  heartbeat = true;
}

connection_tests :
    ((parse_frame config hello_frame opened).0 ≡ consumed 11)
    × ((parse_frame config hello_frame opened).1.queue ≡ message hello ∷ [])
    × ((parse_frame config (0x01 ∷ 0x05 ∷ []) opened).1.close_code ≡ some 1002)
    × ((parse_frame (record config { queue_size = 0 }) hello_frame opened).1.queue
        ≡ message hello ∷ [])
unfolding parse_frame read_frame unmask
connection_tests = (refl, refl, refl, refl)

parse_frame-IsValid_example : IsValid config (parse_frame config hello_frame opened).1
parse_frame-IsValid_example =
    parse_frame-IsValid config hello_frame opened (inl refl, inr (omega arith))

-- A message, a second one cut in two, and a close frame behind them.
abbrev stream : List ℕ
stream = hello_frame ++ (0x81 ∷ 0x81 ∷ 0 ∷ 0 ∷ [])

abbrev rest_of_stream : List ℕ
rest_of_stream = 0 ∷ 0 ∷ 65 ∷ 0x88 ∷ 0x80 ∷ 0 ∷ 0 ∷ 0 ∷ 0 ∷ 7 ∷ []

abbrev wide : Config
wide = record {
  max_frame_size = 100;
  max_message_size = 100;
  queue_size = 9;
  gate_open = true;
  heartbeat = true;
}

feed_tests :
    ((feed_data wide stream [] opened).buffer ≡ 0x81 ∷ 0x81 ∷ 0 ∷ 0 ∷ [])
    × ((feed_data wide (stream ++ rest_of_stream) [] opened).raised ≡ some 1005)
    × ((feed_data wide (stream ++ rest_of_stream) [] opened).socket.queue
        ≡ message hello ∷ message (65 ∷ []) ∷ raw_disconnect ∷ [])
unfolding feed_data parse_frame read_frame unmask
feed_tests = (refl, refl, refl)

feed_data-append_example :
    feed_data wide (stream ++ rest_of_stream) [] opened
    ≡ then_feed wide rest_of_stream (feed_data wide stream [] opened)
feed_data-append_example = feed_data-append wide stream rest_of_stream [] opened

feed_data-IsEnded_example : IsEnded wide (feed_data wide stream [] opened)
feed_data-IsEnded_example = feed_data-IsEnded wide stream [] opened refl

abbrev armed : Socket
armed = start_heartbeat config opened

heartbeat_tests :
    ((heartbeat_tick config armed).hb_token ≡ some 0)
    × ((heartbeat_tick config armed).written ≡ (0x89 ∷ 4 ∷ 0 ∷ 0 ∷ 0 ∷ 0 ∷ []) ∷ [])
    × ((heartbeat_tick config (heartbeat_tick config armed)).close_code ≡ some 1006)
unfolding heartbeat_tick start_heartbeat
heartbeat_tests = (refl, refl, refl)

heartbeat_tick-IsDead_example :
    let fed = (feed_data config stream [] armed).socket in
    ((fed.closed ≡ true) ⊎ ((heartbeat_tick config fed).closed ≡ false))
    × IsDead config (heartbeat_tick config (heartbeat_tick config (heartbeat_tick config armed)))
unfolding start_heartbeat
heartbeat_tick-IsDead_example = heartbeat_tick-IsDead config stream [] armed refl refl refl

-- 1005 may not be sent.
sanitise_close-IsValid_example :
    let (code', reason') = sanitise_close 1005 euro in
    (is_peer_close_code code' ≡ true) × (length reason' ≤ 123) × (is_utf8 reason' ≡ true)
unfolding is_utf8
sanitise_close-IsValid_example = sanitise_close-IsValid 1005 euro refl
