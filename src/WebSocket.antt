-- ===== src/WebSocket.antt =====
-- The WebSocket protocol on a raw transport: src/veloce/websocket.py.
pub mod Utf8
pub mod Mask
pub mod Frame
pub mod Connection
pub mod Feed
pub mod Heartbeat
pub mod Closing
