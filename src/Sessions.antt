-- ===== src/Sessions.antt =====
-- Sessions: src/veloce/sessions.py.
pub mod Session
pub mod Store
