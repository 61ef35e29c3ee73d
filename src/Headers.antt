-- ===== src/Headers.antt =====
-- Headers: src/veloce/_header_parsing.py and the classes of src/veloce/http that it serves.
pub mod Quoted
pub mod Lists
pub mod Params
pub mod HeaderSet
