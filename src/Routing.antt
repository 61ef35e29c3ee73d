-- ===== src/Routing.antt =====
-- Routing: router.py, _node.py, _regex.py and converters.py of src/veloce/routing.
pub mod Path
pub mod Node
pub mod Insert
pub mod Match
pub mod StaticMap
pub mod Register
pub mod Converters
pub mod Regex
