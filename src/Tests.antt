-- ===== src/Tests.antt =====
-- Runs of the definitions on concrete inputs, and the theorems at inputs that meet their conditions.
mod Routing
mod RateLimit
mod Cache
mod WebSocket
mod Sessions
mod Headers
mod ProxyFix
mod Signals
mod Cors
mod Mounting
mod Signing
mod Csrf
mod Ranges
mod Converters
