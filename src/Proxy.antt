-- ===== src/Proxy.antt =====
-- src/proxy/mod.rs: the parts of the proxy that decide, apart from HTTP.
pub mod Usage
pub mod Tap
pub mod Target
pub mod Span
pub mod Headers
pub mod Attempt
pub mod Forward
pub mod Pump
pub mod Respond
pub mod Serve
pub mod Upload
pub mod Reporter
pub mod Tests
