-- ===== src/Bridge/Request.antt =====
-- src/bridge/request.rs: an Anthropic Messages request becomes an OpenAI Chat Completions request.
pub mod Content
pub mod Body
pub mod Messages
pub mod Leading
