-- ===== src/Bridge/Stream.antt =====
-- `SseTranslator` of src/bridge/stream.rs: the chunks of an OpenAI stream become the events of an
-- Anthropic stream. An operation returns the translator and the events that it
-- appends to `out`, whose bytes are those of Render.
pub mod Events
pub mod Delta
pub mod Feed
pub mod Phase
pub mod Sound
pub mod Message
pub mod Render
