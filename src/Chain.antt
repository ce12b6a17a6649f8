-- ===== src/Chain.antt =====
-- core/base: the chain of slots that every call goes through, and the result that it ends with.
pub mod TokenResult
pub mod Slots
pub mod SeaEntry
mod Tests
