-- ===== src/Flow.antt =====
-- core/flow: the checkers of traffic shaping.
pub mod Throttling
pub mod Reject
mod Tests
