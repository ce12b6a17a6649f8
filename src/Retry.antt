-- ===== src/Retry.antt =====
-- core/retry: the classification of errors, the policies that say whether to try again, and the
-- exponential back-off between two tries.
pub mod Classify
pub mod Policy
pub mod Backoff
mod Tests
