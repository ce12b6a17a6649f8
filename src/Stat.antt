-- ===== src/Stat.antt =====
-- The statistics of core/stat/base: sliding windows of buckets of counters.
pub mod LeapArray
pub mod Event
pub mod MetricBucket
pub mod BucketLeapArray
pub mod SlidingWindow
pub mod Node
pub mod NodeStorage
pub mod StatSlot
