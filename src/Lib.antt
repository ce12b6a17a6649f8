-- ===== src/Lib.antt =====
-- A model of the core of gmiter, a library that guards the calls of a Go service: statistics over sliding
-- windows, circuit breaking, traffic shaping, retries, and the chain of slots that a call goes through.
--
-- Parts and files:
-- - Stat: core/stat/base and core/stat. LeapArray (leap_array.go) is the circular array of time buckets; its operations
--   keep the names of the source: `new_leap_array`, `current_bucket_of_time`, `values_conditional`.
--   MetricBucket (metric_bucket.go) is the content of a bucket, with the events of core/base/stat.go in
--   Event; BucketLeapArray (bucket_leap_array.go) puts the two together, and SlidingWindow
--   (sliding_window_metric.go) is a view of it over an interval of its own.
--   Node (core/stat/base_node.go) is the statistics of one resource, NodeStorage (node_storage.go,
--   resource_node.go) the nodes by name, StatSlot (stat_slot.go) the callbacks that count a call.
-- - Isolation: core/isolation. The limit on the calls in flight of a resource; InFlight is the runs of calls
--   that this slot checks and the statistics slot counts.
-- - System: core/system. The checks of the whole process (slot.go), on the inbound node.
-- - Breaker: core/circuitbreaker/circuit_breaker.go. The state machine that the three breakers embed is in
--   Breaker, their counters (a leap array) in Breaker/Counters, `OnRequestComplete` and the constructors in
--   Breaker/Complete; Slot (slot.go, stat_slot.go) asks the breakers of a resource and tells them how a call
--   ended; the other children are theorems over single calls and over runs of calls.
-- - Hotspot: core/hotspot. Lru (cache/lru.go) is the cache of parameters, Rule (rule.go) the rules,
--   Controller and TrafficShaping (traffic_shaping.go, params_metric.go) the controllers and their checks
--   over the caches, Args the parameter that a call has for a rule, Slot (slot.go,
--   concurrency_stat_slot.go) the slots that ask and count, InFlight runs of checked and counted calls.
-- - Chain: core/base. TokenResult (result.go, block_error.go) and Slots (slot_chain.go): the order of the
--   slots, `Entry` with its recovery from a panic, and `exit`; the results of the checks stand behind
--   pointers. SeaEntry (entry.go, with Reset of context.go) is the entry of a call, with its exit handlers.
-- - Flow: core/flow. Throttling (tc_throttling.go) is the checker that spaces requests out, Reject
--   (tc_default.go, with generateStatFor of rule_manager.go) the one that refuses them over a threshold,
--   on the bucket leap array and the views of Stat; both answer with the results of Chain.
-- - Retry: core/retry. The error classifier, the retry policies with their contexts, the exponential
--   back-off.
-- - Prelude: the names that all of them share, lists and Boolean tests on native numbers, machine words,
--   the results of Go calls, strings, and float64.
--
-- State is passed explicitly: an operation that changes an object returns the new one. An unsigned or
-- signed integer of w bits is its bit pattern, with the wrap-around written out. float64 is a parameter, a
-- record of the operations that the code uses, and so are regexp, sort.SliceStable
-- and the parsers of texts and of JSON. A clock reading is an argument. An error
-- is a value, a panic a value or none.
--
-- Concurrency: the spin of the leap array runs over a list of turns, each with what other goroutines do
-- before a round and whether the lock is free; the list is the bound of the loop, and none stands for a
-- spin that goes on. A breaker, a cache and a checker run one call at a time, a sequence of calls being an
-- interleaving of whole calls.
--
-- Not modelled: the loading of rules, configuration, logging, transport and exporters (I/O and glue), the pool of
-- contexts, cluster flow control (a remote service), and the slots of the gray and mock rules.
pub mod Breaker
pub mod Chain
pub mod Flow
pub mod Hotspot
pub mod Isolation
pub mod Prelude
pub mod Retry
pub mod Stat
pub mod System
