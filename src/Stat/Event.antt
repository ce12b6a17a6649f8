-- ===== src/Stat/Event.antt =====
-- `MetricEvent` of core/base/stat.go: an `int8` that numbers the counters of a bucket.
use gmiter.Prelude.{ℕ}

abbrev pub MetricEvent : Type 0
MetricEvent = ℕ

abbrev pub pass : MetricEvent
pass = 0

abbrev pub block : MetricEvent
block = 1

abbrev pub complete : MetricEvent
complete = 2

abbrev pub error : MetricEvent
error = 3

abbrev pub rt : MetricEvent
rt = 4

abbrev pub waiting : MetricEvent
waiting = 5

abbrev pub pass_request : MetricEvent
pass_request = 6

abbrev pub block_request : MetricEvent
block_request = 7

abbrev pub block_flow : MetricEvent
block_flow = 8

abbrev pub block_isolation : MetricEvent
block_isolation = 9

abbrev pub block_circuit_breaking : MetricEvent
block_circuit_breaking = 10

abbrev pub block_system : MetricEvent
block_system = 11

abbrev pub block_hot_spot_param_flow : MetricEvent
block_hot_spot_param_flow = 12

abbrev pub block_mock : MetricEvent
block_mock = 13

abbrev pub reject_pass : MetricEvent
reject_pass = 14

abbrev pub total : MetricEvent
total = 15
