-- ===== src/Flow/Throttling.antt =====
-- core/flow/tc_throttling.go: the checker that spaces the requests out. An int64 of nanoseconds is its bit
-- pattern. A call reads the clock in the check, `now`, and again in the deferred function, `later`; it runs
-- alone, so every compare-and-swap succeeds. The rule of a blocked result is the owner's, a parameter.
pub mod Spacing
use gmiter.Prelude.{
  ℕ, not, Option, none, some, leb, ◌==◌, if◌then◌else◌, add64, sub64, mul64, neg64, slt64,
}
use gmiter.Prelude.Float.{Float64}
use gmiter.Chain.TokenResult.{
  TokenResult, GoString, new_token_result_blocked_with_cause, new_token_result_should_wait,
}

pub record ThrottlingChecker : Type 0 where
  pub max_queueing_time_ns : ℕ
  pub stat_interval_ns : ℕ
  pub last_passed_time : ℕ
  pub last_system_time : ℕ

abbrev pub millis_to_nanos_offset : ℕ
millis_to_nanos_offset = 1000000

unfoldable pub new_throttling_checker : (timeout_ms stat_interval_ms : ℕ) → ThrottlingChecker
new_throttling_checker timeout_ms stat_interval_ms = record {
  max_queueing_time_ns = mul64 timeout_ms millis_to_nanos_offset;
  stat_interval_ns =
      if stat_interval_ms == 0
      then mul64 1000 millis_to_nanos_offset
      else mul64 stat_interval_ms millis_to_nanos_offset;
  last_passed_time = 0;
  last_system_time = 0;
}

-- BlockTypeFlow, and the two messages.
abbrev pub block_type_flow : ℕ
block_type_flow = 1

pub data Message : Type 0 where
  threshold_message : Message
  queueing_message : Message

-- The wait of a new request at the given rate, in nanoseconds.
unfoldable pub interval_ns :
    (f : Float64) → ThrottlingChecker → (batch_count : ℕ) → (threshold : f.F) → ℕ
interval_ns f c batch_count threshold =
    f.to_int64
      (f.ceil (f.mul (f.div (f.of_uint64 batch_count) threshold) (f.of_int64 c.stat_interval_ns)))

module _ {R V : Type 0} (text : Message → GoString) (rule : Option R) where
  unfoldable pub block_with : Message → Option (TokenResult R V)
  block_with m = some (new_token_result_blocked_with_cause block_type_flow (text m) rule none)

  -- From the queueing on: the request is queued behind the last one, or refused if that takes too long.
  unfoldable pub queue :
      ThrottlingChecker → (now interval : ℕ) → ThrottlingChecker × Option (TokenResult R V)
  queue c now interval =
      let estimated = sub64 (add64 c.last_passed_time interval) now in
      let old_time = add64 c.last_passed_time interval in
      let waiting = sub64 old_time now in
      if slt64 c.max_queueing_time_ns estimated
      then (c, block_with queueing_message)
      else if slt64 c.max_queueing_time_ns waiting
      then (
        record c { last_passed_time = add64 old_time (neg64 interval) },
        block_with queueing_message,
      )
      else if slt64 0 waiting
      then (record c { last_passed_time = old_time }, some (new_token_result_should_wait waiting))
      else (record c { last_passed_time = old_time }, some (new_token_result_should_wait 0))

  -- `DoCheck` between its first test and its deferred function; none is a pass.
  unfoldable pub check_interval :
      ThrottlingChecker → (now interval : ℕ) → ThrottlingChecker × Option (TokenResult R V)
  check_interval c now interval =
      if slt64 (add64 now 1000000000) c.last_system_time
      then (record c { last_passed_time = now }, none)
      else if not (slt64 now (add64 c.last_passed_time interval))
      then (record c { last_passed_time = now }, none)
      else queue c now interval

  unfoldable pub do_check :
      (f : Float64)
      → ThrottlingChecker
      → (batch_count : ℕ) → (threshold : f.F) → (now later : ℕ)
      → ThrottlingChecker × Option (TokenResult R V)
  do_check f c batch_count threshold now later =
      let (c', r) =
        (if leb batch_count 0
          then (c, none)
          else if f.le threshold (f.of_uint64 0)
          then (c, block_with threshold_message)
          else check_interval c now (interval_ns f c batch_count threshold)) in
      (record c' { last_system_time = later }, r)
