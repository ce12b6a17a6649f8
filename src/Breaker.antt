-- ===== src/Breaker.antt =====
-- core/circuitbreaker/circuit_breaker.go: the state machine that every breaker embeds
-- (`circuitBreakerBase`). An operation returns the new state beside what it tells the listeners; the
-- metric exporter's counter is left out. `now` is the clock where the operation reads it.
pub mod Counters
pub mod Complete
pub mod Transitions
pub mod Traces
pub mod Probes
pub mod Totality
pub mod HalfOpen
pub mod Construct
pub mod Slot
mod Tests
use gmiter.Prelude.{ℕ, Bool, true, false, ◌&&◌, List, [], ◌∷◌, ltb, leb, if◌then◌else◌, add64}

pub data State : Type 0 where
  closed half_open open_ : State

pub State-discrete : Discrete State
State-discrete = hlevel

-- The `snapshot` that a listener is given: a ratio or a number of errors.
pub data Snapshot (F : Type 0) : Type 0 where
  ratio : F → Snapshot F
  count : ℕ → Snapshot F

-- One call of every `StateChangeListener`, with the previous state.
pub data Change (F : Type 0) : Type 0 where
  transform_to_closed : State → Change F
  transform_to_open : State → Snapshot F → Change F
  transform_to_half_open : State → Change F

pub record Base : Type 0 where
  pub retry_timeout_ms : ℕ  -- uint32
  pub next_retry_timestamp_ms : ℕ  -- uint64
  pub probe_number : ℕ  -- uint64
  pub cur_probe_number : ℕ  -- uint64
  pub state : State

abbrev pub is_closed : State → Bool
is_closed closed = true
is_closed _ = false

abbrev pub is_half_open : State → Bool
is_half_open half_open = true
is_half_open _ = false

abbrev pub is_open : State → Bool
is_open open_ = true
is_open _ = false

unfoldable pub retry_timeout_arrived : Base → ℕ → Bool
retry_timeout_arrived b now = leb b.next_retry_timestamp_ms now

unfoldable pub update_next_retry_timestamp : Base → ℕ → Base
update_next_retry_timestamp b now = record b {
  next_retry_timestamp_ms = add64 now b.retry_timeout_ms;
}

unfoldable pub add_cur_probe_num : Base → Base
add_cur_probe_num b = record b { cur_probe_number = add64 b.cur_probe_number 1 }

unfoldable pub reset_cur_probe_num : Base → Base
reset_cur_probe_num b = record b { cur_probe_number = 0 }

module _ {F : Type 0} where
  -- The swap of the state has one winner; the loser changes nothing.
  unfoldable pub from_closed_to_open : Base → ℕ → Snapshot F → Base × List (Change F) × Bool
  unfolding update_next_retry_timestamp
  from_closed_to_open b now snapshot =
      if is_closed b.state
      then (
        update_next_retry_timestamp (record b { state = open_ }) now,
        transform_to_open closed snapshot ∷ [],
        true,
      )
      else (b, [], false)

  -- The last part says whether a hook for the exit of the entry was added.
  unfoldable pub from_open_to_half_open : Base → Bool → Base × List (Change F) × Bool × Bool
  from_open_to_half_open b has_entry =
      if is_open b.state
      then (record b { state = half_open }, transform_to_half_open open_ ∷ [], true, has_entry)
      else (b, [], false, false)

  -- The hook: an entry that was let through as a probe and then blocked puts the breaker back. `one`
  -- is the snapshot 1.0.
  unfoldable pub exit_hook : F → Base → Bool → Base × List (Change F)
  exit_hook one b blocked =
      if blocked && is_half_open b.state
      then (record b { state = open_ }, transform_to_open half_open (ratio one) ∷ [])
      else (b, [])

  unfoldable pub from_half_open_to_open : Base → ℕ → Snapshot F → Base × List (Change F) × Bool
  unfolding update_next_retry_timestamp reset_cur_probe_num
  from_half_open_to_open b now snapshot =
      if is_half_open b.state
      then (
        update_next_retry_timestamp (reset_cur_probe_num (record b { state = open_ })) now,
        transform_to_open half_open snapshot ∷ [],
        true,
      )
      else (b, [], false)

  unfoldable pub from_half_open_to_closed : Base → Base × List (Change F) × Bool
  unfolding reset_cur_probe_num
  from_half_open_to_closed b =
      if is_half_open b.state
      then (
        reset_cur_probe_num (record b { state = closed }),
        transform_to_closed half_open ∷ [],
        true,
      )
      else (b, [], false)

  -- `TryPass`, the same text in the three breakers: the state, the calls of the listeners, whether the
  -- request passes, and whether its entry got the hook.
  unfoldable pub try_pass : Base → ℕ → Bool → Base × List (Change F) × Bool × Bool
  unfolding retry_timeout_arrived from_open_to_half_open
  try_pass b now has_entry =
      if is_closed b.state
      then (b, [], true, false)
      else if is_open b.state && retry_timeout_arrived b now
      then from_open_to_half_open b has_entry
      else (b, [], is_half_open b.state && ltb 0 b.probe_number, false)
