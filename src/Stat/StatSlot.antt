-- ===== src/Stat/StatSlot.antt =====
-- core/stat/stat_slot.go: what a call that passes, is refused or ends adds to the statistics.
-- `clock` gives the clock readings by the place that reads them. A result is none where the code panics or
-- spins for ever.

pub mod Keeps
mod Tests
use gmiter.Prelude.{ℕ, ◌+◌, Bool, ◌||◌, Option, none, some, ◌==◌, if◌then◌else◌, sub64}
use gmiter.Stat.Event
use gmiter.Stat.Event.{MetricEvent}
use gmiter.Stat.Node
use gmiter.Stat.Node.{BaseStatNode}
use mathlib.Core.Option.{map as map_option}

-- What the slot reads of the context.
pub record Call : Type 0 where
  pub batch_count : ℕ  -- uint32
  pub inbound : Bool
  pub start_time : ℕ  -- uint64, in ms
  pub has_error : Bool

-- The node of the resource, nil as none, and the global inbound node.
pub record Nodes : Type 0 where
  pub stat_node : Option BaseStatNode
  pub inbound_node : BaseStatNode

unfoldable pub record_pass_for : ℕ → (ℕ → ℕ) → BaseStatNode → Option BaseStatNode
record_pass_for count clock sn = elim (Node.increase_concurrency sn (clock 0)) [
  | none ↦ none
  | some sn' ↦ Node.add_count_with_time sn' (clock 1) Event.pass count
]

unfoldable pub record_block_for : ℕ → (ℕ → ℕ) → BaseStatNode → Option BaseStatNode
record_block_for count clock sn = Node.add_count_with_time sn (clock 0) Event.block count

-- The counter of a `BlockType`, by its number.
unfoldable pub event_of_block_type : ℕ → Option MetricEvent
event_of_block_type block_type =
    if block_type == 1
    then some Event.block_flow
    else if block_type == 2
    then some Event.block_isolation
    else if block_type == 3
    then some Event.block_circuit_breaking
    else if block_type == 4
    then some Event.block_system
    else if block_type == 5
    then some Event.block_hot_spot_param_flow
    else if block_type == 6 || block_type == 7 || block_type == 8 || block_type == 9
    then some Event.block_mock
    else none

unfoldable pub record_block_for_type : ℕ → ℕ → (ℕ → ℕ) → BaseStatNode → Option BaseStatNode
record_block_for_type block_type count clock sn = elim (event_of_block_type block_type) [
  | none ↦ some sn
  | some event ↦ Node.add_count_with_time sn (clock 0) event count
]

abbrev pub with_error : Bool → ℕ → ℕ → BaseStatNode → Option BaseStatNode
with_error has_error count now sn =
    if has_error then Node.add_count_with_time sn now Event.error count else some sn

unfoldable pub record_complete_for :
    (count rt : ℕ) → Bool → (ℕ → ℕ) → BaseStatNode → Option BaseStatNode
record_complete_for count rt has_error clock sn = elim (with_error has_error count (clock 0) sn) [
  | none ↦ none
  | some sn' ↦ elim (Node.add_count_with_time sn' (clock 1) Event.rt rt) [
    | none ↦ none
    | some sn'' ↦
        map_option Node.decrease_concurrency
          (Node.add_count_with_time sn'' (clock 2) Event.complete count)
  ]
]

-- A record for the node of the resource, which a nil node does not take.
unfoldable pub for_stat_node : (BaseStatNode → Option BaseStatNode) → Nodes → Option Nodes
for_stat_node f ns = elim ns.stat_node [
  | none ↦ some ns
  | some sn ↦ map_option (λ sn'. record ns { stat_node = some sn' }) (f sn)
]

-- A record for `InboundNode()`, for an inbound call.
unfoldable pub for_inbound : Call → (BaseStatNode → Option BaseStatNode) → Nodes → Option Nodes
for_inbound call f ns =
    if call.inbound
    then map_option (λ sn. record ns { inbound_node = sn }) (f ns.inbound_node)
    else some ns

-- A record for both, at readings 0 to 3 and 4 to 7.
unfoldable pub for_both :
    Call → ((ℕ → ℕ) → BaseStatNode → Option BaseStatNode) → (ℕ → ℕ) → Nodes → Option Nodes
for_both call f clock ns = elim (for_stat_node (f clock) ns) [
  | none ↦ none
  | some ns' ↦ for_inbound call (f (λ i. clock (4 + i))) ns'
]

-- The counter of the exporter is left out.
unfoldable pub on_entry_passed : Call → (ℕ → ℕ) → Nodes → Option Nodes
on_entry_passed call clock ns = for_both call (record_pass_for call.batch_count) clock ns

-- `block_type` is that of the block error; a nil error is none, on which the exporter's counter panics.
unfoldable pub on_entry_blocked : Call → Option ℕ → (ℕ → ℕ) → Nodes → Option Nodes
on_entry_blocked call none clock ns = none
on_entry_blocked call (some block_type) clock ns =
    elim (for_stat_node (record_block_for call.batch_count clock) ns) [
      | none ↦ none
      | some ns' ↦
          elim (for_stat_node
            (record_block_for_type block_type call.batch_count (λ i. clock (1 + i))) ns') [
              | none ↦ none
              | some ns'' ↦
                  for_inbound call (record_block_for call.batch_count (λ i. clock (4 + i))) ns''
            ]
    ]

-- Reading 8 ends the call; the response time is put into the context too.
unfoldable pub on_completed : Call → (ℕ → ℕ) → Nodes → Option Nodes
on_completed call clock ns =
    for_both call
      (record_complete_for call.batch_count (sub64 (clock 8) call.start_time) call.has_error) clock
      ns
