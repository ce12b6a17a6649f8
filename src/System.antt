-- ===== src/System.antt =====
-- core/system: the slot that refuses inbound calls when the whole process is over a limit. The rules, and the
-- load and the processor use that core/system_metric holds, are arguments; a result is none where the code
-- panics.
mod Tests
use gmiter.Prelude.{
  ℕ, ◌-◌, ◌+◌, Bool, Option, none, some, List, [], ◌∷◌, not, ◌&&◌, leb, ◌==◌, if◌then◌else◌, slt32,
  mod64, mod32,
}
use gmiter.Prelude.Float.{Float64}
use gmiter.Prelude.Strings.{Bytes}
use gmiter.Chain.TokenResult.{
  TokenResult, new_token_result_blocked_with_cause, reset_to_blocked_with_cause,
}
use gmiter.Stat.Event
use gmiter.Stat.Node
use gmiter.Stat.Node.{BaseStatNode}

-- `MetricType`, a uint32, and `AdaptiveStrategy`, whose -1 is no strategy.
abbrev pub load : ℕ
load = 0

abbrev pub avg_rt : ℕ
avg_rt = 1

abbrev pub concurrency : ℕ
concurrency = 2

abbrev pub inbound_qps : ℕ
inbound_qps = 3

abbrev pub cpu_usage : ℕ
cpu_usage = 4

abbrev metric_type_size : ℕ
metric_type_size = 5

abbrev pub bbr : ℕ
bbr = 1

-- The fields that the checks read.
pub record Rule (F : Type 0) : Type 0 where
  pub metric_type : ℕ
  pub trigger_count : F
  pub strategy : ℕ  -- an int32

pub data RuleError : Type 0 where
  nil_rule : RuleError
  negative_threshold : RuleError
  invalid_metric_type : RuleError
  invalid_cpu_usage : RuleError

unfoldable pub is_valid_system_rule : (f : Float64) → Option (Rule f.F) → Option RuleError
is_valid_system_rule f none = some nil_rule
is_valid_system_rule f (some r) =
    if f.lt r.trigger_count (f.of_uint64 0)
    then some negative_threshold
    else if leb metric_type_size r.metric_type
    then some invalid_metric_type
    else if r.metric_type == cpu_usage && f.lt (f.of_uint64 1) r.trigger_count
    then some invalid_cpu_usage
    else none

pub data Message : Type 0 where
  qps_blocked : Message
  concurrency_blocked : Message
  avg_rt_blocked : Message
  load_blocked : Message
  cpu_usage_blocked : Message

-- The snapshot, and the message if the rule refuses the call.
pub record Checked (F : Type 0) : Type 0 where
  pub refused : Option Message
  pub snapshot : F

-- An int32 as an int64.
abbrev extended : ℕ → ℕ
extended c = if slt32 c 0 then c + (mod64 - mod32) else c

-- What the slot reads: the inbound node, the clock by the place that reads it, and the system's metrics.
pub record World (F : Type 0) : Type 0 where
  pub inbound_node : BaseStatNode
  pub clock : ℕ → ℕ
  pub current_load : F
  pub current_cpu_usage : F

module _ (f : Float64) where
  unfoldable pub check_bbr_simple : World f.F → Option Bool
  check_bbr_simple w = elim (Node.min_rt f w.inbound_node (w.clock 0)) [
    | none ↦ none
    | some least ↦ elim (Node.get_max_avg f w.inbound_node (w.clock 1) Event.complete) [
      | none ↦ none
      | some most ↦
          let c = Node.current_concurrency w.inbound_node in
          some (
            not (
              slt32 1 c
              && f.lt (f.div (f.mul most least) (f.of_uint64 1000)) (f.of_int64 (extended c))))
    ]
  ]

  -- The test `value < threshold`.
  abbrev below : Message → f.F → Option f.F → Option (Checked f.F)
  below msg threshold none = none
  below msg threshold (some value) =
      some (record { refused = if f.lt value threshold then none else some msg; snapshot = value })

  -- The test `value > threshold`, which BBR may overrule.
  abbrev over : Message → Rule f.F → World f.F → f.F → Option (Checked f.F)
  over msg rule w value =
      if f.lt rule.trigger_count value
      then if rule.strategy == bbr
        then elim (check_bbr_simple w) [
          | none ↦ none
          | some fits ↦
              some (record { refused = if fits then none else some msg; snapshot = value })
        ]
        else some (record { refused = some msg; snapshot = value })
      else some (record { refused = none; snapshot = value })

  unfoldable pub do_check_rule : Rule f.F → World f.F → Option (Checked f.F)
  do_check_rule rule w =
      if rule.metric_type == inbound_qps
      then below qps_blocked rule.trigger_count
          (Node.get_qps f w.inbound_node (w.clock 0) Event.pass)
      else if rule.metric_type == concurrency
      then below concurrency_blocked rule.trigger_count
          (some (f.of_int64 (extended (Node.current_concurrency w.inbound_node))))
      else if rule.metric_type == avg_rt
      then below avg_rt_blocked rule.trigger_count
          (Node.avg_rt f w.inbound_node (w.clock 0) (w.clock 1))
      else if rule.metric_type == load
      then over load_blocked rule w w.current_load
      else if rule.metric_type == cpu_usage
      then over cpu_usage_blocked rule w w.current_cpu_usage
      else some (record { refused = none; snapshot = f.of_uint64 0 })

  -- `BlockTypeSystemFlow`.
  abbrev block_type_system_flow : ℕ
  block_type_system_flow = 4

  module _ (text : Message → Bytes) where
    abbrev refuse :
        Option (TokenResult (Rule f.F) f.F) → Message → Rule f.F → f.F → TokenResult (Rule f.F) f.F
    refuse none msg rule value =
        new_token_result_blocked_with_cause block_type_system_flow (text msg) (some rule)
          (some value)
    refuse (some result) msg rule value =
        reset_to_blocked_with_cause result block_type_system_flow (text msg) (some rule)
          (some value)

    -- The loop over the rules; `worlds` gives what each sees by its place.
    unfoldable pub check_from :
        Option (TokenResult (Rule f.F) f.F)
        → List (Rule f.F × World f.F)
        → Option (Option (TokenResult (Rule f.F) f.F))
    check_from result [] = some result
    check_from result ((rule, w) ∷ rules) =
        let rest = check_from result rules in
        elim (do_check_rule rule w) [
          | none ↦ none
          | some checked ↦ elim checked.refused [
            | none ↦ rest
            | some msg ↦ some (some (refuse result msg rule checked.snapshot))
          ]
        ]

    -- A call that is not inbound is let through.
    unfoldable pub check :
        (inbound : Bool)
        → Option (TokenResult (Rule f.F) f.F)
        → List (Rule f.F × World f.F)
        → Option (Option (TokenResult (Rule f.F) f.F))
    check inbound result rules = if inbound then check_from result rules else some none
