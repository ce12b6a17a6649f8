-- ===== src/Isolation.antt =====
-- core/isolation: the slot that limits the calls in flight of a resource. The rules of the resource are an
-- argument.
pub mod Verdicts
pub mod InFlight
mod Tests
use gmiter.Prelude.{
  ℕ, ◌+◌, ◌%◌, Bool, true, false, Option, none, some, List, [], ◌∷◌, ltb, ◌==◌, if◌then◌else◌,
  half32, mod32, not,
}
use gmiter.Prelude.Strings.{Bytes, is_empty}
use gmiter.Chain.TokenResult.{
  TokenResult, new_token_result_blocked_with_cause, reset_to_blocked_with_cause,
}
use gmiter.Stat.Node.{BaseStatNode, current_concurrency}

abbrev pub concurrency : ℕ
concurrency = 1

pub record Rule : Type 0 where
  pub id : Bytes
  pub app : Bytes
  pub rule_name : Bytes
  pub resource : Bytes
  pub metric_type : ℕ  -- an int32
  pub threshold : ℕ  -- uint32

pub data RuleError : Type 0 where
  nil_rule : RuleError
  empty_resource : RuleError
  unsupported_metric_type : RuleError
  zero_threshold : RuleError

-- `IsValidRule`, with its error.
unfoldable pub is_valid_rule : Option Rule → Option RuleError
is_valid_rule none = some nil_rule
is_valid_rule (some r) =
    if is_empty r.resource
    then some empty_resource
    else if not (r.metric_type == concurrency)
    then some unsupported_metric_type
    else if r.threshold == 0
    then some zero_threshold
    else none

-- What `checkPass` returns: whether the call may go on, the rule that refuses it, and the count seen.
pub record Checked : Type 0 where
  pub passed : Bool
  pub rule : Option Rule
  pub snapshot : ℕ  -- uint32

-- A negative count is an error that is logged, and stands for 0.
abbrev pub count_of : BaseStatNode → ℕ
count_of node = if ltb (current_concurrency node) half32 then current_concurrency node else 0

-- The loop of `checkPass`, with the count so far; none is the panic on a nil node.
unfoldable pub check_pass_from :
    List Rule → Option BaseStatNode → (batch_count cur_count : ℕ) → Option Checked
check_pass_from [] stat_node batch_count cur_count =
    some (record { passed = true; rule = none; snapshot = cur_count })
check_pass_from (r ∷ rules) stat_node batch_count cur_count =
    if r.metric_type == concurrency
    then elim stat_node [
      | none ↦ none
      | some n ↦
          let rest = check_pass_from rules (some n) batch_count (count_of n) in
          if ltb r.threshold ((count_of n + batch_count) % mod32)
          then some (record { passed = false; rule = some r; snapshot = count_of n })
          else rest
    ]
    else check_pass_from rules stat_node batch_count cur_count

unfoldable pub check_pass : List Rule → Option BaseStatNode → (batch_count : ℕ) → Option Checked
check_pass rules stat_node batch_count = check_pass_from rules stat_node batch_count 0

-- `BlockTypeIsolation`.
abbrev pub block_type_isolation : ℕ
block_type_isolation = 2

abbrev pub refuse : Option (TokenResult Rule ℕ) → Bytes → Option Rule → ℕ → TokenResult Rule ℕ
refuse none msg rule snapshot =
    new_token_result_blocked_with_cause block_type_isolation msg rule (some snapshot)
refuse (some result) msg rule snapshot =
    reset_to_blocked_with_cause result block_type_isolation msg rule (some snapshot)

-- `result` is that of the context, nil as none; `msg` is the text of the refusal.
unfoldable pub check :
    (msg resource : Bytes)
    → List Rule
    → Option BaseStatNode
    → (batch_count : ℕ) → Option (TokenResult Rule ℕ)
    → Option (Option (TokenResult Rule ℕ))
check msg resource rules stat_node batch_count result =
    if is_empty resource then some result else elim (check_pass rules stat_node batch_count) [
      | none ↦ none
      | some checked ↦
          if checked.passed
          then some result
          else some (some (refuse result msg checked.rule checked.snapshot))
    ]
