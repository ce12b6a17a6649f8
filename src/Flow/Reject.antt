-- ===== src/Flow/Reject.antt =====
-- core/flow/tc_default.go, the checker that refuses requests over a threshold, and the statistics that
-- `generateStatFor` of core/flow/rule_manager.go gives it. A request is checked alone.
-- `real` is the bucket leap array that the statistics read and write. The numbers that config keeps are an
-- argument, V is what stands for a snapshot value.
pub mod Viewed
pub mod Limit
pub mod Runs
pub mod Unlimited
mod Tests
use gmiter.Prelude.{
  ℕ, ◌/◌, ◌%◌, Bool, true, false, ◌||◌, Option, none, some, ltb, ◌==◌, if◌then◌else◌, neg64, Result,
  ok, err, panic,
}
use gmiter.Prelude.Float.{Float64}
use gmiter.Chain.TokenResult.{TokenResult, GoString, new_token_result_blocked_with_cause}
use gmiter.Stat.Event
use gmiter.Stat.BucketLeapArray.{BucketLeapArray, add_count_with_time, new_bucket_leap_array}
use gmiter.Stat.SlidingWindow.{
  SlidingWindowMetric, StatError, global_statistic_non_reusable, get_sum_with_time,
  new_sliding_window_metric, check_validity_for_reuse_statistic,
}

-- `ReadStat` and `WriteStat`: nil, the statistics that do nothing, a view, the array.
pub data ReadStat : Type 0 where
  nil_read : ReadStat
  nop_read : ReadStat
  view : SlidingWindowMetric → ReadStat

pub data WriteStat : Type 0 where
  nil_write : WriteStat
  nop_write : WriteStat
  array : WriteStat

pub record StandaloneStatistic : Type 0 where
  pub reuse_resource_stat : Bool
  pub read_only_metric : ReadStat
  pub write_only_metric : WriteStat

unfoldable pub nop_stat : StandaloneStatistic
nop_stat = record {
  reuse_resource_stat = false;
  read_only_metric = nop_read;
  write_only_metric = nop_write;
}

pub record GlobalConfig : Type 0 where
  pub metric_statistic_interval_ms : ℕ
  pub global_statistic_sample_count_total : ℕ
  pub global_statistic_interval_ms_total : ℕ
  pub global_statistic_bucket_length_in_ms : ℕ

-- The sample count of an interval of a rule's own.
unfoldable pub own_sample_count : GlobalConfig → (interval : ℕ) → ℕ
own_sample_count g interval =
    if ltb g.global_statistic_interval_ms_total interval
    then 1
    else if ltb interval g.global_statistic_bucket_length_in_ms
    then 1
    else if interval % g.global_statistic_bucket_length_in_ms == 0
    then interval / g.global_statistic_bucket_length_in_ms
    else 1

unfoldable pub is_non_reusable : StatError → Bool
is_non_reusable global_statistic_non_reusable = true
is_non_reusable _ = false

-- Statistics of an array of the rule's own. A call of `NewBucketLeapArray` may panic.
unfoldable pub own_stat :
    (sample_count interval now : ℕ) → Result StatError (StandaloneStatistic × BucketLeapArray)
own_stat sample_count interval now = elim (new_bucket_leap_array sample_count interval now) [
  | none ↦ panic
  | some real ↦ elim (new_sliding_window_metric sample_count interval (some real)) [
    | ok m ↦ ok (
      record { reuse_resource_stat = false; read_only_metric = view m; write_only_metric = array },
      real,
    )
    | err e ↦ err e
    | panic ↦ panic
  ]
]

-- `node` is the array of the resource node, `default_metric` its view.
module _ (g : GlobalConfig) (default_metric : SlidingWindowMetric) (node : BucketLeapArray)
    (now : ℕ) where
  unfoldable pub stat_for_interval :
      (interval : ℕ) → Result StatError (StandaloneStatistic × BucketLeapArray)
  stat_for_interval interval =
      let sample_count = own_sample_count g interval in
      elim (check_validity_for_reuse_statistic sample_count interval
        g.global_statistic_sample_count_total g.global_statistic_interval_ms_total) [
          | none ↦ elim (new_sliding_window_metric sample_count interval (some node)) [
            | ok m ↦ ok (
              record {
                reuse_resource_stat = true;
                read_only_metric = view m;
                write_only_metric = nil_write;
              },
              node,
            )
            | err e ↦ err e
            | panic ↦ panic
          ]
          | some e ↦ if is_non_reusable e then own_stat sample_count interval now else err e
        ]

  unfoldable pub generate_stat_for :
      (need_statistic : Bool)
      → (stat_interval : ℕ) → Result StatError (StandaloneStatistic × BucketLeapArray)
  generate_stat_for need_statistic stat_interval =
      if need_statistic
      then (if stat_interval == 0 || stat_interval == g.metric_statistic_interval_ms
          then ok (
            record {
              reuse_resource_stat = true;
              read_only_metric = view default_metric;
              write_only_metric = array;
            },
            node,
          )
          else stat_for_interval stat_interval)
      else ok (nop_stat, node)

-- `GetSumWithTime` and `AddCountWithTime` of the event `MetricEventRejectPass`.
unfoldable pub sum : ReadStat → BucketLeapArray → (now : ℕ) → ℕ
sum nil_read real now = 0
sum nop_read real now = 0
sum (view m) real now = get_sum_with_time m real now Event.reject_pass

unfoldable pub add : WriteStat → BucketLeapArray → (now count : ℕ) → Option BucketLeapArray
add nil_write real now count = some real
add nop_write real now count = some real
add array real now count = add_count_with_time real now Event.reject_pass count

abbrev pub block_type_flow : ℕ
block_type_flow = 1

module _ {R V : Type 0} (f : Float64) (text : GoString) (rule : Option R)
    (float_value : f.F → V) where
  unfoldable pub block_with : f.F → Option (TokenResult R V)
  block_with cur_count =
      some (
        new_token_result_blocked_with_cause block_type_flow text rule
          (some (float_value cur_count)))

  -- From the second sum on: over the threshold, the request is taken back.
  unfoldable pub check_again :
      ReadStat
      → WriteStat
      → BucketLeapArray
      → (now batch : ℕ) → (threshold : f.F) → Option (BucketLeapArray × Option (TokenResult R V))
  check_again reads writes real now batch threshold =
      let cur_count = f.of_int64 (sum reads real now) in
      if f.lt threshold cur_count
      then elim (add writes real now (neg64 batch)) [
        | none ↦ none
        | some real' ↦ some (real', block_with cur_count)
      ]
      else some (real, none)

  unfoldable pub count_and_check :
      ReadStat
      → WriteStat
      → BucketLeapArray
      → (now batch : ℕ) → (threshold : f.F) → Option (BucketLeapArray × Option (TokenResult R V))
  count_and_check reads writes real now batch threshold =
      let cur_count = f.of_int64 (sum reads real now) in
      if f.lt threshold cur_count
      then some (real, block_with cur_count)
      else elim (add writes real now batch) [
        | none ↦ none
        | some real' ↦ check_again reads writes real' now batch threshold
      ]

  -- `DoCheck` of the reject checker; outer none is a panic or a spin of the array, inner none a pass.
  unfoldable pub do_check :
      StandaloneStatistic
      → BucketLeapArray
      → (now batch : ℕ) → (threshold : f.F) → Option (BucketLeapArray × Option (TokenResult R V))
  do_check s real now batch threshold = elim s.read_only_metric [
    | nil_read ↦ some (real, none)
    | reads ↦ elim s.write_only_metric [
      | nil_write ↦ some (real, none)
      | writes ↦ count_and_check reads writes real now batch threshold
    ]
  ]
