-- ===== src/Stat/Node.antt =====
-- core/stat/base_node.go: the statistics of one resource, a bucket leap array with a view of it and the
-- number of calls in flight. An `int32` is its bit pattern. A result is none where the code panics or spins
-- for ever; `now` is the clock.

pub mod Totality
use gmiter.Prelude.{
  ℕ, ◌+◌, ◌-◌, Option, none, some, ◌%◌, mod32, slt64, if◌then◌else◌, sdiv64, Result, ok, err, panic,
}
use gmiter.Prelude.Float.{Float64}
use gmiter.Stat.Event
use gmiter.Stat.Event.{MetricEvent}
use gmiter.Stat.BucketLeapArray
use gmiter.Stat.BucketLeapArray.{BucketLeapArray}
use gmiter.Stat.SlidingWindow
use gmiter.Stat.SlidingWindow.{SlidingWindowMetric}
use mathlib.Core.Option.{map as map_option}

pub record BaseStatNode : Type 0 where
  pub sample_count : ℕ  -- uint32
  pub interval : ℕ  -- uint32, in ms
  pub concurrency : ℕ  -- int32
  pub arr : BucketLeapArray
  pub metric : Option SlidingWindowMetric

abbrev pub metric_or_nil {ℓ} : {E : Type 0} {A : Type ℓ} → Result E A → Option A
metric_or_nil (ok m) = some m
metric_or_nil (err e) = none
metric_or_nil panic = none

-- The error of `NewSlidingWindowMetric` is dropped, and the view is nil then. The numbers of the array are
-- those of the configuration.
unfoldable pub new_base_stat_node :
    (total_sample_count total_interval sample_count interval now : ℕ) → Option BaseStatNode
new_base_stat_node total_sample_count total_interval sample_count interval now =
    map_option
      (λ la. record {
        sample_count = sample_count;
        interval = interval;
        concurrency = 0;
        arr = la;
        metric =
            metric_or_nil (SlidingWindow.new_sliding_window_metric sample_count interval (some la));
      })
      (BucketLeapArray.new_bucket_leap_array total_sample_count total_interval now)

unfoldable pub get_sum_with_time : BaseStatNode → ℕ → MetricEvent → Option ℕ
get_sum_with_time n now event =
    map_option (λ m. SlidingWindow.get_sum_with_time m n.arr now event) n.metric

unfoldable pub get_qps : (f : Float64) → BaseStatNode → ℕ → MetricEvent → Option f.F
get_qps f n now event =
    map_option (λ m. SlidingWindow.get_qps_with_time f m n.arr now event) n.metric

unfoldable pub get_previous_qps : (f : Float64) → BaseStatNode → ℕ → MetricEvent → Option f.F
get_previous_qps f n now event =
    map_option (λ m. SlidingWindow.get_previous_qps f m n.arr now event) n.metric

unfoldable pub min_rt : (f : Float64) → BaseStatNode → ℕ → Option f.F
min_rt f n now = map_option (λ m. SlidingWindow.min_rt f m n.arr now) n.metric

unfoldable pub max_concurrency : BaseStatNode → ℕ → Option ℕ
max_concurrency n now = map_option (λ m. SlidingWindow.max_concurrency m n.arr now) n.metric

-- `GetAvg`.
unfoldable pub get_avg : (f : Float64) → BaseStatNode → ℕ → MetricEvent → Option f.F
get_avg f n now event =
    map_option
      (λ m.
        f.div (f.of_int64 (SlidingWindow.get_sum_with_time m n.arr now event))
          (SlidingWindow.get_interval_in_second f m))
      n.metric

unfoldable pub get_max_avg : (f : Float64) → BaseStatNode → ℕ → MetricEvent → Option f.F
get_max_avg f n now event =
    map_option
      (λ m.
        f.mul
          (f.div
            (f.mul (f.of_int64 (SlidingWindow.get_max_of_single_bucket m n.arr now event))
              (f.of_uint64 n.sample_count))
            (f.of_uint64 n.interval))
          (f.of_uint64 1000))
      n.metric

unfoldable pub add_count_with_time : BaseStatNode → ℕ → MetricEvent → ℕ → Option BaseStatNode
add_count_with_time n now event count =
    map_option (λ arr. record n { arr = arr })
      (BucketLeapArray.add_count_with_time n.arr now event count)

unfoldable pub add_and_get_sum : BaseStatNode → ℕ → MetricEvent → ℕ → Option (BaseStatNode × ℕ)
add_and_get_sum n now event count = elim (add_count_with_time n now event count) [
  | none ↦ none
  | some n' ↦ map_option (λ total. (n', total)) (get_sum_with_time n' now event)
]

unfoldable pub update_concurrency : BaseStatNode → ℕ → ℕ → Option BaseStatNode
update_concurrency n now concurrency =
    map_option (λ arr. record n { arr = arr })
      (BucketLeapArray.update_concurrency_with_time n.arr now concurrency)

-- The clock is read for both sums.
unfoldable pub avg_rt : (f : Float64) → BaseStatNode → ℕ → ℕ → Option f.F
avg_rt f n now now' = elim n.metric [
  | none ↦ none
  | some m ↦
      let complete = SlidingWindow.get_sum_with_time m n.arr now Event.complete in
      some (
        if slt64 0 complete
        then f.of_int64 (sdiv64 (SlidingWindow.get_sum_with_time m n.arr now' Event.rt) complete)
        else f.of_uint64 0)
]

abbrev pub current_concurrency : BaseStatNode → ℕ
current_concurrency n = n.concurrency

abbrev pub next32 : ℕ → ℕ
next32 c = (c + 1) % mod32

abbrev pub previous32 : ℕ → ℕ
previous32 c = (c + (mod32 - 1)) % mod32

unfoldable pub increase_concurrency : BaseStatNode → ℕ → Option BaseStatNode
increase_concurrency n now =
    update_concurrency (record n { concurrency = next32 n.concurrency }) now (next32 n.concurrency)

unfoldable pub decrease_concurrency : BaseStatNode → BaseStatNode
decrease_concurrency n = record n { concurrency = previous32 n.concurrency }

unfoldable pub generate_read_stat :
    BaseStatNode → (sample_count interval : ℕ) → Result SlidingWindow.StatError SlidingWindowMetric
generate_read_stat n sample_count interval =
    SlidingWindow.new_sliding_window_metric sample_count interval (some n.arr)
