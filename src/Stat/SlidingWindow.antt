-- ===== src/Stat/SlidingWindow.antt =====
-- core/stat/base/sliding_window_metric.go: a view of a bucket leap array over an interval of its own. The
-- array that the view points to, `real`, is an argument. The checks of core/base/stat.go on the numbers of
-- buckets and intervals are here too.
pub mod Satisfied
pub mod Validity
mod Tests
use gmiter.Prelude.{
  ℕ, ◌/◌, ◌%◌, Bool, not, ◌&&◌, ◌||◌, Option, none, some, List, [], ◌∷◌, leb, ◌==◌, if◌then◌else◌,
  add64, sub64, slt64, slt32, Result, ok, err,
}
use gmiter.Prelude.Float.{Float64}
use gmiter.Stat.Event.{MetricEvent}
use gmiter.Stat.LeapArray
use gmiter.Stat.LeapArray.{BucketWrap, LeapArray}
use gmiter.Stat.MetricBucket
use gmiter.Stat.MetricBucket.{MetricBucket}
use gmiter.Stat.BucketLeapArray
use gmiter.Stat.BucketLeapArray.{BucketLeapArray}

pub data StatError : Type 0 where
  illegal_global_statistic_params : StatError
  illegal_statistic_params : StatError
  global_statistic_non_reusable : StatError
  nil_bucket_leap_array : StatError

-- `intervalInMs == 0 || sampleCount == 0 || intervalInMs%sampleCount != 0`.
abbrev pub is_illegal : (sample_count interval : ℕ) → Bool
is_illegal sample_count interval =
    interval == 0 || sample_count == 0 || not (interval % sample_count == 0)

unfoldable pub check_validity_for_statistic : (sample_count interval : ℕ) → Option StatError
check_validity_for_statistic sample_count interval =
    if is_illegal sample_count interval then some illegal_statistic_params else none

unfoldable pub check_validity_for_reuse_statistic :
    (sample_count interval parent_sample_count parent_interval : ℕ) → Option StatError
check_validity_for_reuse_statistic sample_count interval parent_sample_count parent_interval =
    if is_illegal sample_count interval
    then some illegal_statistic_params
    else if is_illegal parent_sample_count parent_interval
    then some illegal_global_statistic_params
    else if not (parent_interval % interval == 0)
    then some global_statistic_non_reusable
    else if not (interval / sample_count % (parent_interval / parent_sample_count) == 0)
    then some global_statistic_non_reusable
    else none

pub record SlidingWindowMetric : Type 0 where
  pub bucket_length : ℕ  -- uint32, in ms
  pub sample_count : ℕ  -- uint32
  pub interval : ℕ  -- uint32, in ms

-- `real` is nil as `none`.
unfoldable pub new_sliding_window_metric :
    (sample_count interval : ℕ) → Option BucketLeapArray → Result StatError SlidingWindowMetric
new_sliding_window_metric sample_count interval none = err nil_bucket_leap_array
new_sliding_window_metric sample_count interval (some real) =
    elim (check_validity_for_reuse_statistic sample_count interval real.window.sample_count
      real.window.interval) [
        | some e ↦ err e
        | none ↦ ok (record {
          bucket_length = interval / sample_count;
          sample_count = sample_count;
          interval = interval;
        })
      ]

unfoldable pub get_bucket_start_range : SlidingWindowMetric → BucketLeapArray → ℕ → ℕ × ℕ
get_bucket_start_range m real time_ms =
    let cur = LeapArray.calculate_start_time time_ms real.window.bucket_length in
    (add64 (sub64 cur m.interval) real.window.bucket_length, cur)

unfoldable pub get_satisfied_buckets :
    SlidingWindowMetric → BucketLeapArray → ℕ → List (BucketWrap MetricBucket)
get_satisfied_buckets m real now =
    let (start, end_) = get_bucket_start_range m real now in
    BucketLeapArray.values_conditional real now (λ ws. leb start ws && leb ws end_)

-- The loop of `count`, with the sum so far.
unfoldable pub count : MetricEvent → ℕ → List (BucketWrap MetricBucket) → ℕ
count event ret [] = ret
count event ret (w ∷ ws) = count event (add64 ret (MetricBucket.get w.value event)) ws

unfoldable pub get_sum_with_time : SlidingWindowMetric → BucketLeapArray → ℕ → MetricEvent → ℕ
get_sum_with_time m real now event = count event 0 (get_satisfied_buckets m real now)

unfoldable pub get_interval_in_second : (f : Float64) → SlidingWindowMetric → f.F
get_interval_in_second f m = f.div (f.of_uint64 m.interval) (f.of_uint64 1000)

unfoldable pub get_qps_with_time :
    (f : Float64) → SlidingWindowMetric → BucketLeapArray → ℕ → MetricEvent → f.F
get_qps_with_time f m real now event =
    f.div (f.of_int64 (get_sum_with_time m real now event)) (get_interval_in_second f m)

unfoldable pub get_previous_qps :
    (f : Float64) → SlidingWindowMetric → BucketLeapArray → ℕ → MetricEvent → f.F
get_previous_qps f m real now event = get_qps_with_time f m real (sub64 now m.bucket_length) event

-- The loops of `GetMaxOfSingleBucket`, `MinRT` and `MaxConcurrency`.
unfoldable pub max_of : MetricEvent → ℕ → List (BucketWrap MetricBucket) → ℕ
max_of event cur_max [] = cur_max
max_of event cur_max (w ∷ ws) =
    let v = MetricBucket.get w.value event in
    max_of event (if slt64 cur_max v then v else cur_max) ws

unfoldable pub get_max_of_single_bucket :
    SlidingWindowMetric → BucketLeapArray → ℕ → MetricEvent → ℕ
get_max_of_single_bucket m real now event = max_of event 0 (get_satisfied_buckets m real now)

unfoldable pub least_rt : ℕ → List (BucketWrap MetricBucket) → ℕ
least_rt min_rt [] = min_rt
least_rt min_rt (w ∷ ws) =
    least_rt (if slt64 w.value.min_rt min_rt then w.value.min_rt else min_rt) ws

unfoldable pub min_rt : (f : Float64) → SlidingWindowMetric → BucketLeapArray → ℕ → f.F
min_rt f m real now =
    let least = least_rt MetricBucket.default_statistic_max_rt (get_satisfied_buckets m real now) in
    f.of_int64 (if slt64 least 1 then 1 else least)

unfoldable pub most_concurrency : ℕ → List (BucketWrap MetricBucket) → ℕ
most_concurrency most [] = most
most_concurrency most (w ∷ ws) =
    most_concurrency (if slt32 most w.value.max_concurrency then w.value.max_concurrency else most)
      ws

unfoldable pub max_concurrency : SlidingWindowMetric → BucketLeapArray → ℕ → ℕ
max_concurrency m real now = most_concurrency 0 (get_satisfied_buckets m real now)
