-- ===== src/Stat/SlidingWindow/Tests.antt =====
-- core/stat/base/sliding_window_metric.go: a view of half a second on an array of two such buckets.
use gmiter.Prelude.{ℕ, ◌*◌, ◌/◌, ◌≤◌, ◌<◌, ◌≡◌, refl, some, [], ◌∷◌, arith}
use gmiter.Stat.Event
use gmiter.Stat.LeapArray.WellFormed.{IsWellFormed}
use gmiter.Stat.MetricBucket.{MetricBucket, new_metric_bucket, add}
use gmiter.Stat.BucketLeapArray.{BucketLeapArray}
use gmiter.Stat.SlidingWindow.{
  SlidingWindowMetric, get_sum_with_time, count, check_validity_for_reuse_statistic,
}
use gmiter.Stat.SlidingWindow.Satisfied.{recents, get_sum_with_time_lem}
use gmiter.Stat.SlidingWindow.Validity.{check_validity_for_reuse_statistic_lem}

abbrev busy : MetricBucket
busy = add new_metric_bucket Event.pass 4

abbrev real : BucketLeapArray
real = record {
  window = record {
    bucket_length = 500;
    sample_count = 2;
    interval = 1000;
    slots =
        some (record { bucket_start = 1000; value = busy })
        ∷ some (record { bucket_start = 500; value = busy })
        ∷ [];
  };
}

real-IsWellFormed : IsWellFormed real.window
real-IsWellFormed = record {
  positive_length = omega arith;
  positive_count = omega arith;
  spans = refl;
  short = omega arith;
  slot_count = refl;
  aligned = ((2, refl, refl, omega arith), ((1, refl, refl, omega arith), tt));
}

abbrev view : SlidingWindowMetric
view = record { bucket_length = 500; sample_count = 1; interval = 500 }

get_sum_with_time_lem_example :
    get_sum_with_time view real 1200 Event.pass
    ≡ count Event.pass 0 (recents 500 1000 real.window.slots)
get_sum_with_time_lem_example =
    get_sum_with_time_lem view real real-IsWellFormed 1200 (omega arith) Event.pass 1 (omega arith)
      (record { bucket_start = 1000; value = busy }, refl, refl) refl (omega arith) (omega arith)
      (omega arith)

check_validity_for_reuse_statistic_lem_example :
    (k : ℕ) × (0 < k) × (500 ≡ k * (1000 / 2)) × (500 ≤ 1000)
unfolding check_validity_for_reuse_statistic
check_validity_for_reuse_statistic_lem_example =
    check_validity_for_reuse_statistic_lem 1 500 2 1000 refl
