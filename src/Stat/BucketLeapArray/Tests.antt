-- ===== src/Stat/BucketLeapArray/Tests.antt =====
-- core/stat/base/bucket_leap_array.go on a new array.
use gmiter.Prelude.{ℕ, List, ◌≡◌, refl, true, some, [], ◌∷◌, arith}
use gmiter.Stat.Event
use gmiter.Stat.LeapArray.{LeapArray, calculate_start_time}
use gmiter.Stat.LeapArray.WellFormed.{IsWellFormed}
use gmiter.Stat.LeapArray.Current.{IsRefreshed}
use gmiter.Stat.LeapArray.Window.{in_window}
use gmiter.Stat.MetricBucket.{MetricBucket, new_metric_bucket}
use gmiter.Stat.BucketLeapArray.{
  BucketLeapArray, generator, count_from, count_with_time, new_bucket_leap_array,
}
use gmiter.Stat.BucketLeapArray.Refinement.{Op, adding, counting, run, replay}
use gmiter.Stat.BucketLeapArray.History.{windowed}
use gmiter.Stat.BucketLeapArray.Construct.{run-new_bucket_leap_array}
use gmiter.Stat.BucketLeapArray.Counting.{count_with_time_lem}

abbrev one_bucket : BucketLeapArray
one_bucket = record {
  window = record {
    bucket_length = 1000;
    sample_count = 1;
    interval = 1000;
    slots = some (record { bucket_start = 1000; value = new_metric_bucket }) ∷ [];
  };
}

one_bucket-IsWellFormed : IsWellFormed one_bucket.window
one_bucket-IsWellFormed = record {
  positive_length = omega arith;
  positive_count = omega arith;
  spans = refl;
  short = omega arith;
  slot_count = refl;
  aligned = ((1, refl, refl, omega arith), tt);
}

count_with_time_lem_example :
    (la : LeapArray MetricBucket) × (count_with_time one_bucket 2500 Event.pass
      ≡ some (
        record { window = la },
        count_from Event.pass 0 (in_window la.interval 2500 (λ _. true) la.slots),
      ))
    × IsRefreshed generator one_bucket.window la 0 (calculate_start_time 2500 1000)
    × IsWellFormed la
count_with_time_lem_example =
    count_with_time_lem one_bucket 2500 Event.pass one_bucket-IsWellFormed (omega arith)
      (omega arith)

-- Two passes in the first half of a second and one in the second; the first is out of the window at the
-- end.
abbrev passes : List (ℕ × Op)
passes =
    (1200, adding Event.pass 3)
    ∷ (1600, adding Event.pass 4)
    ∷ (1900, counting Event.pass)
    ∷ (2300, counting Event.pass)
    ∷ []

run-new_bucket_leap_array_example :
    (bla : BucketLeapArray) × (new_bucket_leap_array 2 1000 1000 ≡ some bla)
    × (run bla passes ≡ some (replay 500 1000 [] passes))
run-new_bucket_leap_array_example =
    run-new_bucket_leap_array 2 1000 1000 (omega arith) (omega arith) refl (omega arith)
      (omega arith) passes (omega arith)
      (
        omega arith,
        omega arith,
        (omega arith, omega arith, (omega arith, omega arith, (omega arith, omega arith, tt))),
      )

replay-passes : replay 500 1000 [] passes ≡ 7 ∷ 4 ∷ []
unfolding replay windowed
replay-passes = refl
