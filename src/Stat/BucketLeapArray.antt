-- ===== src/Stat/BucketLeapArray.antt =====
-- core/stat/base/bucket_leap_array.go: the leap array of `MetricBucket`s. One goroutine runs at a time
-- here, so the update lock is free (the spin under interference is that of `LeapArray.Spin`). A
-- result is `none` where the code panics or spins for ever.
-- The argument `now` is the clock; an operation that reads it twice takes both values.
pub mod Counting
pub mod History
pub mod Represents
pub mod Update
pub mod Refinement
pub mod Construct
mod Tests
use gmiter.Prelude.{
  ℕ, ◌/◌, Bool, Option, none, some, List, [], ◌∷◌, set, ◌==◌, if◌then◌else◌, add64, slt64, slt32,
  ok, err, panic,
}
use gmiter.Stat.Event.{MetricEvent}
use gmiter.Stat.LeapArray
use gmiter.Stat.LeapArray.{BucketWrap, BucketGenerator, LeapArray}
use gmiter.Stat.LeapArray.Current.{undisturbed}
use gmiter.Stat.MetricBucket
use gmiter.Stat.MetricBucket.{MetricBucket}

pub record BucketLeapArray : Type 0 where
  pub window : LeapArray MetricBucket

-- `NewEmptyBucket` and `ResetBucketTo`.
abbrev pub generator : BucketGenerator MetricBucket
generator = record {
  new_empty_bucket = MetricBucket.new_metric_bucket;
  reset_value = MetricBucket.reset;
}

-- A zero `sampleCount` is a division by zero.
unfoldable pub new_bucket_leap_array : ℕ → ℕ → ℕ → Option BucketLeapArray
new_bucket_leap_array sample_count interval now =
    if sample_count == 0
    then none
    else elim (LeapArray.new_atomic_bucket_wrap_array_with_time sample_count
        (interval / sample_count) now generator) [
          | ok slots ↦ some (record {
            window = record {
              bucket_length = interval / sample_count;
              sample_count = sample_count;
              interval = interval;
              slots = slots;
            };
          })
          | _ ↦ none
        ]

-- `data.currentBucketOfTime(now, bla)`: the array afterwards, and the slot unless the code logs an
-- error.
unfoldable pub fetch : BucketLeapArray → ℕ → Option (BucketLeapArray × Option ℕ)
fetch bla now =
    elim (LeapArray.current_bucket_of_time generator bla.window now (undisturbed ∷ [])) [
      | some (ok (i, la)) ↦ some (record { window = la }, some i)
      | some (err e) ↦ some (bla, none)
      | some panic ↦ none
      | none ↦ none
    ]

-- The bucket of `currentBucketWithTime`, changed in place by `f`.
unfoldable pub update : BucketLeapArray → ℕ → (MetricBucket → MetricBucket) → BucketLeapArray
update bla i f = elim (LeapArray.get bla.window.slots i) [
  | none ↦ bla
  | some w ↦ record {
    window = record bla.window {
      slots = set bla.window.slots i (some (record w { value = f w.value }));
    };
  }
]

unfoldable pub add_count_with_time : BucketLeapArray → ℕ → MetricEvent → ℕ → Option BucketLeapArray
add_count_with_time bla now event count = elim (fetch bla now) [
  | none ↦ none
  | some (bla', none) ↦ some bla'
  | some (bla', some i) ↦ some (update bla' i (λ b. MetricBucket.add b event count))
]

unfoldable pub update_concurrency_with_time : BucketLeapArray → ℕ → ℕ → Option BucketLeapArray
update_concurrency_with_time bla now concurrency = elim (fetch bla now) [
  | none ↦ none
  | some (bla', none) ↦ some bla'
  | some (bla', some i) ↦ some (update bla' i (λ b. MetricBucket.update_concurrency b concurrency))
]

-- The loop of `CountWithTime`, with the sum so far.
unfoldable pub count_from : MetricEvent → ℕ → List (BucketWrap MetricBucket) → ℕ
count_from event count [] = count
count_from event count (w ∷ ws) = count_from event (add64 count (MetricBucket.get w.value event)) ws

unfoldable pub count_with_time : BucketLeapArray → ℕ → MetricEvent → Option (BucketLeapArray × ℕ)
count_with_time bla now event = elim (fetch bla now) [
  | none ↦ none
  | some (bla', _) ↦ some (bla', count_from event 0 (LeapArray.values_with_time bla'.window now))
]

unfoldable pub values :
    BucketLeapArray → ℕ → Option (BucketLeapArray × List (BucketWrap MetricBucket))
values bla now = elim (fetch bla now) [
  | none ↦ none
  | some (bla', _) ↦ some (bla', LeapArray.values_with_time bla'.window now)
]

unfoldable pub values_conditional :
    BucketLeapArray → ℕ → (ℕ → Bool) → List (BucketWrap MetricBucket)
values_conditional bla now predicate = LeapArray.values_conditional bla.window now predicate

unfoldable pub min_rt_from : ℕ → List (BucketWrap MetricBucket) → ℕ
min_rt_from ret [] = ret
min_rt_from ret (w ∷ ws) = min_rt_from (if slt64 w.value.min_rt ret then w.value.min_rt else ret) ws

unfoldable pub min_rt : BucketLeapArray → ℕ → ℕ → Option (BucketLeapArray × ℕ)
min_rt bla now now' = elim (fetch bla now) [
  | none ↦ none
  | some (bla', _) ↦ some (
    bla',
    min_rt_from MetricBucket.default_statistic_max_rt (LeapArray.values_with_time bla'.window now'),
  )
]

unfoldable pub max_concurrency_from : ℕ → List (BucketWrap MetricBucket) → ℕ
max_concurrency_from ret [] = ret
max_concurrency_from ret (w ∷ ws) =
    max_concurrency_from
      (if slt32 ret w.value.max_concurrency then w.value.max_concurrency else ret) ws

unfoldable pub max_concurrency : BucketLeapArray → ℕ → ℕ → Option (BucketLeapArray × ℕ)
max_concurrency bla now now' = elim (fetch bla now) [
  | none ↦ none
  | some (bla', _) ↦
      some (bla', max_concurrency_from 0 (LeapArray.values_with_time bla'.window now'))
]

abbrev first_count : MetricEvent → List (BucketWrap MetricBucket) → ℕ
first_count event [] = 0
first_count event (w ∷ ws) = MetricBucket.get w.value event

unfoldable pub get_first_count_of_window :
    BucketLeapArray → ℕ → ℕ → MetricEvent → Option (BucketLeapArray × ℕ)
get_first_count_of_window bla now now' event = elim (fetch bla now) [
  | none ↦ none
  | some (bla', _) ↦ some (bla', first_count event (LeapArray.values_with_time bla'.window now'))
]
