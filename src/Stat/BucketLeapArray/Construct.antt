-- ===== src/Stat/BucketLeapArray/Construct.antt =====
-- `NewBucketLeapArray` of core/stat/base/bucket_leap_array.go, and the runs from it.
use gmiter.Prelude.{
  ℕ, ◌*◌, ◌/◌, ◌%◌, ◌<◌, ◌≡◌, sym, ap, ◌∙◌, some, List, [], half64, mod32, arith, ==_of_pos,
}
use gmiter.Stat.LeapArray.{BucketWrap, LeapArray}
use gmiter.Stat.LeapArray.{get as get_slot}
use gmiter.Stat.LeapArray.WellFormed.{IsWellFormed}
use gmiter.Stat.LeapArray.Current.{get_eq, slot_count_lt}
use gmiter.Stat.LeapArray.Construct.{ring, ring-Slots, ring-length, ring-ok, ring-AllNew}
use gmiter.Stat.MetricBucket
use gmiter.Stat.MetricBucket.{MetricBucket}
use gmiter.Stat.MetricBucket.Laws
use gmiter.Stat.BucketLeapArray.{BucketLeapArray, generator, new_bucket_leap_array}
use gmiter.Stat.BucketLeapArray.Counting.{some-joined}
use gmiter.Stat.BucketLeapArray.History.{recorded}
use gmiter.Stat.BucketLeapArray.Represents.{Represents, new_counts}
use gmiter.Stat.BucketLeapArray.Refinement.{Op, run, replay, IsOrdered, run-replay}
use native.Mathlib.Nat.{div-add-mod'}
use mathlib.Core.Path.{subst}

module _ (count interval now : ℕ) (positive : 0 < count) (long : 0 < interval)
    (divides : interval % count ≡ 0) (short : interval < mod32) (early : now < half64) where
  pub whole : interval / count * count ≡ interval
  whole = omega (arith, div-add-mod' interval count)

  pub length_pos : 0 < interval / count
  length_pos = grind (arith, whole)

  pub short' : interval / count * count < mod32
  short' = omega (arith, whole)

  abbrev pub made : LeapArray MetricBucket
  made = record {
    bucket_length = interval / count;
    sample_count = count;
    interval = interval;
    slots = ring generator count (interval / count) now positive length_pos short' early;
  }

  pub made-IsWellFormed : IsWellFormed made
  made-IsWellFormed = record {
    positive_length = length_pos;
    positive_count = positive;
    spans = sym whole;
    short = short;
    slot_count =
        ring-length generator count (interval / count) now positive length_pos short' early;
    aligned = ring-Slots generator count (interval / count) now positive length_pos short' early;
  }

  made-new :
      (j : ℕ) (w : BucketWrap MetricBucket)
      → get_slot made.slots j ≡ some w
      → w.value ≡ MetricBucket.new_metric_bucket
  made-new j w e =
      ring-AllNew generator count (interval / count) now positive length_pos short' early j w
        (some-joined _ _ (sym (get_eq made.slots j (slot_count_lt made made-IsWellFormed)) ∙ e))

  pub made-Represents : Represents made now []
  unfolding recorded
  made-Represents = record {
    well_formed = made-IsWellFormed;
    kept = tt;
    full =
        λ j w e. subst Laws.IsWellFormed (sym (made-new j w e)) Laws.new_metric_bucket-IsWellFormed;
    counted = λ j w e event.
        ap (λ value. MetricBucket.get value event) (made-new j w e) ∙ new_counts event;
  }

  pub made_eq : new_bucket_leap_array count interval now ≡ some (record { window = made })
  unfolding new_bucket_leap_array
  made_eq = rw (
    ==_of_pos count positive,
    ring-ok generator count (interval / count) now positive length_pos short' early,
    new_bucket_leap_array,
  )

  -- A new array answers as the record of its additions does: over any sequence of `AddCount` and
  -- `CountWithTime` at times that do not go back, each count is the sum, modulo 2 ^ 64, of the
  -- additions of its event in the buckets that started within the last interval.
  pub run-new_bucket_leap_array :
      (ops : List (ℕ × Op))
      → 0 < now
      → IsOrdered now ops
      → (bla : BucketLeapArray) × (new_bucket_leap_array count interval now ≡ some bla)
        × (run bla ops ≡ some (replay (interval / count) interval [] ops))
  run-new_bucket_leap_array ops late ordered = (
    record { window = made },
    made_eq,
    run-replay (record { window = made }) now [] ops made-Represents late ordered,
  )
