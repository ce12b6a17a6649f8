-- ===== src/Stat/BucketLeapArray/Counting.antt =====
-- What `CountWithTime` of core/stat/base/bucket_leap_array.go adds up.
use gmiter.Prelude.{
  ℕ, ◌/◌, ◌%◌, ◌<◌, ◌≡◌, refl, sym, ap, ◌∙◌, true, Option, none, some, [], ◌∷◌, half64, ok,
}
use gmiter.Stat.Event.{MetricEvent}
use gmiter.Stat.LeapArray.{
  BucketWrap, LeapArray, current_bucket_of_time, values_conditional, values_with_time,
  calculate_start_time,
}
use gmiter.Stat.LeapArray.WellFormed.{IsWellFormed}
use gmiter.Stat.LeapArray.Current.{
  undisturbed, IsRefreshed, current_bucket_of_time-IsRefreshed, get_eq, joined, slot_count_lt,
  calculate_start_time_eq,
}
use gmiter.Stat.LeapArray.Window.{in_window, IsCurrent, values_conditional-eq}
use gmiter.Stat.MetricBucket.{MetricBucket}
use gmiter.Stat.BucketLeapArray.{BucketLeapArray, generator, fetch, count_from, count_with_time}

pub some-joined :
    (o : Option (Option (BucketWrap MetricBucket))) (w : BucketWrap MetricBucket)
    → joined o ≡ some w
    → o ≡ some (some w)
unfolding joined
some-joined none w h = cc
some-joined (some o) w h = ap some h

pub fetch_eq :
    (bla : BucketLeapArray) (now i : ℕ) (la : LeapArray MetricBucket)
    → current_bucket_of_time generator bla.window now (undisturbed ∷ []) ≡ some (ok (i, la))
    → fetch bla now ≡ some (record { window = la }, some i)
unfolding fetch
fetch_eq bla now i la e = rw (e, fetch)

count_eq :
    (bla : BucketLeapArray) (now i : ℕ) (la : LeapArray MetricBucket) (event : MetricEvent)
    → fetch bla now ≡ some (record { window = la }, some i)
    → count_with_time bla now event
      ≡ some (record { window = la }, count_from event 0 (values_with_time la now))
unfolding count_with_time
count_eq bla now i la event e = rw (e, count_with_time) refl

-- On a well-formed array `CountWithTime` first refreshes the bucket of the time, and then adds up the
-- counters of exactly the buckets that started within the last interval.
pub count_with_time_lem :
    (bla : BucketLeapArray) (now : ℕ) (event : MetricEvent)
    → IsWellFormed bla.window
    → 0 < now
    → now < half64
    → (la : LeapArray MetricBucket) × (count_with_time bla now event
        ≡ some (
          record { window = la },
          count_from event 0 (in_window la.interval now (λ _. true) la.slots),
        ))
      × IsRefreshed generator bla.window la
          (now / bla.window.bucket_length % bla.window.sample_count)
          (calculate_start_time now bla.window.bucket_length)
      × IsWellFormed la
unfolding values_with_time values_conditional
count_with_time_lem bla now event wf late early =
    let (la, found, refreshed, wf') =
      current_bucket_of_time-IsRefreshed generator bla.window wf now [] late early in
    let i = now / bla.window.bucket_length % bla.window.sample_count in
    let current : IsCurrent la wf' now early =
      rw (refreshed.same_length, refreshed.same_count)
        (
          _,
          some-joined _ _ (sym (get_eq la.slots i (slot_count_lt la wf')) ∙ refreshed.holds),
          calculate_start_time_eq now bla.window.bucket_length,
        ) in
    (
      la,
      count_eq bla now i la event (fetch_eq bla now i la found)
          ∙ ap (λ ws. some (record { window = la }, count_from event 0 ws))
              (values_conditional-eq la wf' now early current (λ _. true) late),
      refreshed,
      wf',
    )
