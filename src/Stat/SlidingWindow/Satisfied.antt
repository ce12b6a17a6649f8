-- ===== src/Stat/SlidingWindow/Satisfied.antt =====
-- Which buckets a view of core/stat/base/sliding_window_metric.go counts.
use gmiter.Prelude.{
  ℕ, suc, ◌+◌, ◌-◌, ◌*◌, ◌/◌, ◌≤◌, ◌<◌, ◌≡◌, refl, ap, ◌∙◌, Bool, ◌&&◌, Option, none, some, List,
  [], ◌∷◌, ltb, leb, if◌then◌else◌, half64, mod32, add64, sub64, arith,
}
use gmiter.Stat.Event.{MetricEvent}
use gmiter.Stat.LeapArray.{BucketWrap}
use gmiter.Stat.LeapArray.WellFormed.{Slots, IsWellFormed}
use gmiter.Stat.LeapArray.Current.{calculate_start_time_eq}
use gmiter.Stat.LeapArray.Window.{within, in_window, IsCurrent, values_conditional-eq}
use gmiter.Stat.MetricBucket.{MetricBucket}
use gmiter.Stat.BucketLeapArray.{BucketLeapArray, values_conditional}
use gmiter.Stat.SlidingWindow.{
  SlidingWindowMetric, get_bucket_start_range, get_satisfied_buckets, count, get_sum_with_time,
}
use native.Mathlib.Decide.{dec_lt}
use native.Mathlib.Nat.{mul-le-mul_right, mod-lt, div-add-mod'}

-- The bucket is one of the last ones that make up the interval, the current one being the last.
abbrev pub recent : (interval last start : ℕ) → Bool
recent interval last start = leb start last && ltb last (start + interval)

-- The recent buckets, in the order of their slots.
abbrev pub recents {ℓ} :
    {A : Type ℓ} → (interval last : ℕ) → List (Option (BucketWrap A)) → List (BucketWrap A)
recents interval last [] = []
recents interval last (none ∷ slots) = recents interval last slots
recents interval last (some w ∷ slots) =
    let rest = recents interval last slots in
    if recent interval last w.bucket_start then w ∷ rest else rest

module _ (bl now real_interval interval : ℕ) (positive : 0 < bl) (fits : interval ≤ real_interval)
    (short : interval < mod32) (early : now < half64) (k : ℕ) (whole : interval ≡ k * bl)
    (some_buckets : 0 < k) (late : interval ≤ now / bl * bl) where
  abbrev start : ℕ
  start = add64 (sub64 (now / bl * bl) interval) bl

  now_between : (now / bl * bl ≤ now) × (now < now / bl * bl + bl)
  now_between =
      (omega (arith, div-add-mod' now bl), omega (arith, div-add-mod' now bl, mod-lt now positive))

  -- On aligned buckets the three tests are one.
  tests_eq :
      (w q : ℕ)
      → w ≡ q * bl
      → (within real_interval now w && (leb start w && leb w (now / bl * bl)))
        ≡ recent interval (now / bl * bl) w
  tests_eq w q e =
      let one : 1 * bl ≤ k * bl = mul-le-mul_right bl some_buckets in
      let at : start ≡ now / bl * bl - interval + bl =
        omega (arith, one, now_between, short, early) in
      rw at (elim (dec_lt (now / bl) (q + k)) [
        | yes p ↦
            let in_view : suc (now / bl) * bl ≤ (q + k) * bl = mul-le-mul_right bl p in
            let seen : now / bl * bl + bl ≤ w + interval = omega arith in
            ground (arith, now_between)
        | no p ↦
            let out : (q + k) * bl ≤ now / bl * bl = mul-le-mul_right bl (omega arith) in
            let gone : w + interval ≤ now / bl * bl = omega arith in ground (arith, now_between)
      ])

  in_window-recents :
      (count i : ℕ) (slots : List (Option (BucketWrap MetricBucket)))
      → Slots bl count i slots
      → in_window real_interval now (λ ws. leb start ws && leb ws (now / bl * bl)) slots
        ≡ recents interval (now / bl * bl) slots
  in_window-recents count i [] a = refl
  in_window-recents count i (none ∷ slots) a = absurd a
  in_window-recents count i (some w ∷ slots) a =
      let rest = in_window-recents count (suc i) slots a.1 in
      rw (tests_eq w.bucket_start a.0.0 a.0.1, rest) refl

module _ (m : SlidingWindowMetric) (real : BucketLeapArray) (wf : IsWellFormed real.window)
    (now : ℕ) (early : now < half64) where
  -- A view whose interval is a positive number of buckets of the array, not longer than the array's, sums
  -- an event over exactly the last buckets that make up its interval, the bucket of `now` the last of them.
  pub get_sum_with_time_lem :
      (event : MetricEvent) (k : ℕ)
      → 0 < now
      → IsCurrent real.window wf now early
      → m.interval ≡ k * real.window.bucket_length
      → 0 < k
      → m.interval ≤ real.window.interval
      → m.interval ≤ now / real.window.bucket_length * real.window.bucket_length
      → get_sum_with_time m real now event
        ≡ count event 0 (
            recents m.interval
              (now / real.window.bucket_length * real.window.bucket_length)
              real.window.slots)
  unfolding get_sum_with_time get_satisfied_buckets get_bucket_start_range values_conditional
  get_sum_with_time_lem event k late current whole some_buckets fits old =
      let bl = real.window.bucket_length in
      rw (calculate_start_time_eq now bl) (
        ap (count event 0) (
          values_conditional-eq real.window wf now early current _ late
          ∙ in_window-recents bl now real.window.interval m.interval wf.positive_length fits
              (omega (arith, fits, wf.short)) early k whole some_buckets old
              real.window.sample_count 0 real.window.slots wf.aligned))
