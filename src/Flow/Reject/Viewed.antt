-- ===== src/Flow/Reject/Viewed.antt =====
-- What a view of a bucket leap array (core/stat/base/sliding_window_metric.go) sums, by the additions made.
use gmiter.Prelude.{
  ℕ, suc, ◌+◌, ◌*◌, ◌/◌, ◌%◌, ◌≤◌, ◌<◌, ◌≡◌, refl, sym, ap, ◌∙◌, inl, inr, true, Option, none, some,
  List, [], ◌∷◌, get_elem?, half64, mod64, arith, Bool-cases,
}
use gmiter.Stat.Event.{MetricEvent}
use gmiter.Stat.LeapArray.{BucketWrap, LeapArray}
use gmiter.Stat.LeapArray.WellFormed.{IsWellFormed}
use gmiter.Stat.LeapArray.Current.{get_eq, get_lem, slot_count_lt}
use gmiter.Stat.LeapArray.Window.{within, in_window, IsCurrent}
use gmiter.Stat.MetricBucket.{MetricBucket}
use gmiter.Stat.BucketLeapArray.{BucketLeapArray, count_from}
use gmiter.Stat.BucketLeapArray.Counting.{some-joined}
use gmiter.Stat.BucketLeapArray.History.{
  Addition, recorded, windowed, count_from-over, over-recorded, AllFound,
}
use gmiter.Stat.BucketLeapArray.Represents.{Stands, Kept, Represents}
use gmiter.Stat.SlidingWindow.{SlidingWindowMetric, count, get_sum_with_time}
use gmiter.Stat.SlidingWindow.Satisfied.{recents, get_sum_with_time_lem}
use native.Mathlib.Nat.{zero-add, mul-le-mul_right, div-add-mod', mod-lt}
use native.Mathlib.Decide.{dec_lt}

recents_eq :
    (interval last : ℕ) (slots : List (Option (BucketWrap MetricBucket)))
    → recents interval last slots ≡ in_window interval last (λ _. true) slots
recents_eq interval last [] = refl
recents_eq interval last (none ∷ slots) = recents_eq interval last slots
recents_eq interval last (some w ∷ slots) =
    let rest = recents_eq interval last slots in
    elim (Bool-cases (within interval last w.bucket_start)) [
      | inl hit ↦ rw hit (ap (λ l. w ∷ l) rest)
      | inr miss ↦ rw miss rest
    ]

count_eq :
    (event : MetricEvent) (ws : List (BucketWrap MetricBucket)) (ret : ℕ)
    → count event ret ws ≡ count_from event ret ws
unfolding count count_from
count_eq event [] ret = refl
count_eq event (w ∷ ws) ret = count_eq event ws _

-- The parts of a view that fit the array.
pub record Fits (m : SlidingWindowMetric) (la : LeapArray MetricBucket) (now : ℕ) : Type 0 where
  pub buckets : ℕ
  pub whole : m.interval ≡ buckets * la.bucket_length
  pub some_buckets : 0 < buckets
  pub fits : m.interval ≤ la.interval
  pub late : m.interval ≤ now / la.bucket_length * la.bucket_length

module _ (la : LeapArray MetricBucket) (m : SlidingWindowMetric) (now : ℕ) (wf : IsWellFormed la)
    (fits : Fits m la now) where
  -- What a view shows is in the window of the array.
  in_view :
      (p : ℕ)
      → now / la.bucket_length * la.bucket_length < p * la.bucket_length + m.interval
      → now < p * la.bucket_length + la.interval
  in_view p h = elim (dec_lt (now / la.bucket_length) (p + fits.buckets)) [
    | yes lt ↦
        let k : suc (now / la.bucket_length) * la.bucket_length
            ≤ (p + fits.buckets) * la.bucket_length =
          mul-le-mul_right la.bucket_length lt in
        omega (
          arith,
          fits.whole,
          fits.fits,
          div-add-mod' now la.bucket_length,
          mod-lt now wf.positive_length,
        )
    | no ge ↦
        let k : (p + fits.buckets) * la.bucket_length ≤ now / la.bucket_length * la.bucket_length =
          mul-le-mul_right la.bucket_length (omega arith) in
        absurd (omega (arith, fits.whole))
  ]

  viewed-AllFound :
      (history : List Addition)
      → Kept la now history
      → AllFound la.bucket_length la.sample_count m.interval
          (now / la.bucket_length * la.bucket_length)
          wf.positive_length
          la.slots
          history
  viewed-AllFound [] k = tt
  viewed-AllFound (a ∷ history) (past, there, k) = (
    λ h. held (there (in_view (a.time / la.bucket_length) (ground (arith, h)))),
    viewed-AllFound history k,
  )
    where
      held :
          Stands la
            (a.time / la.bucket_length % la.sample_count)
            (a.time / la.bucket_length * la.bucket_length)
          → (w : BucketWrap MetricBucket) × (get_elem? la.slots
                (a.time / la.bucket_length % la.sample_count)
              ≡ some (some w))
            × (w.bucket_start ≡ a.time / la.bucket_length * la.bucket_length)
      held (w, e, at) = (w, some-joined _ _ (sym (get_eq la.slots _ (slot_count_lt la wf)) ∙ e), at)

-- If the slot of now stands for now, the view sums the additions whose bucket is one of its last ones.
pub view_sum_lem :
    (m : SlidingWindowMetric) (real : BucketLeapArray) (now : ℕ) (history : List Addition)
    (event : MetricEvent)
    → Represents real.window now history
    → Stands real.window
        (now / real.window.bucket_length % real.window.sample_count)
        (now / real.window.bucket_length * real.window.bucket_length)
    → 0 < now
    → now < half64
    → Fits m real.window now
    → get_sum_with_time m real now event
      ≡ windowed real.window.bucket_length m.interval
          (now / real.window.bucket_length * real.window.bucket_length)
          event
          history
        % mod64
view_sum_lem m real now history event r (w, held, at) positive early fits =
    let wf = r.well_formed in
    let bl = real.window.bucket_length in
    let last = now / bl * bl in
    let current : IsCurrent real.window wf now early = (
      w,
      some-joined _ _ (sym (get_eq real.window.slots _ (slot_count_lt real.window wf)) ∙ held),
      at,
    ) in
    get_sum_with_time_lem m real wf now early event fits.buckets positive current fits.whole
      fits.some_buckets fits.fits fits.late
    ∙ ap (count event 0) (recents_eq m.interval last real.window.slots)
    ∙ count_eq event _ 0
    ∙ count_from-over m.interval last event (λ s. recorded bl s event history) real.window.slots 0
        (λ j v e. r.counted j v (get_lem real.window wf j v e) event) (omega arith)
    ∙ rw
        (
          zero-add,
          over-recorded bl real.window.sample_count m.interval last wf.positive_length event
              real.window.slots history wf.aligned
              (viewed-AllFound real.window m now wf fits history r.kept),
        )
        refl
