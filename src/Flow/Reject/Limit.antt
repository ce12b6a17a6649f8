-- ===== src/Flow/Reject/Limit.antt =====
-- What the reject checker of core/flow/tc_default.go lets through.
use gmiter.Prelude.{
  ℕ, ◌+◌, ◌*◌, ◌/◌, ◌%◌, ◌≤◌, ◌<◌, ◌≡◌, refl, ap, ◌∙◌, inl, inr, false, Option, none, some, List,
  [], ◌∷◌, half64, mod64, neg64, arith, Bool-cases,
}
use gmiter.Prelude.Float.{Float64}
use gmiter.Chain.TokenResult.{TokenResult, GoString}
use gmiter.Stat.Event
use gmiter.Stat.Event.{MetricEvent}
use gmiter.Stat.LeapArray.{LeapArray}
use gmiter.Stat.MetricBucket.{MetricBucket}
use gmiter.Stat.BucketLeapArray.{BucketLeapArray}
use gmiter.Stat.BucketLeapArray.History.{Addition, recorded, windowed}
use gmiter.Stat.BucketLeapArray.Represents.{Kept, Represents}
use gmiter.Stat.BucketLeapArray.Refinement.{add_count-Represents}
use gmiter.Stat.SlidingWindow.{SlidingWindowMetric, get_sum_with_time}
use gmiter.Flow.Reject.{view, array, sum, add, block_with, check_again, count_and_check}
use gmiter.Flow.Reject.Viewed.{Fits, view_sum_lem}
use native.Mathlib.Nat.{mul-le-mul_right, div-add-mod', mod-lt, mul_comm}

Kept-later :
    (la : LeapArray MetricBucket) (now now' : ℕ) (history : List Addition)
    → now ≤ now'
    → Kept la now history
    → Kept la now' history
Kept-later la now now' [] le k = tt
Kept-later la now now' (a ∷ history) le (past, there, k) =
    (omega arith, λ h. there (omega arith), Kept-later la now now' history le k)

Represents-later :
    (la : LeapArray MetricBucket) (now now' : ℕ) (history : List Addition)
    → now ≤ now'
    → Represents la now history
    → Represents la now' history
Represents-later la now now' history le r = record {
  well_formed = r.well_formed;
  kept = Kept-later la now now' history le r.kept;
  full = r.full;
  counted = r.counted;
}

-- An addition of RejectPass.
abbrev pub request : (now batch : ℕ) → Addition
request now batch = record { time = now; event = Event.reject_pass; count = batch }

-- What is taken back leaves no trace.
Represents-back :
    (la : LeapArray MetricBucket) (now time batch : ℕ) (history : List Addition)
    → batch < mod64
    → Represents la now (request time (neg64 batch) ∷ request time batch ∷ history)
    → Represents la now history
unfolding recorded
Represents-back la now time batch history small r = record {
  well_formed = r.well_formed;
  kept = r.kept.2.2;
  full = r.full;
  counted = λ j w e event. r.counted j w e event ∙ ground arith;
}

abbrev pub viewed : (bl interval now : ℕ) → List Addition → ℕ
viewed bl interval now history =
    windowed bl interval (now / bl * bl) Event.reject_pass history % mod64

-- The requests let through, newest first, after one more check.
abbrev pub passed :
    {R V : Type 0} → ℕ → ℕ → List Addition → Option (TokenResult R V) → List Addition
passed now batch history none = request now batch ∷ history
passed now batch history (some r) = history

bucket_ends : (bl count now : ℕ) → 0 < bl → 0 < count → now < now / bl * bl + bl * count
bucket_ends bl count now h hc =
    let k : 1 * bl ≤ count * bl = mul-le-mul_right bl hc in
    omega (arith, div-add-mod' now bl, mod-lt now h, mul_comm bl count)

-- The view after an addition.
added_sum :
    (m : SlidingWindowMetric) (real : BucketLeapArray) (now batch : ℕ) (history : List Addition)
    → Represents real.window now (request now batch ∷ history)
    → 0 < now
    → now < half64
    → Fits m real.window now
    → get_sum_with_time m real now Event.reject_pass
      ≡ viewed real.window.bucket_length m.interval now (request now batch ∷ history)
added_sum m real now batch history r positive early fits =
    let wf = r.well_formed in
    view_sum_lem m real now (request now batch ∷ history) Event.reject_pass r
      (r.kept.1 (
        rw wf.spans (
          bucket_ends real.window.bucket_length real.window.sample_count now wf.positive_length
            wf.positive_count)))
      positive early fits

module _ {R V : Type 0} (f : Float64) (text : GoString) (rule : Option R) (float_value : f.F → V)
    (m : SlidingWindowMetric) (threshold : f.F) (bl interval : ℕ) where
  -- What a check leaves: the array stands for the requests let through, and if it lets this one through,
  -- their tokens in the view are not over the threshold.
  abbrev pub HasChecked :
      (now batch : ℕ) → List Addition → Option (BucketLeapArray × Option (TokenResult R V)) → Type 0
  HasChecked now batch history o =
      (real : BucketLeapArray) × (r : Option (TokenResult R V)) × (o ≡ some (real, r))
      × Represents real.window now (passed now batch history r)
      × (r ≡ none
          → f.lt threshold (f.of_int64 (viewed bl m.interval now (request now batch ∷ history)))
            ≡ false)
      × (real.window.bucket_length ≡ bl)
      × (real.window.interval ≡ interval)

  module _ (now batch : ℕ) (history : List Addition) (positive : 0 < now) (early : now < half64)
      (small : batch < mod64) where
    check_again-HasChecked :
        (real : BucketLeapArray)
        → Represents real.window now (request now batch ∷ history)
        → Fits m real.window now
        → real.window.bucket_length ≡ bl
        → real.window.interval ≡ interval
        → HasChecked now batch history
            (check_again f text rule float_value (view m) array real now batch threshold)
    unfolding check_again sum add block_with
    check_again-HasChecked real r fits same_length same_interval =
        let total : get_sum_with_time m real now Event.reject_pass
            ≡ viewed bl m.interval now (request now batch ∷ history) =
          added_sum m real now batch history r positive early fits
          ∙ ap (λ n. viewed n m.interval now (request now batch ∷ history)) same_length in
        let (back, added, r', length', interval') =
          add_count-Represents real now now (request now batch ∷ history) r positive (omega arith)
            early Event.reject_pass (neg64 batch) in
        rw total
          (elim (Bool-cases (
            f.lt threshold (f.of_int64 (viewed bl m.interval now (request now batch ∷ history))))) [
              | inl over ↦
                  rw (over, added)
                    (
                      back,
                      _,
                      refl,
                      Represents-back back.window now now batch history small r',
                      λ h. absurd (different h),
                      length' ∙ same_length,
                      interval' ∙ same_interval,
                    )
              | inr within ↦ rw within (real, none, refl, r, λ _. refl, same_length, same_interval)
            ])
      where
        different : {A : Type 0} {a : A} → some a ≡ none → ⊥
        different h = cc

    moved-Fits :
        (la la' : LeapArray MetricBucket)
        → la'.bucket_length ≡ la.bucket_length
        → la'.interval ≡ la.interval
        → Fits m la now
        → Fits m la' now
    moved-Fits la la' same_length same_interval fits = record {
      buckets = fits.buckets;
      whole = rw same_length fits.whole;
      some_buckets = fits.some_buckets;
      fits = rw same_interval fits.fits;
      late = rw same_length fits.late;
    }

    pub count_and_check-HasChecked :
        (real : BucketLeapArray) (before : ℕ)
        → Represents real.window before history
        → 0 < before
        → before ≤ now
        → Fits m real.window now
        → real.window.bucket_length ≡ bl
        → real.window.interval ≡ interval
        → HasChecked now batch history
            (count_and_check f text rule float_value (view m) array real now batch threshold)
    unfolding count_and_check add block_with
    count_and_check-HasChecked real before r some_time le fits same_length same_interval =
        let (added, e, r', length', interval') =
          add_count-Represents real before now history r some_time le early Event.reject_pass
            batch in
        elim (Bool-cases (f.lt threshold (f.of_int64 (sum (view m) real now)))) [
          | inl over ↦ rw over (
            real,
            _,
            refl,
            Represents-later real.window before now history le r,
            λ h. absurd (different h),
            same_length,
            same_interval,
          )
          | inr within ↦
              rw (within, e)
                (check_again-HasChecked added r'
                  (moved-Fits real.window added.window length' interval' fits)
                  (length' ∙ same_length) (interval' ∙ same_interval))
        ]
      where
        different : {A : Type 0} {a : A} → some a ≡ none → ⊥
        different h = cc
