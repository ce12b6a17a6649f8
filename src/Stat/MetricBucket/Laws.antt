-- ===== src/Stat/MetricBucket/Laws.antt =====
-- What can be read from a bucket of core/stat/base/metric_bucket.go after each of its operations.
use gmiter.Prelude.{
  ℕ, zero, suc, ◌+◌, ◌≤◌, ◌<◌, ◌≡◌, refl, ◌∙◌, ◌≢◌, false, not, ◌&&◌, List, [], ◌∷◌, length, set,
  ltb, leb, ◌==◌, if◌then◌else◌, add64, slt64, arith, length-set,
}
use gmiter.Stat.Event
use gmiter.Stat.Event.{MetricEvent}
use gmiter.Stat.MetricBucket.{
  MetricBucket, new_metric_bucket, is_unknown, get_or, add, get, clear_from, reset, zeros,
}

-- A bucket has a counter for each event.
pub record IsWellFormed (mb : MetricBucket) : Type 0 where
  pub full : length mb.counter ≡ Event.total

pub new_metric_bucket-IsWellFormed : IsWellFormed new_metric_bucket
unfolding new_metric_bucket
new_metric_bucket-IsWellFormed = record { full = refl }

get_or-set :
    (xs : List ℕ) (i j v : ℕ)
    → i < length xs
    → get_or (set xs i v) j ≡ (if i == j then v else get_or xs j)
get_or-set [] i j v h = elim h [ ]
get_or-set (x ∷ xs) zero zero v h = refl
get_or-set (x ∷ xs) zero (suc j) v h = ground arith
get_or-set (x ∷ xs) (suc i) zero v h = ground arith
get_or-set (x ∷ xs) (suc i) (suc j) v h = get_or-set xs i j v (omega arith) ∙ ground arith

length-clear_from : (xs : List ℕ) (i n : ℕ) → length (clear_from xs i n) ≡ length xs
unfolding clear_from
length-clear_from xs i zero = refl
length-clear_from xs i (suc n) = length-clear_from (set xs i 0) (i + 1) n ∙ length-set xs i 0

get_or-clear_from :
    (n : ℕ) (xs : List ℕ) (i j : ℕ)
    → i + n ≤ length xs
    → get_or (clear_from xs i n) j ≡ (if leb i j && ltb j (i + n) then 0 else get_or xs j)
unfolding clear_from
get_or-clear_from zero xs i j h = ground arith
get_or-clear_from (suc n) xs i j h =
    ground
      (arith, get_or-clear_from n (set xs i 0) (i + 1) j, length-set xs i 0, get_or-set xs i j 0)

pub get_or-zeros : (n i : ℕ) → get_or (zeros n) i ≡ 0
get_or-zeros zero i = refl
get_or-zeros (suc n) zero = refl
get_or-zeros (suc n) (suc i) = get_or-zeros n i

module _ (mb : MetricBucket) (wf : IsWellFormed mb) where
  pub add-IsWellFormed : (event : MetricEvent) (count : ℕ) → IsWellFormed (add mb event count)
  unfolding add
  add-IsWellFormed event count =
      ground (arith, wf.full, length-set mb.counter event (add64 (get_or mb.counter event) count))

  pub reset-IsWellFormed : IsWellFormed (reset mb)
  unfolding reset
  reset-IsWellFormed = record { full = length-clear_from mb.counter 0 Event.total ∙ wf.full }

  -- `Add` adds to the counter of its event, modulo 2 ^ 64, and to no other; an unknown event
  -- changes no counter.
  pub get-add :
      (event other : MetricEvent) (count : ℕ)
      → get (add mb event count) other ≡ (
          if event == other && not (is_unknown event)
          then add64 (get mb event) count
          else get mb other)
  unfolding get add
  get-add event other count =
      ground
        (arith, wf.full, get_or-set mb.counter event other (add64 (get_or mb.counter event) count))

  -- `reset` leaves a bucket that reads as a new one: every counter 0, the response time at its
  -- maximum and no concurrency.
  pub reset_lem :
      (event : MetricEvent)
      → (get (reset mb) event ≡ get new_metric_bucket event)
        × ((reset mb).min_rt ≡ new_metric_bucket.min_rt)
        × ((reset mb).max_concurrency ≡ new_metric_bucket.max_concurrency)
  unfolding get reset new_metric_bucket
  reset_lem event = (
    ground (
      arith,
      wf.full,
      get_or-clear_from Event.total mb.counter 0 event,
      get_or-zeros Event.total event,
    ),
    refl,
    refl,
  )

  -- After `Add` of a response time the recorded minimum is at most that time, and at most the old
  -- minimum; any other event leaves it.
  pub min_rt-add :
      (event : MetricEvent) (count : ℕ)
      → (event ≡ Event.rt → slt64 count (add mb event count).min_rt ≡ false)
        × (slt64 mb.min_rt (add mb event count).min_rt ≡ false)
        × (event ≢ Event.rt → (add mb event count).min_rt ≡ mb.min_rt)
  unfolding add
  min_rt-add event count = (ground arith, ground arith, ground arith)
