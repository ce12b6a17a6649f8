-- ===== src/Stat/BucketLeapArray/Refinement.antt =====
-- core/stat/base/bucket_leap_array.go: runs of its operations against the record of the additions.
use gmiter.Prelude.{
  ℕ, ◌*◌, ◌/◌, ◌%◌, ◌≤◌, ◌<◌, ◌≡◌, refl, sym, ap, ◌∙◌, true, Option, none, some, List, [], ◌∷◌,
  get_elem?, half64, mod64, arith,
}
use gmiter.Stat.Event.{MetricEvent}
use gmiter.Stat.LeapArray.{BucketWrap, LeapArray}
use gmiter.Stat.LeapArray.WellFormed.{IsWellFormed}
use gmiter.Stat.LeapArray.Current.{
  current_bucket_of_time-IsRefreshed, get_eq, get_lem, slot_count_lt, calculate_start_time_eq,
}
use gmiter.Stat.LeapArray.Window.{in_window}
use gmiter.Stat.MetricBucket
use gmiter.Stat.MetricBucket.{MetricBucket}
use gmiter.Stat.BucketLeapArray.{
  BucketLeapArray, generator, add_count_with_time, count_with_time, count_from,
}
use gmiter.Stat.BucketLeapArray.Counting.{fetch_eq, some-joined, count_with_time_lem}
use gmiter.Stat.BucketLeapArray.History.{
  Addition, recorded, windowed, count_from-over, over-recorded, AllFound,
}
use gmiter.Stat.BucketLeapArray.Represents.{Stands, Kept, Represents, refresh-Represents}
use gmiter.Stat.BucketLeapArray.Update.{update_eq, changed-Represents}
use native.Mathlib.Nat.{zero-add}
use mathlib.Core.Option.{map as map_option}

-- The two operations that a caller sees.
pub data Op : Type 0 where
  adding : MetricEvent → ℕ → Op
  counting : MetricEvent → Op

-- What the calls of `CountWithTime` give, in order, where each operation stands with its time.
unfoldable pub run : BucketLeapArray → List (ℕ × Op) → Option (List ℕ)
run bla [] = some []
run bla ((now, adding event count) ∷ ops) = elim (add_count_with_time bla now event count) [
  | none ↦ none
  | some bla' ↦ run bla' ops
]
run bla ((now, counting event) ∷ ops) = elim (count_with_time bla now event) [
  | none ↦ none
  | some (bla', n) ↦ map_option (λ answers. n ∷ answers) (run bla' ops)
]

-- The same from the additions alone: the sum of the recent ones, modulo 2 ^ 64.
unfoldable pub replay : ℕ → ℕ → List Addition → List (ℕ × Op) → List ℕ
replay bl interval history [] = []
replay bl interval history ((now, adding event count) ∷ ops) =
    replay bl interval (record { time = now; event = event; count = count } ∷ history) ops
replay bl interval history ((now, counting event) ∷ ops) =
    windowed bl interval now event history % mod64 ∷ replay bl interval history ops

-- The times do not go back.
abbrev pub IsOrdered : ℕ → List (ℕ × Op) → Type 0
IsOrdered now [] = Unit
IsOrdered now ((time, op) ∷ ops) = (now ≤ time) × (time < half64) × IsOrdered time ops

module _ (bla : BucketLeapArray) (now now' : ℕ) (history : List Addition)
    (r : Represents bla.window now history) (positive : 0 < now) (le : now ≤ now')
    (early : now' < half64) where
  pub add_count-Represents :
      (event : MetricEvent) (count : ℕ)
      → (bla' : BucketLeapArray) × (add_count_with_time bla now' event count ≡ some bla')
        × Represents bla'.window now'
            (record { time = now'; event = event; count = count } ∷ history)
        × (bla'.window.bucket_length ≡ bla.window.bucket_length)
        × (bla'.window.interval ≡ bla.window.interval)
  unfolding add_count_with_time
  add_count-Represents event count =
      let (la, found, refreshed, wf) =
        current_bucket_of_time-IsRefreshed generator bla.window r.well_formed now' [] (omega arith)
          early in
      let r' : Represents la now' history =
        refresh-Represents bla.window la now now' r.well_formed le refreshed history wf r in
      let i = now' / bla.window.bucket_length % bla.window.sample_count in
      (
        _,
        rw (fetch_eq bla now' i la found, add_count_with_time)
            (ap some (
              update_eq (record { window = la }) i _ (λ b. MetricBucket.add b event count) wf
                refreshed.holds)),
        changed-Represents (record { window = la }) i _ (λ b. MetricBucket.add b event count) wf
            refreshed.holds now' history event count r'
            (rw (refreshed.same_length, refreshed.same_count) refl)
            (rw refreshed.same_length (calculate_start_time_eq now' bla.window.bucket_length)) refl,
        refreshed.same_length,
        refreshed.same_interval,
      )

Kept-AllFound :
    (la : LeapArray MetricBucket) (now : ℕ) (history : List Addition)
    → (wf : IsWellFormed la) → Kept la now history
    → AllFound la.bucket_length la.sample_count la.interval now wf.positive_length la.slots history
Kept-AllFound la now [] wf k = tt
Kept-AllFound la now (a ∷ history) wf (past, there, k) =
    (λ h. recent (there (ground (arith, h))), Kept-AllFound la now history wf k)
  where
    recent :
        Stands la
          (a.time / la.bucket_length % la.sample_count)
          (a.time / la.bucket_length * la.bucket_length)
        → (w : BucketWrap MetricBucket) × (get_elem? la.slots
              (a.time / la.bucket_length % la.sample_count)
            ≡ some (some w))
          × (w.bucket_start ≡ a.time / la.bucket_length * la.bucket_length)
    recent (w, held, at) =
        (w, some-joined _ _ (sym (get_eq la.slots _ (slot_count_lt la wf)) ∙ held), at)

-- The buckets in the window add up to the additions in it.
window-Represents :
    (la : LeapArray MetricBucket) (now : ℕ) (history : List Addition) (event : MetricEvent)
    → Represents la now history
    → count_from event 0 (in_window la.interval now (λ _. true) la.slots)
      ≡ windowed la.bucket_length la.interval now event history % mod64
window-Represents la now history event r =
    count_from-over la.interval now event (λ s. recorded la.bucket_length s event history) la.slots
      0 (λ j w e. r.counted j w (get_lem la r.well_formed j w e) event) (omega arith)
    ∙ rw
        (
          zero-add,
          over-recorded la.bucket_length la.sample_count la.interval now
              r.well_formed.positive_length event la.slots history r.well_formed.aligned
              (Kept-AllFound la now history r.well_formed r.kept),
        )
        refl

module _ (bla : BucketLeapArray) (now now' : ℕ) (history : List Addition)
    (r : Represents bla.window now history) (positive : 0 < now) (le : now ≤ now')
    (early : now' < half64) where
  count-Represents :
      (event : MetricEvent)
      → (bla' : BucketLeapArray) × (count_with_time bla now' event
          ≡ some (
            bla',
            windowed bla.window.bucket_length bla.window.interval now' event history % mod64,
          ))
        × Represents bla'.window now' history
        × (bla'.window.bucket_length ≡ bla.window.bucket_length)
        × (bla'.window.interval ≡ bla.window.interval)
  count-Represents event =
      let (la, counted, refreshed, wf) =
        count_with_time_lem bla now' event r.well_formed (omega arith) early in
      let r' : Represents la now' history =
        refresh-Represents bla.window la now now' r.well_formed le refreshed history wf r in
      (
        record { window = la },
        counted
            ∙ rw
                (
                  window-Represents la now' history event r',
                  refreshed.same_length,
                  refreshed.same_interval,
                )
                refl,
        r',
        refreshed.same_length,
        refreshed.same_interval,
      )

run-cons :
    (o : Option (List ℕ)) (n : ℕ) (answers : List ℕ)
    → o ≡ some answers
    → map_option (λ rest. n ∷ rest) o ≡ some (n ∷ answers)
run-cons o n answers e = rw e refl

-- From an array that stands for some additions, the operations at times that do not go back give the
-- answers of the record.
pub run-replay :
    (bla : BucketLeapArray) (now : ℕ) (history : List Addition) (ops : List (ℕ × Op))
    → Represents bla.window now history
    → 0 < now
    → IsOrdered now ops
    → run bla ops ≡ some (replay bla.window.bucket_length bla.window.interval history ops)
unfolding run replay
run-replay bla now history [] r positive o = refl
run-replay bla now history ((time, adding event count) ∷ ops) r positive (le, early, o) =
    let (bla', added, r', same_length, same_interval) =
      add_count-Represents bla now time history r positive le early event count in
    rw (added, run)
      (run-replay bla' time _ ops r' (omega arith) o ∙ rw (same_length, same_interval) refl)
run-replay bla now history ((time, counting event) ∷ ops) r positive (le, early, o) =
    let (bla', counted, r', same_length, same_interval) =
      count-Represents bla now time history r positive le early event in
    rw (counted, run)
      (run-cons _ _ _ (
        run-replay bla' time history ops r' (omega arith) o ∙ rw (same_length, same_interval) refl))
