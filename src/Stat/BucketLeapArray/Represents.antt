-- ===== src/Stat/BucketLeapArray/Represents.antt =====
-- How the slots of core/stat/base/bucket_leap_array.go stand for the additions made so far.
use gmiter.Prelude.{
  ℕ, suc, ◌+◌, ◌*◌, ◌/◌, ◌%◌, ◌≤◌, ◌<◌, ◌≡◌, refl, sym, ap, ◌∙◌, ◌≢◌, some, List, [], ◌∷◌, ◌==◌,
  if◌then◌else◌, mod64, arith, ==_refl, ==_of_ne, some_inj,
}
use gmiter.Stat.Event
use gmiter.Stat.Event.{MetricEvent}
use mathlib.Core.Path.{subst}
use gmiter.Stat.LeapArray.{BucketWrap, LeapArray, calculate_start_time}
use gmiter.Stat.LeapArray.{get as get_slot}
use gmiter.Stat.LeapArray.WellFormed.{IsWellFormed}
use gmiter.Stat.LeapArray.Current.{IsRefreshed, calculate_start_time_eq}
use gmiter.Stat.MetricBucket
use gmiter.Stat.MetricBucket.{MetricBucket, is_unknown}
use gmiter.Stat.MetricBucket.Laws
use gmiter.Stat.BucketLeapArray.{generator}
use gmiter.Stat.BucketLeapArray.History.{Addition, recorded, same_turn, same_factor}
use native.Mathlib.Decide.{ℕ_discrete, dec_lt}
use native.Mathlib.Nat.{mod-lt, div-add-mod', mul-le-mul_right, mul_comm}

-- Slot `j` holds the bucket that starts at `start`.
abbrev pub Stands : LeapArray MetricBucket → ℕ → ℕ → Type 0
Stands la j start =
    (w : BucketWrap MetricBucket) × (get_slot la.slots j ≡ some w) × (w.bucket_start ≡ start)

-- No addition is later than `now`, and each that is less than an interval old has its bucket still.
abbrev pub Kept : LeapArray MetricBucket → ℕ → List Addition → Type 0
Kept la now [] = Unit
Kept la now (r ∷ history) =
    (r.time ≤ now)
    × (now < r.time / la.bucket_length * la.bucket_length + la.interval
        → Stands la (r.time / la.bucket_length % la.sample_count)
            (r.time / la.bucket_length * la.bucket_length))
    × Kept la now history

-- The array stands for the additions: each bucket's counters are the sums of those in it.
pub record Represents (la : LeapArray MetricBucket) (now : ℕ) (history : List Addition)
    : Type 0 where
  pub well_formed : IsWellFormed la
  pub kept : Kept la now history
  pub full :
      (j : ℕ) (w : BucketWrap MetricBucket)
      → get_slot la.slots j ≡ some w
      → Laws.IsWellFormed w.value
  pub counted :
      (j : ℕ) (w : BucketWrap MetricBucket)
      → get_slot la.slots j ≡ some w
      → (event : MetricEvent)
      → MetricBucket.get w.value event
        ≡ recorded la.bucket_length w.bucket_start event history % mod64

pub new_counts : (event : MetricEvent) → MetricBucket.get MetricBucket.new_metric_bucket event ≡ 0
unfolding MetricBucket.get MetricBucket.new_metric_bucket
new_counts event = ground (arith, Laws.get_or-zeros Event.total event)

div_mono : (bl a b : ℕ) → 0 < bl → a ≤ b → a / bl ≤ b / bl
div_mono bl a b h le = elim (dec_lt (b / bl) (a / bl)) [
  | yes l ↦
      let k : suc (b / bl) * bl ≤ a / bl * bl = mul-le-mul_right bl l in
      absurd (omega (arith, div-add-mod' a bl, div-add-mod' b bl, mod-lt b h))
  | no g ↦ omega arith
]

-- Two times of one slot less than an interval apart are in one bucket.
one_bucket :
    (bl count a b : ℕ)
    → 0 < bl
    → 0 < count
    → a ≤ b
    → a / bl % count ≡ b / bl % count
    → b < a / bl * bl + bl * count
    → a / bl ≡ b / bl
one_bucket bl count a b h hc le same lt =
    same_turn count (a / bl) (b / bl) hc same (div_mono bl a b h le)
      (elim (dec_lt (b / bl) (a / bl + count)) [
        | yes l ↦ l
        | no g ↦
            let k : (a / bl + count) * bl ≤ b / bl * bl = mul-le-mul_right bl (omega arith) in
            absurd (omega (arith, div-add-mod' b bl, mul_comm bl count))
      ])

module _ (la la' : LeapArray MetricBucket) (now now' : ℕ) (wf : IsWellFormed la) (le : now ≤ now')
    (refreshed : IsRefreshed generator la la'
      (now' / la.bucket_length % la.sample_count)
      (calculate_start_time now' la.bucket_length)) where
  abbrev index : ℕ
  index = now' / la.bucket_length % la.sample_count

  abbrev start : ℕ
  start = now' / la.bucket_length * la.bucket_length

  refreshed-Stands : Stands la' index start
  refreshed-Stands = (_, refreshed.holds, calculate_start_time_eq now' la.bucket_length)

  -- The addition of time `t` keeps its bucket, if it is recent.
  kept_one :
      (t : ℕ)
      → t ≤ now
      → (now < t / la.bucket_length * la.bucket_length + la.interval
          → Stands la
              (t / la.bucket_length % la.sample_count)
              (t / la.bucket_length * la.bucket_length))
      → now' < t / la.bucket_length * la.bucket_length + la.interval
      → Stands la'
          (t / la.bucket_length % la.sample_count)
          (t / la.bucket_length * la.bucket_length)
  kept_one t past there recent = elim (ℕ_discrete (t / la.bucket_length % la.sample_count) index) [
    | yes same ↦
        let e : t / la.bucket_length ≡ now' / la.bucket_length =
          one_bucket la.bucket_length la.sample_count t now' wf.positive_length wf.positive_count
            (omega arith) same (omega (arith, wf.spans)) in
        rw e refreshed-Stands
    | no other ↦ let (w, held, at) = there (omega arith) in (w, refreshed.others _ other ∙ held, at)
  ]

  fresh :
      (t : ℕ)
      → t / la.bucket_length * la.bucket_length ≡ start
      → now < t / la.bucket_length * la.bucket_length + la.interval
  fresh t e =
      let k : 1 * la.bucket_length ≤ la.sample_count * la.bucket_length =
        mul-le-mul_right la.bucket_length wf.positive_count in
      omega (
        arith,
        wf.spans,
        mul_comm la.bucket_length la.sample_count,
        div-add-mod' now' la.bucket_length,
        mod-lt now' wf.positive_length,
      )

  old_start :
      (t : ℕ)
      → t / la.bucket_length * la.bucket_length ≡ start
      → Stands la (t / la.bucket_length % la.sample_count) (t / la.bucket_length * la.bucket_length)
      → refreshed.old.bucket_start ≡ start
  old_start t e (w, held, at) =
      let same : t / la.bucket_length ≡ now' / la.bucket_length =
        same_factor la.bucket_length _ _ wf.positive_length e in
      let one : some w ≡ some refreshed.old =
        sym (ap (λ q. get_slot la.slots (q % la.sample_count)) (sym same) ∙ held)
        ∙ refreshed.held in
      ap (λ x. x.bucket_start) (sym (some_inj _ _ one)) ∙ at ∙ e

  -- A bucket that has just been reset has no additions.
  recorded-fresh :
      (history : List Addition)
      → Kept la now history
      → refreshed.old.bucket_start ≢ start
      → (event : MetricEvent) → recorded la.bucket_length start event history ≡ 0
  unfolding recorded
  recorded-fresh [] kept moved event = refl
  recorded-fresh (r ∷ history) (past, there, kept) moved event =
      elim (ℕ_discrete (r.time / la.bucket_length * la.bucket_length) start) [
        | yes e ↦ absurd (moved (old_start r.time e (there (fresh r.time e))))
        | no ne ↦ rw (==_of_ne _ _ ne) (omega (arith, recorded-fresh history kept moved event))
      ]

  pub Kept-refresh : (history : List Addition) → Kept la now history → Kept la' now' history
  Kept-refresh [] kept = tt
  Kept-refresh (r ∷ history) (past, there, kept) = (
    omega arith,
    rw (refreshed.same_length, refreshed.same_count, refreshed.same_interval)
        (kept_one r.time past there),
    Kept-refresh history kept,
  )

  -- The bucket fetched has its old content or a reset one, and every other is as it was.
  fetched-content :
      (P : MetricBucket → ℕ → Type 0)
      → (refreshed.old.bucket_start ≢ start → P (MetricBucket.reset refreshed.old.value) start)
      → ((j : ℕ) (w : BucketWrap MetricBucket)
          → get_slot la.slots j ≡ some w
          → P w.value w.bucket_start)
      → P
          (if start == refreshed.old.bucket_start
            then refreshed.old.value
            else MetricBucket.reset refreshed.old.value)
          start
  fetched-content P fresh_content old_content = elim (ℕ_discrete start refreshed.old.bucket_start) [
    | yes s ↦
        rw (s, ==_refl refreshed.old.bucket_start) (old_content index refreshed.old refreshed.held)
    | no n ↦ rw (==_of_ne _ _ n) (fresh_content (λ e. n (sym e)))
  ]

  contents :
      (P : MetricBucket → ℕ → Type 0)
      → (refreshed.old.bucket_start ≢ start → P (MetricBucket.reset refreshed.old.value) start)
      → ((j : ℕ) (w : BucketWrap MetricBucket)
          → get_slot la.slots j ≡ some w
          → P w.value w.bucket_start)
      → (j : ℕ) (w : BucketWrap MetricBucket) → get_slot la'.slots j ≡ some w
      → P w.value w.bucket_start
  contents P fresh_content old_content j w e = elim (ℕ_discrete j index) [
    | no other ↦ old_content j w (sym (refreshed.others j other) ∙ e)
    | yes same ↦
        subst (λ x. P x.value x.bucket_start)
          (some_inj _ _ (sym refreshed.holds ∙ ap (get_slot la'.slots) (sym same) ∙ e))
          (rw (calculate_start_time_eq now' la.bucket_length)
            (fetched-content P fresh_content old_content))
  ]

  pub refresh-Represents :
      (history : List Addition)
      → IsWellFormed la'
      → Represents la now history
      → Represents la' now' history
  refresh-Represents history wf' r = record {
    well_formed = wf';
    kept = Kept-refresh history r.kept;
    full =
        contents (λ value _. Laws.IsWellFormed value)
          (λ _.
            Laws.reset-IsWellFormed refreshed.old.value (r.full index refreshed.old refreshed.held))
          r.full;
    counted = λ j w e event. rw refreshed.same_length (
        contents
          (λ value s.
            MetricBucket.get value event ≡ recorded la.bucket_length s event history % mod64)
          (λ moved.
            (Laws.reset_lem refreshed.old.value (r.full index refreshed.old refreshed.held) event).0
            ∙ new_counts event
            ∙ rw (recorded-fresh history r.kept moved event) refl)
          (λ i v h. r.counted i v h event) j w e);
  }
