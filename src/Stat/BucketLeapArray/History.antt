-- ===== src/Stat/BucketLeapArray/History.antt =====
-- What core/stat/base/bucket_leap_array.go promises: a record of the additions, and the sum of the recent ones.
use gmiter.Prelude.{
  ℕ, zero, suc, ◌+◌, ◌*◌, ◌/◌, ◌%◌, ◌≤◌, ◌<◌, ◌≡◌, refl, ap, ◌∙◌, inl, inr, true, false, not, ◌&&◌,
  Option, none, some, List, [], ◌∷◌, get_elem?, ◌==◌, if◌then◌else◌, mod64, arith, Bool-cases,
  ==_refl, some_inj,
}
use gmiter.Stat.Event.{MetricEvent}
use gmiter.Stat.LeapArray.{BucketWrap}
use gmiter.Stat.LeapArray.Window.{within, in_window}
use gmiter.Stat.LeapArray.WellFormed.{IsAligned, Slots}
use gmiter.Stat.MetricBucket
use gmiter.Stat.MetricBucket.{MetricBucket, is_unknown}
use gmiter.Stat.BucketLeapArray.{count_from}
use native.Mathlib.Decide.{dec_lt, ℕ_discrete}
use native.Mathlib.Nat.{mul-le-mul_right, div-add-mod, mul_comm}

-- A call of `addCountWithTime`.
pub record Addition : Type 0 where
  pub time : ℕ
  pub event : MetricEvent
  pub count : ℕ

-- What an addition is worth to the sum of an event: an unknown event is not counted.
abbrev pub amount : MetricEvent → Addition → ℕ
amount event r = if r.event == event && not (is_unknown r.event) then r.count else 0

-- The sum over the additions, newest first, in the bucket that starts at `start`.
unfoldable pub recorded : ℕ → ℕ → MetricEvent → List Addition → ℕ
recorded bl start event [] = 0
recorded bl start event (r ∷ history) =
    (if r.time / bl * bl == start then amount event r else 0) + recorded bl start event history

-- The sum over the additions in a bucket that started within the last `interval`.
unfoldable pub windowed : ℕ → ℕ → ℕ → MetricEvent → List Addition → ℕ
windowed bl interval now event [] = 0
windowed bl interval now event (r ∷ history) =
    (if within interval now (r.time / bl * bl) then amount event r else 0)
    + windowed bl interval now event history

-- `f` summed over the starts of the buckets in the window.
unfoldable pub over : ℕ → ℕ → (ℕ → ℕ) → List (Option (BucketWrap MetricBucket)) → ℕ
over interval now f [] = 0
over interval now f (none ∷ slots) = over interval now f slots
over interval now f (some w ∷ slots) =
    (if within interval now w.bucket_start then f w.bucket_start else 0) + over interval now f slots

pub same_factor : (bl p q : ℕ) → 0 < bl → p * bl ≡ q * bl → p ≡ q
same_factor bl p q h e = elim (ℕ_discrete p q) [
  | yes s ↦ s
  | no n ↦ elim (dec_lt p q) [
    | yes l ↦ let k : suc p * bl ≤ q * bl = mul-le-mul_right bl l in absurd (omega arith)
    | no g ↦ let k : suc q * bl ≤ p * bl = mul-le-mul_right bl (omega arith) in absurd (omega arith)
  ]
]

-- Two numbers of the same remainder that are less than one turn apart are equal.
pub same_turn : (count p q : ℕ) → 0 < count → p % count ≡ q % count → p ≤ q → q < p + count → p ≡ q
same_turn count p q h e le lt =
    let a : count * (p / count) + p % count ≡ p = div-add-mod p count in
    let b : count * (q / count) + q % count ≡ q = div-add-mod q count in
    elim (ℕ_discrete (p / count) (q / count)) [
      | yes s ↦
          let c : count * (p / count) ≡ count * (q / count) = ap (λ x. count * x) s in omega arith
      | no n ↦ elim (dec_lt (p / count) (q / count)) [
        | yes l ↦
            let k : suc (p / count) * count ≤ q / count * count = mul-le-mul_right count l in
            absurd (omega (arith, mul_comm count (p / count), mul_comm count (q / count)))
        | no g ↦
            let k : suc (q / count) * count ≤ p / count * count =
              mul-le-mul_right count (omega arith) in
            absurd (omega (arith, mul_comm count (p / count), mul_comm count (q / count)))
      ]
    ]

module _ (interval now : ℕ) where
  over-zero :
      (slots : List (Option (BucketWrap MetricBucket))) → over interval now (λ s. 0) slots ≡ 0
  unfolding over
  over-zero [] = refl
  over-zero (none ∷ slots) = over-zero slots
  over-zero (some w ∷ slots) = ground (arith, over-zero slots)

  over-add :
      (f g : ℕ → ℕ) (slots : List (Option (BucketWrap MetricBucket)))
      → over interval now (λ s. f s + g s) slots
        ≡ over interval now f slots + over interval now g slots
  unfolding over
  over-add f g [] = refl
  over-add f g (none ∷ slots) = over-add f g slots
  over-add f g (some w ∷ slots) = ground (arith, over-add f g slots)

  -- The loop of `CountWithTime` adds modulo 2 ^ 64.
  pub count_from-over :
      (event : MetricEvent) (f : ℕ → ℕ) (slots : List (Option (BucketWrap MetricBucket))) (c : ℕ)
      → ((j : ℕ) (w : BucketWrap MetricBucket)
          → get_elem? slots j ≡ some (some w)
          → MetricBucket.get w.value event ≡ f w.bucket_start % mod64)
      → c < mod64
      → count_from event c (in_window interval now (λ _. true) slots)
        ≡ (c + over interval now f slots) % mod64
  unfolding count_from over
  count_from-over event f [] c h lt = omega arith
  count_from-over event f (none ∷ slots) c h lt =
      count_from-over event f slots c (λ j. h (suc j)) lt
  count_from-over event f (some w ∷ slots) c h lt =
      elim (Bool-cases (within interval now w.bucket_start)) [
        | inl hit ↦ rw hit (
            count_from-over event f slots _ (λ j. h (suc j)) (omega arith)
            ∙ omega (arith, h 0 w refl))
        | inr miss ↦ rw miss (count_from-over event f slots c (λ j. h (suc j)) lt ∙ omega arith)
      ]

module _ (bl count interval now : ℕ) (positive : 0 < bl) where
  -- An aligned bucket that starts with bucket number `p` is in the slot of `p`.
  aligned_slot :
      (i p : ℕ) (w : BucketWrap MetricBucket)
      → IsAligned bl count i w
      → p * bl ≡ w.bucket_start
      → p % count ≡ i
  aligned_slot i p w (q, e, at, _) s =
      ap (λ n. n % count) (same_factor bl p q positive (s ∙ e)) ∙ at

  -- Where no slot is that of `p`, no bucket starts there.
  over-elsewhere :
      (p n i : ℕ) (slots : List (Option (BucketWrap MetricBucket)))
      → Slots bl count i slots
      → p % count < i
      → over interval now (λ s. if p * bl == s then n else 0) slots ≡ 0
  unfolding over
  over-elsewhere p n i [] a h = refl
  over-elsewhere p n i (none ∷ slots) a h = absurd a
  over-elsewhere p n i (some w ∷ slots) a h =
      ground (arith, aligned_slot i p w a.0, over-elsewhere p n (suc i) slots a.1 (omega arith))

  over-outside :
      (p n : ℕ) (slots : List (Option (BucketWrap MetricBucket)))
      → within interval now (p * bl) ≡ false
      → over interval now (λ s. if p * bl == s then n else 0) slots ≡ 0
  unfolding over
  over-outside p n [] h = refl
  over-outside p n (none ∷ slots) h = over-outside p n slots h
  over-outside p n (some w ∷ slots) h = ground (arith, h, over-outside p n slots h)

  -- Otherwise exactly one does.
  over-inside :
      (p n i j : ℕ) (slots : List (Option (BucketWrap MetricBucket))) (w : BucketWrap MetricBucket)
      → Slots bl count i slots
      → get_elem? slots j ≡ some (some w)
      → w.bucket_start ≡ p * bl
      → p % count ≡ i + j
      → within interval now (p * bl) ≡ true
      → over interval now (λ s. if p * bl == s then n else 0) slots ≡ n
  unfolding over
  over-inside p n i j [] w a held at e h = cc
  over-inside p n i j (none ∷ slots) w a held at e h = absurd a
  over-inside p n i zero (some v ∷ slots) w a held at e h =
      let same : v ≡ w = some_inj _ _ (some_inj _ _ held) in
      let starts : v.bucket_start ≡ p * bl = ap (λ x. x.bucket_start) same ∙ at in
      rw (starts, h, ==_refl (p * bl), over-elsewhere p n (suc i) slots a.1 (omega arith))
        (omega arith)
  over-inside p n i (suc j) (some v ∷ slots) w a held at e h =
      ground (
        arith,
        aligned_slot i p v a.0,
        over-inside p n (suc i) j slots w a.1 held at (omega arith) h,
      )

  -- Each recent addition still has its bucket in the slots.
  abbrev pub AllFound : List (Option (BucketWrap MetricBucket)) → List Addition → Type 0
  AllFound slots [] = Unit
  AllFound slots (r ∷ history) =
      (within interval now (r.time / bl * bl) ≡ true
        → (w : BucketWrap MetricBucket) × (get_elem? slots (r.time / bl % count) ≡ some (some w))
          × (w.bucket_start ≡ r.time / bl * bl))
      × AllFound slots history

  hit_eq :
      (p n : ℕ) (slots : List (Option (BucketWrap MetricBucket)))
      → Slots bl count 0 slots
      → (within interval now (p * bl) ≡ true
          → (w : BucketWrap MetricBucket) × (get_elem? slots (p % count) ≡ some (some w))
            × (w.bucket_start ≡ p * bl))
      → over interval now (λ s. if p * bl == s then n else 0) slots
        ≡ (if within interval now (p * bl) then n else 0)
  hit_eq p n slots a there = elim (Bool-cases (within interval now (p * bl))) [
    | inl hit ↦
        let (w, held, at) = there hit in
        over-inside p n 0 (p % count) slots w a held at (omega arith) hit ∙ rw hit refl
    | inr miss ↦ over-outside p n slots miss ∙ rw miss refl
  ]

  pub over-recorded :
      (event : MetricEvent) (slots : List (Option (BucketWrap MetricBucket)))
      (history : List Addition)
      → Slots bl count 0 slots
      → AllFound slots history
      → over interval now (λ s. recorded bl s event history) slots
        ≡ windowed bl interval now event history
  unfolding recorded windowed
  over-recorded event slots [] a there = over-zero interval now slots
  over-recorded event slots (r ∷ history) a there =
      over-add interval now (λ s. if r.time / bl * bl == s then amount event r else 0)
        (λ s. recorded bl s event history) slots
      ∙ rw (
        hit_eq (r.time / bl) (amount event r) slots a there.0,
        over-recorded event slots history a there.1,
      )
