-- ===== src/Stat/LeapArray/Current.antt =====
-- `currentBucketOfTime` of core/stat/base/leap_array.go: the bucket of a time, and the spin.
use gmiter.Prelude.{
  ℕ, ◌*◌, ◌/◌, ◌%◌, ◌≤◌, ◌<◌, ◌≡◌, refl, sym, ap, ◌∙◌, ◌≢◌, inl, inr, true, Option, none, some,
  List, ◌∷◌, length, get_elem?, ◌==◌, if◌then◌else◌, half64, mod32, arith, get_elem?-lt,
  get_elem?-set_self, get_elem?-set_ne, length-set, Bool-cases, Option-cases, ok, lt→ltb, ==_of_pos,
}
use gmiter.Stat.LeapArray.{
  BucketWrap, BucketGenerator, LeapArray, found, Turn, get, calculate_time_idx,
  calculate_start_time, reset_bucket_to, reset_slot, current_bucket_round, current_bucket_loop,
  current_bucket_of_time,
}
use gmiter.Stat.LeapArray.WellFormed.{IsAligned, IsWellFormed, Slots-get_elem?, Slots-set}
use mathlib.Core.Path.{subst}
use native.Mathlib.Nat.{mod-lt, div-add-mod', mul-le-mul_right, zero-add, div-le_self}

-- A turn in which nothing interferes and the update lock is free.
abbrev pub undisturbed {ℓ} : {A : Type ℓ} → Turn A
undisturbed = record { interfere = λ la. la; locked = true }

pub calculate_start_time_eq : (now bl : ℕ) → calculate_start_time now bl ≡ now / bl * bl
unfolding calculate_start_time
calculate_start_time_eq now bl = omega (arith, div-add-mod' now bl)

pub calculate_start_time-le : (now bl : ℕ) → calculate_start_time now bl ≤ now
unfolding calculate_start_time
calculate_start_time-le now bl = omega arith

unfoldable pub joined {ℓ} : {A : Type ℓ} → Option (Option A) → Option A
joined none = none
joined (some o) = o

pub get_eq {ℓ} :
    {A : Type ℓ} (slots : List (Option (BucketWrap A))) (i : ℕ)
    → length slots < mod32
    → get slots i ≡ joined (get_elem? slots i)
unfolding get joined
get_eq slots i h = elim (Option-cases (get_elem? slots i)) [
  | inl e ↦ ground arith
  | inr (slot, e) ↦ ground (arith, get_elem?-lt slots i e)
]

module _ {ℓ} {A : Type ℓ} (la : LeapArray A) (wf : IsWellFormed la) where
  pub slot_count_lt : length la.slots < mod32
  slot_count_lt =
      let k : 1 * la.sample_count ≤ la.bucket_length * la.sample_count =
        mul-le-mul_right la.sample_count wf.positive_length in
      omega (arith, wf.spans, wf.short, wf.slot_count)

  pub get_lem :
      (i : ℕ) (w : BucketWrap A) → get_elem? la.slots i ≡ some (some w) → get la.slots i ≡ some w
  unfolding joined
  get_lem i w e = rw (get_eq la.slots i slot_count_lt, e)

  -- Below 2 ^ 63 the index of a time is the number of its bucket, around the ring.
  pub calculate_time_idx_lem :
      (now : ℕ)
      → now < half64
      → calculate_time_idx la now ≡ now / la.bucket_length % la.sample_count
  unfolding calculate_time_idx
  calculate_time_idx_lem now h = rw (
    lt→ltb (now / la.bucket_length) half64 (omega (arith, div-le_self now la.bucket_length)),
    wf.slot_count,
  )

-- The slot `i`, which holds `w`, once its bucket stands for `start`.
unfoldable pub refresh {ℓ} :
    {A : Type ℓ} → BucketGenerator A → LeapArray A → ℕ → BucketWrap A → ℕ → LeapArray A
refresh bg la i w start = if start == w.bucket_start then la else reset_slot bg la i w start

module _ {ℓ} {A : Type ℓ} (bg : BucketGenerator A) where
  -- With the lock free a round ends the spin, whatever the bucket held stands for.
  current_bucket_round_locked :
      (la : LeapArray A) (i : ℕ) (w : BucketWrap A) (start : ℕ)
      → get la.slots i ≡ some w
      → current_bucket_round bg la i start true ≡ found i (refresh bg la i w start)
  unfolding current_bucket_round refresh
  current_bucket_round_locked la i w start e = rw (e, current_bucket_round) (ground arith)

  loop_undisturbed :
      (la : LeapArray A) (i : ℕ) (w : BucketWrap A) (start : ℕ) (turns : List (Turn A))
      → get la.slots i ≡ some w
      → current_bucket_loop bg la i start (undisturbed ∷ turns)
        ≡ some (ok (i, refresh bg la i w start))
  unfolding current_bucket_loop
  loop_undisturbed la i w start turns e =
      rw (current_bucket_round_locked la i w start e, current_bucket_loop)

-- `la'` is `la` with slot `i` made to stand for `start`: its bucket is kept if it stands for `start`
-- already, and reset otherwise. Nothing else changes.
pub record IsRefreshed {ℓ} {A : Type ℓ} (bg : BucketGenerator A) (la la' : LeapArray A)
    (i start : ℕ) : Type ℓ where
  pub old : BucketWrap A
  pub held : get la.slots i ≡ some old
  pub holds :
      get la'.slots i
      ≡ some (record {
        bucket_start = start;
        value = if start == old.bucket_start then old.value else bg.reset_value old.value;
      })
  pub others : (j : ℕ) → j ≢ i → get la'.slots j ≡ get la.slots j
  pub same_length : la'.bucket_length ≡ la.bucket_length
  pub same_count : la'.sample_count ≡ la.sample_count
  pub same_interval : la'.interval ≡ la.interval

module _ {ℓ} {A : Type ℓ} (bg : BucketGenerator A) (la : LeapArray A) (i : ℕ) (w : BucketWrap A)
    (start : ℕ) where
  refresh-shape :
      ((refresh bg la i w start).bucket_length ≡ la.bucket_length)
      × ((refresh bg la i w start).sample_count ≡ la.sample_count)
      × ((refresh bg la i w start).interval ≡ la.interval)
  unfolding refresh reset_slot
  refresh-shape = ground arith

  refresh-get_self :
      i < length la.slots
      → length la.slots < mod32
      → get la.slots i ≡ some w
      → get (refresh bg la i w start).slots i
        ≡ some (record {
          bucket_start = start;
          value = if start == w.bucket_start then w.value else bg.reset_value w.value;
        })
  unfolding refresh reset_slot reset_bucket_to joined
  refresh-get_self h short e = elim (Bool-cases (start == w.bucket_start)) [
    | inl same ↦ rw (same, refresh) (rw e (ground arith))
    | inr moved ↦
        rw (moved, refresh)
          (get_eq _ i (subst (λ n. n < mod32) (sym (length-set la.slots i _)) short)
            ∙ ap joined (get_elem?-set_self la.slots i _ h))
  ]

  refresh-get_ne :
      (j : ℕ)
      → length la.slots < mod32
      → j ≢ i
      → get (refresh bg la i w start).slots j ≡ get la.slots j
  unfolding refresh reset_slot reset_bucket_to
  refresh-get_ne j short h = elim (Bool-cases (start == w.bucket_start)) [
    | inl same ↦ rw (same, refresh) refl
    | inr moved ↦
        rw (moved, refresh)
          (get_eq _ j (subst (λ n. n < mod32) (sym (length-set la.slots i _)) short)
            ∙ ap joined (get_elem?-set_ne la.slots _ (λ e. h (sym e)))
            ∙ sym (get_eq la.slots j short))
  ]

module _ {ℓ} {A : Type ℓ} (bg : BucketGenerator A) (la : LeapArray A) (wf : IsWellFormed la) where
  refresh-IsWellFormed :
      (i : ℕ) (w : BucketWrap A) (start : ℕ)
      → ((value : A)
          → IsAligned la.bucket_length la.sample_count i
              (record { bucket_start = start; value = value }))
      → IsWellFormed (refresh bg la i w start)
  unfolding refresh reset_slot reset_bucket_to
  refresh-IsWellFormed i w start h = elim (Bool-cases (start == w.bucket_start)) [
    | inl same ↦ rw (same, refresh) wf
    | inr moved ↦
        rw (moved, refresh)
          (record {
            positive_length = wf.positive_length;
            positive_count = wf.positive_count;
            spans = wf.spans;
            short = wf.short;
            slot_count = length-set la.slots i _ ∙ wf.slot_count;
            aligned =
                Slots-set _ _ 0 la.slots i _ wf.aligned (rw zero-add (h (bg.reset_value w.value)));
          })
  ]

  -- A time finds its bucket: with the update lock free and no interference the array gives the slot
  -- of the time's index, made to stand for the time's bucket start, and stays well formed.
  pub current_bucket_of_time-IsRefreshed :
      (now : ℕ) (turns : List (Turn A))
      → 0 < now
      → now < half64
      → (la' : LeapArray A) × (current_bucket_of_time bg la now (undisturbed ∷ turns)
          ≡ some (ok (now / la.bucket_length % la.sample_count, la')))
        × IsRefreshed bg la la'
            (now / la.bucket_length % la.sample_count)
            (calculate_start_time now la.bucket_length)
        × IsWellFormed la'
  unfolding current_bucket_of_time
  current_bucket_of_time-IsRefreshed now turns h early =
      let i = now / la.bucket_length % la.sample_count in
      let start = calculate_start_time now la.bucket_length in
      let i_lt : i < length la.slots =
        rw wf.slot_count (mod-lt (now / la.bucket_length) wf.positive_count) in
      let (w, held, _) = Slots-get_elem? _ _ 0 la.slots i wf.aligned i_lt in
      let got : get la.slots i ≡ some w = get_lem la wf i w held in
      (
        refresh bg la i w start,
        rw
            (
              ==_of_pos now h,
              ==_of_pos la.bucket_length wf.positive_length,
              ==_of_pos (length la.slots) (omega (arith, i_lt)),
              calculate_time_idx_lem la wf now early,
            )
            (loop_undisturbed bg la i w start turns got),
        record {
          old = w;
          held = got;
          holds = refresh-get_self bg la i w start i_lt (slot_count_lt la wf) got;
          others = λ j. refresh-get_ne bg la i w start j (slot_count_lt la wf);
          same_length = (refresh-shape bg la i w start).0;
          same_count = (refresh-shape bg la i w start).1;
          same_interval = (refresh-shape bg la i w start).2;
        },
        refresh-IsWellFormed i w start (λ v. (
          now / la.bucket_length,
          calculate_start_time_eq now la.bucket_length,
          refl,
          omega (arith, calculate_start_time-le now la.bucket_length),
        )),
      )
