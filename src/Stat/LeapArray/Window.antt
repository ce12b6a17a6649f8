-- ===== src/Stat/LeapArray/Window.antt =====
-- `valuesWithTime` of core/stat/base/leap_array.go, right after the bucket of the same time was fetched.
use gmiter.Prelude.{
  ℕ, suc, ◌+◌, ◌*◌, ◌/◌, ◌%◌, ◌≤◌, ◌<◌, ◌≡◌, refl, sym, ap, ◌∙◌, ◌≢◌, Bool, true, false, not, ◌&&◌,
  ◌||◌, Option, none, some, List, [], ◌∷◌, get_elem?, ltb, leb, if◌then◌else◌, half64, arith,
  ==_of_pos,
}
use gmiter.Stat.LeapArray.{
  BucketWrap, LeapArray, is_bucket_deprecated, values_from, values_conditional,
}
use gmiter.Stat.LeapArray.WellFormed.{Slots, IsAligned, IsWellFormed}
use native.Mathlib.Decide.{dec_lt, ℕ_discrete}
use native.Mathlib.Nat.{mod-lt, div-add-mod', mul-le-mul_right, add-zero, add-mod_right}

-- The buckets of which the last `interval` milliseconds up to `now` saw the start.
abbrev pub within : ℕ → ℕ → ℕ → Bool
within interval now start = leb start now && ltb now (start + interval)

abbrev pub in_window {ℓ} :
    {A : Type ℓ} → ℕ → ℕ → (ℕ → Bool) → List (Option (BucketWrap A)) → List (BucketWrap A)
in_window interval now p [] = []
in_window interval now p (none ∷ slots) = in_window interval now p slots
in_window interval now p (some w ∷ slots) =
    let rest = in_window interval now p slots in
    if within interval now w.bucket_start && p w.bucket_start then w ∷ rest else rest

start_at {ℓ} : {A : Type ℓ} → Option (Option (BucketWrap A)) → ℕ
start_at (some (some w)) = w.bucket_start
start_at _ = 0

-- A bucket that starts exactly one interval before `now` shares the slot of `now`.
strict_bound :
    (bl count q now : ℕ)
    → 0 < bl
    → now ≤ q * bl + bl * count
    → now / bl ≢ q + count
    → now < q * bl + bl * count
strict_bound bl count q now h le ne =
    let m : now % bl < bl = mod-lt now h in
    let e : now / bl * bl + now % bl ≡ now = div-add-mod' now bl in
    elim (dec_lt (now / bl) (q + count)) [
      | yes p ↦
          let k : suc (now / bl) * bl ≤ (q + count) * bl = mul-le-mul_right bl p in omega arith
      | no p ↦
          let k : suc (q + count) * bl ≤ now / bl * bl = mul-le-mul_right bl (omega arith) in
          absurd (omega arith)
    ]

both {ℓ} :
    {A : Type ℓ} (x y : Bool) (a b : A)
    → (if not x || not y then a else b) ≡ (if x && y then b else a)
both true true a b = refl
both true false a b = refl
both false y a b = refl

module _ {ℓ} {A : Type ℓ} (la : LeapArray A) (wf : IsWellFormed la) (now : ℕ)
    (early : now < half64) where
  -- The slot of `now` stands for `now`.
  abbrev pub IsCurrent : Type ℓ
  IsCurrent =
      (v : BucketWrap A) × (get_elem? la.slots (now / la.bucket_length % la.sample_count)
        ≡ some (some v))
      × (v.bucket_start ≡ now / la.bucket_length * la.bucket_length)

  module _ (current : IsCurrent) where
    deprecated-eq :
        (j : ℕ) (w : BucketWrap A)
        → get_elem? la.slots j ≡ some (some w)
        → IsAligned la.bucket_length la.sample_count j w
        → is_bucket_deprecated la now w ≡ not (within la.interval now w.bucket_start)
    unfolding is_bucket_deprecated start_at
    deprecated-eq j w held (q, e, at, bound) =
        elim (ℕ_discrete (now / la.bucket_length) (q + la.sample_count)) [
          | yes p ↦
              let same : now / la.bucket_length % la.sample_count ≡ j =
                rw p (add-mod_right q la.sample_count ∙ at) in
              let one : some (some current.0) ≡ some (some w) = sym current.1 ∙ rw same held in
              let starts : current.0.bucket_start ≡ w.bucket_start = ap start_at one in
              let positive : 1 * la.bucket_length ≤ la.sample_count * la.bucket_length =
                mul-le-mul_right la.bucket_length wf.positive_count in
              let k : now / la.bucket_length * la.bucket_length
                  ≡ (q + la.sample_count) * la.bucket_length =
                ap (λ n. n * la.bucket_length) p in
              absurd (omega (arith, current.2, e, wf.positive_length))
          | no p ↦ ground (
            arith,
            strict_bound la.bucket_length la.sample_count q now wf.positive_length,
            wf.spans,
            wf.short,
          )
        ]

    -- The loop over the rest of the slots, the first of them number `i`.
    values_from-eq :
        (p : ℕ → Bool) (i : ℕ) (slots : List (Option (BucketWrap A)))
        → Slots la.bucket_length la.sample_count i slots
        → ((j : ℕ) → get_elem? la.slots (i + j) ≡ get_elem? slots j)
        → values_from la now p slots ≡ in_window la.interval now p slots
    unfolding values_from
    values_from-eq p i [] a at = refl
    values_from-eq p i (none ∷ slots) a at = absurd a
    values_from-eq p i (some w ∷ slots) a at =
        let held : get_elem? la.slots i ≡ some (some w) = rw (← add-zero i) (at 0) in
        let rest : values_from la now p slots ≡ in_window la.interval now p slots =
          values_from-eq p (suc i) slots a.1
            (λ j. ap (get_elem? la.slots) (omega arith) ∙ at (suc j)) in
        rw (deprecated-eq i w held a.0, rest)
          (both (within la.interval now w.bucket_start) (p w.bucket_start) _ _)

    -- What the array reports as its values are exactly the buckets that started within the last
    -- interval, up to now, in the order of their slots.
    pub values_conditional-eq :
        (p : ℕ → Bool)
        → 0 < now
        → values_conditional la now p ≡ in_window la.interval now p la.slots
    unfolding values_conditional
    values_conditional-eq p h =
        rw (==_of_pos now h)
          (values_from-eq p 0 la.slots wf.aligned (λ j. ap (get_elem? la.slots) (omega arith)))
