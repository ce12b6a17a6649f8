-- ===== src/Stat/LeapArray/Construct.antt =====
-- `NewLeapArray` of core/stat/base/leap_array.go: the ring of buckets that it makes.
use gmiter.Prelude.{
  ℕ, zero, suc, ◌+◌, ◌-◌, ◌*◌, ◌/◌, ◌%◌, ◌≤◌, ◌<◌, ◌≡◌, refl, sym, ap, ◌∙◌, Option, some, List, ◌∷◌,
  ◌++◌, length, half64, mod64, mod32, add64, arith, length-append, ok, ==_of_pos, get_elem?,
  some_inj, [],
}
use gmiter.Stat.LeapArray.{
  BucketWrap, BucketGenerator, LeapArray, fill, calculate_start_time,
  new_atomic_bucket_wrap_array_with_time, new_leap_array,
}
use gmiter.Stat.LeapArray.WellFormed.{Slots, IsWellFormed, fill-Slots, Slots-append}
use mathlib.Core.Path.{subst}
use native.Mathlib.Nat.{
  div-add-mod, mul_comm, mod-lt, div-add-mod', mul-mod_right, zero-add, mul-le-mul_right,
}

pub start_eq : (now bl : ℕ) → now - now % bl ≡ now / bl * bl
start_eq now bl = omega (arith, div-add-mod' now bl)

-- One whole turn of the ring further on, the index is 0.
wrap_index : (q len : ℕ) → 0 < len → (q + (len - q % len)) % len ≡ 0
wrap_index q len h =
    let e : q + (len - q % len) ≡ len * suc (q / len) =
      grind (arith, div-add-mod q len, mod-lt q h) in
    rw e (mul-mod_right len (suc (q / len)))

length-fill {ℓ} :
    {A : Type ℓ} (bg : BucketGenerator A) (bl n start : ℕ) → length (fill bg bl n start) ≡ n
unfolding fill
length-fill bg bl zero start = refl
length-fill bg bl (suc n) start = ap suc (length-fill bg bl n (add64 start bl))

module _ {ℓ} {A : Type ℓ} (bg : BucketGenerator A) where
  abbrev pub AllNew : List (Option (BucketWrap A)) → Type ℓ
  AllNew slots =
      (j : ℕ) (w : BucketWrap A) → get_elem? slots j ≡ some (some w) → w.value ≡ bg.new_empty_bucket

  fill-AllNew : (bl n start : ℕ) → AllNew (fill bg bl n start)
  unfolding fill
  fill-AllNew bl zero start j w e = cc
  fill-AllNew bl (suc n) start zero w e = ap (λ x. x.value) (sym (some_inj _ _ (some_inj _ _ e)))
  fill-AllNew bl (suc n) start (suc j) w e = fill-AllNew bl n (add64 start bl) j w e

  append-AllNew : (xs ys : List (Option (BucketWrap A))) → AllNew xs → AllNew ys → AllNew (xs ++ ys)
  append-AllNew [] ys hx hy j w e = hy j w e
  append-AllNew (x ∷ xs) ys hx hy zero w e = hx 0 w e
  append-AllNew (x ∷ xs) ys hx hy (suc j) w e = append-AllNew xs ys (λ k. hx (suc k)) hy j w e

  module _ (len bl now : ℕ) (positive : 0 < len) (positive_length : 0 < bl)
      (short : bl * len < mod32) (early : now < half64) where
    abbrev front : List (Option (BucketWrap A))
    front = fill bg bl (now / bl % len) ((now / bl * bl + (len - now / bl % len) * bl) % mod64)

    abbrev back : List (Option (BucketWrap A))
    back = fill bg bl (len - now / bl % len) (now / bl * bl)

    abbrev pub ring : List (Option (BucketWrap A))
    ring = front ++ back

    starts : now / bl * bl ≤ now
    starts = omega (arith, div-add-mod' now bl)

    index_lt : now / bl % len < len
    index_lt = mod-lt (now / bl) positive

    far : (n : ℕ) → n ≤ len → (now / bl + n) * bl < half64 + mod32
    far n h =
        let k : n * bl ≤ len * bl = mul-le-mul_right bl h in
        omega (arith, starts, short, early, mul_comm bl len)

    pub ring-Slots : Slots bl len 0 ring
    ring-Slots =
        Slots-append bl len 0 front back
          (rw wrapped (
            fill-Slots bl len bg (now / bl % len) 0 (now / bl + (len - now / bl % len))
              (omega (arith, index_lt)) (wrap_index (now / bl) len positive)
              (subst (λ k. k * bl < half64 + mod32) (omega (arith, index_lt))
                (far len (omega arith)))))
          (rw (length-fill bg bl (now / bl % len), zero-add)
            (fill-Slots bl len bg (len - now / bl % len) (now / bl % len) (now / bl)
              (omega (arith, index_lt)) refl (far (len - now / bl % len) (omega arith))))
      where
        wrapped :
            (now / bl * bl + (len - now / bl % len) * bl) % mod64
            ≡ (now / bl + (len - now / bl % len)) * bl
        wrapped = omega (arith, far (len - now / bl % len) (omega arith))

    pub ring-length : length ring ≡ len
    ring-length = length-append front back ∙ omega (arith, index_lt, length-fill bg bl)

    pub ring-ok : new_atomic_bucket_wrap_array_with_time len bl now bg ≡ ok ring
    unfolding new_atomic_bucket_wrap_array_with_time calculate_start_time
    ring-ok = rw (==_of_pos bl positive_length, ==_of_pos len positive, start_eq now bl)

    pub ring-AllNew : AllNew ring
    ring-AllNew =
        append-AllNew front back (fill-AllNew bl (now / bl % len) _)
          (fill-AllNew bl (len - now / bl % len) _)

  -- `NewLeapArray` with a positive count that divides a positive interval gives a well-formed array,
  -- of the given interval and count.
  pub new_leap_array-IsWellFormed :
      (count interval now : ℕ)
      → 0 < count
      → 0 < interval
      → interval % count ≡ 0
      → interval < mod32
      → now < half64
      → (la : LeapArray A) × (new_leap_array count interval now (some bg) ≡ ok la)
        × IsWellFormed la
        × (la.interval ≡ interval)
        × (la.sample_count ≡ count)
  unfolding new_leap_array
  new_leap_array-IsWellFormed count interval now hc hi divides short early =
      let whole : interval / count * count ≡ interval =
        omega (arith, div-add-mod' interval count) in
      let bl_pos : 0 < interval / count = grind arith in
      let short' : interval / count * count < mod32 = omega arith in
      (
        record {
          bucket_length = interval / count;
          sample_count = count;
          interval = interval;
          slots = ring count (interval / count) now hc bl_pos short' early;
        },
        rw (
          ==_of_pos count hc,
          divides,
          ring-ok count (interval / count) now hc bl_pos short' early,
        ),
        record {
          positive_length = bl_pos;
          positive_count = hc;
          spans = sym whole;
          short = short;
          slot_count = ring-length count (interval / count) now hc bl_pos short' early;
          aligned = ring-Slots count (interval / count) now hc bl_pos short' early;
        },
        refl,
        refl,
      )
