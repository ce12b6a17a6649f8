-- ===== src/Stat/LeapArray/WellFormed.antt =====
-- The shape of a leap array (core/stat/base/leap_array.go) between two operations.
use gmiter.Prelude.{
  ℕ, zero, suc, ◌+◌, ◌*◌, ◌%◌, ◌≤◌, ◌<◌, ◌≡◌, refl, ◌∙◌, Option, none, some, List, [], ◌∷◌, ◌++◌,
  length, get_elem?, set, half64, mod32, add64, arith,
}
use gmiter.Stat.LeapArray.{BucketWrap, BucketGenerator, LeapArray, fill}
use mathlib.Core.Path.{subst}
use native.Mathlib.Nat.{suc-mod, mod-eq_of_lt, mul-le-mul_right, le-add_right}

-- The bucket stands at a whole number `q` of bucket lengths, and in slot `i` of `count`.
abbrev pub IsAligned {ℓ} : {A : Type ℓ} → ℕ → ℕ → ℕ → BucketWrap A → Type 0
IsAligned bucket_length count i w =
    (q : ℕ) × (w.bucket_start ≡ q * bucket_length)
    × (q % count ≡ i)
    × (w.bucket_start < half64 + mod32)

-- Every slot, the first of them number `i`, holds an aligned bucket.
abbrev pub Slots {ℓ} : {A : Type ℓ} → ℕ → ℕ → ℕ → List (Option (BucketWrap A)) → Type 0
Slots bl count i [] = Unit
Slots bl count i (none ∷ slots) = ⊥
Slots bl count i (some w ∷ slots) = IsAligned bl count i w × Slots bl count (suc i) slots

pub record IsWellFormed {ℓ} {A : Type ℓ} (la : LeapArray A) : Type 0 where
  pub positive_length : 0 < la.bucket_length
  pub positive_count : 0 < la.sample_count
  pub spans : la.interval ≡ la.bucket_length * la.sample_count
  pub short : la.interval < mod32
  pub slot_count : length la.slots ≡ la.sample_count
  pub aligned : Slots la.bucket_length la.sample_count 0 la.slots

suc-aligned : (count q i : ℕ) → q % count ≡ i → suc i < count → suc q % count ≡ suc i
suc-aligned count q i e h = suc-mod q count ∙ rw e (mod-eq_of_lt h)

start_bound : (bl q n : ℕ) → (q + suc n) * bl < half64 + mod32 → q * bl < half64 + mod32
start_bound bl q n b = omega (arith, mul-le-mul_right bl (le-add_right q (suc n)))

next_start : (bl q n : ℕ) → (q + suc n) * bl < half64 + mod32 → add64 (q * bl) bl ≡ suc q * bl
next_start bl q n b =
    let h : suc q * bl ≤ (q + suc n) * bl = mul-le-mul_right bl (omega arith) in omega arith

module _ {ℓ} {A : Type ℓ} (bl count : ℕ) where
  IsAligned-at :
      (w : BucketWrap A) (i j : ℕ) → i ≡ j → IsAligned bl count i w → IsAligned bl count j w
  IsAligned-at w i j e h = subst (λ k. IsAligned bl count k w) e h

  pub Slots-get_elem? :
      (i : ℕ) (slots : List (Option (BucketWrap A))) (j : ℕ)
      → Slots bl count i slots
      → j < length slots
      → (w : BucketWrap A) × (get_elem? slots j ≡ some (some w)) × IsAligned bl count (i + j) w
  Slots-get_elem? i [] j a h = elim h [ ]
  Slots-get_elem? i (none ∷ slots) j a h = absurd a
  Slots-get_elem? i (some w ∷ slots) zero a h = (w, refl, IsAligned-at w i _ (omega arith) a.0)
  Slots-get_elem? i (some w ∷ slots) (suc j) a h =
      let (w', e, b) = Slots-get_elem? (suc i) slots j a.1 (omega arith) in
      (w', e, IsAligned-at w' (suc i + j) _ (omega arith) b)

  pub Slots-set :
      (i : ℕ) (slots : List (Option (BucketWrap A))) (j : ℕ) (w : BucketWrap A)
      → Slots bl count i slots
      → IsAligned bl count (i + j) w
      → Slots bl count i (set slots j (some w))
  Slots-set i [] j w a h = tt
  Slots-set i (none ∷ slots) j w a h = absurd a
  Slots-set i (some v ∷ slots) zero w a h = (IsAligned-at w (i + 0) _ (omega arith) h, a.1)
  Slots-set i (some v ∷ slots) (suc j) w a h =
      (a.0, Slots-set (suc i) slots j w a.1 (IsAligned-at w (i + suc j) _ (omega arith) h))

  pub Slots-append :
      (i : ℕ) (xs ys : List (Option (BucketWrap A)))
      → Slots bl count i xs
      → Slots bl count (i + length xs) ys
      → Slots bl count i (xs ++ ys)
  Slots-append i [] ys a b = subst (λ k. Slots bl count k ys) (omega arith) b
  Slots-append i (none ∷ xs) ys a b = absurd a
  Slots-append i (some w ∷ xs) ys a b =
      (a.0, Slots-append (suc i) xs ys a.1 (subst (λ k. Slots bl count k ys) (omega arith) b))

  pub fill-Slots :
      (bg : BucketGenerator A) (n i q : ℕ)
      → i + n ≤ count
      → q % count ≡ i
      → (q + n) * bl < half64 + mod32
      → Slots bl count i (fill bg bl n (q * bl))
  unfolding fill
  fill-Slots bg zero i q h e b = tt
  fill-Slots bg (suc zero) i q h e b = ((q, refl, e, start_bound bl q zero b), tt)
  fill-Slots bg (suc (suc n)) i q h e b = (
    (q, refl, e, start_bound bl q (suc n) b),
    rw (next_start bl q (suc n) b) (
        fill-Slots bg (suc n) (suc i) (suc q) (omega arith) (suc-aligned count q i e (omega arith))
          (subst (λ k. k * bl < half64 + mod32) (omega arith) b)),
  )
