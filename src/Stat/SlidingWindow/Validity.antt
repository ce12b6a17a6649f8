-- ===== src/Stat/SlidingWindow/Validity.antt =====
-- What the checks of core/base/stat.go make sure of.
use gmiter.Prelude.{ℕ, zero, suc, ◌*◌, ◌/◌, ◌%◌, ◌≤◌, ◌<◌, ◌≡◌, sym, ap, ◌∙◌, false, none, arith}
use gmiter.Stat.SlidingWindow.{check_validity_for_reuse_statistic, is_illegal}
use native.Mathlib.Decide.{dec_lt}
use native.Mathlib.Nat.{div-add-mod', mul_assoc, mul_comm, mod-eq_of_lt}

legal :
    (count interval : ℕ)
    → is_illegal count interval ≡ false
    → (0 < interval) × (0 < count) × (interval % count ≡ 0)
legal count interval h = (ground arith, ground arith, ground arith)

regroup : (q bl count x i : ℕ) → q * bl ≡ x → x * count ≡ i → i ≡ q * count * bl
regroup q bl count x i e e' =
    sym e'
    ∙ ap (λ n. n * count) (sym e)
    ∙ mul_assoc q bl count
    ∙ ap (λ n. q * n) (mul_comm bl count)
    ∙ sym (mul_assoc q count bl)

left_positive : (k bl i : ℕ) → i ≡ k * bl → 0 < i → 0 < k
left_positive zero bl i e h = omega arith
left_positive (suc k) bl i e h = omega arith

at_most : (a b : ℕ) → a % b ≡ 0 → 0 < a → b ≤ a
at_most a b e h = elim (dec_lt a b) [
  | yes p ↦ absurd (omega (arith, mod-eq_of_lt p, e))
  | no p ↦ omega arith
]

-- A view that passes the check has a positive interval, no longer than the array's, that is a positive
-- number of the array's buckets.
pub check_validity_for_reuse_statistic_lem :
    (sample_count interval parent_sample_count parent_interval : ℕ)
    → check_validity_for_reuse_statistic sample_count interval parent_sample_count parent_interval
      ≡ none
    → (k : ℕ) × (0 < k)
      × (interval ≡ k * (parent_interval / parent_sample_count))
      × (interval ≤ parent_interval)
unfolding check_validity_for_reuse_statistic
check_validity_for_reuse_statistic_lem sc i psc pi h =
    let own : is_illegal sc i ≡ false = ground arith in
    let parents : is_illegal psc pi ≡ false = ground arith in
    let divides : pi % i ≡ 0 = ground arith in
    let whole : i / sc % (pi / psc) ≡ 0 = ground arith in
    let (pos, pos_count, own_whole) = legal sc i own in
    let (parent_pos, parent_count, parent_whole) = legal psc pi parents in
    let bl = pi / psc in
    let x = i / sc in
    let k = x / bl * sc in
    let a : x * sc ≡ i = omega (arith, div-add-mod' i sc) in
    let b : x / bl * bl ≡ x = omega (arith, div-add-mod' x bl) in
    let c : i ≡ k * bl = regroup (x / bl) bl sc x i b a in
    (k, left_positive k bl i c pos, c, at_most pi i divides parent_pos)
