-- ===== src/Stat/LeapArray/Tests.antt =====
-- core/stat/base/leap_array.go on an array of two buckets of half a second.
use gmiter.Prelude.{ℕ, ◌≡◌, refl, inl, inr, true, false, some, [], ◌∷◌, arith, Result, ok}
use gmiter.Stat.LeapArray.{
  BucketGenerator, Error, LeapArray, Turn, new_leap_array, current_bucket_loop,
  current_bucket_of_time, values_conditional, calculate_start_time, element_offset,
}
use gmiter.Stat.LeapArray.WellFormed.{IsWellFormed}
use gmiter.Stat.LeapArray.Construct.{new_leap_array-IsWellFormed}
use gmiter.Stat.LeapArray.Current.{undisturbed, IsRefreshed, current_bucket_of_time-IsRefreshed}
use gmiter.Stat.LeapArray.Window.{in_window, values_conditional-eq}
use gmiter.Stat.LeapArray.Spin.{current_bucket_loop_ends}

program : Unit {0}
unfolding element_offset
program = tt

abbrev zero_generator : BucketGenerator ℕ
zero_generator = record { new_empty_bucket = 0; reset_value = λ _. 0 }

abbrev two_buckets : LeapArray ℕ
two_buckets = record {
  bucket_length = 500;
  sample_count = 2;
  interval = 1000;
  slots =
      some (record { bucket_start = 1000; value = 7 })
      ∷ some (record { bucket_start = 500; value = 3 })
      ∷ [];
}

two_buckets-IsWellFormed : IsWellFormed two_buckets
two_buckets-IsWellFormed = record {
  positive_length = omega arith;
  positive_count = omega arith;
  spans = refl;
  short = omega arith;
  slot_count = refl;
  aligned = ((2, refl, refl, omega arith), ((1, refl, refl, omega arith), tt));
}

new_leap_array-IsWellFormed_example :
    (la : LeapArray ℕ) × (new_leap_array 2 1000 1234 (some zero_generator) ≡ ok la)
    × IsWellFormed la
    × (la.interval ≡ 1000)
    × (la.sample_count ≡ 2)
new_leap_array-IsWellFormed_example =
    new_leap_array-IsWellFormed zero_generator 2 1000 1234 (omega arith) (omega arith) refl
      (omega arith) (omega arith)

current_bucket_of_time-IsRefreshed_example :
    (la' : LeapArray ℕ) × (current_bucket_of_time zero_generator two_buckets 1700 (undisturbed ∷ [])
      ≡ some (ok (1, la')))
    × IsRefreshed zero_generator two_buckets la' 1 (calculate_start_time 1700 500)
    × IsWellFormed la'
current_bucket_of_time-IsRefreshed_example =
    current_bucket_of_time-IsRefreshed zero_generator two_buckets two_buckets-IsWellFormed 1700 []
      (omega arith) (omega arith)

values_conditional-eq_example :
    values_conditional two_buckets 1200 (λ _. true)
    ≡ in_window 1000 1200 (λ _. true) two_buckets.slots
values_conditional-eq_example =
    values_conditional-eq two_buckets two_buckets-IsWellFormed 1200 (omega arith)
      (record { bucket_start = 1000; value = 7 }, refl, refl) (λ _. true) (omega arith)

abbrev waiting : Turn ℕ
waiting = record { interfere = λ la. la; locked = false }

current_bucket_loop_ends_example :
    (o : Result Error (ℕ × LeapArray ℕ)) × (current_bucket_loop zero_generator two_buckets 1 1500
        (waiting ∷ undisturbed ∷ [])
      ≡ some o)
unfolding program
current_bucket_loop_ends_example =
    current_bucket_loop_ends zero_generator 1 1500 two_buckets (waiting ∷ undisturbed ∷ []) refl
      ((λ la h. h), inr ((λ la h. h), inl refl))
