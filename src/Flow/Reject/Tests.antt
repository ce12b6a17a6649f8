-- ===== src/Flow/Reject/Tests.antt =====
-- core/flow/tc_default.go with three requests a second.
use gmiter.Prelude.{ℕ, List, [], ◌∷◌, ◌≡◌, refl, true, none, some, ok, arith}
use gmiter.Prelude.Float.{thousandths}
use gmiter.Stat.BucketLeapArray.{BucketLeapArray}
use gmiter.Stat.BucketLeapArray.History.{Addition}
use gmiter.Stat.SlidingWindow.{SlidingWindowMetric, check_validity_for_reuse_statistic}
use gmiter.Flow.Reject.{
  StandaloneStatistic, GlobalConfig, own_sample_count, own_stat, generate_stat_for, do_check,
}
use gmiter.Flow.Reject.Runs.{own, run, AllWithin, own_stat-AllWithin}
use gmiter.Flow.Reject.Unlimited.{unlimited}
use native.Mathlib.Decide.{ℕ_discrete}

abbrev requests : List (ℕ × ℕ)
requests = (5000, 2) ∷ (5100, 2) ∷ (5200, 1) ∷ (6300, 2) ∷ []

abbrev view_of_one_second : SlidingWindowMetric
view_of_one_second = record { bucket_length = 500; sample_count = 2; interval = 1000 }

own_stat-AllWithin_example :
    (real : BucketLeapArray) × (own_stat 2 1000 3000 ≡ ok (own 2 1000, real))
    × ((through : List Addition) × (run {R = ℕ} thousandths [] none
            (λ x. x)
            view_of_one_second
            3000
            500
            1000
            (own 2 1000)
            refl
            refl
            real
            []
            requests
          ≡ some through)
        × AllWithin {R = ℕ} thousandths [] none
            (λ x. x)
            view_of_one_second
            3000
            500
            1000
            (own 2 1000)
            refl
            refl
            through)
own_stat-AllWithin_example =
    own_stat-AllWithin {R = ℕ} thousandths [] none (λ x. x) 3000 2 1000 3000 (omega arith)
      (omega arith) refl (omega arith) (omega arith) requests (omega arith)
      (
        omega arith,
        omega arith,
        omega arith,
        (
          omega arith,
          omega arith,
          omega arith,
          (omega arith, omega arith, omega arith, (omega arith, omega arith, omega arith, tt)),
        ),
      )

abbrev config : GlobalConfig
config = record {
  metric_statistic_interval_ms = 1000;
  global_statistic_sample_count_total = 20;
  global_statistic_interval_ms_total = 10000;
  global_statistic_bucket_length_in_ms = 500;
}

abbrev node : BucketLeapArray
node = record {
  window = record { bucket_length = 500; sample_count = 20; interval = 10000; slots = [] };
}

program : Unit {0}
unfolding own_sample_count check_validity_for_reuse_statistic ℕ_discrete
program = tt

-- A rule over two seconds, with the numbers of the default configuration.
unlimited_example :
    (s : StandaloneStatistic) × (generate_stat_for config view_of_one_second node 3000 true 2000
      ≡ ok (s, node))
    × ((real : BucketLeapArray) (time batch threshold : ℕ)
        → do_check {R = ℕ} {V = ℕ} thousandths [] none (λ x. x) s real time batch threshold
          ≡ some (real, none))
unfolding program
unlimited_example =
    unlimited config view_of_one_second node 3000 2000 refl refl refl thousandths [] none (λ x. x)
      (omega arith) (omega arith)
