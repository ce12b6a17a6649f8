-- ===== src/Flow/Tests.antt =====
-- core/flow/tc_throttling.go at ten requests a second.
use gmiter.Prelude.{ℕ, List, refl, none, [], ◌∷◌, arith}
use gmiter.Prelude.Float.{thousandths}
use gmiter.Chain.TokenResult.{GoString}
use gmiter.Flow.Throttling.{ThrottlingChecker, Message, interval_ns}
use gmiter.Flow.Throttling.Spacing.{releases, Spaced, releases-Spaced}

abbrev checker : ThrottlingChecker
checker = record {
  max_queueing_time_ns = 300000000;
  stat_interval_ns = 1000000000;
  last_passed_time = 0;
  last_system_time = 0;
}

abbrev no_text : Message → GoString
no_text m = []

-- Three requests at once, and one later.
abbrev readings : List (ℕ × ℕ)
readings =
    (5000000000, 5000000100)
    ∷ (5000000200, 5000000300)
    ∷ (5000000300, 5000000400)
    ∷ (5900000000, 5900000100)
    ∷ []

releases-Spaced_example :
    Spaced 100000000 0 (releases {R = ℕ} ℕ no_text none thousandths 1 10000 checker readings)
unfolding interval_ns
releases-Spaced_example =
    releases-Spaced {R = ℕ} ℕ no_text none thousandths 1 10000 readings checker 0 100000000
      (omega arith) refl refl (omega arith) (omega arith) (omega arith) (omega arith)
      (
        omega arith,
        omega arith,
        omega arith,
        (
          omega arith,
          omega arith,
          omega arith,
          (omega arith, omega arith, omega arith, (omega arith, omega arith, omega arith, tt)),
        ),
      )
