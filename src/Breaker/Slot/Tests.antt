-- ===== src/Breaker/Slot/Tests.antt =====
-- core/circuitbreaker/slot.go on a resource with two open breakers, one of which may be probed.
use gmiter.Prelude.{ℕ, List, ◌≡◌, refl, true, some, [], ◌∷◌}
use gmiter.Prelude.Strings.{is_limited}
use gmiter.Breaker.{open_, half_open, try_pass, retry_timeout_arrived, from_open_to_half_open}
use gmiter.Breaker.Complete.{Rule, error_count}
use gmiter.Breaker.Slot.{Bound, check_pass, check_pass_from, run_hooks}
use gmiter.Breaker.Slot.Rollback.{states, check_pass-run_hooks}

program : Unit {0}
unfolding check_pass check_pass_from try_pass retry_timeout_arrived from_open_to_half_open
    is_limited
program = tt

abbrev rule : Rule ℕ
rule = record {
  retry_timeout_ms = 1000;
  min_request_amount = 1;
  stat_interval_ms = 1000;
  stat_sliding_window_bucket_count = 1;
  max_allowed_rt_ms = 0;
  threshold = 1000;
  probe_num = 1;
}

-- An open breaker that may be probed from `at` on.
abbrev open_until : ℕ → Bound ℕ
open_until at = record {
  breaker = record {
    base = record {
      retry_timeout_ms = 1000;
      next_retry_timestamp_ms = at;
      probe_number = 1;
      cur_probe_number = 0;
      state = open_;
    };
    stat = record { bucket_length = 1000; sample_count = 1; interval = 1000; slots = [] };
    min_request_amount = 1;
    strategy = error_count 1;
  };
  rule = rule;
  limit_app = [];
}

abbrev breakers : List (Bound ℕ)
breakers = open_until 1500 ∷ open_until 2500 ∷ []

abbrev clock : ℕ → ℕ
clock _ = 2000

probed : states 1000 (check_pass [] true clock breakers).bounds ≡ half_open ∷ open_ ∷ []
unfolding program
probed = refl

is_refused : (check_pass [] true clock breakers).refused ≡ some rule
unfolding program
is_refused = refl

check_pass-run_hooks_example :
    states 1000 (
      run_hooks 1000 true
        (check_pass [] true clock breakers).hooks
        (check_pass [] true clock breakers).bounds)
    ≡ open_ ∷ open_ ∷ []
check_pass-run_hooks_example = check_pass-run_hooks 1000 [] clock breakers rule is_refused
