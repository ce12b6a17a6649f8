-- ===== src/Breaker/Tests.antt =====
-- The breakers of core/circuitbreaker on examples: one bucket of a second, a timeout of three seconds and
-- two probes.
use gmiter.Prelude.{ℕ, ◌≡◌, refl, true, false, some, List, [], ◌∷◌, ◌++◌, arith}
use gmiter.Prelude.Float.{thousandths}
use gmiter.Breaker.{
  State, closed, half_open, open_, Base, Change, transform_to_open, count, from_closed_to_open,
  from_half_open_to_open, from_half_open_to_closed, from_open_to_half_open, try_pass, exit_hook,
  retry_timeout_arrived, add_cur_probe_num, update_next_retry_timestamp, reset_cur_probe_num,
}
use gmiter.Breaker.Complete.{
  Breaker, Rule, new_slow_rt_circuit_breaker, new_error_ratio_circuit_breaker,
  new_error_count_circuit_breaker, error_count, Readings, on_request_complete,
  slow_on_request_complete, error_ratio_on_request_complete, error_count_on_request_complete,
  complete, handle_state_change, complete_closed, complete_half_open, exceeds,
}
use gmiter.Breaker.Counters.{
  Counter, current_counter, update, record_request, all_counter, sum_from, reset_live, reset_metric,
}
use gmiter.Breaker.Transitions.{Call, request, completed, left, call, Follows, call-Follows}
use gmiter.Breaker.Traces.{run, opened_refuses}
use gmiter.Breaker.Probes.{rollback_keeps_probes}
use gmiter.Breaker.HalfOpen.{Ends, run-probes}
use gmiter.Breaker.Totality.{on_request_complete-IsWellFormed}
use gmiter.Breaker.Construct.{IsFresh, new_circuit_breakers-IsFresh}
use gmiter.Stat.LeapArray.{
  LeapArray, get, current_bucket_of_time, current_bucket_loop, current_bucket_round,
  calculate_time_idx, calculate_start_time, element_offset, values_with_time, values_from,
  is_bucket_deprecated, reset_slot, reset_bucket_to,
}
use gmiter.Stat.LeapArray.WellFormed.{IsWellFormed}

-- The program, opened.
program : Unit {0}
unfolding from_closed_to_open from_half_open_to_open from_half_open_to_closed from_open_to_half_open
    try_pass exit_hook retry_timeout_arrived add_cur_probe_num update_next_retry_timestamp
    reset_cur_probe_num on_request_complete slow_on_request_complete error_ratio_on_request_complete
    error_count_on_request_complete complete handle_state_change complete_closed complete_half_open
    exceeds current_counter update record_request all_counter sum_from reset_live reset_metric call
    run get current_bucket_of_time current_bucket_loop current_bucket_round calculate_time_idx
    calculate_start_time element_offset values_with_time values_from is_bucket_deprecated reset_slot
    reset_bucket_to
program = tt

abbrev counts : ℕ → ℕ → LeapArray Counter
counts bad total = record {
  bucket_length = 1000;
  sample_count = 1;
  interval = 1000;
  slots =
      some (record { bucket_start = 0; value = record { bad_count = bad; total_count = total } })
      ∷ [];
}

abbrev base_of : State → ℕ → ℕ → Base
base_of s next probes = record {
  retry_timeout_ms = 3000;
  next_retry_timestamp_ms = next;
  probe_number = 2;
  cur_probe_number = probes;
  state = s;
}

abbrev breaker : Base → LeapArray Counter → Breaker ℕ
breaker b stat = record { base = b; stat = stat; min_request_amount = 1; strategy = error_count 1 }

abbrev at_500 : Readings
at_500 = record { current_at = 500; all_at = 500; retry_at = 500; reset_at = 500 }

counts-IsWellFormed : IsWellFormed (counts 0 0)
counts-IsWellFormed = record {
  positive_length = omega arith;
  positive_count = omega arith;
  spans = refl;
  short = omega arith;
  slot_count = refl;
  aligned = ((0, refl, refl, omega arith), tt);
}

call-Follows_example : Follows thousandths closed (transform_to_open closed (count 1) ∷ []) open_
unfolding program
call-Follows_example =
    call-Follows thousandths (breaker (base_of closed 0 0) (counts 0 0))
      (breaker (base_of open_ 3500 0) (counts 1 1)) (completed 0 true at_500)
      (transform_to_open closed (count 1) ∷ []) false refl

opened_refuses_example : ◌≡◌ {A = ℕ} 0 0 × ◌≡◌ {A = List (Change ℕ)} [] [] × (open_ ≡ open_)
unfolding program
opened_refuses_example =
    opened_refuses thousandths (breaker (base_of closed 0 0) (counts 0 0))
      (breaker (base_of open_ 3500 0) (counts 1 1)) (breaker (base_of open_ 3500 0) (counts 1 1)) 0
      true at_500 (request 3499 false ∷ left true ∷ []) (transform_to_open closed (count 1) ∷ []) []
      false 0 refl (λ h. cc) refl (omega arith, tt) refl

-- A request, a good probe, and the second one, which is the last.
abbrev probes_so_far : List Call
probes_so_far = request 100 true ∷ completed 0 false at_500 ∷ []

run-probes_example : Ends thousandths false 2 2 (
    run thousandths
      (breaker (base_of half_open 0 0) (counts 0 0))
      (probes_so_far ++ completed 0 false at_500 ∷ []))
run-probes_example =
    run-probes thousandths (error_count 1) 2 (omega arith) probes_so_far 0 false at_500
      (breaker (base_of half_open 0 0) (counts 0 0)) 0
      (record {
        probing = refl;
        same_strategy = refl;
        needs = refl;
        succeeded = refl;
        well_formed = counts-IsWellFormed;
      })
      (refl, (omega arith, omega arith), tt) (omega arith, omega arith) (omega arith)

rollback_keeps_probes_example :
    (b' : Breaker ℕ) × (cs : List (Change ℕ)) × (run thousandths
        (breaker (base_of half_open 3500 1) (counts 0 0))
        (left true ∷ request 3600 true ∷ [])
      ≡ some (b', cs, 1))
    × (b'.base.state ≡ half_open)
    × (b'.base.cur_probe_number ≡ 1)
rollback_keeps_probes_example =
    rollback_keeps_probes thousandths (breaker (base_of half_open 3500 1) (counts 0 0)) refl 3600
      true (omega arith)

on_request_complete-IsWellFormed_example :
    (b' : Breaker ℕ) × (cs : List (Change ℕ)) × (on_request_complete thousandths
        (breaker (base_of closed 0 0) (counts 0 0))
        7
        true
        at_500
      ≡ some (b', cs))
    × IsWellFormed b'.stat
on_request_complete-IsWellFormed_example =
    on_request_complete-IsWellFormed thousandths (breaker (base_of closed 0 0) (counts 0 0)) 7 true
      at_500 counts-IsWellFormed (omega arith) (omega arith)

abbrev rule : Rule ℕ
rule = record {
  retry_timeout_ms = 3000;
  min_request_amount = 1;
  stat_interval_ms = 1000;
  stat_sliding_window_bucket_count = 3;
  max_allowed_rt_ms = 50;
  threshold = 500;
  probe_num = 2;
}

new_circuit_breakers-IsFresh_example :
    IsFresh thousandths rule (new_slow_rt_circuit_breaker thousandths rule 7777)
    × IsFresh thousandths rule (new_error_ratio_circuit_breaker thousandths rule 7777)
    × IsFresh thousandths rule (new_error_count_circuit_breaker thousandths rule 7777)
new_circuit_breakers-IsFresh_example =
    new_circuit_breakers-IsFresh thousandths rule 7777 (omega arith) (omega arith) (omega arith)
