-- ===== src/Isolation/Tests.antt =====
-- core/isolation with at most two calls in flight.
use gmiter.Chain.TokenResult.{is_blocked, new_token_result_pass, new_token_result_with}
use gmiter.Prelude.{ℕ, List, ◌≡◌, refl, false, some, none, [], ◌∷◌, arith}
use gmiter.Stat.LeapArray.{fill, new_atomic_bucket_wrap_array_with_time, calculate_start_time}
use gmiter.Stat.BucketLeapArray.{new_bucket_leap_array}
use gmiter.Stat.SlidingWindow.{new_sliding_window_metric, check_validity_for_reuse_statistic}
use gmiter.Stat.Node.{BaseStatNode, new_base_stat_node}
use gmiter.Stat.StatSlot.{Call}
use gmiter.Isolation.{Rule, concurrency}
use gmiter.Isolation.InFlight.{Move, enter, leave, in_flight, AllWithin, node_in_flight}

program : Unit {0}
unfolding new_base_stat_node new_bucket_leap_array new_atomic_bucket_wrap_array_with_time fill
    calculate_start_time new_sliding_window_metric check_validity_for_reuse_statistic
    new_token_result_pass new_token_result_with is_blocked
program = tt

abbrev two_at_once : Rule
two_at_once = record {
  id = [];
  app = [];
  rule_name = [];
  resource = 97 ∷ [];
  metric_type = concurrency;
  threshold = 2;
}

abbrev call : Call
call = record { batch_count = 1; inbound = false; start_time = 1200; has_error = false }

abbrev clock : ℕ → ℕ
clock _ = 1300

abbrev moves : List Move
moves =
    enter call clock (some new_token_result_pass)
    ∷ enter call clock none
    ∷ enter call clock (some new_token_result_pass)
    ∷ leave call clock
    ∷ []

made : (node : BaseStatNode) × (new_base_stat_node 2 1000 1 1000 1200 ≡ some node)
unfolding program
made = (_, refl)

node_in_flight_example :
    (numbers : List ℕ) × (in_flight []
        (97 ∷ [])
        (two_at_once ∷ [])
        moves
        (record { stat_node = some made.0; inbound_node = made.0 })
        0
      ≡ some numbers)
    × AllWithin [] (97 ∷ []) (two_at_once ∷ []) 2 numbers
unfolding program
node_in_flight_example =
    node_in_flight [] (97 ∷ []) (two_at_once ∷ []) 0 two_at_once refl refl (omega arith) refl 2 1000
      1 1000 1200 1200 made.0 made.0 (omega arith) (omega arith) refl (omega arith) (omega arith)
      (omega arith) made.1 made.1 moves
      (
        ((λ _. (omega arith, omega arith)), omega arith, omega arith, refl),
        (
          ((λ _. (omega arith, omega arith)), omega arith, omega arith, tt),
          (
            ((λ _. (omega arith, omega arith)), omega arith, omega arith, refl),
            ((λ _. (omega arith, omega arith)), tt),
          ),
        ),
      )
