-- ===== src/Hotspot/TrafficShaping/Tests.antt =====
-- core/hotspot/traffic_shaping.go with three requests a second for each parameter, a number.
use gmiter.Prelude.{
  ℕ, ◌+◌, ◌-◌, ◌*◌, ◌≤◌, ◌≡◌, refl, false, none, some, List, [], ◌∷◌, arith, Option,
}
use gmiter.Prelude.Float.{thousandths}
use gmiter.Chain.TokenResult.{GoString}
use gmiter.Hotspot.Lru.Entries.{lookup}
use gmiter.Hotspot.Rule.{Rule, reject, qps}
use gmiter.Hotspot.Controller.{
  Controller, Message, new_base_traffic_shaping_controller,
  new_base_traffic_shaping_controller_with_metric,
}
use gmiter.Hotspot.TrafficShaping.{token_count_of}
use gmiter.Hotspot.TrafficShaping.Granted.{granted, reject_grants}
use native.Mathlib.Decide.{ℕ_discrete}

program : Unit {0}
unfolding new_base_traffic_shaping_controller new_base_traffic_shaping_controller_with_metric
    token_count_of lookup ℕ_discrete
program = tt

abbrev three_a_second : Rule ℕ ℕ
three_a_second = record {
  id = [];
  app = [];
  rule_name = [];
  limit_app = [];
  resource = 97 ∷ [];
  metric_type = qps;
  control_behavior = reject;
  param_source = 0;
  param_idx = 0;
  param_key = [];
  param_kind = [];
  threshold = 3000;
  max_queueing_time_ms = 0;
  burst_count = 1;
  duration_in_sec = 1;
  params_max_capacity = 100;
  specific_items = none;
  cluster_mode = false;
  cluster_config = none;
}

abbrev no_text : Message → ℕ → GoString
no_text m k = []

abbrev requests : List (ℕ × ℕ × ℕ × List ℕ)
requests = (7, 1, 5000, []) ∷ (8, 2, 5000, []) ∷ (7, 4, 5500, 5501 ∷ []) ∷ (7, 1, 6500, []) ∷ []

abbrev controller : Option (Controller ℕ ℕ)
controller = new_base_traffic_shaping_controller three_a_second

made :
    (c : Controller ℕ ℕ) × (new_base_traffic_shaping_controller three_a_second ≡ some c)
    × (token_count_of ℕ_discrete thousandths no_text (λ n. n) c 7 ≡ 3)
unfolding program
made = (_, refl, refl)

reject_grants_example :
    granted ℕ_discrete thousandths no_text
        (λ n. n)
        7
        made.0
        ((2, 5000) ∷ (2, 5300) ∷ (1, 5600) ∷ (3, 6700) ∷ [])
      * 1000
    ≤ 4 * 1000 + (7000 - 5000) * 3
reject_grants_example =
    reject_grants ℕ_discrete thousandths no_text (λ n. n) 7 three_a_second made.0
      ((2, 5000) ∷ (2, 5300) ∷ (1, 5600) ∷ (3, 6700) ∷ []) 5000 7000 3 refl made.1 made.2
      (omega arith) (omega arith) (omega arith) (omega arith) (omega arith)
      (
        omega arith,
        omega arith,
        (
          omega arith,
          omega arith,
          (omega arith, omega arith, (omega arith, omega arith, omega arith)),
        ),
      )
