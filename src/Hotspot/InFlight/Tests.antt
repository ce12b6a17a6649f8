-- ===== src/Hotspot/InFlight/Tests.antt =====
-- core/hotspot with at most two calls in flight with a value.
use gmiter.Prelude.{ℕ, List, [], ◌∷◌, ◌≡◌, refl, some, none, false, arith}
use gmiter.Prelude.Float.{thousandths}
use gmiter.Chain.TokenResult.{GoString}
use gmiter.Hotspot.Lru.Entries.{lookup}
use gmiter.Hotspot.Rule.{Rule, reject, concurrency}
use gmiter.Hotspot.Controller.{
  Controller, Message, new_base_traffic_shaping_controller,
  new_base_traffic_shaping_controller_with_metric,
}
use gmiter.Hotspot.InFlight.{Move, enter, leave, in_flight, limit_of}
use gmiter.Hotspot.InFlight.Bounded.{AllWithin, new_in_flight}
use native.Mathlib.Decide.{ℕ_discrete}

program : Unit {0}
unfolding new_base_traffic_shaping_controller new_base_traffic_shaping_controller_with_metric lookup
    ℕ_discrete
program = tt

abbrev two_at_once : Rule ℕ ℕ
two_at_once = record {
  id = [];
  app = [];
  rule_name = [];
  limit_app = [];
  resource = 97 ∷ [];
  metric_type = concurrency;
  control_behavior = reject;
  param_source = 0;
  param_idx = 0;
  param_key = [];
  param_kind = [];
  threshold = 2000;
  max_queueing_time_ms = 0;
  burst_count = 0;
  duration_in_sec = 0;
  params_max_capacity = 100;
  specific_items = none;
  cluster_mode = false;
  cluster_config = none;
}

abbrev no_text : Message → ℕ → GoString
no_text m k = []

abbrev moves : List Move
moves = enter ∷ enter ∷ enter ∷ leave ∷ enter ∷ []

made :
    (c : Controller ℕ ℕ) × (new_base_traffic_shaping_controller two_at_once ≡ some c)
    × (limit_of ℕ_discrete thousandths no_text (λ n. n) 7 c ≡ 2)
unfolding program
made = (_, refl, refl)

new_in_flight_example :
    (ns : List ℕ) × (in_flight ℕ_discrete thousandths no_text (λ n. n) 7 moves made.0 0 ≡ some ns)
    × AllWithin ℕ_discrete thousandths no_text (λ n. n) 7 2 (omega arith) ns
new_in_flight_example =
    new_in_flight ℕ_discrete thousandths no_text (λ n. n) 7 2 (omega arith) two_at_once made.0 moves
      refl made.1 made.2
