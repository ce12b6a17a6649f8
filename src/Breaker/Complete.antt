-- ===== src/Breaker/Complete.antt =====
-- core/circuitbreaker/circuit_breaker.go: the three breakers, and what each does when a request that
-- it let through completes.
use gmiter.Prelude.{
  ℕ, ◌%◌, Bool, not, ◌||◌, Option, none, some, List, [], ltb, leb, ◌==◌, if◌then◌else◌, Result, ok,
  ◌>>=◌,
}
use gmiter.Prelude.Float.{Float64, float64_equals}
use gmiter.Breaker.{
  closed, Base, Change, Snapshot, ratio, count, is_open, is_half_open, add_cur_probe_num,
  from_closed_to_open, from_half_open_to_open, from_half_open_to_closed,
}
use gmiter.Breaker.Counters.{
  Counter, generator, current_counter, record_request, update, all_counter, sum_from, reset_metric,
}
use gmiter.Stat.LeapArray
use gmiter.Stat.LeapArray.{LeapArray}

-- What the model keeps of a `Rule`.
pub record Rule (F : Type 0) : Type 0 where
  pub retry_timeout_ms : ℕ  -- uint32
  pub min_request_amount : ℕ  -- uint64
  pub stat_interval_ms : ℕ  -- uint32
  pub stat_sliding_window_bucket_count : ℕ  -- uint32
  pub max_allowed_rt_ms : ℕ  -- uint64
  pub threshold : F
  pub probe_num : ℕ  -- uint64

unfoldable pub get_rule_stat_sliding_window_bucket_count : {F : Type 0} → Rule F → ℕ
get_rule_stat_sliding_window_bucket_count r =
    if r.stat_sliding_window_bucket_count == 0
      || not (r.stat_interval_ms % r.stat_sliding_window_bucket_count == 0)
    then 1
    else r.stat_sliding_window_bucket_count

-- The fields that the three breakers do not share.
pub data Strategy (F : Type 0) : Type 0 where
  slow_rt : ℕ → F → Strategy F
  error_ratio : F → Strategy F
  error_count : ℕ → Strategy F

pub record Breaker (F : Type 0) : Type 0 where
  pub base : Base
  pub stat : LeapArray Counter
  pub min_request_amount : ℕ
  pub strategy : Strategy F

-- The clock where `OnRequestComplete` reads it: for the current counter, for all counters, for the
-- next retry, and for the counters that it resets.
pub record Readings : Type 0 where
  pub current_at : ℕ
  pub all_at : ℕ
  pub retry_at : ℕ
  pub reset_at : ℕ

module _ (f : Float64) where
  abbrev new_base : Rule f.F → Base
  new_base r = record {
    retry_timeout_ms = r.retry_timeout_ms;
    next_retry_timestamp_ms = 0;
    probe_number = r.probe_num;
    cur_probe_number = 0;
    state = closed;
  }

  unfoldable pub new_slow_rt_circuit_breaker_with_stat : Rule f.F → LeapArray Counter → Breaker f.F
  new_slow_rt_circuit_breaker_with_stat r stat = record {
    base = new_base r;
    stat = stat;
    min_request_amount = r.min_request_amount;
    strategy = slow_rt r.max_allowed_rt_ms r.threshold;
  }

  unfoldable pub new_error_ratio_circuit_breaker_with_stat :
      Rule f.F → LeapArray Counter → Breaker f.F
  new_error_ratio_circuit_breaker_with_stat r stat = record {
    base = new_base r;
    stat = stat;
    min_request_amount = r.min_request_amount;
    strategy = error_ratio r.threshold;
  }

  unfoldable pub new_error_count_circuit_breaker_with_stat :
      Rule f.F → LeapArray Counter → Breaker f.F
  new_error_count_circuit_breaker_with_stat r stat = record {
    base = new_base r;
    stat = stat;
    min_request_amount = r.min_request_amount;
    strategy = error_count (f.to_uint64 r.threshold);
  }

  -- The leap array that each of the three constructors makes first.
  abbrev new_stat : Rule f.F → ℕ → Result LeapArray.Error (LeapArray Counter)
  new_stat r now =
      LeapArray.new_leap_array (get_rule_stat_sliding_window_bucket_count r) r.stat_interval_ms now
        (some generator)

  unfoldable pub new_slow_rt_circuit_breaker : Rule f.F → ℕ → Result LeapArray.Error (Breaker f.F)
  new_slow_rt_circuit_breaker r now =
      new_stat r now >>= λ stat. ok (new_slow_rt_circuit_breaker_with_stat r stat)

  unfoldable pub new_error_ratio_circuit_breaker :
      Rule f.F → ℕ → Result LeapArray.Error (Breaker f.F)
  new_error_ratio_circuit_breaker r now =
      new_stat r now >>= λ stat. ok (new_error_ratio_circuit_breaker_with_stat r stat)

  unfoldable pub new_error_count_circuit_breaker :
      Rule f.F → ℕ → Result LeapArray.Error (Breaker f.F)
  new_error_count_circuit_breaker r now =
      new_stat r now >>= λ stat. ok (new_error_count_circuit_breaker_with_stat r stat)

  -- A breaker after an operation, and the calls of the listeners.
  abbrev pub Reply : Type 0
  Reply = Breaker f.F × List (Change f.F)

  abbrev over_ratio : ℕ → ℕ → f.F → Bool
  over_ratio bad total threshold =
      let r = f.div (f.of_uint64 bad) (f.of_uint64 total) in
      f.lt threshold r || float64_equals f r threshold

  -- The test of the closed state, for the strategy.
  unfoldable pub exceeds : Strategy f.F → ℕ → ℕ → Bool
  unfolding float64_equals
  exceeds (slow_rt max threshold) bad total = over_ratio bad total threshold
  exceeds (error_ratio threshold) bad total = over_ratio bad total threshold
  exceeds (error_count threshold) bad total = leb threshold bad

  abbrev snapshot : Strategy f.F → ℕ → ℕ → Snapshot f.F
  snapshot (slow_rt max threshold) bad total = ratio (f.div (f.of_uint64 bad) (f.of_uint64 total))
  snapshot (error_ratio threshold) bad total = ratio (f.div (f.of_uint64 bad) (f.of_uint64 total))
  snapshot (error_count threshold) bad total = count bad

  -- The snapshot of a failed probe: 1.0, or the number 1.
  abbrev probe_snapshot : Strategy f.F → Snapshot f.F
  probe_snapshot (slow_rt max threshold) = ratio (f.of_uint64 1)
  probe_snapshot (error_ratio threshold) = ratio (f.of_uint64 1)
  probe_snapshot (error_count threshold) = count 1

  -- The half-open state: a bad request fails the probe; a good one is counted, and the last one that is
  -- needed closes the breaker and resets its counters.
  unfoldable pub complete_half_open : Breaker f.F → Bool → Readings → Reply
  complete_half_open b bad at =
      if bad
      then (let (base, changes, _) =
            from_half_open_to_open b.base at.retry_at (probe_snapshot b.strategy) in
          (record b { base = base }, changes))
      else (let counted = add_cur_probe_num b.base in
          if counted.probe_number == 0 || leb counted.probe_number counted.cur_probe_number
          then (let (base, changes, _) = from_half_open_to_closed counted in
              (record b { base = base; stat = reset_metric b.stat at.reset_at }, changes))
          else (record b { base = counted }, []))

  -- The closed state: enough requests, too many of them bad.
  unfoldable pub complete_closed : Breaker f.F → ℕ → ℕ → Readings → Reply
  complete_closed b bad_total total at =
      if ltb total b.min_request_amount
      then (b, [])
      else if exceeds b.strategy bad_total total
      then (let (base, changes, _) =
            from_closed_to_open b.base at.retry_at (snapshot b.strategy bad_total total) in
          (record b { base = base }, changes))
      else (b, [])

  -- The state change, once the request is counted.
  unfoldable pub handle_state_change : Breaker f.F → Bool → ℕ → ℕ → Readings → Reply
  handle_state_change b bad bad_total total at =
      if is_open b.base.state
      then (b, [])
      else if is_half_open b.base.state
      then complete_half_open b bad at
      else complete_closed b bad_total total at

  -- `OnRequestComplete`, `bad` being `rt > maxAllowedRt` or `err != nil`.
  unfoldable pub complete : Breaker f.F → Bool → Readings → Option Reply
  complete b bad at = elim (current_counter b.stat at.current_at) [
    | none ↦ none
    | some (stat, none) ↦ some (record b { stat = stat }, [])
    | some (stat, some i) ↦
        (let stat' = update stat i (record_request bad) in
          let (bad_total, total) = sum_from 0 0 (all_counter stat' at.all_at) in
          some (handle_state_change (record b { stat = stat' }) bad bad_total total at))
  ]

  abbrev max_allowed_rt : Strategy f.F → ℕ
  max_allowed_rt (slow_rt max threshold) = max
  max_allowed_rt (error_ratio threshold) = 0
  max_allowed_rt (error_count threshold) = 0

  -- The three methods: `rt` is the response time, `failed` is `err != nil`.
  unfoldable pub slow_on_request_complete : Breaker f.F → ℕ → Bool → Readings → Option Reply
  slow_on_request_complete b rt failed at = complete b (ltb (max_allowed_rt b.strategy) rt) at

  unfoldable pub error_ratio_on_request_complete : Breaker f.F → ℕ → Bool → Readings → Option Reply
  error_ratio_on_request_complete b rt failed at = complete b failed at

  unfoldable pub error_count_on_request_complete : Breaker f.F → ℕ → Bool → Readings → Option Reply
  error_count_on_request_complete b rt failed at = complete b failed at

  -- The method of the interface `CircuitBreaker`.
  unfoldable pub on_request_complete : Breaker f.F → ℕ → Bool → Readings → Option Reply
  on_request_complete b rt failed at = elim b.strategy [
    | slow_rt max threshold ↦ slow_on_request_complete b rt failed at
    | error_ratio threshold ↦ error_ratio_on_request_complete b rt failed at
    | error_count threshold ↦ error_count_on_request_complete b rt failed at
  ]
