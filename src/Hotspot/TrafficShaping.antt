-- ===== src/Hotspot/TrafficShaping.antt =====
-- core/hotspot/traffic_shaping.go: the checks by the value of a parameter, on one goroutine.
-- K is what stands for a parameter's value. The caches hold pointers to int64 values, and a pointer that a
-- cache gives is written while the key is in it: so a cache holds the values, and `store` writes one. An
-- int64 is its bit pattern. `onEvict` is nil, so what it would be called with is dropped. V is what stands
-- for a snapshot, `text` for the messages.
pub mod Store
pub mod Pairing
pub mod Returns
pub mod Bucket
pub mod Rate
pub mod Served
pub mod Granted
mod Tests
use gmiter.Prelude.{
  ℕ, Bool, not, ◌||◌, ◌&&◌, Option, none, some, List, [], ◌∷◌, ◌==◌, if◌then◌else◌, ltb, add64,
  sub64, mul64, slt64, sdiv64, half32,
}
use gmiter.Prelude.Float.{Float64}
use gmiter.Chain.TokenResult.{
  TokenResult, GoString, new_token_result_blocked_with_cause, new_token_result_should_wait,
}
use gmiter.Hotspot.Lru.{Lru}
use gmiter.Hotspot.Controller.{
  Controller, Message, Outcome, ParamsMetric, batch_message, block_type_hot_spot_param_flow,
  concurrency_message, panicked, queueing_message, returned, specific_concurrency_message, spinning,
  store, threshold_message, token_message,
}
use gmiter.Hotspot.Lru
use gmiter.Hotspot.Lru.Entries.{lookup}
use gmiter.Hotspot.Rule.{Rule, concurrency, qps}

module _ {K : Type 0} (dec : Discrete K) where
  module _ (f : Float64) {V : Type 0} (text : Message → K → GoString) (int64_value : ℕ → V) where
    unfoldable pub block_with : Controller K f.F → Message → K → Option V → Outcome (Rule K f.F) V
    block_with c m arg snapshot = returned (
        some (
          new_token_result_blocked_with_cause block_type_hot_spot_param_flow (text m arg) (some c.r)
            snapshot))

    -- The count of a parameter that is in the cache, one more than the value held.
    unfoldable pub check_concurrency : Controller K f.F → K → ℕ → Outcome (Rule K f.F) V
    check_concurrency c arg count = elim (lookup dec arg c.specific_items) [
      | some specific ↦
          if not (slt64 specific count)
          then returned none
          else block_with c specific_concurrency_message arg (some (int64_value count))
      | none ↦
          if not (slt64 (f.to_int64 c.threshold) count)
          then returned none
          else block_with c concurrency_message arg (some (int64_value count))
    ]

    -- Once the cache has answered, and from the start.
    unfoldable pub concurrency_from :
        Controller K f.F
        → ParamsMetric K
        → K
        → Lru K ℕ × Option ℕ × List (K × ℕ)
        → ParamsMetric K × Outcome (Rule K f.F) V
    concurrency_from c m arg (counter, none, _) =
        (record m { concurrent_counter = some counter }, returned none)
    concurrency_from c m arg (counter, some value, _) =
        (record m { concurrent_counter = some counter }, check_concurrency c arg (add64 value 1))

    unfoldable pub perform_checking_for_concurrency_metric :
        Controller K f.F → ParamsMetric K → K → ParamsMetric K × Outcome (Rule K f.F) V
    perform_checking_for_concurrency_metric c m arg = elim m.concurrent_counter [
      | none ↦ (m, panicked)
      | some counter ↦ concurrency_from c m arg (Lru.add_if_absent dec counter arg 0)
    ]

    -- The tokens of the parameter: the threshold, or its specific item.
    unfoldable pub token_count_of : Controller K f.F → K → ℕ
    token_count_of c arg = elim (lookup dec arg c.specific_items) [
      | none ↦ f.to_int64 c.threshold
      | some val ↦ val
    ]

    -- The new rest of the tokens where the statistic window has passed; the divisor is not 0.
    unfoldable pub refilled : (max_count token_count batch_count window pass_time rest : ℕ) → ℕ
    refilled max_count token_count batch_count window pass_time rest =
        let to_add = sdiv64 (mul64 pass_time token_count) window in
        if slt64 max_count (add64 to_add rest)
        then sub64 max_count batch_count
        else sub64 (add64 to_add rest) batch_count

    module _ (c : Controller K f.F) (arg : K) (batch_count token_count max_count now : ℕ) where
      -- The window has passed since `last`: once the token cache has answered, and from the start.
      unfoldable pub refill_from :
          (times : Lru K ℕ)
          → (last : ℕ) → Lru K ℕ × Option ℕ × List (K × ℕ)
          → (Lru K ℕ × Lru K ℕ) × Outcome (Rule K f.F) V
      refill_from times last (tokens, none, _) = ((store dec times arg now, tokens), returned none)
      refill_from times last (tokens, some rest, _) =
          let window = mul64 c.duration_in_sec 1000 in
          let left = refilled max_count token_count batch_count window (sub64 now last) rest in
          if window == 0
          then ((times, tokens), panicked)
          else if slt64 left 0
          then ((times, tokens), block_with c token_message arg none)
          else ((store dec times arg now, store dec tokens arg left), returned none)

      unfoldable pub refill :
          (times tokens : Lru K ℕ) → (last : ℕ) → (Lru K ℕ × Lru K ℕ) × Outcome (Rule K f.F) V
      refill times tokens last =
          refill_from times last (Lru.add_if_absent dec tokens arg (sub64 max_count batch_count))

      -- The same within the window.
      unfoldable pub spend_from :
          (times : Lru K ℕ) → Lru K ℕ × Option ℕ → (Lru K ℕ × Lru K ℕ) × Outcome (Rule K f.F) V
      spend_from times (tokens, none) = ((times, tokens), spinning)
      spend_from times (tokens, some rest) =
          if slt64 (sub64 rest batch_count) 0
          then ((times, tokens), block_with c token_message arg none)
          else ((times, store dec tokens arg (sub64 rest batch_count)), returned none)

      unfoldable pub spend : (times tokens : Lru K ℕ) → (Lru K ℕ × Lru K ℕ) × Outcome (Rule K f.F) V
      spend times tokens = spend_from times (Lru.get dec tokens arg)

      -- One round of the loop of the reject controller, once the time cache has answered, and from the
      -- start.
      unfoldable pub reject_from :
          (tokens : Lru K ℕ)
          → Lru K ℕ × Option ℕ × List (K × ℕ)
          → (Lru K ℕ × Lru K ℕ) × Outcome (Rule K f.F) V
      reject_from tokens (times, none, _) = (
        (times, (Lru.add_if_absent dec tokens arg (sub64 max_count batch_count)).0),
        returned none,
      )
      reject_from tokens (times, some last, _) =
          if slt64 (mul64 c.duration_in_sec 1000) (sub64 now last)
          then refill times tokens last
          else spend times tokens

      unfoldable pub reject_round :
          (times tokens : Lru K ℕ) → (Lru K ℕ × Lru K ℕ) × Outcome (Rule K f.F) V
      reject_round times tokens = reject_from tokens (Lru.add_if_absent dec times arg now)

    -- The rounds read the clock as given; it spins after the last.
    unfoldable pub reject_loop :
        Controller K f.F
        → K
        → (batch_count token_count max_count : ℕ) → (times tokens : Lru K ℕ) → List ℕ
        → (Lru K ℕ × Lru K ℕ) × Outcome (Rule K f.F) V
    reject_loop c arg batch token_count max_count times tokens [] = ((times, tokens), spinning)
    reject_loop c arg batch token_count max_count times tokens (now ∷ nows) =
        let ((times', tokens'), outcome) =
          reject_round c arg batch token_count max_count now times tokens in
        let rest = reject_loop c arg batch token_count max_count times' tokens' nows in
        elim outcome [ spinning ↦ rest | other ↦ ((times', tokens'), other) ]

    -- One round of the loop of the throttling controller, once the cache has answered, and from the
    -- start.
    unfoldable pub throttling_from :
        Controller K f.F
        → K
        → (interval now : ℕ) → Lru K ℕ × Option ℕ × List (K × ℕ)
        → Lru K ℕ × Outcome (Rule K f.F) V
    throttling_from c arg interval now (times, none, _) = (times, returned none)
    throttling_from c arg interval now (times, some last, _) =
        let expected = add64 last interval in
        let await = sub64 expected now in
        if not (slt64 now expected) || slt64 await c.max_queueing_time_ms
        then (if slt64 0 await
            then (
              store dec times arg expected,
              returned (some (new_token_result_should_wait (mul64 await 1000000))),
            )
            else (store dec times arg now, returned none))
        else (times, block_with c queueing_message arg none)

    unfoldable pub throttling_round :
        Controller K f.F → K → (interval now : ℕ) → Lru K ℕ → Lru K ℕ × Outcome (Rule K f.F) V
    throttling_round c arg interval now times =
        throttling_from c arg interval now (Lru.add_if_absent dec times arg now)

    -- `intervalCostTime`; the token count is not 0.
    unfoldable pub interval_cost_time : Controller K f.F → (batch_count token_count : ℕ) → ℕ
    interval_cost_time c batch_count token_count = f.to_int64 (
        f.round
          (f.of_int64 (sdiv64 (mul64 (mul64 batch_count c.duration_in_sec) 1000) token_count)))

    -- The two caches, if there are both.
    abbrev pub counters : ParamsMetric K → Option (Lru K ℕ × Lru K ℕ)
    counters m = elim m.rule_time_counter [
      | none ↦ none
      | some times ↦ elim m.rule_token_counter [ none ↦ none | some tokens ↦ some (times, tokens) ]
    ]

    abbrev pub with_counters : ParamsMetric K → Lru K ℕ × Lru K ℕ → ParamsMetric K
    with_counters m (times, tokens) = record m {
      rule_time_counter = some times;
      rule_token_counter = some tokens;
    }

    -- `metricType > QPS` of an int32.
    abbrev pub is_beyond_qps : ℕ → Bool
    is_beyond_qps metric_type = ltb qps metric_type && ltb metric_type half32

    unfoldable pub reject_counters :
        Controller K f.F
        → K
        → (batch_count : ℕ) → (times tokens : Lru K ℕ) → List ℕ
        → (Lru K ℕ × Lru K ℕ) × Outcome (Rule K f.F) V
    reject_counters c arg batch times tokens nows =
        let token_count = token_count_of c arg in
        let max_count = add64 token_count c.burst_count in
        if not (slt64 0 token_count)
        then ((times, tokens), block_with c threshold_message arg none)
        else if slt64 max_count batch
        then ((times, tokens), block_with c batch_message arg none)
        else reject_loop c arg batch token_count max_count times tokens nows

    unfoldable pub throttle_counters :
        Controller K f.F
        → K
        → (batch_count now : ℕ) → (times tokens : Lru K ℕ)
        → (Lru K ℕ × Lru K ℕ) × Outcome (Rule K f.F) V
    throttle_counters c arg batch now times tokens =
        let token_count = token_count_of c arg in
        if not (slt64 0 token_count)
        then ((times, tokens), block_with c threshold_message arg none)
        else (let (times', outcome) =
              throttling_round c arg (interval_cost_time c batch token_count) now times in
            ((times', tokens), outcome))

    -- What both controllers do first; `check` is the rest of the one or the other.
    unfoldable pub perform :
        Controller K f.F
        → K
        → (Lru K ℕ → Lru K ℕ → (Lru K ℕ × Lru K ℕ) × Outcome (Rule K f.F) V)
        → Controller K f.F × Outcome (Rule K f.F) V
    perform c arg check = elim c.metric [
      | none ↦ (c, returned none)
      | some m ↦
          if c.metric_type == concurrency
          then (let (m', outcome) = perform_checking_for_concurrency_metric c m arg in
              (record c { metric = some m' }, outcome))
          else if is_beyond_qps c.metric_type
          then (c, returned none)
          else elim (counters m) [
            | none ↦ (c, returned none)
            | some (times, tokens) ↦
                (let (caches, outcome) = check times tokens in
                  (record c { metric = some (with_counters m caches) }, outcome))
          ]
    ]

    -- `PerformChecking` of the two controllers.
    unfoldable pub reject_perform_checking :
        Controller K f.F
        → K
        → (batch_count : ℕ) → List ℕ
        → Controller K f.F × Outcome (Rule K f.F) V
    reject_perform_checking c arg batch nows =
        perform c arg (λ times tokens. reject_counters c arg batch times tokens nows)

    unfoldable pub throttling_perform_checking :
        Controller K f.F → K → (batch_count now : ℕ) → Controller K f.F × Outcome (Rule K f.F) V
    throttling_perform_checking c arg batch now =
        perform c arg (λ times tokens. throttle_counters c arg batch now times tokens)
