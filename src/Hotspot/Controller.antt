-- ===== src/Hotspot/Controller.antt =====
-- The controllers of core/hotspot/traffic_shaping.go, what they keep and what a check of theirs gives.
-- K is what stands for a parameter's value. A cache of pointers to int64 values holds the values: a pointer
-- that it gives is written while the key is in it, by `store`. An int64 is its bit pattern.
use gmiter.Prelude.{ℕ, Option, none, some, List, [], ◌∷◌, ◌==◌, if◌then◌else◌, mul64, slt64}
use gmiter.Prelude.Strings.{Bytes}
use gmiter.Chain.TokenResult.{TokenResult}
use gmiter.Hotspot.Lru.{Lru, new_lru}
use gmiter.Hotspot.Rule.{Rule, concurrency, qps}
use mathlib.Core.Logic.{ite}

-- core/hotspot/params_metric.go. A nil cache is none.
pub record ParamsMetric (K : Type 0) : Type 0 where
  pub rule_time_counter : Option (Lru K ℕ)
  pub rule_token_counter : Option (Lru K ℕ)
  pub concurrent_counter : Option (Lru K ℕ)

abbrev pub concurrency_max_count : ℕ
concurrency_max_count = 4000

abbrev pub params_capacity_base : ℕ
params_capacity_base = 4000

abbrev pub params_max_capacity : ℕ
params_max_capacity = 20000

-- `NewLRUCacheMap` of core/hotspot/cache/concurrent_lru.go, whose methods are those of the LRU cache
-- under a lock.
unfoldable pub new_lru_cache_map : {K : Type 0} → ℕ → Option (Lru K ℕ)
new_lru_cache_map size = if slt64 0 size then new_lru size else none

-- A controller of either behaviour: each reads only its own one of the last two fields.
pub record Controller (K F : Type 0) : Type 0 where
  pub r : Rule K F
  pub res : Bytes
  pub metric_type : ℕ
  pub param_index : ℕ
  pub param_key : Bytes
  pub param_kind : Bytes
  pub param_source : ℕ
  pub threshold : F
  pub specific_items : List (K × ℕ)
  pub duration_in_sec : ℕ
  pub metric : Option (ParamsMetric K)
  pub burst_count : ℕ
  pub max_queueing_time_ms : ℕ

module _ {K F : Type 0} where
  unfoldable pub new_base_traffic_shaping_controller_with_metric :
      Rule K F → Option (ParamsMetric K) → Controller K F
  new_base_traffic_shaping_controller_with_metric r metric = record {
    r = r;
    res = r.resource;
    metric_type = r.metric_type;
    param_index = r.param_idx;
    param_key = r.param_key;
    param_kind = r.param_kind;
    param_source = r.param_source;
    threshold = r.threshold;
    specific_items = elim r.specific_items [ none ↦ [] | some items ↦ items ];
    duration_in_sec = r.duration_in_sec;
    metric = metric;
    burst_count = r.burst_count;
    max_queueing_time_ms = r.max_queueing_time_ms;
  }

  -- The smaller of 20000 and 4000 times the duration; `math.Min` takes both as floats, which rounds no
  -- number below 20000, and a wrapped product is below 0 or as large as it shows.
  unfoldable pub qps_size : Rule K F → ℕ
  qps_size r =
      let by_duration = mul64 params_capacity_base r.duration_in_sec in
      let size =
        (if slt64 0 r.params_max_capacity
          then r.params_max_capacity
          else if r.duration_in_sec == 0
          then params_max_capacity
          else if slt64 by_duration params_max_capacity
          then by_duration
          else params_max_capacity) in
      if slt64 0 size then size else params_max_capacity

  -- `none` for an unsupported metric.
  unfoldable pub new_base_traffic_shaping_controller : Rule K F → Option (Controller K F)
  new_base_traffic_shaping_controller r =
      if r.metric_type == qps
      then some (
          new_base_traffic_shaping_controller_with_metric r (
            some (record {
              rule_time_counter = new_lru_cache_map (qps_size r);
              rule_token_counter = new_lru_cache_map (qps_size r);
              concurrent_counter = none;
            })))
      else if r.metric_type == concurrency
      then some (
          new_base_traffic_shaping_controller_with_metric r (
            some (record {
              rule_time_counter = none;
              rule_token_counter = none;
              concurrent_counter = new_lru_cache_map (
                  if slt64 0 r.params_max_capacity
                  then r.params_max_capacity
                  else concurrency_max_count);
            })))
      else none

pub data Message : Type 0 where
  specific_concurrency_message : Message
  concurrency_message : Message
  threshold_message : Message
  batch_message : Message
  token_message : Message
  queueing_message : Message

-- What a check gives: a result, where none is a pass, a panic, or neither yet.
pub data Outcome (R V : Type 0) : Type 0 where
  returned : Option (TokenResult R V) → Outcome R V
  panicked : Outcome R V
  spinning : Outcome R V

-- `BlockTypeHotSpotParamFlow`.
abbrev pub block_type_hot_spot_param_flow : ℕ
block_type_hot_spot_param_flow = 5

module _ {K : Type 0} (dec : Discrete K) where
  unfoldable pub assign : K → ℕ → List (K × ℕ) → List (K × ℕ)
  assign k v [] = []
  assign k v ((j, w) ∷ l) = let rest = assign k v l in ite (dec j k) ((j, v) ∷ l) ((j, w) ∷ rest)

  -- A write through the pointer that the cache gave for the key.
  unfoldable pub store : Lru K ℕ → K → ℕ → Lru K ℕ
  store c k v = record c { evict_list = assign k v c.evict_list }
