-- ===== src/Hotspot/Rule.antt =====
-- core/hotspot/rule.go: the rules on hot parameters. An int64 or int32 is its bit pattern; K is what stands
-- for a parameter's value. A nil pointer or map is none.
use gmiter.Prelude.{
  ℕ, Bool, true, false, ◌&&◌, not, Option, none, some, List, ◌==◌, if◌then◌else◌, ◌≡◌, refl, sym,
  ◌∙◌, arith, Bool-cases, inl, inr,
}
use gmiter.Prelude.Float.{Float64}
use gmiter.Prelude.Strings.{Bytes, same_string}

-- `ControlBehavior`, an int32.
abbrev pub reject : ℕ
reject = 0

abbrev pub throttling : ℕ
throttling = 1

-- `MetricType`, an int32.
abbrev pub concurrency : ℕ
concurrency = 0

abbrev pub qps : ℕ
qps = 1

-- `ParameterSourceType`.
abbrev pub parameter_type_header : ℕ
parameter_type_header = 2

abbrev pub parameter_type_metadata : ℕ
parameter_type_metadata = 3

-- `ThresholdGlobal` of `ClusterStrategy`.
abbrev pub threshold_global : ℕ
threshold_global = 2

pub record ClusterConfig (F : Type 0) : Type 0 where
  pub flow_id : Bytes
  pub fallback_to_local_when_fail : Bool
  pub cluster_strategy : ℕ
  pub resource_timeout : ℕ
  pub resource_timeout_strategy : ℕ
  pub client_offline_time : ℕ
  pub global_threshold : F
  pub token_server_strategy : ℕ
  pub token_server_address : Bytes
  pub downgrade_duration_in_ms : ℕ
  pub master_node_threshold : F
  pub token_server_master_host : Bytes
  pub token_server_master_port : ℕ

pub record Rule (K F : Type 0) : Type 0 where
  pub id : Bytes
  pub app : Bytes
  pub rule_name : Bytes
  pub limit_app : Bytes
  pub resource : Bytes
  pub metric_type : ℕ
  pub control_behavior : ℕ
  pub param_source : ℕ
  pub param_idx : ℕ
  pub param_key : Bytes
  pub param_kind : Bytes
  pub threshold : F
  pub max_queueing_time_ms : ℕ
  pub burst_count : ℕ
  pub duration_in_sec : ℕ
  pub params_max_capacity : ℕ
  pub specific_items : Option (List (K × ℕ))
  pub cluster_mode : Bool
  pub cluster_config : Option (ClusterConfig F)

unfoldable pub is_stat_reusable : {K F : Type 0} → Rule K F → Rule K F → Bool
is_stat_reusable r n =
    same_string r.resource n.resource
    && (r.control_behavior == n.control_behavior)
    && (r.params_max_capacity == n.params_max_capacity)
    && (r.duration_in_sec == n.duration_in_sec)
    && (r.metric_type == n.metric_type)
    && (r.param_source == n.param_source)
    && same_string r.param_kind n.param_kind

-- `reflect.DeepEqual` of the items is a parameter.
module _ (f : Float64) {K : Type 0}
    (deep_equal : Option (List (K × ℕ)) → Option (List (K × ℕ)) → Bool) where
  unfoldable pub base_check : Rule K f.F → Rule K f.F → Bool
  base_check r n =
      same_string r.resource n.resource
      && (r.metric_type == n.metric_type)
      && (r.control_behavior == n.control_behavior)
      && (r.params_max_capacity == n.params_max_capacity)
      && (r.param_idx == n.param_idx)
      && same_string r.param_key n.param_key
      && f.eq r.threshold n.threshold
      && (r.duration_in_sec == n.duration_in_sec)
      && same_string r.limit_app n.limit_app
      && deep_equal r.specific_items n.specific_items
      && (r.param_source == n.param_source)
      && same_string r.param_kind n.param_kind

  unfoldable pub same_cluster : ClusterConfig f.F → ClusterConfig f.F → Bool
  same_cluster c n =
      same_string c.flow_id n.flow_id
      && (if c.fallback_to_local_when_fail
          then n.fallback_to_local_when_fail
          else not n.fallback_to_local_when_fail)
      && (c.cluster_strategy == n.cluster_strategy)
      && (c.resource_timeout == n.resource_timeout)
      && (c.resource_timeout_strategy == n.resource_timeout_strategy)
      && (c.client_offline_time == n.client_offline_time)
      && f.eq c.global_threshold n.global_threshold
      && (c.token_server_strategy == n.token_server_strategy)
      && same_string c.token_server_address n.token_server_address
      && (c.downgrade_duration_in_ms == n.downgrade_duration_in_ms)
      && f.eq c.master_node_threshold n.master_node_threshold
      && same_string c.token_server_master_host n.token_server_master_host
      && (c.token_server_master_port == n.token_server_master_port)

  unfoldable pub same_behavior : Rule K f.F → Rule K f.F → Bool
  same_behavior r n =
      if r.control_behavior == reject
      then r.burst_count == n.burst_count
      else if r.control_behavior == throttling
      then r.max_queueing_time_ms == n.max_queueing_time_ms
      else false

  -- `none` is the panic of reading a nil configuration.
  unfoldable pub equals : Rule K f.F → Rule K f.F → Option Bool
  equals r n =
      if not (base_check r n)
      then some false
      else if not (if r.cluster_mode then n.cluster_mode else not n.cluster_mode)
      then some false
      else if r.cluster_mode
      then elim r.cluster_config [
        | none ↦ none
        | some c ↦ elim n.cluster_config [
          | none ↦ none
          | some d ↦ if same_cluster c d then some (same_behavior r n) else some false
        ]
      ]
      else some (same_behavior r n)

  base_check-reusable : (r n : Rule K f.F) → base_check r n ≡ true → is_stat_reusable r n ≡ true
  unfolding base_check is_stat_reusable
  base_check-reusable r n h = ground (arith, h)

  -- A rule that is equal to another can take over its statistics.
  equals-is_stat_reusable :
      (r n : Rule K f.F) → equals r n ≡ some true → is_stat_reusable r n ≡ true
  unfolding equals
  equals-is_stat_reusable r n h = elim (Bool-cases (base_check r n)) [
    | inl e ↦ base_check-reusable r n e
    | inr e ↦ (let k : equals r n ≡ some false = rw e refl in absurd (different (sym k ∙ h)))
  ]
    where
      different : some false ≡ some true → ⊥
      different e = cc
