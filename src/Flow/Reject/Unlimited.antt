-- ===== src/Flow/Reject/Unlimited.antt =====
-- The statistics that `generateStatFor` of core/flow/rule_manager.go gives a rule whose interval is its own
-- but fits the array of the resource, and the reject checker of core/flow/tc_default.go on them.
use gmiter.Prelude.{ℕ, ◌/◌, ◌≡◌, refl, ◌≢◌, true, none, some, Option, ok, ==_of_ne}
use gmiter.Prelude.Float.{Float64}
use gmiter.Chain.TokenResult.{GoString}
use gmiter.Stat.BucketLeapArray.{BucketLeapArray}
use gmiter.Stat.SlidingWindow.{
  SlidingWindowMetric, check_validity_for_reuse_statistic, new_sliding_window_metric,
}
use gmiter.Flow.Reject.{
  StandaloneStatistic, GlobalConfig, view, nil_write, own_sample_count, stat_for_interval,
  generate_stat_for, do_check,
}

module _ (g : GlobalConfig) (default_metric : SlidingWindowMetric) (node : BucketLeapArray)
    (now interval : ℕ)
    (same_count : node.window.sample_count ≡ g.global_statistic_sample_count_total)
    (same_interval : node.window.interval ≡ g.global_statistic_interval_ms_total)
    (reusable : check_validity_for_reuse_statistic
        (own_sample_count g interval)
        interval
        g.global_statistic_sample_count_total
        g.global_statistic_interval_ms_total
      ≡ none) where
  abbrev own_view : SlidingWindowMetric
  own_view = record {
    bucket_length = interval / own_sample_count g interval;
    sample_count = own_sample_count g interval;
    interval = interval;
  }

  own_view_eq :
      new_sliding_window_metric (own_sample_count g interval) interval (some node) ≡ ok own_view
  unfolding new_sliding_window_metric
  own_view_eq = rw (new_sliding_window_metric, same_count, same_interval, reusable) refl

  abbrev read_only : StandaloneStatistic
  read_only = record {
    reuse_resource_stat = true;
    read_only_metric = view own_view;
    write_only_metric = nil_write;
  }

  reused : stat_for_interval g default_metric node now interval ≡ ok (read_only, node)
  unfolding stat_for_interval
  reused = rw (stat_for_interval, reusable, own_view_eq) refl

  -- If the interval of a rule is not the default one but passes the check for reuse with the array of the
  -- resource, the rule gets a statistic on which the reject checker lets every request through, whatever
  -- the threshold, and counts none.
  pub unlimited :
      {R V : Type 0} (f : Float64) (text : GoString) (rule : Option R) (float_value : f.F → V)
      → interval ≢ 0
      → interval ≢ g.metric_statistic_interval_ms
      → (s : StandaloneStatistic) × (generate_stat_for g default_metric node now true interval
          ≡ ok (s, node))
        × ((real : BucketLeapArray) (time batch : ℕ) (threshold : f.F)
            → do_check {R = R} {V = V} f text rule float_value s real time batch threshold
              ≡ some (real, none))
  unfolding generate_stat_for do_check
  unlimited f text rule float_value some_interval other = (
    read_only,
    rw (==_of_ne interval 0 some_interval, ==_of_ne interval g.metric_statistic_interval_ms other)
        reused,
    λ real time batch threshold. refl,
  )
