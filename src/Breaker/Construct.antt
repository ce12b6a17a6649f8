-- ===== src/Breaker/Construct.antt =====
-- The constructors of core/circuitbreaker/circuit_breaker.go.
use gmiter.Prelude.{ℕ, ◌%◌, ◌<◌, ◌≡◌, refl, half64, mod32, arith, Result, ok}
use gmiter.Prelude.Float.{Float64}
use gmiter.Breaker.{closed}
use gmiter.Breaker.Complete.{
  Breaker, Rule, get_rule_stat_sliding_window_bucket_count, new_slow_rt_circuit_breaker,
  new_error_ratio_circuit_breaker, new_error_count_circuit_breaker,
  new_slow_rt_circuit_breaker_with_stat, new_error_ratio_circuit_breaker_with_stat,
  new_error_count_circuit_breaker_with_stat,
}
use gmiter.Breaker.Counters.{generator}
use gmiter.Stat.LeapArray.{Error}
use gmiter.Stat.LeapArray.WellFormed.{IsWellFormed}
use gmiter.Stat.LeapArray.Construct.{new_leap_array-IsWellFormed}

module _ (f : Float64) (r : Rule f.F) where
  -- The number of buckets is positive and divides the interval, whatever the rule says.
  bucket_count_lem :
      (0 < get_rule_stat_sliding_window_bucket_count r)
      × (r.stat_interval_ms % get_rule_stat_sliding_window_bucket_count r ≡ 0)
  unfolding get_rule_stat_sliding_window_bucket_count
  bucket_count_lem = (ground arith, ground arith)

  -- A breaker that starts out closed, with a well-formed array of counters and no probes.
  pub record IsFresh (made : Result Error (Breaker f.F)) : Type 0 where
    pub breaker : Breaker f.F
    pub made_ok : made ≡ ok breaker
    pub starts_closed : breaker.base.state ≡ closed
    pub no_probes : breaker.base.cur_probe_number ≡ 0
    pub stat-IsWellFormed : IsWellFormed breaker.stat
    pub spans_interval : breaker.stat.interval ≡ r.stat_interval_ms

  -- Each of the three constructors gives a fresh breaker for a rule with a positive interval, whatever
  -- number of buckets the rule asks for.
  pub new_circuit_breakers-IsFresh :
      (now : ℕ)
      → 0 < r.stat_interval_ms
      → r.stat_interval_ms < mod32
      → now < half64
      → IsFresh (new_slow_rt_circuit_breaker f r now)
        × IsFresh (new_error_ratio_circuit_breaker f r now)
        × IsFresh (new_error_count_circuit_breaker f r now)
  unfolding new_slow_rt_circuit_breaker new_error_ratio_circuit_breaker
      new_error_count_circuit_breaker new_slow_rt_circuit_breaker_with_stat
      new_error_ratio_circuit_breaker_with_stat new_error_count_circuit_breaker_with_stat
  new_circuit_breakers-IsFresh now positive small early =
      let (some_buckets, divides) = bucket_count_lem in
      let (la, made, wf, interval, _) =
        new_leap_array-IsWellFormed generator (get_rule_stat_sliding_window_bucket_count r)
          r.stat_interval_ms now some_buckets positive divides small early in
      (
        record {
          breaker = new_slow_rt_circuit_breaker_with_stat f r la;
          made_ok = rw made refl;
          starts_closed = refl;
          no_probes = refl;
          stat-IsWellFormed = wf;
          spans_interval = interval;
        },
        record {
          breaker = new_error_ratio_circuit_breaker_with_stat f r la;
          made_ok = rw made refl;
          starts_closed = refl;
          no_probes = refl;
          stat-IsWellFormed = wf;
          spans_interval = interval;
        },
        record {
          breaker = new_error_count_circuit_breaker_with_stat f r la;
          made_ok = rw made refl;
          starts_closed = refl;
          no_probes = refl;
          stat-IsWellFormed = wf;
          spans_interval = interval;
        },
      )
