-- ===== src/System/Tests.antt =====
-- core/system on a process with three inbound calls in flight.
use gmiter.Prelude.{ℕ, ◌≡◌, refl, some, []}
use gmiter.Prelude.Float.{thousandths}
use gmiter.Stat.Node.{BaseStatNode}
use gmiter.System.{
  Rule, World, concurrency, load, bbr, do_check_rule, concurrency_blocked, load_blocked,
  check_bbr_simple,
}
use gmiter.Stat.Node
use gmiter.Stat.SlidingWindow
use gmiter.Stat.BucketLeapArray
use gmiter.Stat.LeapArray

program : Unit {0}
unfolding do_check_rule check_bbr_simple Node.min_rt Node.get_max_avg SlidingWindow.min_rt
    SlidingWindow.least_rt SlidingWindow.get_max_of_single_bucket SlidingWindow.max_of
    SlidingWindow.get_satisfied_buckets SlidingWindow.get_bucket_start_range
    BucketLeapArray.values_conditional LeapArray.values_conditional LeapArray.values_from
    LeapArray.calculate_start_time
program = tt

abbrev world : World ℕ
world = record {
  inbound_node = record {
    sample_count = 1;
    interval = 1000;
    concurrency = 3;
    arr = record {
      window = record { bucket_length = 1000; sample_count = 1; interval = 1000; slots = [] };
    };
    metric = some (record { bucket_length = 1000; sample_count = 1; interval = 1000 });
  };
  clock = λ _. 2000;
  current_load = 9000;
  current_cpu_usage = 0;
}

abbrev at_most_two : Rule ℕ
at_most_two = record { metric_type = concurrency; trigger_count = 2000; strategy = 0 }

abbrev load_eight : Rule ℕ
load_eight = record { metric_type = load; trigger_count = 8000; strategy = bbr }

over_two :
    do_check_rule thousandths at_most_two world
    ≡ some (record { refused = some concurrency_blocked; snapshot = 3000 })
unfolding program
over_two = refl

-- No call has completed, so that three in flight are more than the process serves.
over_load :
    do_check_rule thousandths load_eight world
    ≡ some (record { refused = some load_blocked; snapshot = 9000 })
unfolding program
over_load = refl
