-- ===== src/Stat/MetricBucket.antt =====
-- core/stat/base/metric_bucket.go: the counters of one time bucket.
-- The `int64` counters, the `int64` response time and the `int32` concurrency are bit patterns.
pub mod Laws
mod Tests
use gmiter.Prelude.{
  ℕ, zero, suc, ◌+◌, Bool, ◌||◌, List, [], ◌∷◌, set, leb, ◌==◌, if◌then◌else◌, add64, slt64, slt32,
}
use gmiter.Stat.Event
use gmiter.Stat.Event.{MetricEvent}

pub record MetricBucket : Type 0 where
  pub counter : List ℕ
  pub min_rt : ℕ
  pub max_concurrency : ℕ

abbrev pub default_statistic_max_rt : ℕ
default_statistic_max_rt = 60000

abbrev pub zeros : ℕ → List ℕ
zeros zero = []
zeros (suc n) = 0 ∷ zeros n

unfoldable pub new_metric_bucket : MetricBucket
new_metric_bucket = record {
  counter = zeros Event.total;
  min_rt = default_statistic_max_rt;
  max_concurrency = 0;
}

-- `event >= MetricEventTotal || event < 0` of an int8.
abbrev pub is_unknown : MetricEvent → Bool
is_unknown event = leb Event.total event || leb 128 event

abbrev pub get_or : List ℕ → ℕ → ℕ
get_or [] i = 0
get_or (x ∷ xs) zero = x
get_or (x ∷ xs) (suc i) = get_or xs i

-- `Add` has tested the event, so that the index is in range; Go would panic elsewhere.
unfoldable pub add_count : MetricBucket → MetricEvent → ℕ → MetricBucket
add_count mb event count = record mb {
  counter = set mb.counter event (add64 (get_or mb.counter event) count);
}

unfoldable pub add_rt : MetricBucket → ℕ → MetricBucket
unfolding add_count
add_rt mb rt =
    let mb' = add_count mb Event.rt rt in
    if slt64 rt mb'.min_rt then record mb' { min_rt = rt } else mb'

unfoldable pub add : MetricBucket → MetricEvent → ℕ → MetricBucket
unfolding add_rt add_count
add mb event count =
    if is_unknown event
    then mb
    else if event == Event.rt
    then add_rt mb count
    else add_count mb event count

unfoldable pub get : MetricBucket → MetricEvent → ℕ
get mb event = if is_unknown event then 0 else get_or mb.counter event

-- The loop of `reset`, which stores 0 in each counter from `i` on.
unfoldable pub clear_from : List ℕ → ℕ → ℕ → List ℕ
clear_from counter i zero = counter
clear_from counter i (suc left) = clear_from (set counter i 0) (i + 1) left

unfoldable pub reset : MetricBucket → MetricBucket
reset mb = record {
  counter = clear_from mb.counter 0 Event.total;
  min_rt = default_statistic_max_rt;
  max_concurrency = 0;
}

unfoldable pub update_concurrency : MetricBucket → ℕ → MetricBucket
update_concurrency mb concurrency =
    if slt32 mb.max_concurrency concurrency then record mb { max_concurrency = concurrency } else mb
