-- ===== src/Stat/MetricBucket/Tests.antt =====
-- core/stat/base/metric_bucket.go on a new bucket.
use gmiter.Prelude.{◌≡◌}
use gmiter.Stat.Event
use gmiter.Stat.MetricBucket.{new_metric_bucket, add, get}
use gmiter.Stat.MetricBucket.Laws.{new_metric_bucket-IsWellFormed, get-add}

get-add_example : get (add new_metric_bucket Event.pass 3) Event.pass ≡ 3
unfolding get new_metric_bucket
get-add_example = get-add new_metric_bucket new_metric_bucket-IsWellFormed Event.pass Event.pass 3
