-- ===== src/Stat/Node/Totality.antt =====
-- core/stat/base_node.go on an array that is well formed: no operation panics or spins.
use gmiter.Prelude.{ℕ, ◌/◌, ◌%◌, ◌<◌, ◌≡◌, refl, ap, Option, some, [], half64, mod32}
use gmiter.Stat.Event.{MetricEvent}
use gmiter.Stat.LeapArray.WellFormed.{IsWellFormed}
use gmiter.Stat.LeapArray.Current.{current_bucket_of_time-IsRefreshed}
use gmiter.Stat.MetricBucket
use gmiter.Stat.MetricBucket.{MetricBucket}
use gmiter.Stat.BucketLeapArray
use gmiter.Stat.BucketLeapArray.{BucketLeapArray, generator, update, fetch}
use gmiter.Stat.BucketLeapArray.Counting.{fetch_eq}
use gmiter.Stat.BucketLeapArray.Update.{update_eq, changed-IsWellFormed}
use gmiter.Stat.BucketLeapArray.Construct.{made_eq, made-IsWellFormed}
use gmiter.Stat.Node
use gmiter.Stat.Node.{BaseStatNode, next32}
use mathlib.Core.Option.{map as map_option}

-- A clock reading that the code can work with.
abbrev pub IsTime : ℕ → Type 0
IsTime now = (0 < now) × (now < half64)

module _ (bla : BucketLeapArray) (now : ℕ) (wf : IsWellFormed bla.window) (time : IsTime now) where
  -- The bucket of a time can be changed.
  updated :
      (f : MetricBucket → MetricBucket)
      → (bla' : BucketLeapArray) × (i : ℕ) × (fetch bla now ≡ some (bla', some i))
        × IsWellFormed (update bla' i f).window
  updated f =
      let (la, found, refreshed, wf') =
        current_bucket_of_time-IsRefreshed generator bla.window wf now [] time.0 time.1 in
      let i = now / bla.window.bucket_length % bla.window.sample_count in
      (
        record { window = la },
        i,
        fetch_eq bla now i la found,
        rw (update_eq (record { window = la }) i _ f wf' refreshed.holds)
            (changed-IsWellFormed (record { window = la }) i _ f wf' refreshed.holds),
      )

-- A node comes out, with its array well formed and `c` as its number of calls in flight.
abbrev pub Gives : ℕ → Option BaseStatNode → Type 0
Gives c o = (n : BaseStatNode) × (o ≡ some n) × IsWellFormed n.arr.window × (n.concurrency ≡ c)

module _ (n : BaseStatNode) (now : ℕ) (wf : IsWellFormed n.arr.window) (time : IsTime now) where
  pub add_count_with_time-Gives :
      (event : MetricEvent) (count : ℕ)
      → Gives n.concurrency (Node.add_count_with_time n now event count)
  unfolding Node.add_count_with_time BucketLeapArray.add_count_with_time
  add_count_with_time-Gives event count =
      let (bla, i, e, wf') = updated n.arr now wf time (λ b. MetricBucket.add b event count) in
      let added : BucketLeapArray.add_count_with_time n.arr now event count
          ≡ some (update bla i (λ b. MetricBucket.add b event count)) =
        rw (e, BucketLeapArray.add_count_with_time) refl in
      (_, ap (map_option (λ arr. record n { arr = arr })) added, wf', refl)

  pub update_concurrency-Gives :
      (concurrency : ℕ) → Gives n.concurrency (Node.update_concurrency n now concurrency)
  unfolding Node.update_concurrency BucketLeapArray.update_concurrency_with_time
  update_concurrency-Gives concurrency =
      let (bla, i, e, wf') =
        updated n.arr now wf time (λ b. MetricBucket.update_concurrency b concurrency) in
      let changed : BucketLeapArray.update_concurrency_with_time n.arr now concurrency
          ≡ some (update bla i (λ b. MetricBucket.update_concurrency b concurrency)) =
        rw (e, BucketLeapArray.update_concurrency_with_time) refl in
      (_, ap (map_option (λ arr. record n { arr = arr })) changed, wf', refl)

pub increase_concurrency-Gives :
    (n : BaseStatNode) (now : ℕ)
    → IsWellFormed n.arr.window
    → IsTime now
    → Gives (next32 n.concurrency) (Node.increase_concurrency n now)
unfolding Node.increase_concurrency
increase_concurrency-Gives n now wf time =
    update_concurrency-Gives (record n { concurrency = next32 n.concurrency }) now wf time
      (next32 n.concurrency)

pub new_base_stat_node-Gives :
    (total_count total_interval count interval now : ℕ)
    → 0 < total_count
    → 0 < total_interval
    → total_interval % total_count ≡ 0
    → total_interval < mod32
    → now < half64
    → Gives 0 (Node.new_base_stat_node total_count total_interval count interval now)
unfolding Node.new_base_stat_node
new_base_stat_node-Gives total_count total_interval count interval now positive long divides short
      early =
    (
      _,
      ap (map_option _) (made_eq total_count total_interval now positive long divides short early),
      made-IsWellFormed total_count total_interval now positive long divides short early,
      refl,
    )
