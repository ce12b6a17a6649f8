-- ===== src/Flow/Reject/Runs.antt =====
-- Runs of the reject checker of core/flow/tc_default.go.
use gmiter.Prelude.{
  ℕ, ◌+◌, ◌*◌, ◌/◌, ◌%◌, ◌≤◌, ◌<◌, ◌≡◌, refl, sym, ◌∙◌, false, Option, none, some, List, [], ◌∷◌,
  ◌==◌, half64, mod64, mod32, arith, ok, ==_of_pos,
}
use gmiter.Prelude.Float.{Float64}
use gmiter.Chain.TokenResult.{TokenResult, GoString}
use gmiter.Stat.BucketLeapArray.{BucketLeapArray}
use gmiter.Stat.BucketLeapArray.History.{Addition}
use gmiter.Stat.BucketLeapArray.Represents.{Represents}
use gmiter.Stat.BucketLeapArray.Construct.{made, made_eq, made-Represents, length_pos, whole}
use gmiter.Stat.SlidingWindow.{
  SlidingWindowMetric, new_sliding_window_metric, check_validity_for_reuse_statistic,
}
use gmiter.Flow.Reject.{StandaloneStatistic, view, array, own_stat, count_and_check, do_check}
use gmiter.Flow.Reject.Viewed.{Fits}
use native.Mathlib.Nat.{div-add-mod', mod-lt, mul_comm, mod_self}
use gmiter.Flow.Reject.Limit.{request, viewed, passed, count_and_check-HasChecked}

module _ {R V : Type 0} (f : Float64) (text : GoString) (rule : Option R) (float_value : f.F → V)
    (m : SlidingWindowMetric) (threshold : f.F) (bl interval : ℕ) where
  module _ (s : StandaloneStatistic) (is_view : s.read_only_metric ≡ view m)
      (is_array : s.write_only_metric ≡ array) where
    -- The requests let through, newest first, behind those of before.
    unfoldable pub run : BucketLeapArray → List Addition → List (ℕ × ℕ) → Option (List Addition)
    run real history [] = some history
    run real history ((now, batch) ∷ requests) =
        elim (do_check {R = R} {V = V} f text rule float_value s real now batch threshold) [
          | none ↦ none
          | some (real', r) ↦ run real' (passed now batch history r) requests
        ]

    -- Each request, when it was let through, was within the threshold with those before it in the view.
    abbrev pub AllWithin : List Addition → Type 0
    AllWithin [] = Unit
    AllWithin (a ∷ history) =
        (f.lt threshold (f.of_int64 (viewed bl m.interval a.time (a ∷ history))) ≡ false)
        × AllWithin history

    -- Requests at times that do not go back.
    abbrev pub InOrder : ℕ → List (ℕ × ℕ) → Type 0
    InOrder before [] = Unit
    InOrder before ((now, batch) ∷ requests) =
        (before ≤ now) × (now < half64) × (batch < mod64) × InOrder now requests

    passed-AllWithin :
        (now batch : ℕ) (history : List Addition) (r : Option (TokenResult R V))
        → (r ≡ none
            → f.lt threshold (f.of_int64 (viewed bl m.interval now (request now batch ∷ history)))
              ≡ false)
        → AllWithin history
        → AllWithin (passed now batch history r)
    passed-AllWithin now batch history none h all = (h refl, all)
    passed-AllWithin now batch history (some r) h all = all

    do_check_eq :
        (real : BucketLeapArray) (now batch : ℕ)
        → do_check {R = R} {V = V} f text rule float_value s real now batch threshold
          ≡ count_and_check f text rule float_value (view m) array real now batch threshold
    unfolding do_check
    do_check_eq real now batch = rw (is_view, is_array) refl

    module _ (buckets : ℕ) (whole : m.interval ≡ buckets * bl) (some_buckets : 0 < buckets)
        (fits : m.interval ≤ interval) (positive_length : 0 < bl) where
      run_from :
          (requests : List (ℕ × ℕ)) (real : BucketLeapArray) (history : List Addition) (before : ℕ)
          → Represents real.window before history
          → real.window.bucket_length ≡ bl
          → real.window.interval ≡ interval
          → 0 < before
          → m.interval + bl ≤ before
          → InOrder before requests
          → AllWithin history
          → (through : List Addition) × (run real history requests ≡ some through)
            × AllWithin through
      unfolding run
      run_from [] real history before r same_length same_interval positive late o all =
          (history, refl, all)
      run_from ((now, batch) ∷ requests) real history before r same_length same_interval positive
            late (le, early, small, o) all =
          let fit : Fits m real.window now = record {
            buckets = buckets;
            whole = rw same_length whole;
            some_buckets = some_buckets;
            fits = rw same_interval fits;
            late = rw same_length (omega (arith, div-add-mod' now bl, mod-lt now positive_length));
          } in
          let (real', result, e, r', checked, length', interval') =
            count_and_check-HasChecked f text rule float_value m threshold bl interval now batch
              history (omega arith) early small real before r positive le fit same_length
              same_interval in
          let (through, e', all') =
            run_from requests real' (passed now batch history result) now r' length' interval'
              (omega arith) (omega arith) o
              (passed-AllWithin now batch history result checked all) in
          let step : do_check {R = R} {V = V} f text rule float_value s real now batch threshold
              ≡ some (real', result) =
            do_check_eq real now batch ∙ e in
          (through, rw (step, run) e', all')

-- The view over the whole of an array of the rule's own, and the statistic with it.
abbrev pub own_view : (count interval : ℕ) → SlidingWindowMetric
own_view count interval = record {
  bucket_length = interval / count;
  sample_count = count;
  interval = interval;
}

abbrev pub own : (count interval : ℕ) → StandaloneStatistic
own count interval = record {
  reuse_resource_stat = false;
  read_only_metric = view (own_view count interval);
  write_only_metric = array;
}

module _ {R V : Type 0} (f : Float64) (text : GoString) (rule : Option R) (float_value : f.F → V)
    (threshold : f.F) (count interval start : ℕ) (positive : 0 < count) (long : 0 < interval)
    (divides : interval % count ≡ 0) (short : interval < mod32) (early : start < half64) where
  self_valid : check_validity_for_reuse_statistic count interval count interval ≡ none
  unfolding check_validity_for_reuse_statistic
  self_valid =
      let some_count : (count == 0) ≡ false = ==_of_pos count positive in
      let some_interval : (interval == 0) ≡ false = ==_of_pos interval long in
      rw (some_interval, some_count, divides, mod_self interval, mod_self (interval / count)) refl

  own_view_eq :
      (real : BucketLeapArray)
      → real.window.sample_count ≡ count
      → real.window.interval ≡ interval
      → new_sliding_window_metric count interval (some real) ≡ ok (own_view count interval)
  unfolding new_sliding_window_metric
  own_view_eq real same_count same_interval =
      rw (new_sliding_window_metric, same_count, same_interval, self_valid) refl

  -- A rule with an array of its own, on one goroutine, its clock not going back and started at least an
  -- interval and a bucket ago: whatever requests come, the reject checker ends each with a result, and when
  -- it lets one through, the tokens let through in the view, this one's included, are not over the
  -- threshold. Those of the requests it refuses do not count.
  pub own_stat-AllWithin :
      (requests : List (ℕ × ℕ))
      → interval + interval / count ≤ start
      → InOrder f text rule float_value
          (own_view count interval)
          threshold
          (interval / count)
          interval
          (own count interval)
          refl
          refl
          start
          requests
      → (real : BucketLeapArray) × (own_stat count interval start ≡ ok (own count interval, real))
        × ((through : List Addition) × (run f text rule float_value
                (own_view count interval)
                threshold
                (interval / count)
                interval
                (own count interval)
                refl
                refl
                real
                []
                requests
              ≡ some through)
            × AllWithin f text rule float_value
                (own_view count interval)
                threshold
                (interval / count)
                interval
                (own count interval)
                refl
                refl
                through)
  unfolding own_stat
  own_stat-AllWithin requests late o =
      let bl_pos = length_pos count interval start positive long divides short early in
      (
        record { window = made count interval start positive long divides short early },
        rw
            (
              made_eq count interval start positive long divides short early,
              own_view_eq
                  (record { window = made count interval start positive long divides short early })
                  refl refl,
              own_stat,
            )
            refl,
        run_from f text rule float_value (own_view count interval) threshold (interval / count)
            interval (own count interval) refl refl count
            (sym (whole count interval start positive long divides short early)
              ∙ mul_comm (interval / count) count)
            positive (omega arith) bl_pos requests
            (record { window = made count interval start positive long divides short early }) []
            start (made-Represents count interval start positive long divides short early) refl refl
            (omega arith) late o tt,
      )
