-- ===== src/Breaker/Counters.antt =====
-- core/circuitbreaker/circuit_breaker.go: the counters of a breaker in their leap array. The counter of
-- slow requests and that of failed ones are one record here: `bad_count` is `slowCount` in
-- `slowRequestCounter` and `errorCount` in `errorCounter`. One goroutine runs at a time; a result is
-- `none` where the code panics or spins for ever.
use gmiter.Prelude.{
  ℕ, Bool, Option, none, some, List, [], ◌∷◌, map, set, ◌==◌, if◌then◌else◌, add64, ok, err, panic,
}
use gmiter.Stat.LeapArray
use gmiter.Stat.LeapArray.{BucketWrap, BucketGenerator, LeapArray}
use gmiter.Stat.LeapArray.Current.{undisturbed}

pub record Counter : Type 0 where
  pub bad_count : ℕ  -- uint64
  pub total_count : ℕ  -- uint64

unfoldable pub reset : Counter → Counter
reset c = record { bad_count = 0; total_count = 0 }

-- `ResetBucketTo` stores a new counter.
abbrev pub generator : BucketGenerator Counter
generator = record {
  new_empty_bucket = record { bad_count = 0; total_count = 0 };
  reset_value = λ _. record { bad_count = 0; total_count = 0 };
}

-- The slot of the current counter, or no slot where the code returns an error.
unfoldable pub current_counter : LeapArray Counter → ℕ → Option (LeapArray Counter × Option ℕ)
current_counter data_ now =
    elim (LeapArray.current_bucket_of_time generator data_ now (undisturbed ∷ [])) [
      | some (ok (i, la)) ↦ some (la, some i)
      | some (err e) ↦ some (data_, none)
      | some panic ↦ none
      | none ↦ none
    ]

-- `if bad { badCount += 1 }; totalCount += 1` on a counter.
unfoldable pub record_request : Bool → Counter → Counter
record_request bad c = record {
  bad_count = if bad then add64 c.bad_count 1 else c.bad_count;
  total_count = add64 c.total_count 1;
}

-- The counter of a slot, changed in place.
unfoldable pub update : LeapArray Counter → ℕ → (Counter → Counter) → LeapArray Counter
update la i f = elim (LeapArray.get la.slots i) [
  | none ↦ la
  | some w ↦ record la { slots = set la.slots i (some (record w { value = f w.value })) }
]

unfoldable pub all_counter : LeapArray Counter → ℕ → List Counter
all_counter la now = map (λ w. w.value) (LeapArray.values_with_time la now)

-- The loop that sums the counters up: bad and total.
unfoldable pub sum_from : ℕ → ℕ → List Counter → ℕ × ℕ
sum_from bad total [] = (bad, total)
sum_from bad total (c ∷ cs) = sum_from (add64 bad c.bad_count) (add64 total c.total_count) cs

-- `resetMetric`: the counters that `allCounter` gives are reset in place.
unfoldable pub reset_live :
    LeapArray Counter → ℕ → List (Option (BucketWrap Counter)) → List (Option (BucketWrap Counter))
reset_live la now [] = []
reset_live la now (none ∷ slots) = none ∷ reset_live la now slots
reset_live la now (some w ∷ slots) =
    some (if LeapArray.is_bucket_deprecated la now w then w else record w { value = reset w.value })
    ∷ reset_live la now slots

unfoldable pub reset_metric : LeapArray Counter → ℕ → LeapArray Counter
reset_metric la now = if now == 0 then la else record la { slots = reset_live la now la.slots }
