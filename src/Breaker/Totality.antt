-- ===== src/Breaker/Totality.antt =====
-- The array of counters of a breaker of core/circuitbreaker/circuit_breaker.go across its operations.
use gmiter.Prelude.{
  ℕ, suc, ◌/◌, ◌%◌, ◌<◌, ◌≡◌, refl, ap, ◌∙◌, ◌⊎◌, inl, inr, Bool, true, false, Option, none, some,
  List, [], ◌∷◌, length, ◌==◌, if◌then◌else◌, half64, arith, length-set, Bool-cases, ok,
}
use gmiter.Prelude.Float.{Float64}
use gmiter.Breaker.{Change}
use gmiter.Breaker.Complete.{
  Breaker, Readings, complete, on_request_complete, handle_state_change, complete_half_open,
  complete_closed,
}
use gmiter.Breaker.Counters
use gmiter.Breaker.Counters.{
  current_counter, Counter, generator, update, record_request, reset_live, reset_metric, sum_from,
  all_counter,
}
use gmiter.Breaker.Transitions.{is_bad, on_request_complete_lem}
use gmiter.Stat.LeapArray.{BucketWrap, LeapArray, is_bucket_deprecated, current_bucket_of_time}
use gmiter.Stat.LeapArray.WellFormed.{IsWellFormed, IsAligned, Slots, Slots-set, Slots-get_elem?}
use gmiter.Stat.LeapArray.Current.{undisturbed, current_bucket_of_time-IsRefreshed, get_lem}
use native.Mathlib.Nat.{mod-lt}

-- A change of a counter in place keeps the array well formed.
update-IsWellFormed :
    (la : LeapArray Counter) (i : ℕ) (g : Counter → Counter)
    → i < la.sample_count
    → IsWellFormed la
    → IsWellFormed (update la i g)
unfolding update
update-IsWellFormed la i g h wf =
    let (w, held, aligned) =
      Slots-get_elem? la.bucket_length la.sample_count 0 la.slots i wf.aligned
        (rw wf.slot_count h) in
    rw (get_lem la wf i w held, update)
      (record {
        positive_length = wf.positive_length;
        positive_count = wf.positive_count;
        spans = wf.spans;
        short = wf.short;
        slot_count = length-set la.slots i _ ∙ wf.slot_count;
        aligned = Slots-set la.bucket_length la.sample_count 0 la.slots i _ wf.aligned aligned;
      })

reset_live-Slots :
    (la : LeapArray Counter) (now i : ℕ) (slots : List (Option (BucketWrap Counter)))
    → Slots la.bucket_length la.sample_count i slots
    → Slots la.bucket_length la.sample_count i (reset_live la now slots)
      × (length (reset_live la now slots) ≡ length slots)
unfolding reset_live
reset_live-Slots la now i [] h = (tt, refl)
reset_live-Slots la now i (none ∷ slots) h = absurd h
reset_live-Slots la now i (some w ∷ slots) h =
    let (rest, n) = reset_live-Slots la now (suc i) slots h.1 in
    ((same_start (is_bucket_deprecated la now w) h.0, rest), ap suc n)
  where
    same_start :
        (old : Bool)
        → IsAligned la.bucket_length la.sample_count i w
        → IsAligned la.bucket_length la.sample_count i
            (if old then w else record w { value = Counters.reset w.value })
    same_start true a = a
    same_start false a = a

reset_metric-IsWellFormed :
    (la : LeapArray Counter) (now : ℕ) → IsWellFormed la → IsWellFormed (reset_metric la now)
unfolding reset_metric
reset_metric-IsWellFormed la now wf = elim (Bool-cases (now == 0)) [
  | inl e ↦ rw (e, reset_metric) wf
  | inr e ↦
      let (aligned, n) = reset_live-Slots la now 0 la.slots wf.aligned in
      rw (e, reset_metric)
        (record {
          positive_length = wf.positive_length;
          positive_count = wf.positive_count;
          spans = wf.spans;
          short = wf.short;
          slot_count = n ∙ wf.slot_count;
          aligned = aligned;
        })
]

module _ (f : Float64) where
  handle-stat :
      (b : Breaker f.F) (bad : Bool) (bad_total total : ℕ) (at : Readings)
      → ((handle_state_change f b bad bad_total total at).0.stat ≡ b.stat)
        ⊎ ((handle_state_change f b bad bad_total total at).0.stat
            ≡ reset_metric b.stat at.reset_at)
  unfolding handle_state_change complete_half_open complete_closed
  handle-stat b bad bad_total total at = ground arith

  counted_eq :
      (stat : LeapArray Counter) (now i : ℕ) (la : LeapArray Counter)
      → current_bucket_of_time generator stat now (undisturbed ∷ []) ≡ some (ok (i, la))
      → current_counter stat now ≡ some (la, some i)
  unfolding current_counter
  counted_eq stat now i la e = rw (e, current_counter)

  pub complete_eq :
      (b : Breaker f.F) (bad : Bool) (at : Readings) (i : ℕ) (la : LeapArray Counter)
      → current_counter b.stat at.current_at ≡ some (la, some i)
      → complete f b bad at ≡ (
          let stat = update la i (record_request bad) in
          let sums = sum_from 0 0 (all_counter stat at.all_at) in
          some (handle_state_change f (record b { stat = stat }) bad sums.0 sums.1 at))
  unfolding complete
  complete_eq b bad at i la e = rw (e, complete)

  handled-IsWellFormed :
      (b : Breaker f.F) (bad : Bool) (bad_total total : ℕ) (at : Readings)
      → IsWellFormed b.stat
      → IsWellFormed (handle_state_change f b bad bad_total total at).0.stat
  handled-IsWellFormed b bad bad_total total at wf = elim (handle-stat b bad bad_total total at) [
    | inl e ↦ rw e wf
    | inr e ↦ rw e (reset_metric-IsWellFormed b.stat at.reset_at wf)
  ]

  -- The request is counted, in an array that is well formed again.
  pub counted-IsWellFormed :
      (b : Breaker f.F) (bad : Bool) (now : ℕ)
      → IsWellFormed b.stat
      → 0 < now
      → now < half64
      → (la : LeapArray Counter) × (i : ℕ) × (current_counter b.stat now ≡ some (la, some i))
        × IsWellFormed (update la i (record_request bad))
  counted-IsWellFormed b bad now wf positive early =
      let (la, found, refreshed, wf') =
        current_bucket_of_time-IsRefreshed generator b.stat wf now [] positive early in
      let i = now / b.stat.bucket_length % b.stat.sample_count in
      let i_lt : i < la.sample_count =
        rw (refreshed.same_count) (mod-lt (now / b.stat.bucket_length) wf.positive_count) in
      (
        la,
        i,
        counted_eq b.stat now i la found,
        update-IsWellFormed la i (record_request bad) i_lt wf',
      )

  -- On a breaker with a well-formed array `OnRequestComplete` always ends, with no panic, and the
  -- array is well formed again.
  pub on_request_complete-IsWellFormed :
      (b : Breaker f.F) (rt : ℕ) (failed : Bool) (at : Readings)
      → IsWellFormed b.stat
      → 0 < at.current_at
      → at.current_at < half64
      → (b' : Breaker f.F) × (cs : List (Change f.F)) × (on_request_complete f b rt failed at
          ≡ some (b', cs))
        × IsWellFormed b'.stat
  on_request_complete-IsWellFormed b rt failed at wf positive early =
      let bad = is_bad f b.strategy rt failed in
      let (la, i, counted, wf'') = counted-IsWellFormed b bad at.current_at wf positive early in
      let stat = update la i (record_request bad) in
      let sums = sum_from 0 0 (all_counter stat at.all_at) in
      let r = handle_state_change f (record b { stat = stat }) bad sums.0 sums.1 at in
      (
        r.0,
        r.1,
        on_request_complete_lem f b rt failed at ∙ complete_eq b bad at i la counted,
        handled-IsWellFormed (record b { stat = stat }) bad sums.0 sums.1 at wf'',
      )
