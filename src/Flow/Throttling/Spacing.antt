-- ===== src/Flow/Throttling/Spacing.antt =====
-- The times at which requests go on that core/flow/tc_throttling.go checks.
use gmiter.Prelude.{
  ℕ, ◌+◌, ◌-◌, ◌^◌, ◌≤◌, ◌<◌, ◌≡◌, refl, sym, ap, ◌∙◌, inl, inr, true, false, Option, none, some,
  List, [], ◌∷◌, leb, add64, sub64, slt64, arith, Bool-cases,
}
use gmiter.Prelude.Float.{Float64}
use gmiter.Chain.TokenResult.{
  TokenResult, GoString, pass, blocked, should_wait, new_token_result_with,
  new_token_result_blocked_with_cause, new_token_result_should_wait,
}
use mathlib.Core.Path.{subst}
use gmiter.Flow.Throttling.{
  ThrottlingChecker, Message, interval_ns, block_with, queue, check_interval, do_check,
}

-- When a request with the result goes on: at once, after its wait, or not at all.
unfoldable pub release : {R V : Type 0} → (now : ℕ) → Option (TokenResult R V) → Option ℕ
release now none = some now
release now (some r) = elim r.status [
  | pass ↦ some now
  | blocked ↦ none
  | should_wait ↦ some (now + r.nanos_to_wait)
]

-- What a check makes of the time that the last request was released at: a request goes on an interval
-- after it or later, and no later than the longest wait from now; else the time stays and that wait is too
-- short.
abbrev pub Checked : (last last' now interval longest : ℕ) → Option ℕ → Type 0
Checked last last' now interval longest (some t) =
    (t ≡ last') × (now ≤ t) × (last + interval ≤ t) × (t ≤ now + longest)
Checked last last' now interval longest none = (last' ≡ last) × (now + longest < last + interval)

module _ {R : Type 0} (V : Type 0) (text : Message → GoString) (rule : Option R) where
  module _ (c : ThrottlingChecker) (now interval : ℕ) (small_last : c.last_passed_time < 2 ^ 62)
      (small_now : now < 2 ^ 61) (small_interval : interval < 2 ^ 61)
      (small_wait : c.max_queueing_time_ns < 2 ^ 61) where
    queue_lem :
        now < c.last_passed_time + interval
        → Checked c.last_passed_time
            (queue {V = V} text rule c now interval).0.last_passed_time
            now
            interval
            c.max_queueing_time_ns
            (release now (queue {V = V} text rule c now interval).1)
    unfolding queue release block_with new_token_result_blocked_with_cause
        new_token_result_should_wait new_token_result_with
    queue_lem h =
        let old : add64 c.last_passed_time interval ≡ c.last_passed_time + interval = omega arith in
        let wait : sub64 (c.last_passed_time + interval) now ≡ c.last_passed_time + interval - now =
          omega arith in
        let positive : slt64 0 (c.last_passed_time + interval - now) ≡ true = ground arith in
        elim (Bool-cases (slt64 c.max_queueing_time_ns (c.last_passed_time + interval - now))) [
          | inl long ↦ rw (old, wait, long) (refl, ground arith)
          | inr short ↦
              let enough : c.last_passed_time + interval - now ≤ c.max_queueing_time_ns =
                ground arith in
              rw (old, wait, short, positive) (omega arith, omega arith, omega arith, omega arith)
        ]

    check_interval_lem :
        c.last_system_time ≤ now + 1000000000
        → Checked c.last_passed_time
            (check_interval {V = V} text rule c now interval).0.last_passed_time
            now
            interval
            c.max_queueing_time_ns
            (release now (check_interval {V = V} text rule c now interval).1)
    unfolding check_interval release
    check_interval_lem h =
        let forward : slt64 (add64 now 1000000000) c.last_system_time ≡ false = ground arith in
        let sum : add64 c.last_passed_time interval ≡ c.last_passed_time + interval = omega arith in
        elim (Bool-cases (slt64 now (c.last_passed_time + interval))) [
          | inl early ↦ rw (forward, sum, early) (queue_lem (ground arith))
          | inr free ↦
              let passed : c.last_passed_time + interval ≤ now = ground arith in
              rw (forward, sum, free) (refl, omega arith, passed, omega arith)
        ]

  check_interval-keeps :
      (c : ThrottlingChecker) (now interval : ℕ)
      → ((check_interval {V = V} text rule c now interval).0.max_queueing_time_ns
          ≡ c.max_queueing_time_ns)
        × ((check_interval {V = V} text rule c now interval).0.stat_interval_ns
            ≡ c.stat_interval_ns)
  unfolding check_interval queue
  check_interval-keeps c now interval = ground arith

-- The times that requests are released at, each of which reads the clock at `now` in the check and at `later`
-- in the deferred function.
module _ {R : Type 0} (V : Type 0) (text : Message → GoString) (rule : Option R) (f : Float64)
    (batch : ℕ) (threshold : f.F) where
  abbrev pub put_in_front : Option ℕ → List ℕ → List ℕ
  put_in_front none ts = ts
  put_in_front (some t) ts = t ∷ ts

  abbrev pub releases : ThrottlingChecker → List (ℕ × ℕ) → List ℕ
  releases c [] = []
  releases c ((now, later) ∷ readings) =
      let (c', r) = do_check {V = V} text rule f c batch threshold now later in
      put_in_front (release now r) (releases c' readings)

-- A clock that does not go back, below 2 ^ 61.
abbrev pub Ascending : ℕ → List (ℕ × ℕ) → Type 0
Ascending n [] = Unit
Ascending n ((now, later) ∷ readings) =
    (n ≤ now) × (now ≤ later) × (later < 2 ^ 61) × Ascending later readings

-- Each at least an interval behind the one before it.
abbrev pub Spaced : (interval last : ℕ) → List ℕ → Type 0
Spaced interval last [] = Unit
Spaced interval last (t ∷ ts) = (last + interval ≤ t) × Spaced interval t ts

module _ {R : Type 0} (V : Type 0) (text : Message → GoString) (rule : Option R) (f : Float64)
    (batch : ℕ) (threshold : f.F) where
  put_in_front-Spaced :
      (o : Option ℕ) (last last' now interval longest : ℕ) (ts : List ℕ)
      → Checked last last' now interval longest o
      → Spaced interval last' ts
      → Spaced interval last (put_in_front V text rule f batch threshold o ts)
  put_in_front-Spaced none last last' now interval longest ts h s =
      subst (λ l. Spaced interval l ts) h.0 s
  put_in_front-Spaced (some t) last last' now interval longest ts h s =
      (h.2, subst (λ l. Spaced interval l ts) (sym h.0) s)

  -- The time of the last release is never further ahead of the clock than the longest wait.
  last_lem :
      (o : Option ℕ) (last last' start now interval longest : ℕ)
      → Checked last last' now interval longest o
      → start ≤ now
      → last ≤ start + longest
      → last' ≤ now + longest
  last_lem none last last' start now interval longest h s b = omega (arith, h.0)
  last_lem (some t) last last' start now interval longest h s b = omega (arith, h.0, h.3)

  do_check_eq :
      (c : ThrottlingChecker) (now later : ℕ)
      → 0 < batch
      → f.le threshold (f.of_uint64 0) ≡ false
      → do_check {V = V} text rule f c batch threshold now later ≡ (
        record (check_interval {V = V} text rule c now (interval_ns f c batch threshold)).0 {
          last_system_time = later;
        },
        (check_interval {V = V} text rule c now (interval_ns f c batch threshold)).1,
      )
  unfolding do_check
  do_check_eq c now later some_batch positive =
      let counts : leb batch 0 ≡ false = ground arith in rw (counts, positive) refl

  -- Each call reads the clock twice, and no reading is before an earlier one. The requests that are let
  -- through are released at least the interval apart, the first one an interval after the last release before,
  -- whatever the checker refuses in between. The batch and the threshold are positive; the interval, the longest
  -- wait and the readings are below 2 ^ 61 ns; and at the start the last release is no more than the longest
  -- wait ahead of the clock, and the last reading not ahead of it, as on a new checker.
  pub releases-Spaced :
      (readings : List (ℕ × ℕ)) (c : ThrottlingChecker) (start interval : ℕ)
      → 0 < batch
      → f.le threshold (f.of_uint64 0) ≡ false
      → interval_ns f c batch threshold ≡ interval
      → interval < 2 ^ 61
      → c.max_queueing_time_ns < 2 ^ 61
      → c.last_passed_time ≤ start + c.max_queueing_time_ns
      → c.last_system_time ≤ start
      → Ascending start readings
      → Spaced interval c.last_passed_time (releases V text rule f batch threshold c readings)
  unfolding interval_ns
  releases-Spaced [] c start interval some_batch positive same si sm last sys clock = tt
  releases-Spaced ((now, later) ∷ readings) c start interval some_batch positive same si sm last sys
        clock =
      let checked =
        check_interval_lem V text rule c now interval (omega (arith, clock.0, clock.1, clock.2))
          (omega (arith, clock.1, clock.2)) si sm (omega (arith, clock.0)) in
      let (kept, kept') = check_interval-keeps V text rule c now interval in
      let c' : ThrottlingChecker = record (check_interval {V = V} text rule c now interval).0 {
        last_system_time = later;
      } in
      let rest : Spaced interval c'.last_passed_time
          (releases V text rule f batch threshold c' readings) =
        releases-Spaced readings c' later interval some_batch positive
          (ap
              (λ s.
                f.to_int64 (f.ceil (f.mul (f.div (f.of_uint64 batch) threshold) (f.of_int64 s))))
              kept'
            ∙ same)
          si (omega (arith, kept))
          (omega (arith, kept, last_lem _ _ _ start now interval _ checked clock.0 last, clock.1))
          (omega arith) clock.3 in
      rw (do_check_eq c now later some_batch positive, same)
        (put_in_front-Spaced _ _ _ now interval c.max_queueing_time_ns _ checked rest)
