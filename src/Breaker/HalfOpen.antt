-- ===== src/Breaker/HalfOpen.antt =====
-- The half-open state of core/circuitbreaker/circuit_breaker.go, from its first probe to its last.
use gmiter.Prelude.{
  ℕ, suc, ◌+◌, ◌<◌, ◌≡◌, refl, ap, ◌∙◌, Bool, false, Option, some, List, [], ◌∷◌, ◌++◌, mod64,
  half64, add64, arith, leb, ◌==◌, if◌then◌else◌, not, ◌&&◌, ltb,
}
use gmiter.Prelude.Float.{Float64}
use gmiter.Breaker.{
  State, closed, half_open, open_, from_half_open_to_open, from_half_open_to_closed, try_pass,
  add_cur_probe_num, is_closed, is_open, is_half_open,
}
use gmiter.Breaker.Complete.{Breaker, Readings, Strategy, on_request_complete, complete_half_open}
use gmiter.Breaker.Counters.{Counter, update, record_request, all_counter, sum_from}
use gmiter.Breaker.Transitions.{
  Call, request, completed, left, call, Changes, handle_half_open, is_bad, on_request_complete_lem,
}
use gmiter.Breaker.Traces.{run, admitted}
use gmiter.Breaker.Totality.{counted-IsWellFormed, complete_eq}
use gmiter.Stat.LeapArray.{LeapArray}
use gmiter.Stat.LeapArray.WellFormed.{IsWellFormed}
use mathlib.Core.Path.{subst}

module _ (f : Float64) where
  abbrev pub IsTime : Readings → Type 0
  IsTime at = (0 < at.current_at) × (at.current_at < half64)

  -- Requests, and completed requests that are good; no entry leaves blocked.
  abbrev pub AllGood : Strategy f.F → List Call → Type 0
  AllGood strategy [] = Unit
  AllGood strategy (request now has_entry ∷ calls) = AllGood strategy calls
  AllGood strategy (completed rt failed at ∷ calls) =
      (is_bad f strategy rt failed ≡ false) × IsTime at × AllGood strategy calls
  AllGood strategy (left blocked ∷ calls) = ⊥

  -- How many requests are completed.
  abbrev pub completions : List Call → ℕ
  completions [] = 0
  completions (completed rt failed at ∷ calls) = suc (completions calls)
  completions (_ ∷ calls) = completions calls

  -- The breaker is half-open, with `n` probes that succeeded of the `probes` that it needs.
  pub record IsProbing (strategy : Strategy f.F) (probes n : ℕ) (b : Breaker f.F) : Type 0 where
    pub probing : b.base.state ≡ half_open
    pub same_strategy : b.strategy ≡ strategy
    pub needs : b.base.probe_number ≡ probes
    pub succeeded : b.base.cur_probe_number ≡ n
    pub well_formed : IsWellFormed b.stat

  -- A completed request is counted and then handled.
  completed_eq :
      (b : Breaker f.F) (rt : ℕ) (failed : Bool) (at : Readings)
      → b.base.state ≡ half_open
      → IsWellFormed b.stat
      → IsTime at
      → (stat : LeapArray Counter) × IsWellFormed stat
        × (on_request_complete f b rt failed at
            ≡ some (
                complete_half_open f (record b { stat = stat }) (is_bad f b.strategy rt failed) at))
  completed_eq b rt failed at probing wf (late, early) =
      let bad = is_bad f b.strategy rt failed in
      let (la, i, counted, wf') = counted-IsWellFormed f b bad at.current_at wf late early in
      let stat = update la i (record_request bad) in
      let sums = sum_from 0 0 (all_counter stat at.all_at) in
      (
        stat,
        wf',
        on_request_complete_lem f b rt failed at
            ∙ complete_eq f b bad at i la counted
            ∙ ap some (handle_half_open f (record b { stat = stat }) bad sums.0 sums.1 at probing),
      )

  -- The state that the last probe leaves.
  abbrev pub verdict : (bad : Bool) (probes succeeded : ℕ) → State
  verdict bad probes succeeded =
      if bad then open_ else if leb probes succeeded then closed else half_open

  abbrev pub left_over : (bad : Bool) (probes succeeded : ℕ) → ℕ
  left_over bad probes succeeded = if bad then 0 else if leb probes succeeded then 0 else succeeded

  complete_half_open_lem :
      (b : Breaker f.F) (bad : Bool) (at : Readings) (strategy : Strategy f.F) (probes n : ℕ)
      → IsProbing strategy probes n b
      → n < probes
      → probes < mod64
      → ((complete_half_open f b bad at).0.base.state ≡ verdict bad probes (suc n))
        × ((complete_half_open f b bad at).0.base.cur_probe_number ≡ left_over bad probes (suc n))
  unfolding complete_half_open from_half_open_to_open from_half_open_to_closed add_cur_probe_num
  complete_half_open_lem b bad at strategy probes n h more small = (
    ground (arith, h.probing, h.needs, h.succeeded),
    ground (arith, h.probing, h.needs, h.succeeded),
  )

  -- A good one that is not the last.
  more_probes :
      (b : Breaker f.F) (at : Readings) (strategy : Strategy f.F) (probes n : ℕ)
      → IsProbing strategy probes n b
      → suc n < probes
      → probes < mod64
      → (b' : Breaker f.F) × (complete_half_open f b false at ≡ (b', []))
        × IsProbing strategy probes (suc n) b'
  unfolding complete_half_open add_cur_probe_num
  more_probes b at strategy probes n h more small =
      let none_needed : (b.base.probe_number == 0) ≡ false = ground (arith, h.needs) in
      let too_few : leb b.base.probe_number (add64 b.base.cur_probe_number 1) ≡ false =
        ground (arith, h.needs, h.succeeded) in
      (
        record b { base = record b.base { cur_probe_number = add64 b.base.cur_probe_number 1 } },
        rw (none_needed, too_few) refl,
        record {
          probing = h.probing;
          same_strategy = h.same_strategy;
          needs = h.needs;
          succeeded = ground (arith, h.succeeded);
          well_formed = h.well_formed;
        },
      )

  request_eq :
      (b : Breaker f.F) (now : ℕ) (has_entry : Bool)
      → b.base.state ≡ half_open
      → (refused : Bool) × (call f b (request now has_entry) ≡ some (b, [], refused))
  unfolding call try_pass
  request_eq b now has_entry probing =
      let not_closed : is_closed b.base.state ≡ false = rw probing refl in
      let not_open : is_open b.base.state ≡ false = rw probing refl in
      (not (is_half_open b.base.state && ltb 0 b.base.probe_number), rw (not_closed, not_open) refl)

  -- How a run ends, with `succeeded` probes counting the last one.
  abbrev pub Ends :
      (bad : Bool) (probes succeeded : ℕ) → Option (Breaker f.F × Changes f × ℕ) → Type 0
  Ends bad probes succeeded o =
      (b' : Breaker f.F) × (cs : Changes f) × (passed : ℕ) × (o ≡ some (b', cs, passed))
      × (b'.base.state ≡ verdict bad probes succeeded)
      × (b'.base.cur_probe_number ≡ left_over bad probes succeeded)

  -- One call in front, which leaves the breaker as `b'`.
  Ends-cons :
      (b b' : Breaker f.F) (c : Call) (cs : Changes f) (refused : Bool) (calls : List Call)
      (bad : Bool) (probes succeeded : ℕ)
      → call f b c ≡ some (b', cs, refused)
      → Ends bad probes succeeded (run f b' calls)
      → Ends bad probes succeeded (run f b (c ∷ calls))
  unfolding run
  Ends-cons b b' c cs refused calls bad probes succeeded e (b'', cs', passed, e', s, l) =
      (b'', cs ++ cs', admitted f c refused + passed, rw (e, run) (rw (e', run) refl), s, l)

  completed_call :
      (b b' : Breaker f.F) (rt : ℕ) (failed : Bool) (at : Readings) (cs : Changes f)
      → on_request_complete f b rt failed at ≡ some (b', cs)
      → call f b (completed rt failed at) ≡ some (b', cs, false)
  unfolding call
  completed_call b b' rt failed at cs e = rw (e, call) refl

  module _ (strategy : Strategy f.F) (probes : ℕ) (small : probes < mod64) where
    run-Ends :
        (calls : List Call) (rt : ℕ) (failed : Bool) (at : Readings) (b : Breaker f.F) (n total : ℕ)
        → IsProbing strategy probes n b
        → AllGood strategy calls
        → IsTime at
        → n + completions calls ≡ total
        → total < probes
        → Ends
            (is_bad f strategy rt failed)
            probes
            (suc total)
            (run f b (calls ++ completed rt failed at ∷ []))
    unfolding run
    run-Ends [] rt failed at b n total h good time same more =
        let (stat, wf, e) = completed_eq b rt failed at h.probing h.well_formed time in
        let (s, l) =
          complete_half_open_lem (record b { stat = stat }) (is_bad f b.strategy rt failed) at
            strategy probes n
            (record {
              probing = h.probing;
              same_strategy = h.same_strategy;
              needs = h.needs;
              succeeded = h.succeeded;
              well_formed = wf;
            })
            (omega (arith, same, more)) small in
        let r =
          complete_half_open f (record b { stat = stat }) (is_bad f b.strategy rt failed) at in
        let same_n : n ≡ total = omega (arith, same) in
        let same_bad : is_bad f b.strategy rt failed ≡ is_bad f strategy rt failed =
          ap (λ s. is_bad f s rt failed) h.same_strategy in
        Ends-cons b r.0 (completed rt failed at) r.1 false [] (is_bad f strategy rt failed) probes
          (suc total) (completed_call b r.0 rt failed at r.1 e)
          (
            r.0,
            [],
            0,
            refl,
            subst (λ x. r.0.base.state ≡ verdict x probes (suc total)) same_bad
                (subst
                  (λ x. r.0.base.state ≡ verdict (is_bad f b.strategy rt failed) probes (suc x))
                  same_n s),
            subst (λ x. r.0.base.cur_probe_number ≡ left_over x probes (suc total)) same_bad
                (subst
                  (λ x.
                    r.0.base.cur_probe_number
                    ≡ left_over (is_bad f b.strategy rt failed) probes (suc x))
                  same_n l),
          )
    run-Ends (request now has_entry ∷ calls) rt failed at b n total h good time same more =
        let (refused, e) = request_eq b now has_entry h.probing in
        Ends-cons b b (request now has_entry) [] refused _ _ probes (suc total) e
          (run-Ends calls rt failed at b n total h good time same more)
    run-Ends (completed rt' failed' at' ∷ calls) rt failed at b n total h (good, time', goods) time
          same more =
        let (stat, wf, e) = completed_eq b rt' failed' at' h.probing h.well_formed time' in
        let good' : is_bad f b.strategy rt' failed' ≡ false =
          ap (λ s. is_bad f s rt' failed') h.same_strategy ∙ good in
        let (b', e', h') =
          more_probes (record b { stat = stat }) at' strategy probes n
            (record {
              probing = h.probing;
              same_strategy = h.same_strategy;
              needs = h.needs;
              succeeded = h.succeeded;
              well_formed = wf;
            })
            (omega (arith, same, more)) small in
        let e'' : on_request_complete f b rt' failed' at' ≡ some (b', []) =
          e
          ∙ ap (λ x. some (complete_half_open f (record b { stat = stat }) x at')) good'
          ∙ ap some e' in
        Ends-cons b b' (completed rt' failed' at') [] false _ _ probes (suc total)
          (completed_call b b' rt' failed' at' [] e'')
          (run-Ends calls rt failed at b' (suc n) total h' goods time (omega (arith, same)) more)
    run-Ends (left blocked ∷ calls) rt failed at b n total h good time same more = absurd good

    -- The whole of a half-open phase on a breaker with a well-formed array, from `n` probes that succeeded on:
    -- requests come and completed requests are good, in any order, as long as the probes are fewer than the
    -- number needed, and then one more request is completed. No call panics. A bad one opens the breaker again and
    -- clears the number; a good one closes it and clears the number exactly if the probes are now as many as
    -- needed, and else the breaker stays half-open and has counted every one. No entry leaves blocked, and the
    -- clock reads between 0 and 2 ^ 63 where a request is counted.
    pub run-probes :
        (calls : List Call) (rt : ℕ) (failed : Bool) (at : Readings) (b : Breaker f.F) (n : ℕ)
        → IsProbing strategy probes n b
        → AllGood strategy calls
        → IsTime at
        → n + completions calls < probes
        → Ends
            (is_bad f strategy rt failed)
            probes
            (suc (n + completions calls))
            (run f b (calls ++ completed rt failed at ∷ []))
    run-probes calls rt failed at b n h good time more =
        run-Ends calls rt failed at b n (n + completions calls) h good time refl more
