-- ===== src/Hotspot/Slot.antt =====
-- core/hotspot/slot.go and core/hotspot/concurrency_stat_slot.go: the slots that ask the controllers of a
-- resource and count its calls.
-- The controllers come as a list, which is passed on as they leave it; `clock` gives the clock readings for
-- each by its place. The answer of `ExtractArgs` for a call is a parameter, `extract`: outer none is its
-- panic.
use gmiter.Prelude.{
  ℕ, suc, Bool, not, ◌&&◌, ◌||◌, Option, none, some, List, [], ◌∷◌, ◌++◌, ltb, ◌==◌, if◌then◌else◌,
  ◌-◌, add64, slt64, mod64, half32,
}
use gmiter.Prelude.Float.{Float64}
use gmiter.Prelude.Strings.{Bytes, is_empty, is_limited}
use gmiter.Chain.TokenResult.{TokenResult, GoString, blocked, should_wait}
use gmiter.Hotspot.Lru
use gmiter.Hotspot.Lru.{Lru}
use gmiter.Hotspot.Rule.{Rule, ClusterConfig, concurrency, qps, threshold_global}
use gmiter.Hotspot.Controller.{Controller, Message, Outcome, returned, panicked, spinning, store}
use gmiter.Hotspot.TrafficShaping.{reject_perform_checking, throttling_perform_checking}

-- A `TrafficShapingController` of either kind.
pub data Shaping (K F : Type 0) : Type 0 where
  rejecting : Controller K F → Shaping K F
  throttling_ : Controller K F → Shaping K F

abbrev pub controller : {K F : Type 0} → Shaping K F → Controller K F
controller (rejecting c) = c
controller (throttling_ c) = c

abbrev pub with_controller : {K F : Type 0} → Shaping K F → Controller K F → Shaping K F
with_controller (rejecting _) c = rejecting c
with_controller (throttling_ _) c = throttling_ c

-- What the loop over the controllers gives: the call goes on, is refused, or never comes back.
pub data Verdict (R V : Type 0) : Type 0 where
  goes_on : Verdict R V
  refused : TokenResult R V → Verdict R V
  failed : Verdict R V
  stuck : Verdict R V

module _ {K : Type 0} (dec : Discrete K) (f : Float64) {V : Type 0} (text : Message → K → GoString)
    (int64_value : ℕ → V) where
  unfoldable pub perform_checking :
      Shaping K f.F → K → (batch : ℕ) → List ℕ → Shaping K f.F × Outcome (Rule K f.F) V
  perform_checking (rejecting c) arg batch nows =
      let (c', o) = reject_perform_checking dec f text int64_value c arg batch nows in
      (rejecting c', o)
  perform_checking (throttling_ c) arg batch [] = (throttling_ c, spinning)
  perform_checking (throttling_ c) arg batch (now ∷ nows) =
      let (c', o) = throttling_perform_checking dec f text int64_value c arg batch now in
      (throttling_ c', o)

  -- `fallbackToLocalOrPass`; a nil configuration would have panicked before.
  unfoldable pub fallback_to_local_or_pass :
      ClusterConfig f.F
      → Shaping K f.F
      → K
      → (batch : ℕ) → List ℕ
      → Shaping K f.F × Outcome (Rule K f.F) V
  fallback_to_local_or_pass config tc arg batch nows =
      if config.fallback_to_local_when_fail
      then perform_checking tc arg batch nows
      else (tc, returned none)

  -- A port, an int32, is positive.
  abbrev pub is_port : ℕ → Bool
  is_port port = ltb 0 port && ltb port half32

  unfoldable pub can_pass_cluster_check :
      ClusterConfig f.F
      → Shaping K f.F
      → K
      → (batch : ℕ) → List ℕ
      → Shaping K f.F × Outcome (Rule K f.F) V
  can_pass_cluster_check config tc arg batch nows =
      if is_empty config.token_server_master_host || not (is_port config.token_server_master_port)
      then fallback_to_local_or_pass config tc arg batch nows
      else (tc, returned none)

  unfoldable pub can_pass_check :
      Shaping K f.F → K → (batch : ℕ) → List ℕ → Shaping K f.F × Outcome (Rule K f.F) V
  can_pass_check tc arg batch nows =
      let rule = (controller tc).r in
      if (rule.metric_type == qps) && rule.cluster_mode
      then elim rule.cluster_config [
        | none ↦ perform_checking tc arg batch nows
        | some config ↦
            if config.cluster_strategy == threshold_global
            then can_pass_cluster_check config tc arg batch nows
            else perform_checking tc arg batch nows
      ]
      else perform_checking tc arg batch nows

  -- The wait that a result asks for.
  abbrev pub waits : TokenResult (Rule K f.F) V → List ℕ
  waits r = elim r.status [
    | should_wait ↦ if slt64 0 r.nanos_to_wait then r.nanos_to_wait ∷ [] else []
    | _ ↦ []
  ]

  -- Whether a result ends the loop, and the wait before the next controller.
  unfoldable pub verdict : Outcome (Rule K f.F) V → Verdict (Rule K f.F) V × List ℕ
  verdict (returned none) = (goes_on, [])
  verdict (returned (some r)) = elim r.status [ blocked ↦ (refused r, []) | _ ↦ (goes_on, waits r) ]
  verdict panicked = (failed, [])
  verdict spinning = (stuck, [])

  module _ (extract : Controller K f.F → Option (Option K)) (from_service : Bytes) (batch : ℕ)
      (clock : ℕ → List ℕ) where
    -- One controller: skipped if it finds no value or does not limit the calling service.
    unfoldable pub check_one : ℕ → Shaping K f.F → Shaping K f.F × Verdict (Rule K f.F) V × List ℕ
    check_one i tc = elim (extract (controller tc)) [
      | none ↦ (tc, failed, [])
      | some none ↦ (tc, goes_on, [])
      | some (some arg) ↦
          if is_limited (controller tc).r.limit_app from_service
          then (let (tc', o) = can_pass_check tc arg batch (clock i) in
              let (v, sleeps) = verdict o in (tc', v, sleeps))
          else (tc, goes_on, [])
    ]

    -- The loop of `Check`, from the controller in place `i` on: the controllers, how it ends, and the
    -- sleeps, in order.
    unfoldable pub check_from :
        ℕ → List (Shaping K f.F) → List (Shaping K f.F) × Verdict (Rule K f.F) V × List ℕ
    check_from i [] = ([], goes_on, [])
    check_from i (tc ∷ tcs) =
        let (tc', v, sleeps) = check_one i tc in
        let (tcs', v', sleeps') = check_from (suc i) tcs in
        elim v [
          | goes_on ↦ (tc' ∷ tcs', v', sleeps ++ sleeps')
          | other ↦ (tc' ∷ tcs, other, sleeps)
        ]

    -- `Check`: the result that the context has, or the refusal of a controller.
    unfoldable pub check :
        Option (TokenResult (Rule K f.F) V)
        → List (Shaping K f.F)
        → List (Shaping K f.F) × Outcome (Rule K f.F) V × List ℕ
    check result tcs =
        let (tcs', v, sleeps) = check_from 0 tcs in
        elim v [
          | goes_on ↦ (tcs', returned result, sleeps)
          | refused r ↦ (tcs', returned (some r), sleeps)
          | failed ↦ (tcs', panicked, sleeps)
          | stuck ↦ (tcs', spinning, sleeps)
        ]

  -- `AddInt64` on the count of the value, if the cache has it: once it has answered, and from the start.
  unfoldable pub bump_from : (by : ℕ) → K → Lru K ℕ × Option ℕ → Lru K ℕ
  bump_from by arg (counter, none) = counter
  bump_from by arg (counter, some n) = store dec counter arg (add64 n by)

  unfoldable pub bump : (by : ℕ) → Lru K ℕ → K → Lru K ℕ
  bump by counter arg = bump_from by arg (Lru.get dec counter arg)

  module _ (extract : Controller K f.F → Option (Option K)) where
    -- The body of the loops of `ConcurrencyStatSlot`; a controller of another metric is skipped. `none`
    -- is a panic.
    unfoldable pub count_one : (by : ℕ) → Controller K f.F → Option (Controller K f.F)
    count_one by c = if not (c.r.metric_type == concurrency) then some c else elim (extract c) [
      | none ↦ none
      | some none ↦ some c
      | some (some arg) ↦ elim c.metric [
        | none ↦ none
        | some m ↦ elim m.concurrent_counter [
          | none ↦ none
          | some counter ↦ some (record c {
            metric = some (record m { concurrent_counter = some (bump by counter arg) });
          })
        ]
      ]
    ]

    unfoldable pub count_all : (by : ℕ) → List (Shaping K f.F) → Option (List (Shaping K f.F))
    count_all by [] = some []
    count_all by (tc ∷ tcs) = elim (count_one by (controller tc)) [
      | none ↦ none
      | some c ↦ elim (count_all by tcs) [
        | none ↦ none
        | some tcs' ↦ some (with_controller tc c ∷ tcs')
      ]
    ]

    unfoldable pub on_entry_passed : List (Shaping K f.F) → Option (List (Shaping K f.F))
    on_entry_passed tcs = count_all 1 tcs

    -- It adds -1.
    unfoldable pub on_completed : List (Shaping K f.F) → Option (List (Shaping K f.F))
    on_completed tcs = count_all (mod64 - 1) tcs
