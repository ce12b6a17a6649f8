-- ===== src/Breaker/Slot.antt =====
-- core/circuitbreaker/slot.go and core/circuitbreaker/stat_slot.go: the slots that ask the breakers of a
-- resource and tell them how a call ended. The breakers come as a list, which is passed on as they leave it;
-- `clock` gives the clock readings for each by its place.
pub mod Rollback
mod Tests
use gmiter.Prelude.{
  ℕ, suc, Bool, true, false, Option, none, some, List, [], ◌∷◌, ◌++◌, map, if◌then◌else◌,
}
use gmiter.Prelude.Float.{Float64}
use gmiter.Prelude.Strings.{Bytes, is_empty, is_limited}
use gmiter.Chain.TokenResult.{
  TokenResult, new_token_result_blocked_with_cause, reset_to_blocked_with_cause,
}
use gmiter.Breaker.{Base, Change, try_pass, exit_hook}
use gmiter.Breaker.Complete.{Rule, Breaker, Readings, on_request_complete}

-- A breaker with its `BoundRule()`, of which `limit_app` is a field too.
pub record Bound (F : Type 0) : Type 0 where
  pub breaker : Breaker F
  pub rule : Rule F
  pub limit_app : Bytes

abbrev pub with_base : {F : Type 0} → Bound F → Base → Bound F
with_base b base = record b { breaker = record b.breaker { base = base } }

-- The breakers after `checkPass`, the calls of the listeners, whether each breaker hooked the exit of the entry,
-- and the rule of the breaker that refuses.
pub record Checked (F : Type 0) : Type 0 where
  pub bounds : List (Bound F)
  pub changes : List (Change F)
  pub hooks : List Bool
  pub refused : Option (Rule F)

-- `BlockTypeCircuitBreaking`.
abbrev pub block_type_circuit_breaking : ℕ
block_type_circuit_breaking = 3

module _ {F : Type 0} where
  -- One breaker in front of those that the loop still asks.
  abbrev pub in_front : Bound F → List (Change F) → Bool → Checked F → Checked F
  in_front b changes hook rest = record {
    bounds = b ∷ rest.bounds;
    changes = changes ++ rest.changes;
    hooks = hook ∷ rest.hooks;
    refused = rest.refused;
  }

  -- With the answer of `TryPass`: a refusal ends the loop.
  abbrev pub check_after :
      Bound F → List (Bound F) → Checked F → Base × List (Change F) × Bool × Bool → Checked F
  check_after b bs rest (base, changes, true, hook) = in_front (with_base b base) changes hook rest
  check_after b bs rest (base, changes, false, hook) = record {
    bounds = with_base b base ∷ bs;
    changes = changes;
    hooks = hook ∷ map (λ _. false) bs;
    refused = some b.rule;
  }

  module _ (from_service : Bytes) (has_entry : Bool) (clock : ℕ → ℕ) where
    -- The loop of `checkPass` from the breaker in place `i` on.
    unfoldable pub check_pass_from : ℕ → List (Bound F) → Checked F
    check_pass_from i [] = record { bounds = []; changes = []; hooks = []; refused = none }
    check_pass_from i (b ∷ bs) =
        let rest = check_pass_from (suc i) bs in
        if is_limited b.limit_app from_service
        then check_after b bs rest (try_pass b.breaker.base (clock i) has_entry)
        else in_front b [] false rest

    unfoldable pub check_pass : List (Bound F) → Checked F
    check_pass bs = check_pass_from 0 bs

  abbrev pub refuse : Option (TokenResult (Rule F) ℕ) → Bytes → Rule F → TokenResult (Rule F) ℕ
  refuse none msg rule =
      new_token_result_blocked_with_cause block_type_circuit_breaking msg (some rule) none
  refuse (some result) msg rule =
      reset_to_blocked_with_cause result block_type_circuit_breaking msg (some rule) none

  -- `Check`, once the breakers have answered; `result` is that of the context.
  unfoldable pub check :
      (msg resource : Bytes)
      → Checked F
      → Option (TokenResult (Rule F) ℕ)
      → Option (TokenResult (Rule F) ℕ)
  check msg resource checked result =
      if is_empty resource
      then result
      else elim checked.refused [ none ↦ result | some rule ↦ some (refuse result msg rule) ]

  -- The hooks at the exit of the entry.
  unfoldable pub run_hooks : F → (blocked : Bool) → List Bool → List (Bound F) → List (Bound F)
  run_hooks one blocked [] bs = bs
  run_hooks one blocked (hook ∷ hooks) [] = []
  run_hooks one blocked (hook ∷ hooks) (b ∷ bs) =
      let rest = run_hooks one blocked hooks bs in
      if hook then with_base b (exit_hook one b.breaker.base blocked).0 ∷ rest else b ∷ rest

-- The loop of `OnCompleted`: every breaker is told, whatever its rule says of the calling service. `none`
-- is a panic or a spin that goes on.
unfoldable pub complete_from :
    (f : Float64)
    → (rt : ℕ) → Bool
    → (ℕ → Readings)
    → ℕ
    → List (Bound f.F)
    → Option (List (Bound f.F) × List (Change f.F))
complete_from f rt has_error readings i [] = some ([], [])
complete_from f rt has_error readings i (b ∷ bs) =
    let rest = complete_from f rt has_error readings (suc i) bs in
    elim (on_request_complete f b.breaker rt has_error (readings i)) [
      | none ↦ none
      | some (breaker, changes) ↦ elim rest [
        | none ↦ none
        | some (bs', changes') ↦ some (record b { breaker = breaker } ∷ bs', changes ++ changes')
      ]
    ]

unfoldable pub on_completed :
    (f : Float64)
    → (rt : ℕ) → Bool
    → (ℕ → Readings)
    → List (Bound f.F)
    → Option (List (Bound f.F) × List (Change f.F))
on_completed f rt has_error readings bs = complete_from f rt has_error readings 0 bs
