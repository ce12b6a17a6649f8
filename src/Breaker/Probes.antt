-- ===== src/Breaker/Probes.antt =====
-- The half-open state of core/circuitbreaker/circuit_breaker.go.
use gmiter.Prelude.{ℕ, ◌≤◌, ◌≡◌, refl, Bool, true, some, [], ◌∷◌, arith}
use gmiter.Prelude.Float.{Float64}
use gmiter.Breaker.{
  half_open, open_, transform_to_open, ratio, transform_to_half_open, try_pass, exit_hook,
}
use gmiter.Breaker.Complete.{Breaker}
use gmiter.Breaker.Transitions.{request, left, call, Changes}
use gmiter.Breaker.Traces.{run}

module _ (f : Float64) (b : Breaker f.F) (probing : b.base.state ≡ half_open) where
  -- When the entry of a probe leaves blocked, the breaker opens with its old retry time and its old
  -- count of probes: the next request is let through as a probe at once, and the probes that succeeded
  -- before the rollback still count.
  pub rollback_keeps_probes :
      (now : ℕ) (has_entry : Bool)
      → b.base.next_retry_timestamp_ms ≤ now
      → (b' : Breaker f.F) × (cs : Changes f) × (run f b (left true ∷ request now has_entry ∷ [])
          ≡ some (b', cs, 1))
        × (b'.base.state ≡ half_open)
        × (b'.base.cur_probe_number ≡ b.base.cur_probe_number)
  unfolding run call try_pass exit_hook
  rollback_keeps_probes now has_entry h = (
    record b { base = record b.base { state = half_open } },
    transform_to_open half_open (ratio (f.of_uint64 1)) ∷ transform_to_half_open open_ ∷ [],
    ground arith,
    refl,
    refl,
  )
