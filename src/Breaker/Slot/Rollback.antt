-- ===== src/Breaker/Slot/Rollback.antt =====
-- core/circuitbreaker/slot.go with the hooks that the breakers put on the entry.
use gmiter.Prelude.{
  ℕ, suc, ltb, ◌≡◌, refl, ap, ◌⊎◌, Bool, true, false, some, List, [], ◌∷◌, map, Bool-cases, inl,
  inr, ◌&&◌,
}
use gmiter.Prelude.Strings.{Bytes, is_limited}
use gmiter.Breaker.{
  Base, State, transform_to_half_open, closed, half_open, open_, is_closed, is_open, is_half_open,
  retry_timeout_arrived, try_pass, exit_hook, from_open_to_half_open,
}
use gmiter.Breaker.Complete.{Rule}
use gmiter.Breaker.Slot.{Bound, Checked, in_front, check_pass_from, check_pass, run_hooks}

open_of : (s : State) → is_open s ≡ true → s ≡ open_
open_of closed e = absurd cc
open_of half_open e = absurd cc
open_of open_ e = refl

and_left : (a b : Bool) → (a && b) ≡ true → a ≡ true
and_left true b e = refl
and_left false b e = e

module _ {F : Type 0} (one : F) where
  abbrev pub states : List (Bound F) → List State
  states bs = map (λ b. b.breaker.base.state) bs

  -- A request changes nothing, or it takes an open breaker to the half-open state with a hook.
  try_pass-cases :
      (b : Base) (now : ℕ)
      → ((passed : Bool) × (try_pass {F = F} b now true ≡ (b, [], passed, false)))
        ⊎ (b.state ≡ open_)
          × (try_pass {F = F} b now true
              ≡ (record b { state = half_open }, transform_to_half_open open_ ∷ [], true, true))
  unfolding try_pass from_open_to_half_open
  try_pass-cases b now = elim (Bool-cases (is_closed b.state)) [
    | inl now_closed ↦ inl (true, rw now_closed refl)
    | inr not_closed ↦ elim (Bool-cases (is_open b.state && retry_timeout_arrived b now)) [
      | inr stays ↦ inl (is_half_open b.state && ltb 0 b.probe_number, rw (not_closed, stays) refl)
      | inl probes ↦
          let now_open : is_open b.state ≡ true = and_left _ _ probes in
          inr (open_of b.state now_open, rw (not_closed, probes, now_open) refl)
    ]
  ]

  run_hooks-none : (bs : List (Bound F)) → run_hooks one true (map (λ _. false) bs) bs ≡ bs
  unfolding run_hooks
  run_hooks-none [] = refl
  run_hooks-none (b ∷ bs) = ap (λ x. b ∷ x) (run_hooks-none bs)

  module _ (from_service : Bytes) (clock : ℕ → ℕ) where
    abbrev IsRolledBack : List (Bound F) → Checked F → Type 0
    IsRolledBack bs c =
        (r : Rule F) → c.refused ≡ some r → states (run_hooks one true c.hooks c.bounds) ≡ states bs

    -- A breaker that the loop does not change, in front.
    kept-IsRolledBack :
        (b : Bound F) (bs : List (Bound F)) (c : Checked F)
        → IsRolledBack bs c
        → IsRolledBack (b ∷ bs) (in_front b [] false c)
    unfolding run_hooks
    kept-IsRolledBack b bs c h r e = ap (λ x. b.breaker.base.state ∷ x) (h r e)

    check_pass_from-IsRolledBack :
        (bs : List (Bound F)) (i : ℕ)
        → IsRolledBack bs (check_pass_from from_service true clock i bs)
    unfolding check_pass_from run_hooks exit_hook
    check_pass_from-IsRolledBack [] i = λ r e. refl
    check_pass_from-IsRolledBack (b ∷ bs) i =
        let rest = check_pass_from-IsRolledBack bs (suc i) in
        elim (Bool-cases (is_limited b.limit_app from_service)) [
          | inr other ↦
              rw other
                (kept-IsRolledBack b bs (check_pass_from from_service true clock (suc i) bs) rest)
          | inl asked ↦ elim (try_pass-cases b.breaker.base (clock i)) [
            | inl (true, e) ↦
                rw (asked, e)
                  (kept-IsRolledBack b bs (check_pass_from from_service true clock (suc i) bs) rest)
            | inl (false, e) ↦ rw (asked, e) (λ r _. ap (λ x. states (b ∷ x)) (run_hooks-none bs))
            | inr (was_open, e) ↦
                rw (asked, e) (λ r refused. rw was_open (ap (λ x. open_ ∷ x) (rest r refused)))
          ]
        ]

    -- A call that a breaker of the resource refuses leaves the state of every breaker as it was, once the hooks
    -- at the exit of its entry have run: a breaker that took it for a probe is open again.
    pub check_pass-run_hooks :
        (bs : List (Bound F)) (r : Rule F)
        → (check_pass from_service true clock bs).refused ≡ some r
        → states (
            run_hooks one true
              (check_pass from_service true clock bs).hooks
              (check_pass from_service true clock bs).bounds)
          ≡ states bs
    unfolding check_pass
    check_pass-run_hooks bs r e = check_pass_from-IsRolledBack bs 0 r e
