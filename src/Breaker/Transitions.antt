-- ===== src/Breaker/Transitions.antt =====
-- The state machine of core/circuitbreaker/circuit_breaker.go over sequences of calls: requests that ask
-- for a pass, that complete, and that leave after another slot blocked them.
use gmiter.Prelude.{
  ℕ, ◌≡◌, refl, sym, ap, ◌⊎◌, inl, inr, Bool, true, false, not, ◌&&◌, ◌||◌, Option, none, some,
  List, [], ◌∷◌, ltb, arith, some_inj,
}
use gmiter.Prelude.Float.{Float64}
use gmiter.Breaker.{
  State, closed, half_open, open_, Change, transform_to_closed, transform_to_open,
  transform_to_half_open, is_open, is_half_open, is_closed, from_closed_to_open,
  from_half_open_to_open, from_half_open_to_closed, from_open_to_half_open, try_pass, exit_hook,
  add_cur_probe_num,
}
use gmiter.Breaker.Complete.{
  Breaker, Strategy, slow_rt, error_ratio, error_count, Readings, on_request_complete,
  slow_on_request_complete, error_ratio_on_request_complete, error_count_on_request_complete,
  complete, handle_state_change, complete_closed, complete_half_open,
}
use gmiter.Breaker.Counters.{Counter, current_counter, update, record_request}
use gmiter.Stat.LeapArray.{LeapArray}
use mathlib.Core.Path.{subst}

pub data Call : Type 0 where
  -- `TryPass` at a time, with or without an entry in the context.
  request : ℕ → Bool → Call
  -- `OnRequestComplete` with the response time and whether the request failed.
  completed : ℕ → Bool → Readings → Call
  -- The exit hook, with whether the entry was blocked.
  left : Bool → Call

pub State-cases : (s : State) → (s ≡ closed) ⊎ (s ≡ half_open) ⊎ (s ≡ open_)
State-cases closed = inl refl
State-cases half_open = inr (inl refl)
State-cases open_ = inr (inr refl)

module _ (f : Float64) where
  abbrev pub Changes : Type 0
  Changes = List (Change f.F)

  -- One call: the breaker, what the listeners hear, and whether a request was refused.
  unfoldable pub call : Breaker f.F → Call → Option (Breaker f.F × Changes × Bool)
  call b (request now has_entry) =
      let (base, changes, passed, _) = try_pass b.base now has_entry in
      some (record b { base = base }, changes, not passed)
  call b (completed rt failed at) = elim (on_request_complete f b rt failed at) [
    | none ↦ none
    | some (b', changes) ↦ some (b', changes, false)
  ]
  call b (left blocked) =
      let (base, changes) = exit_hook (f.of_uint64 1) b.base blocked in
      some (record b { base = base }, changes, false)

  -- What a listener believes the state to be, from the last that it heard.
  abbrev pub believe : State → Change f.F → State
  believe s (transform_to_closed prev) = closed
  believe s (transform_to_open prev snap) = open_
  believe s (transform_to_half_open prev) = half_open

  -- The diagram, with the `prev` that the listener is told.
  abbrev pub is_legal : State → Change f.F → Bool
  is_legal s (transform_to_closed prev) = is_half_open s && is_half_open prev
  is_legal s (transform_to_open prev snap) =
      is_closed s && is_closed prev || is_half_open s && is_half_open prev
  is_legal s (transform_to_half_open prev) = is_open s && is_open prev

  -- From `s` the changes follow the diagram and end in `s'`.
  abbrev pub Follows : State → Changes → State → Type 0
  Follows s [] s' = s ≡ s'
  Follows s (c ∷ cs) s' = (is_legal s c ≡ true) × Follows (believe s c) cs s'

  complete_half_open-Follows :
      (b : Breaker f.F) (bad : Bool) (at : Readings)
      → b.base.state ≡ half_open
      → Follows b.base.state
          (complete_half_open f b bad at).1
          (complete_half_open f b bad at).0.base.state
  unfolding complete_half_open from_half_open_to_open from_half_open_to_closed add_cur_probe_num
  complete_half_open-Follows b bad at h = ground arith

  complete_closed-Follows :
      (b : Breaker f.F) (bad_total total : ℕ) (at : Readings)
      → b.base.state ≡ closed
      → Follows b.base.state
          (complete_closed f b bad_total total at).1
          (complete_closed f b bad_total total at).0.base.state
  unfolding complete_closed from_closed_to_open
  complete_closed-Follows b bad_total total at h = ground arith

  module _ (b : Breaker f.F) (bad : Bool) (bad_total total : ℕ) (at : Readings) where
    pub handle_closed :
        b.base.state ≡ closed
        → handle_state_change f b bad bad_total total at ≡ complete_closed f b bad_total total at
    unfolding handle_state_change
    handle_closed h = ground arith

    pub handle_half_open :
        b.base.state ≡ half_open
        → handle_state_change f b bad bad_total total at ≡ complete_half_open f b bad at
    unfolding handle_state_change
    handle_half_open h = ground arith

    pub handle_open :
        b.base.state ≡ open_ → handle_state_change f b bad bad_total total at ≡ (b, [])
    unfolding handle_state_change
    handle_open h = ground arith

    handle-Follows :
        Follows b.base.state
          (handle_state_change f b bad bad_total total at).1
          (handle_state_change f b bad bad_total total at).0.base.state
    handle-Follows = elim (State-cases b.base.state) [
      | inl e ↦ rw (handle_closed e) (complete_closed-Follows b bad_total total at e)
      | inr (inl e) ↦ rw (handle_half_open e) (complete_half_open-Follows b bad at e)
      | inr (inr e) ↦ rw (handle_open e) refl
    ]

  -- What the strategy takes for a bad request.
  abbrev pub is_bad : Strategy f.F → ℕ → Bool → Bool
  is_bad (slow_rt max threshold) rt failed = ltb max rt
  is_bad (error_ratio threshold) rt failed = failed
  is_bad (error_count threshold) rt failed = failed

  pub on_request_complete_lem :
      (b : Breaker f.F) (rt : ℕ) (failed : Bool) (at : Readings)
      → on_request_complete f b rt failed at ≡ complete f b (is_bad b.strategy rt failed) at
  unfolding on_request_complete slow_on_request_complete error_ratio_on_request_complete
      error_count_on_request_complete
  on_request_complete_lem b rt failed at = by_strategy b.strategy refl
    where
      by_strategy :
          (s : Strategy f.F)
          → b.strategy ≡ s
          → on_request_complete f b rt failed at ≡ complete f b (is_bad b.strategy rt failed) at
      by_strategy (slow_rt max threshold) e = simp (e, on_request_complete)
      by_strategy (error_ratio threshold) e = simp (e, on_request_complete)
      by_strategy (error_count threshold) e = simp (e, on_request_complete)

  -- A reply comes from a breaker whose counters alone may have changed: the code stops there, or
  -- handles the state.
  abbrev pub Handled : Breaker f.F → Bool → Readings → Breaker f.F → Changes → Type 0
  Handled b bad at b' cs =
      (stat : LeapArray Counter) × (((b' ≡ record b { stat = stat }) × (cs ≡ []))
        ⊎ ((bad_total : ℕ) × (total : ℕ) × (handle_state_change f (record b { stat = stat }) bad
                bad_total total at
              ≡ (b', cs))))

  pub complete-Handled :
      (b b' : Breaker f.F) (bad : Bool) (at : Readings) (cs : Changes)
      → complete f b bad at ≡ some (b', cs)
      → Handled b bad at b' cs
  unfolding complete
  complete-Handled b b' bad at cs h = go (current_counter b.stat at.current_at) refl
    where
      go :
          (o : Option (LeapArray Counter × Option ℕ))
          → current_counter b.stat at.current_at ≡ o
          → Handled b bad at b' cs
      go none e = cc (rw (e, complete) at h)
      go (some (stat, none)) e =
          let k = some_inj (record b { stat = stat }, []) (b', cs) (rw (e, complete) at h) in
          (stat, inl (sym (ap (λ r. r.0) k), sym (ap (λ r. r.1) k)))
      go (some (stat, some i)) e =
          (update stat i (record_request bad), inr (_, _, some_inj _ _ (rw (e, complete) at h)))

  complete-Follows :
      (b b' : Breaker f.F) (bad : Bool) (at : Readings) (cs : Changes)
      → Handled b bad at b' cs
      → Follows b.base.state cs b'.base.state
  complete-Follows b b' bad at cs (stat, inl (e, none_told)) = rw (e, none_told) refl
  complete-Follows b b' bad at cs (stat, inr (bad_total, total, e)) =
      subst (λ r. Follows b.base.state r.1 r.0.base.state) e
        (handle-Follows (record b { stat = stat }) bad bad_total total at)

  pub call-completed :
      (b b' : Breaker f.F) (rt : ℕ) (failed : Bool) (at : Readings) (cs : Changes) (refused : Bool)
      → call b (completed rt failed at) ≡ some (b', cs, refused)
      → Handled b (is_bad b.strategy rt failed) at b' cs
  unfolding call
  call-completed b b' rt failed at cs refused h =
      complete-Handled b b' (is_bad b.strategy rt failed) at cs
        (ground (arith, on_request_complete_lem b rt failed at))

  -- Every call moves the state along the diagram of the state machine, and the listeners are told of
  -- exactly the moves that were made.
  pub call-Follows :
      (b b' : Breaker f.F) (c : Call) (cs : Changes) (refused : Bool)
      → call b c ≡ some (b', cs, refused)
      → Follows b.base.state cs b'.base.state
  unfolding call try_pass exit_hook from_open_to_half_open
  call-Follows b b' (request now has_entry) cs refused h = ground arith
  call-Follows b b' (completed rt failed at) cs refused h =
      complete-Follows b b' (is_bad b.strategy rt failed) at cs
        (call-completed b b' rt failed at cs refused h)
  call-Follows b b' (left blocked) cs refused h = ground arith
