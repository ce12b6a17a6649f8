-- ===== src/Breaker/Traces.antt =====
-- Runs of calls of a breaker of core/circuitbreaker/circuit_breaker.go, above all while it is open.
use gmiter.Prelude.{
  ℕ, ◌+◌, ◌<◌, ◌≡◌, refl, sym, ap, ◌∙◌, ◌≢◌, inl, inr, Bool, Option, none, some, List, [], ◌∷◌,
  ◌++◌, if◌then◌else◌, add64, arith, some_inj,
}
use gmiter.Prelude.Float.{Float64}
use gmiter.Breaker.{
  open_, from_closed_to_open, from_half_open_to_open, from_half_open_to_closed, try_pass, exit_hook,
  add_cur_probe_num,
}
use gmiter.Breaker.Complete.{Breaker, Readings, complete_closed, complete_half_open}
use gmiter.Breaker.Transitions.{
  Call, request, completed, left, call, Changes, Handled, call-completed, handle_open,
  handle_closed, handle_half_open, State-cases, is_bad,
}
use mathlib.Core.Path.{subst}

module _ (f : Float64) where
  abbrev pub admitted : Call → Bool → ℕ
  admitted (request now has_entry) refused = if refused then 0 else 1
  admitted _ refused = 0

  -- The calls in order: the breaker, what the listeners hear, and how many requests pass.
  unfoldable pub run : Breaker f.F → List Call → Option (Breaker f.F × Changes f × ℕ)
  run b [] = some (b, [], 0)
  run b (c ∷ calls) = elim (call f b c) [
    | none ↦ none
    | some (b', cs, refused) ↦ elim (run b' calls) [
      | none ↦ none
      | some (b'', cs', n) ↦ some (b'', cs ++ cs', admitted c refused + n)
    ]
  ]

  -- Every request comes before the deadline.
  abbrev pub Before : ℕ → List Call → Type 0
  Before deadline [] = Unit
  Before deadline (request now has_entry ∷ calls) = (now < deadline) × Before deadline calls
  Before deadline (completed rt failed at ∷ calls) = Before deadline calls
  Before deadline (left blocked ∷ calls) = Before deadline calls

  abbrev InTime : ℕ → Call → Type 0
  InTime deadline (request now has_entry) = now < deadline
  InTime deadline _ = Unit

  -- The breaker is open, with the time of its next probe.
  pub record OpenUntil (b : Breaker f.F) (deadline : ℕ) : Type 0 where
    pub stays_open : b.base.state ≡ open_
    pub next_retry : b.base.next_retry_timestamp_ms ≡ deadline

  Handled-open :
      (b b' : Breaker f.F) (bad : Bool) (at : Readings) (cs : Changes f)
      → Handled f b bad at b' cs
      → b.base.state ≡ open_
      → (b'.base ≡ b.base) × (cs ≡ [])
  Handled-open b b' bad at cs (stat, inl (e, n)) h = (rw e refl, n)
  Handled-open b b' bad at cs (stat, inr (bad_total, total, e)) h =
      let k : (record b { stat = stat }, []) ≡ (b', cs) =
        sym (handle_open f (record b { stat = stat }) bad bad_total total at h) ∙ e in
      (sym (ap (λ r. r.0.base) k), sym (ap (λ r. r.1) k))

  -- A breaker that a completion opens takes its next probe one retry timeout later.
  Handled-opens :
      (b b' : Breaker f.F) (bad : Bool) (at : Readings) (cs : Changes f)
      → Handled f b bad at b' cs
      → b.base.state ≢ open_
      → b'.base.state ≡ open_
      → OpenUntil b' (add64 at.retry_at b.base.retry_timeout_ms)
  unfolding complete_closed complete_half_open from_closed_to_open from_half_open_to_open
      from_half_open_to_closed add_cur_probe_num
  Handled-opens b b' bad at cs (stat, inl (e, n)) h o =
      absurd (h (ap (λ r. r.base.state) (sym e) ∙ o))
  Handled-opens b b' bad at cs (stat, inr (bad_total, total, e)) h o =
      let b₁ = record b { stat = stat } in
      elim (State-cases b.base.state) [
        | inl s ↦ ground (arith, handle_closed f b₁ bad bad_total total at s)
        | inr (inl s) ↦ ground (arith, handle_half_open f b₁ bad bad_total total at s)
        | inr (inr s) ↦ absurd (h s)
      ]

  call_open :
      (deadline : ℕ) (b b' : Breaker f.F) (c : Call) (cs : Changes f) (refused : Bool)
      → OpenUntil b deadline
      → InTime deadline c
      → call f b c ≡ some (b', cs, refused)
      → OpenUntil b' deadline × (cs ≡ []) × (admitted c refused ≡ 0)
  unfolding call try_pass exit_hook
  call_open deadline b b' (request now has_entry) cs refused o t h = ground arith
  call_open deadline b b' (completed rt failed at) cs refused o t h =
      let (same, none_told) =
        Handled-open b b' (is_bad f b.strategy rt failed) at cs
          (call-completed f b b' rt failed at cs refused h) o.stays_open in
      (
        record {
          stays_open = ap (λ r. r.state) same ∙ o.stays_open;
          next_retry = ap (λ r. r.next_retry_timestamp_ms) same ∙ o.next_retry;
        },
        none_told,
        refl,
      )
  call_open deadline b b' (left blocked) cs refused o t h = ground arith

  abbrev Steps : Breaker f.F → Call → List Call → Breaker f.F → Changes f → ℕ → Type 0
  Steps b c calls b'' cs'' n'' =
      (b' : Breaker f.F) × (cs : Changes f) × (refused : Bool) × (cs' : Changes f) × (n' : ℕ)
      × (call f b c ≡ some (b', cs, refused))
      × (run b' calls ≡ some (b'', cs', n'))
      × (cs'' ≡ cs ++ cs')
      × (n'' ≡ admitted c refused + n')

  -- A run that ends made its first call, and then the others.
  run-cons :
      (b b'' : Breaker f.F) (c : Call) (calls : List Call) (cs'' : Changes f) (n'' : ℕ)
      → run b (c ∷ calls) ≡ some (b'', cs'', n'')
      → Steps b c calls b'' cs'' n''
  unfolding run
  run-cons b b'' c calls cs'' n'' h = first (call f b c) refl
    where
      rest :
          (b' : Breaker f.F) (cs : Changes f) (refused : Bool)
          → call f b c ≡ some (b', cs, refused)
          → (o : Option (Breaker f.F × Changes f × ℕ)) → run b' calls ≡ o
          → Steps b c calls b'' cs'' n''
      rest b' cs refused e none e' = cc (rw (e, run, e') at h)
      rest b' cs refused e (some (b₂, cs', n')) e' =
          let k =
            some_inj (b₂, cs ++ cs', admitted c refused + n') (b'', cs'', n'')
              (rw (e, run, e') at h) in
          (
            b',
            cs,
            refused,
            cs',
            n',
            e,
            subst (λ x. run b' calls ≡ some (x, cs', n')) (ap (λ r. r.0) k) e',
            sym (ap (λ r. r.1) k),
            sym (ap (λ r. r.2) k),
          )

      first :
          (o : Option (Breaker f.F × Changes f × Bool))
          → call f b c ≡ o
          → Steps b c calls b'' cs'' n''
      first none e = cc (rw (e, run) at h)
      first (some (b', cs, refused)) e = rest b' cs refused e (run b' calls) refl

  Before-cons :
      (deadline : ℕ) (c : Call) (calls : List Call)
      → Before deadline (c ∷ calls)
      → InTime deadline c × Before deadline calls
  Before-cons deadline (request now has_entry) calls h = h
  Before-cons deadline (completed rt failed at) calls h = (tt, h)
  Before-cons deadline (left blocked) calls h = (tt, h)

  run_open :
      (deadline : ℕ) (calls : List Call) (b b' : Breaker f.F) (cs : Changes f) (n : ℕ)
      → OpenUntil b deadline
      → Before deadline calls
      → run b calls ≡ some (b', cs, n)
      → OpenUntil b' deadline × (cs ≡ []) × (n ≡ 0)
  unfolding run
  run_open deadline [] b b' cs n o t h = ground arith
  run_open deadline (c ∷ calls) b b'' cs'' n'' o t h =
      let (b', cs, refused, cs', n', e, e', told, passed) = run-cons b b'' c calls cs'' n'' h in
      let (o', quiet, shut) =
        call_open deadline b b' c cs refused o (Before-cons deadline c calls t).0 e in
      let (o'', quiet', shut') =
        run_open deadline calls b' b'' cs' n' o' (Before-cons deadline c calls t).1 e' in
      (o'', told ∙ rw (quiet, quiet') refl, omega arith)

  -- Once a completed request opens a breaker, no request passes and nothing changes until a retry
  -- timeout after it, whatever other requests complete or leave in between.
  pub opened_refuses :
      (b b' b'' : Breaker f.F) (rt : ℕ) (failed : Bool) (at : Readings) (calls : List Call)
      (cs cs' : Changes f) (refused : Bool) (n : ℕ)
      → call f b (completed rt failed at) ≡ some (b', cs, refused)
      → b.base.state ≢ open_
      → b'.base.state ≡ open_
      → Before (add64 at.retry_at b.base.retry_timeout_ms) calls
      → run b' calls ≡ some (b'', cs', n)
      → (n ≡ 0) × (cs' ≡ []) × (b''.base.state ≡ open_)
  opened_refuses b b' b'' rt failed at calls cs cs' refused n h closed_before opened t r =
      let o =
        Handled-opens b b' (is_bad f b.strategy rt failed) at cs
          (call-completed f b b' rt failed at cs refused h) closed_before opened in
      let (o', quiet, shut) =
        run_open (add64 at.retry_at b.base.retry_timeout_ms) calls b' b'' cs' n o t r in
      (shut, quiet, o'.stays_open)
