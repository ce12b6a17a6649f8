-- ===== src/Retry/Backoff.antt =====
-- core/retry/backoff/exponential_backoff_policy.go. An int64 and the int32 multiplier are numbers below
-- 2 ^ 63 and 2 ^ 31, the values that the setters let in; the product wraps as an int64 does. The sleeper is
-- not modelled: a call of `BackOff` gives the time that it is asked to sleep.
use gmiter.Prelude.{
  ℕ, zero, suc, ◌*◌, ◌≤◌, ◌<◌, ◌≡◌, refl, ap, ◌∙◌, inl, inr, List, [], ◌∷◌, ltb, if◌then◌else◌,
  half64, mod64, mod32, mul64, slt64, half32, slt32, arith, Bool-cases,
}
use native.Mathlib.Nat.{mul-le-mul_right, mul-suc}

pub record ExponentialBackOffPolicy : Type 0 where
  pub initial_interval : ℕ
  pub max_interval : ℕ
  pub multiplier : ℕ

pub record ExponentialBackOffContext : Type 0 where
  pub multiplier : ℕ
  pub interval : ℕ
  pub max_interval : ℕ

unfoldable pub new_instance : ExponentialBackOffPolicy
new_instance = record { initial_interval = 100; max_interval = 30000; multiplier = 2 }

-- The setters: an int64 as a bit pattern.
unfoldable pub set_initial_interval : ExponentialBackOffPolicy → ℕ → ExponentialBackOffPolicy
set_initial_interval e v = record e { initial_interval = if slt64 1 v then v else 1 }

unfoldable pub set_multiplier : ExponentialBackOffPolicy → ℕ → ExponentialBackOffPolicy
set_multiplier e v = record e { multiplier = if slt32 1 v then v else 1 }

unfoldable pub set_max_interval : ExponentialBackOffPolicy → ℕ → ExponentialBackOffPolicy
set_max_interval e v = record e { max_interval = if slt64 0 v then v else 1 }

-- The policy that `WithSleeper` makes.
unfoldable pub with_sleeper : ExponentialBackOffPolicy → ExponentialBackOffPolicy
with_sleeper e =
    set_multiplier
      (set_initial_interval (set_max_interval new_instance e.max_interval) e.initial_interval)
      e.multiplier

unfoldable pub start : ExponentialBackOffPolicy → ExponentialBackOffContext
start e = record {
  multiplier = e.multiplier;
  interval = e.initial_interval;
  max_interval = e.max_interval;
}

unfoldable pub get_next_interval : ExponentialBackOffContext → ℕ
get_next_interval c = mul64 c.interval c.multiplier

unfoldable pub get_sleep_and_increment : ExponentialBackOffContext → ExponentialBackOffContext × ℕ
get_sleep_and_increment c =
    if slt64 c.max_interval c.interval
    then (c, c.max_interval)
    else (record c { interval = get_next_interval c }, c.interval)

-- The sleeps of `n` calls of `BackOff` on one context.
unfoldable pub sleeps : ℕ → ExponentialBackOffContext → List ℕ
sleeps zero c = []
sleeps (suc n) c = let (c', s) = get_sleep_and_increment c in s ∷ sleeps n c'

-- What the setters make sure of.
pub record IsSound (e : ExponentialBackOffPolicy) : Type 0 where
  pub initial : (0 < e.initial_interval) × (e.initial_interval < half64)
  pub top : (0 < e.max_interval) × (e.max_interval < half64)
  pub factor : (0 < e.multiplier) × (e.multiplier < half32)

-- Whatever a policy holds, the one that `WithSleeper` makes of it is sound.
with_sleeper-IsSound :
    (e : ExponentialBackOffPolicy)
    → e.initial_interval < mod64
    → e.max_interval < mod64
    → e.multiplier < mod32
    → IsSound (with_sleeper e)
unfolding with_sleeper set_multiplier set_initial_interval set_max_interval
with_sleeper-IsSound e i t f = record {
  initial = ground arith;
  top = ground arith;
  factor = ground arith;
}

-- The least of the two.
unfoldable pub min : ℕ → ℕ → ℕ
min a b = if ltb b a then b else a

-- The ideal sleeps: interval, interval * m, interval * m ^ 2, ..., each cut at the maximum.
unfoldable pub ideal : ℕ → (m i top : ℕ) → List ℕ
ideal zero m i top = []
ideal (suc n) m i top = min i top ∷ ideal n m (i * m) top

min_above : (i top : ℕ) → top < i → min i top ≡ top
unfolding min
min_above i top h = ground arith

min_below : (i top : ℕ) → i ≤ top → min i top ≡ i
unfolding min
min_below i top h = ground arith

le-mul : (i m : ℕ) → 0 < m → i ≤ i * m
le-mul i zero h = absurd (omega arith)
le-mul i (suc m) h = omega (arith, mul-suc i m)

-- Above the maximum, the ideal is the maximum for ever.
ideal_above : (n m i j top : ℕ) → 0 < m → top < i → top < j → ideal n m i top ≡ ideal n m j top
unfolding ideal
ideal_above zero m i j top p h h' = refl
ideal_above (suc n) m i j top p h h' =
    rw (min_above i top h, min_above j top h')
      (ap (◌∷◌ top) (
        ideal_above n m (i * m) (j * m) top p (omega (arith, le-mul i m p))
          (omega (arith, le-mul j m p))))

-- A context at rest above its maximum or on its way to it sleeps the ideal times, if no product
-- overflows.
pub sleeps_lem :
    (n : ℕ) (c : ExponentialBackOffContext)
    → 0 < c.multiplier
    → c.max_interval * c.multiplier < half64
    → c.interval < half64
    → c.max_interval < half64
    → sleeps n c ≡ ideal n c.multiplier c.interval c.max_interval
unfolding sleeps ideal get_sleep_and_increment get_next_interval
sleeps_lem zero c p h b t = refl
sleeps_lem (suc n) c p h b t = elim (Bool-cases (slt64 c.max_interval c.interval)) [
  | inl over ↦
      let above : c.max_interval < c.interval = ground arith in
      rw (over, min_above c.interval c.max_interval above)
        (ap (◌∷◌ c.max_interval) (
          sleeps_lem n c p h b t
          ∙ ideal_above n c.multiplier c.interval (c.interval * c.multiplier) c.max_interval p above
              (omega (arith, le-mul c.interval c.multiplier p))))
  | inr under ↦
      let below : c.interval ≤ c.max_interval = ground arith in
      let small : c.interval * c.multiplier < half64 =
        omega (arith, mul-le-mul_right c.multiplier below) in
      let exact : mul64 c.interval c.multiplier ≡ c.interval * c.multiplier = omega arith in
      rw (under, min_below c.interval c.max_interval below, exact)
        (ap (◌∷◌ c.interval)
          (sleeps_lem n (record c { interval = c.interval * c.multiplier }) p h small t))
]
