-- ===== src/Hotspot/InFlight.antt =====
-- The calls in flight with one value under a concurrency rule: core/hotspot/traffic_shaping.go and
-- core/hotspot/concurrency_stat_slot.go together.
pub mod Bounded
mod Tests
use gmiter.Prelude.{
  ℕ, zero, suc, ◌-◌, ◌^◌, ◌<◌, ◌≡◌, refl, sym, ap, ◌∙◌, ◌⊎◌, inl, inr, true, Option, none, some,
  List, [], ◌∷◌, leb, ◌==◌, if◌then◌else◌, half64, mod64, add64, arith, Option-cases,
}
use gmiter.Prelude.Float.{Float64}
use gmiter.Chain.TokenResult.{GoString, new_token_result_blocked_with_cause}
use gmiter.Hotspot.Lru
use gmiter.Hotspot.Lru.{Lru}
use gmiter.Hotspot.Lru.Entries.{lookup}
use gmiter.Hotspot.Lru.Invariant.{IsValid}
use gmiter.Hotspot.Lru.Recency.{touch, get_lem, get-IsValid}
use gmiter.Hotspot.Lru.Runs.{add_if_absent-IsValid}
use gmiter.Hotspot.Rule.{Rule, concurrency}
use gmiter.Hotspot.Controller.{ParamsMetric, Controller, Message, Outcome, returned, store, assign}
use gmiter.Hotspot.TrafficShaping.{
  block_with, perform, reject_perform_checking, concurrency_from,
  perform_checking_for_concurrency_metric, check_concurrency,
}
use gmiter.Hotspot.TrafficShaping.Store.{
  store-IsValid, lookup-assign, add_if_absent-held, add_if_absent-new, add_if_absent-missing,
  lookup-touch,
}
use gmiter.Hotspot.TrafficShaping.Bucket.{is_pass}
use gmiter.Hotspot.Slot.{bump, bump_from, count_one}
use mathlib.Core.Logic.{ite, if_pos}
use mathlib.Core.Path.{subst}

pub data Move : Type 0 where
  enter : Move
  leave : Move

module _ {K V : Type 0} (dec : Discrete K) (f : Float64) (text : Message → K → GoString)
    (int64_value : ℕ → V) (arg : K) where
  -- The limit of the value: its specific item, or the threshold.
  abbrev pub limit_of : Controller K f.F → ℕ
  limit_of c = elim (lookup dec arg c.specific_items) [
    | none ↦ f.to_int64 c.threshold
    | some specific ↦ specific
  ]

  abbrev pub with_number : ℕ → Option (Controller K f.F) → Option (Controller K f.F × ℕ)
  with_number n none = none
  with_number n (some c) = some (c, n)

  abbrev pub counted : (by : ℕ) → Controller K f.F → ℕ → Option (Controller K f.F × ℕ)
  counted by c n = with_number n (count_one dec f text int64_value (λ _. some (some arg)) by c)

  -- A call with the value comes, and is counted if it is let through; or one of those in flight ends.
  unfoldable pub move : Move → Controller K f.F → ℕ → Option (Controller K f.F × ℕ)
  move enter c n =
      let (c', o) = reject_perform_checking dec f text int64_value c arg 1 [] in
      if is_pass o then counted 1 c' (suc n) else some (c', n)
  move leave c zero = some (c, 0)
  move leave c (suc n) = counted (mod64 - 1) c n

  -- The numbers in flight after each move.
  unfoldable pub in_flight : List Move → Controller K f.F → ℕ → Option (List ℕ)
  in_flight [] c n = some []
  in_flight (m ∷ moves) c n = elim (move m c n) [
    | none ↦ none
    | some (c', n') ↦ elim (in_flight moves c' n') [ none ↦ none | some ns ↦ some (n' ∷ ns) ]
  ]

  -- The counter of the value is the number in flight, or it has none and none is in flight.
  pub record Counts (limit : ℕ) (c : Controller K f.F) (n : ℕ) : Type 0 where
    pub metric : ParamsMetric K
    pub counter : Lru K ℕ
    pub has_metric : c.metric ≡ some metric
    pub has_counter : metric.concurrent_counter ≡ some counter
    pub is_concurrency : c.metric_type ≡ concurrency
    pub for_concurrency : c.r.metric_type ≡ concurrency
    pub valid : IsValid dec counter
    pub has_limit : limit_of c ≡ limit
    pub count :
        (lookup dec arg counter.evict_list ≡ some n)
        ⊎ (lookup dec arg counter.evict_list ≡ none) × (n ≡ 0)

  module _ (limit : ℕ) (small : limit < 2 ^ 62) where
    -- The counter with the value in it, one more or less.
    pub bump-held :
        (by n : ℕ) (counter : Lru K ℕ)
        → IsValid dec counter
        → lookup dec arg counter.evict_list ≡ some n
        → IsValid dec (bump dec f text int64_value by counter arg)
          × (lookup dec arg (bump dec f text int64_value by counter arg).evict_list
              ≡ some (add64 n by))
    unfolding bump bump_from store
    bump-held by n counter valid found =
        let touched : lookup dec arg (touch dec arg n counter.evict_list) ≡ some n =
          lookup-touch dec counter valid arg arg n found ∙ found in
        let still : IsValid dec
            (record counter { evict_list = touch dec arg n counter.evict_list }) =
          subst (IsValid dec) (ap (λ x. x.0) (get_lem dec counter valid arg n found))
            (get-IsValid dec counter valid arg) in
        rw (bump, get_lem dec counter valid arg n found)
          (
            store-IsValid dec _ arg (add64 n by) still,
            lookup-assign dec arg arg (add64 n by) n _ touched ∙ if_pos (dec arg arg) refl _ _,
          )

    pub count_one_eq :
        (by n : ℕ) (c : Controller K f.F) (s : Counts limit c n)
        → count_one dec f text int64_value (λ _. some (some arg)) by c
          ≡ some (record c {
            metric = some (record s.metric {
              concurrent_counter = some (bump dec f text int64_value by s.counter arg);
            });
          })
    unfolding count_one
    count_one_eq by n c s =
        let applies : (c.r.metric_type == concurrency) ≡ true = rw s.for_concurrency refl in
        rw (applies, s.has_metric, s.has_counter) refl

    pub count_one-Counts :
        (by n : ℕ) (c : Controller K f.F) (s : Counts limit c n)
        → lookup dec arg s.counter.evict_list ≡ some n
        → (c' : Controller K f.F) × (count_one dec f text int64_value (λ _. some (some arg)) by c
            ≡ some c')
          × Counts limit c' (add64 n by)
    count_one-Counts by n c s found =
        let (valid, now) = bump-held by n s.counter s.valid found in
        (
          _,
          count_one_eq by n c s,
          record {
            metric = _;
            counter = _;
            has_metric = refl;
            has_counter = refl;
            is_concurrency = s.is_concurrency;
            for_concurrency = s.for_concurrency;
            valid = valid;
            has_limit = s.has_limit;
            count = inl now;
          },
        )

    abbrev pub answered :
        (c : Controller K f.F) (n : ℕ) → Counts limit c n → ParamsMetric K × Outcome (Rule K f.F) V
    answered c n s =
        concurrency_from dec f text int64_value c s.metric arg
          (Lru.add_if_absent dec s.counter arg 0)

    pub check_eq :
        (c : Controller K f.F) (n : ℕ) (s : Counts limit c n)
        → reject_perform_checking dec f text int64_value c arg 1 []
          ≡ (record c { metric = some (answered c n s).0 }, (answered c n s).1)
    unfolding reject_perform_checking perform perform_checking_for_concurrency_metric
    check_eq c n s =
        let applies : (c.metric_type == concurrency) ≡ true = rw s.is_concurrency refl in
        rw (s.has_metric, applies, s.has_counter) refl

    -- The check of a value that is counted lets the call through up to the limit.
    pub check_concurrency-is_pass :
        (c : Controller K f.F) (count : ℕ)
        → count < half64
        → limit_of c ≡ limit
        → is_pass (check_concurrency dec f text int64_value c arg count) ≡ leb count limit
    unfolding check_concurrency block_with
    check_concurrency-is_pass c count lt e = elim (Option-cases (lookup dec arg c.specific_items)) [
      | inl gone ↦
          let l : f.to_int64 c.threshold ≡ limit = sym (rw (limit_of, gone) refl) ∙ e in
          rw (gone, check_concurrency, l) (ground arith)
      | inr (v, found) ↦
          let l : v ≡ limit = sym (rw (limit_of, found) refl) ∙ e in
          rw (found, check_concurrency, l) (ground arith)
    ]
