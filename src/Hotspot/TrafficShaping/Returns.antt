-- ===== src/Hotspot/TrafficShaping/Returns.antt =====
-- Runs of the reject controller of core/hotspot/traffic_shaping.go.
use gmiter.Prelude.{
  ℕ, ◌≡◌, refl, sym, inl, inr, true, false, Option, none, some, List, [], ◌∷◌, ltb, ◌==◌, add64,
  mul64, slt64, arith, Bool-cases,
}
use mathlib.Core.Path.{subst}
use gmiter.Prelude.Float.{Float64}
use gmiter.Chain.TokenResult.{TokenResult, GoString}
use gmiter.Hotspot.Lru.{Lru, new_lru}
use gmiter.Hotspot.Lru.Entries.{lookup, has}
use gmiter.Hotspot.Lru.Invariant.{IsValid}
use gmiter.Hotspot.Rule.{Rule, concurrency, qps}
use gmiter.Hotspot.Controller.{
  ParamsMetric, Controller, Message, Outcome, returned, new_lru_cache_map, qps_size,
  new_base_traffic_shaping_controller, new_base_traffic_shaping_controller_with_metric,
}
use gmiter.Hotspot.TrafficShaping.{
  block_with, with_counters, token_count_of, reject_counters, reject_perform_checking, perform,
}
use gmiter.Hotspot.TrafficShaping.Pairing.{ArePaired, Settled, reject_loop-Settled}

module _ {K V : Type 0} (dec : Discrete K) (f : Float64) (text : Message → K → GoString)
    (int64_value : ℕ → V) where
  -- A reject controller of a QPS rule between two checks.
  pub record IsReady (c : Controller K f.F) : Type 0 where
    pub metric : ParamsMetric K
    pub times : Lru K ℕ
    pub tokens : Lru K ℕ
    pub has_metric : c.metric ≡ some metric
    pub has_times : metric.rule_time_counter ≡ some times
    pub has_tokens : metric.rule_token_counter ≡ some tokens
    pub is_qps : c.metric_type ≡ qps
    pub paired : ArePaired dec times tokens
    pub window_positive : (mul64 c.duration_in_sec 1000 == 0) ≡ false

  pub reject_counters-Settled :
      (c : Controller K f.F) (arg : K) (batch now : ℕ) (nows : List ℕ) (times tokens : Lru K ℕ)
      → (mul64 c.duration_in_sec 1000 == 0) ≡ false
      → ArePaired dec times tokens
      → Settled dec f text int64_value
          (reject_counters dec f text int64_value c arg batch times tokens (now ∷ nows))
  unfolding reject_counters block_with
  reject_counters-Settled c arg batch now nows times tokens w p =
      let token_count = token_count_of dec f text int64_value c arg in
      elim (Bool-cases (slt64 0 token_count)) [
        | inr low ↦ rw low (p, (_, refl))
        | inl some_tokens ↦ elim (Bool-cases (slt64 (add64 token_count c.burst_count) batch)) [
          | inl big ↦ rw (some_tokens, big) (p, (_, refl))
          | inr fits ↦
              rw (some_tokens, fits)
                (reject_loop-Settled dec f text int64_value c w arg batch token_count
                  (add64 token_count c.burst_count) now nows times tokens p)
        ]
      ]

  -- The controller and the outcome of a check.
  abbrev pub HasReturned : Controller K f.F × Outcome (Rule K f.F) V → Type 0
  HasReturned x = IsReady x.0 × ((r : Option (TokenResult (Rule K f.F) V)) × (x.1 ≡ returned r))

  pub perform_eq :
      (c : Controller K f.F) (arg : K)
      (check : Lru K ℕ → Lru K ℕ → (Lru K ℕ × Lru K ℕ) × Outcome (Rule K f.F) V)
      → (ready : IsReady c)
      → perform dec f text int64_value c arg check ≡ (
        record c {
          metric = some (
              with_counters dec f text int64_value ready.metric (check ready.times ready.tokens).0);
        },
        (check ready.times ready.tokens).1,
      )
  unfolding perform
  perform_eq c arg check ready =
      let not_concurrency : (c.metric_type == concurrency) ≡ false = rw ready.is_qps refl in
      let not_beyond : ltb qps c.metric_type ≡ false = rw ready.is_qps refl in
      rw (ready.has_metric, not_concurrency, not_beyond, ready.has_times, ready.has_tokens) refl

  pub reject_perform_checking-HasReturned :
      (c : Controller K f.F) (arg : K) (batch now : ℕ) (nows : List ℕ)
      → IsReady c
      → HasReturned (reject_perform_checking dec f text int64_value c arg batch (now ∷ nows))
  unfolding reject_perform_checking
  reject_perform_checking-HasReturned c arg batch now nows ready =
      let (p, (r, e)) =
        reject_counters-Settled c arg batch now nows ready.times ready.tokens ready.window_positive
          ready.paired in
      subst HasReturned (sym (perform_eq c arg _ ready)) (
        record {
          metric = _;
          times = _;
          tokens = _;
          has_metric = refl;
          has_times = refl;
          has_tokens = refl;
          is_qps = ready.is_qps;
          paired = p;
          window_positive = ready.window_positive;
        },
        (r, e),
      )

  -- The outcomes of checks made one after the other, each with its clock readings.
  abbrev pub outcomes : Controller K f.F → List (K × ℕ × ℕ × List ℕ) → List (Outcome (Rule K f.F) V)
  outcomes c [] = []
  outcomes c ((arg, batch, now, nows) ∷ requests) =
      let (c', o) = reject_perform_checking dec f text int64_value c arg batch (now ∷ nows) in
      o ∷ outcomes c' requests

  abbrev pub AllReturned : List (Outcome (Rule K f.F) V) → Type 0
  AllReturned [] = Unit
  AllReturned (o ∷ os) =
      ((r : Option (TokenResult (Rule K f.F) V)) × (o ≡ returned r)) × AllReturned os

  qps_size-positive : (r : Rule K f.F) → slt64 0 (qps_size r) ≡ true
  unfolding qps_size
  qps_size-positive r = ground arith

  pub new_lru_eq :
      (size : ℕ)
      → slt64 0 size ≡ true
      → new_lru_cache_map {K = K} size ≡ some (record { size = size; evict_list = []; items = [] })
  unfolding new_lru_cache_map new_lru
  new_lru_eq size h =
      let some_size : (size == 0) ≡ false = ground (arith, h) in rw (h, some_size) refl

  pub new_lru-IsValid :
      (size : ℕ)
      → slt64 0 size ≡ true
      → (c : Lru K ℕ) → c ≡ record { size = size; evict_list = []; items = [] }
      → IsValid dec c
  unfolding lookup has
  new_lru-IsValid size h c e = subst (IsValid dec) (sym e) (record {
    agrees = record { distinct = tt; same_keys = λ k. refl };
    positive = ground (arith, h);
    bounded = omega arith;
  })

  -- A new controller of a QPS rule has two empty caches.
  pub new-IsReady :
      (r : Rule K f.F)
      → r.metric_type ≡ qps
      → (mul64 r.duration_in_sec 1000 == 0) ≡ false
      → (c : Controller K f.F) × (new_base_traffic_shaping_controller r ≡ some c)
        × (c.threshold ≡ r.threshold)
        × (c.burst_count ≡ r.burst_count)
        × (c.duration_in_sec ≡ r.duration_in_sec)
        × ((ready : IsReady c) × (ready.times.evict_list ≡ []) × (ready.tokens.evict_list ≡ []))
  unfolding new_base_traffic_shaping_controller new_base_traffic_shaping_controller_with_metric
  new-IsReady r is_qps window = (
    new_base_traffic_shaping_controller_with_metric r (
        some (record {
          rule_time_counter = new_lru_cache_map (qps_size r);
          rule_token_counter = new_lru_cache_map (qps_size r);
          concurrent_counter = none;
        })),
    rw is_qps refl,
    refl,
    refl,
    refl,
    (
      record {
        metric = _;
        times = _;
        tokens = _;
        has_metric = refl;
        has_times = new_lru_eq (qps_size r) (qps_size-positive r);
        has_tokens = new_lru_eq (qps_size r) (qps_size-positive r);
        is_qps = is_qps;
        paired = record {
          times_valid = new_lru-IsValid (qps_size r) (qps_size-positive r) _ refl;
          tokens_valid = new_lru-IsValid (qps_size r) (qps_size-positive r) _ refl;
          same_size = refl;
          same_keys = refl;
        };
        window_positive = window;
      },
      refl,
      refl,
    ),
  )
