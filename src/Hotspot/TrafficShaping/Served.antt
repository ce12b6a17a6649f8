-- ===== src/Hotspot/TrafficShaping/Served.antt =====
-- What the reject controller of core/hotspot/traffic_shaping.go lets through, check by check.
use gmiter.Prelude.{
  ℕ, zero, suc, ◌-◌, ◌^◌, ◌≤◌, ◌<◌, ◌≡◌, refl, sym, ap, ◌∙◌, inl, inr, Bool, true, false, none,
  some, List, [], ◌∷◌, ltb, if◌then◌else◌, half64, mod32, add64, sub64, mul64, slt64, arith, take,
  Bool-cases,
}
use gmiter.Prelude.Float.{Float64}
use gmiter.Chain.TokenResult.{GoString}
use gmiter.Hotspot.Lru.{Lru}
use gmiter.Hotspot.Lru
use gmiter.Hotspot.Lru.Entries.{lookup}
use gmiter.Hotspot.Lru.Invariant.{IsValid}
use gmiter.Hotspot.Rule.{Rule}
use gmiter.Hotspot.Controller.{Controller, Message, Outcome, returned, batch_message}
use gmiter.Hotspot.TrafficShaping.{
  block_with, reject_round, reject_from, reject_counters, reject_perform_checking, token_count_of,
}
use gmiter.Hotspot.TrafficShaping.Store.{add_if_absent-missing, add_if_absent-new}
use gmiter.Hotspot.TrafficShaping.Pairing.{reject_loop_eq}
use gmiter.Hotspot.TrafficShaping.Returns.{IsReady, perform_eq, reject_counters-Settled}
use gmiter.Hotspot.TrafficShaping.Bucket.{is_pass, reject_round-Shows}
use mathlib.Core.Path.{subst}
use mathlib.Core.Logic.{if_pos}
use gmiter.Hotspot.TrafficShaping.Rate.{admit}

module _ {K V : Type 0} (dec : Discrete K) (f : Float64) (text : Message → K → GoString)
    (int64_value : ℕ → V) (arg : K) (window max rate : ℕ) where
  -- The controller of a rule with the given numbers for the parameter.
  pub record IsFor (c : Controller K f.F) : Type 0 where
    pub ready : IsReady dec f text int64_value c
    pub rate_eq : token_count_of dec f text int64_value c arg ≡ rate
    pub max_eq : add64 rate c.burst_count ≡ max
    pub window_eq : mul64 c.duration_in_sec 1000 ≡ window

  -- Both caches hold the parameter, or neither does.
  pub record Serves (c : Controller K f.F) (last rest : ℕ) : Type 0 where
    pub is_for : IsFor c
    pub found : lookup dec arg is_for.ready.times.evict_list ≡ some last
    pub found' : lookup dec arg is_for.ready.tokens.evict_list ≡ some rest

  pub record Misses (c : Controller K f.F) : Type 0 where
    pub is_for : IsFor c
    pub gone : lookup dec arg is_for.ready.times.evict_list ≡ none
    pub gone' : lookup dec arg is_for.ready.tokens.evict_list ≡ none

  module _ (positive : 0 < window) (short : window < half64) (some_rate : 0 < rate)
      (small_rate : rate ≤ max) (small_max : max < 2 ^ 20) (batch now : ℕ)
      (small_batch : batch < mod32) (early : now < 2 ^ 42) where
    abbrev checked : Controller K f.F → Controller K f.F × Outcome (Rule K f.F) V
    checked c = reject_perform_checking dec f text int64_value c arg batch (now ∷ [])

    abbrev counted : (c : Controller K f.F) → IsFor c → (Lru K ℕ × Lru K ℕ) × Outcome (Rule K f.F) V
    counted c g =
        reject_counters dec f text int64_value c arg batch g.ready.times g.ready.tokens (now ∷ [])

    counters_eq :
        (c : Controller K f.F) (g : IsFor c)
        → counted c g ≡ (
            if ltb max batch
            then (
              (g.ready.times, g.ready.tokens),
              block_with dec f text int64_value c batch_message arg none,
            )
            else reject_round dec f text int64_value c arg batch rate max now g.ready.times
                g.ready.tokens)
    unfolding reject_counters
    counters_eq c g =
        let some_tokens : slt64 0 rate ≡ true = ground arith in
        let test : slt64 max batch ≡ ltb max batch = ground arith in
        rw
          (
            g.rate_eq,
            some_tokens,
            g.max_eq,
            test,
            reject_loop_eq dec f text int64_value c g.ready.window_positive arg batch rate max now
                [] g.ready.times g.ready.tokens g.ready.paired,
          )
          refl

    -- The caches after a check, for the parameter.
    abbrev Holds : (Lru K ℕ × Lru K ℕ) × Outcome (Rule K f.F) V → (ℕ × ℕ) × Bool → Type 0
    Holds x b =
        (lookup dec arg x.0.0.evict_list ≡ some b.0.0)
        × (lookup dec arg x.0.1.evict_list ≡ some b.0.1)
        × (is_pass x.1 ≡ b.1)

    Serves-counted :
        (c : Controller K f.F) (last rest : ℕ) (s : Serves c last rest)
        → rest ≤ max
        → last ≤ now
        → Holds (counted c s.is_for) (admit window max rate last rest now batch)
    unfolding block_with
    Serves-counted c last rest s small_rest past =
        rw (counters_eq c s.is_for) (elim (Bool-cases (ltb max batch)) [
          | inl big ↦ rw big (s.found, s.found', refl)
          | inr fits ↦ rw fits (
              reject_round-Shows window max rate last rest now batch positive short small_max
                small_rate small_rest (ground arith) early past dec f text int64_value c
                s.is_for.window_eq arg s.is_for.ready.times s.is_for.ready.tokens
                s.is_for.ready.paired s.found s.found')
        ])

    -- A check keeps the numbers of the rule and leaves the caches that the loop left.
    checked-IsFor :
        (c : Controller K f.F) (g : IsFor c)
        → (g' : IsFor (checked c).0) × (g'.ready.times ≡ (counted c g).0.0)
          × (g'.ready.tokens ≡ (counted c g).0.1)
          × ((checked c).1 ≡ (counted c g).1)
    unfolding reject_perform_checking token_count_of
    checked-IsFor c g =
        let settled =
          reject_counters-Settled dec f text int64_value c arg batch now [] g.ready.times
            g.ready.tokens g.ready.window_positive g.ready.paired in
        subst
          (λ y.
            (g' : IsFor y.0) × (g'.ready.times ≡ (counted c g).0.0)
            × (g'.ready.tokens ≡ (counted c g).0.1)
            × (y.1 ≡ (counted c g).1))
          (sym (perform_eq dec f text int64_value c arg _ g.ready))
          (
            record {
              ready = record {
                metric = _;
                times = _;
                tokens = _;
                has_metric = refl;
                has_times = refl;
                has_tokens = refl;
                is_qps = g.ready.is_qps;
                paired = settled.0;
                window_positive = g.ready.window_positive;
              };
              rate_eq = g.rate_eq;
              max_eq = g.max_eq;
              window_eq = g.window_eq;
            },
            refl,
            refl,
            refl,
          )

    -- The check of a controller that holds the parameter is a step of its bucket.
    pub checked-Serves :
        (c : Controller K f.F) (last rest : ℕ)
        → Serves c last rest
        → rest ≤ max
        → last ≤ now
        → Serves
            (checked c).0
            (admit window max rate last rest now batch).0.0
            (admit window max rate last rest now batch).0.1
          × (is_pass (checked c).1 ≡ (admit window max rate last rest now batch).1)
    checked-Serves c last rest s small_rest past =
        let (g, times, tokens, outcome) = checked-IsFor c s.is_for in
        let (time, token, pass) = Serves-counted c last rest s small_rest past in
        (
          record {
            is_for = g;
            found = ap (λ l. lookup dec arg l.evict_list) times ∙ time;
            found' = ap (λ l. lookup dec arg l.evict_list) tokens ∙ token;
          },
          ap is_pass outcome ∙ pass,
        )

    lookup-front :
        (n v : ℕ) (l : List (K × ℕ)) → 0 < n → lookup dec arg (take n ((arg, v) ∷ l)) ≡ some v
    unfolding lookup
    lookup-front zero v l h = absurd (omega arith)
    lookup-front (suc n) v l h = if_pos (dec arg arg) refl _ _

    -- A check that is too large leaves the caches.
    too_large :
        (c : Controller K f.F) (g : IsFor c)
        → ltb max batch ≡ true
        → counted c g ≡ (
          (g.ready.times, g.ready.tokens),
          block_with dec f text int64_value c batch_message arg none,
        )
    too_large c g big = counters_eq c g ∙ rw big refl

    -- Another one of a parameter that is not held puts it in both.
    first_eq :
        (c : Controller K f.F) (s : Misses c)
        → ltb max batch ≡ false
        → counted c s.is_for ≡ (
          (
            (Lru.add_if_absent dec s.is_for.ready.times arg now).0,
            (Lru.add_if_absent dec s.is_for.ready.tokens arg (sub64 max batch)).0,
          ),
          returned none,
        )
    unfolding reject_round reject_from
    first_eq c s fits =
        counters_eq c s.is_for
        ∙ rw
            (
              fits,
              add_if_absent-new dec s.is_for.ready.times s.is_for.ready.paired.times_valid arg now
                  s.gone,
            )
            refl

    put_in_front :
        (l : Lru K ℕ) (v : ℕ)
        → IsValid dec l
        → lookup dec arg l.evict_list ≡ none
        → lookup dec arg (Lru.add_if_absent dec l arg v).0.evict_list ≡ some v
    put_in_front l v valid gone =
        let (_, e, _) = add_if_absent-missing dec l valid arg v gone in
        ap (lookup dec arg) e ∙ lookup-front l.size v l.evict_list valid.positive

    pub too_large-Misses :
        (c : Controller K f.F)
        → Misses c
        → ltb max batch ≡ true
        → Misses (checked c).0 × (is_pass (checked c).1 ≡ false)
    unfolding block_with
    too_large-Misses c s big =
        let (g, times, tokens, outcome) = checked-IsFor c s.is_for in
        let e = too_large c s.is_for big in
        (
          record {
            is_for = g;
            gone = ap (λ l. lookup dec arg l.evict_list) (times ∙ ap (λ x. x.0.0) e) ∙ s.gone;
            gone' = ap (λ l. lookup dec arg l.evict_list) (tokens ∙ ap (λ x. x.0.1) e) ∙ s.gone';
          },
          ap is_pass (outcome ∙ ap (λ x. x.1) e),
        )

    -- The first check that is not too large fills the bucket.
    pub first-Serves :
        (c : Controller K f.F)
        → Misses c
        → ltb max batch ≡ false
        → Serves (checked c).0 now (max - batch) × (is_pass (checked c).1 ≡ true)
    first-Serves c s fits =
        let (g, times, tokens, outcome) = checked-IsFor c s.is_for in
        let e = first_eq c s fits in
        let left : sub64 max batch ≡ max - batch = ground arith in
        (
          record {
            is_for = g;
            found =
                ap (λ l. lookup dec arg l.evict_list) (times ∙ ap (λ x. x.0.0) e)
                ∙ put_in_front s.is_for.ready.times now s.is_for.ready.paired.times_valid s.gone;
            found' =
                ap (λ l. lookup dec arg l.evict_list) (tokens ∙ ap (λ x. x.0.1) e)
                ∙ put_in_front s.is_for.ready.tokens (sub64 max batch)
                    s.is_for.ready.paired.tokens_valid s.gone'
                ∙ ap some left;
          },
          ap is_pass (outcome ∙ ap (λ x. x.1) e),
        )
