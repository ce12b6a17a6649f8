-- ===== src/Hotspot/TrafficShaping/Granted.antt =====
-- The total that the reject controller of core/hotspot/traffic_shaping.go lets through for a parameter.
use gmiter.Prelude.{
  ℕ, ◌+◌, ◌-◌, ◌*◌, ◌^◌, ◌≤◌, ◌<◌, ◌≡◌, sym, ap, ◌∙◌, inl, inr, false, some, List, [], ◌∷◌, ltb,
  ◌==◌, if◌then◌else◌, half64, mod32, add64, mul64, arith, Bool-cases, some_inj,
}
use gmiter.Prelude.Float.{Float64}
use gmiter.Chain.TokenResult.{GoString}
use gmiter.Hotspot.Lru.Entries.{lookup}
use gmiter.Hotspot.Rule.{Rule, qps}
use gmiter.Hotspot.Controller.{Controller, Message, new_base_traffic_shaping_controller}
use gmiter.Hotspot.TrafficShaping.{reject_perform_checking, token_count_of}
use gmiter.Hotspot.TrafficShaping.Returns.{new-IsReady}
use gmiter.Hotspot.TrafficShaping.Bucket.{is_pass}
use gmiter.Hotspot.TrafficShaping.Rate.{admit-IsPaid, admit, granted_by}
use gmiter.Hotspot.TrafficShaping.Served.{
  Serves, Misses, checked-Serves, too_large-Misses, first-Serves,
}
use native.Mathlib.Nat.{mul-le-mul_right, add-mul}

-- Requests for one parameter, each a batch and its time, that do not go back, from `start` to `end`.
abbrev pub InOrder : (start end : ℕ) → List (ℕ × ℕ) → Type 0
InOrder start end [] = start ≤ end
InOrder start end ((batch, now) ∷ requests) =
    (start ≤ now) × (batch < mod32) × InOrder now end requests

InOrder-le : (requests : List (ℕ × ℕ)) (start end : ℕ) → InOrder start end requests → start ≤ end
InOrder-le [] start end o = o
InOrder-le ((batch, now) ∷ requests) start end (le, _, o) =
    omega (arith, InOrder-le requests now end o)

-- Two spans of time one after the other.
spans :
    (rate last mid end : ℕ)
    → last ≤ mid
    → mid ≤ end
    → (end - mid) * rate + (mid - last) * rate ≡ (end - last) * rate
spans rate last mid end h k =
    let e : end - mid + (mid - last) ≡ end - last = omega arith in
    sym (add-mul (end - mid) (mid - last) rate) ∙ ap (λ n. n * rate) e

module _ {K V : Type 0} (dec : Discrete K) (f : Float64) (text : Message → K → GoString)
    (int64_value : ℕ → V) (arg : K) where
  -- The batches let through, added up.
  abbrev pub granted : Controller K f.F → List (ℕ × ℕ) → ℕ
  granted c [] = 0
  granted c ((batch, now) ∷ requests) =
      let (c', o) = reject_perform_checking dec f text int64_value c arg batch (now ∷ []) in
      (if is_pass o then batch else 0) + granted c' requests

  module _ (window max rate : ℕ) (positive : 0 < window) (short : window < half64)
      (some_rate : 0 < rate) (small_rate : rate ≤ max) (small_max : max < 2 ^ 20) (end : ℕ)
      (early : end < 2 ^ 42) where
    granted-Serves :
        (requests : List (ℕ × ℕ)) (c : Controller K f.F) (last rest start : ℕ)
        → Serves dec f text int64_value arg window max rate c last rest
        → rest ≤ max
        → last ≤ start
        → InOrder start end requests
        → granted c requests * window ≤ rest * window + (end - last) * rate
    granted-Serves [] c last rest start s small past o = omega arith
    granted-Serves ((batch, now) ∷ requests) c last rest start s small past (le, fits, o) =
        let in_time : now ≤ end = InOrder-le requests now end o in
        let (s', pass) =
          checked-Serves dec f text int64_value arg window max rate positive short some_rate
            small_rate small_max batch now fits (omega arith) c last rest s small (omega arith) in
        let paid = admit-IsPaid window max rate last rest now batch small (omega arith) in
        let later = granted-Serves requests _ _ _ now s' paid.small paid.early o in
        rw pass (
          omega (
            arith,
            later,
            paid.paid,
            spans rate last (admit window max rate last rest now batch).0.0 end paid.later
                (omega (arith, paid.early)),
            add-mul (granted_by (admit window max rate last rest now batch) batch) _ window,
          ))

    granted-Misses :
        (requests : List (ℕ × ℕ)) (c : Controller K f.F) (start : ℕ)
        → Misses dec f text int64_value arg window max rate c
        → InOrder start end requests
        → granted c requests * window ≤ max * window + (end - start) * rate
    granted-Misses [] c start s o = omega arith
    granted-Misses ((batch, now) ∷ requests) c start s (le, fits, o) =
        let in_time : now ≤ end = InOrder-le requests now end o in
        let sooner : (end - now) * rate ≤ (end - start) * rate =
          mul-le-mul_right rate (omega arith) in
        elim (Bool-cases (ltb max batch)) [
          | inl big ↦
              let (s', pass) =
                too_large-Misses dec f text int64_value arg window max rate positive short some_rate
                  small_rate small_max batch now fits (omega arith) c s big in
              let later = granted-Misses requests _ now s' o in rw pass (omega (arith, later))
          | inr small ↦
              let (s', pass) =
                first-Serves dec f text int64_value arg window max rate positive short some_rate
                  small_rate small_max batch now fits (omega arith) c s small in
              let later =
                granted-Serves requests _ now (max - batch) now s' (omega arith) (omega arith) o in
              let k : batch ≤ max = ground arith in
              let whole : (max - batch + batch) * window ≡ max * window =
                ap (λ n. n * window) (omega arith) in
              rw pass
                (omega (arith, later, add-mul batch _ window, add-mul (max - batch) batch window))
        ]

  -- Of a sequence of requests that are all for one parameter, with no other parameter in between, a new
  -- reject controller lets through between two times no more than its threshold for that parameter and its
  -- burst and what the threshold per window amounts to over that time: the threshold is positive, it and the
  -- burst together are below 2 ^ 20, the window is positive and below 2 ^ 63 ms, the clock does not go back
  -- and is below 2 ^ 42.
  pub reject_grants :
      (r : Rule K f.F) (c : Controller K f.F) (requests : List (ℕ × ℕ)) (start end rate : ℕ)
      → r.metric_type ≡ qps
      → new_base_traffic_shaping_controller r ≡ some c
      → token_count_of dec f text int64_value c arg ≡ rate
      → 0 < rate
      → rate + r.burst_count < 2 ^ 20
      → 0 < r.duration_in_sec
      → r.duration_in_sec * 1000 < half64
      → end < 2 ^ 42
      → InOrder start end requests
      → granted c requests * (r.duration_in_sec * 1000)
        ≤ (rate + r.burst_count) * (r.duration_in_sec * 1000) + (end - start) * rate
  unfolding lookup
  reject_grants r c requests start end rate is_qps made rate_eq some_rate small some_window short
        early o =
      let window_eq : mul64 r.duration_in_sec 1000 ≡ r.duration_in_sec * 1000 = omega arith in
      let window_pos : (r.duration_in_sec * 1000 == 0) ≡ false = ground arith in
      let (c', made', _, burst, window, (ready, empty, empty')) =
        new-IsReady dec f text int64_value r is_qps (rw window_eq window_pos) in
      let same : c' ≡ c = some_inj _ _ (sym made' ∙ made) in
      let misses : Misses dec f text int64_value arg (r.duration_in_sec * 1000)
          (rate + r.burst_count) rate c' =
        record {
          is_for = record {
            ready = ready;
            rate_eq = ap (λ x. token_count_of dec f text int64_value x arg) same ∙ rate_eq;
            max_eq = ap (add64 rate) burst ∙ omega arith;
            window_eq = ap (λ n. mul64 n 1000) window ∙ window_eq;
          };
          gone = ap (lookup dec arg) empty;
          gone' = ap (lookup dec arg) empty';
        } in
      rw (← same) (
        granted-Misses (r.duration_in_sec * 1000) (rate + r.burst_count) rate (omega arith) short
          some_rate (omega arith) small end early requests c' start misses o)
