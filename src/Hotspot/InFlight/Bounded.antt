-- ===== src/Hotspot/InFlight/Bounded.antt =====
-- The number of calls in flight with one value under a concurrency rule of core/hotspot.
use gmiter.Prelude.{
  ℕ, zero, suc, ◌-◌, ◌^◌, ◌≤◌, ◌<◌, ◌≡◌, refl, sym, ap, ◌∙◌, inl, inr, true, Option, none, some,
  List, [], ◌∷◌, ltb, leb, if◌then◌else◌, mod64, add64, slt64, arith, take, Bool-cases, some_inj,
}
use gmiter.Prelude.Float.{Float64}
use gmiter.Chain.TokenResult.{GoString}
use gmiter.Hotspot.Lru
use gmiter.Hotspot.Lru.{Lru}
use gmiter.Hotspot.Lru.Entries.{lookup}
use gmiter.Hotspot.Lru.Invariant.{IsValid}
use gmiter.Hotspot.Lru.Recency.{touch, get_lem, get-IsValid}
use gmiter.Hotspot.Lru.Runs.{add_if_absent-IsValid}
use gmiter.Hotspot.Rule.{Rule, concurrency}
use gmiter.Hotspot.Controller.{
  Controller, Message, new_base_traffic_shaping_controller, new_lru_cache_map,
  new_base_traffic_shaping_controller_with_metric, concurrency_max_count,
}
use gmiter.Hotspot.TrafficShaping.{concurrency_from, check_concurrency}
use gmiter.Hotspot.TrafficShaping.Store.{
  add_if_absent-held, add_if_absent-new, add_if_absent-missing, lookup-touch,
}
use gmiter.Hotspot.TrafficShaping.Bucket.{is_pass}
use mathlib.Core.Logic.{if_pos}
use mathlib.Core.Path.{subst}
use gmiter.Hotspot.TrafficShaping.Returns.{new_lru_eq, new_lru-IsValid}
use gmiter.Hotspot.InFlight.{
  limit_of, Move, enter, leave, with_number, move, in_flight, Counts, answered, count_one-Counts,
  check_eq, check_concurrency-is_pass,
}

module _ {K V : Type 0} (dec : Discrete K) (f : Float64) (text : Message → K → GoString)
    (int64_value : ℕ → V) (arg : K) where
  module _ (limit : ℕ) (small : limit < 2 ^ 62) where
    -- One call is let through even where the limit is 0.
    abbrev pub most : ℕ
    most = if ltb limit 1 then 1 else limit

    lookup-front :
        (n v : ℕ) (l : List (K × ℕ)) → 0 < n → lookup dec arg (take n ((arg, v) ∷ l)) ≡ some v
    unfolding lookup
    lookup-front zero v l h = absurd (omega arith)
    lookup-front (suc n) v l h = if_pos (dec arg arg) refl _ _

    -- After the check the value is in the cache, with the same count.
    check-Counts :
        (c : Controller K f.F) (n : ℕ)
        → n ≤ most
        → (s : Counts dec f text int64_value arg limit c n)
        → ((s' : Counts dec f text int64_value arg limit
              (record c { metric = some (answered dec f text int64_value arg limit small c n s).0 })
              n)
            × (lookup dec arg s'.counter.evict_list ≡ some n))
          × (is_pass (answered dec f text int64_value arg limit small c n s).1 ≡ true
              → suc n ≤ most)
    unfolding concurrency_from
    check-Counts c n le s = elim s.count [
      | inl found ↦
          let touched : lookup dec arg (touch dec arg n s.counter.evict_list) ≡ some n =
            lookup-touch dec s.counter s.valid arg arg n found ∙ found in
          let more : add64 n 1 ≡ suc n = ground arith in
          let lets : is_pass (check_concurrency dec f text int64_value c arg (suc n))
              ≡ leb (suc n) limit =
            check_concurrency-is_pass dec f text int64_value arg limit small c (suc n)
              (ground arith) s.has_limit in
          rw (add_if_absent-held dec s.counter s.valid arg 0 n found) (
            (
              record {
                metric = _;
                counter = _;
                has_metric = refl;
                has_counter = refl;
                is_concurrency = s.is_concurrency;
                for_concurrency = s.for_concurrency;
                valid =
                    subst (IsValid dec) (ap (λ x. x.0) (get_lem dec s.counter s.valid arg n found))
                      (get-IsValid dec s.counter s.valid arg);
                has_limit = s.has_limit;
                count = inl touched;
              },
              touched,
            ),
            rw more (rw lets (λ h. ground (arith, h))),
          )
      | inr (gone, none_in) ↦
          let (_, e, _) = add_if_absent-missing dec s.counter s.valid arg 0 gone in
          let there : lookup dec arg (Lru.add_if_absent dec s.counter arg 0).0.evict_list ≡ some n =
            ap (lookup dec arg) e
            ∙ lookup-front s.counter.size 0 s.counter.evict_list s.valid.positive
            ∙ ap some (sym none_in) in
          rw (add_if_absent-new dec s.counter s.valid arg 0 gone) (
            (
              record {
                metric = _;
                counter = _;
                has_metric = refl;
                has_counter = refl;
                is_concurrency = s.is_concurrency;
                for_concurrency = s.for_concurrency;
                valid = add_if_absent-IsValid dec s.counter arg 0 s.valid;
                has_limit = s.has_limit;
                count = inl there;
              },
              there,
            ),
            λ _. ground (arith, none_in),
          )
    ]

    -- A move keeps the count right and the number in flight within the limit.
    abbrev Moved : Option (Controller K f.F × ℕ) → Type 0
    Moved o =
        (c' : Controller K f.F) × (n' : ℕ) × (o ≡ some (c', n'))
        × Counts dec f text int64_value arg limit c' n'
        × (n' ≤ most)

    move-Moved :
        (m : Move) (c : Controller K f.F) (n : ℕ)
        → n ≤ most
        → Counts dec f text int64_value arg limit c n
        → Moved (move dec f text int64_value arg m c n)
    unfolding move
    move-Moved enter c n le s =
        let ((s', held), room) = check-Counts c n le s in
        rw (check_eq dec f text int64_value arg limit small c n s)
          (elim (Bool-cases (is_pass (answered dec f text int64_value arg limit small c n s).1)) [
            | inr stopped ↦ rw stopped (_, n, refl, s', le)
            | inl passed ↦
                let (c', e, s'') =
                  count_one-Counts dec f text int64_value arg limit small 1 n _ s' held in
                let more : add64 n 1 ≡ suc n = ground arith in
                rw passed (
                  c',
                  suc n,
                  ap (with_number dec f text int64_value arg (suc n)) e,
                  subst (Counts dec f text int64_value arg limit c') more s'',
                  room passed,
                )
          ])
    move-Moved leave c zero le s = (c, 0, refl, s, le)
    move-Moved leave c (suc n) le s = elim s.count [
      | inl held ↦
          (let (c', e, s') =
              count_one-Counts dec f text int64_value arg limit small (mod64 - 1) (suc n) c s
                held in
            let less : add64 (suc n) (mod64 - 1) ≡ n = ground arith in
            (
              c',
              n,
              ap (with_number dec f text int64_value arg n) e,
              subst (Counts dec f text int64_value arg limit c') less s',
              omega arith,
            ))
      | inr (_, none_in) ↦ absurd (omega (arith, none_in))
    ]

    abbrev pub AllWithin : List ℕ → Type 0
    AllWithin [] = Unit
    AllWithin (n ∷ ns) = (n ≤ most) × AllWithin ns

    -- From a counter that is right, whatever calls come and end, every one of them is counted without a
    -- panic, and the number in flight with the value stays within the limit, or 1 where the limit is 0.
    pub in_flight_lem :
        (moves : List Move) (c : Controller K f.F) (n : ℕ)
        → n ≤ most
        → Counts dec f text int64_value arg limit c n
        → (ns : List ℕ) × (in_flight dec f text int64_value arg moves c n ≡ some ns) × AllWithin ns
    unfolding in_flight
    in_flight_lem [] c n le s = ([], refl, tt)
    in_flight_lem (m ∷ moves) c n le s =
        let (c', n', e, s', le') = move-Moved m c n le s in
        let (ns, e', within) = in_flight_lem moves c' n' le' s' in
        (n' ∷ ns, rw (e, in_flight) (rw (e', in_flight) refl), (le', within))

    -- A new controller of a concurrency rule, on one goroutine: whatever calls with one value come and
    -- end, each is checked and counted without a panic, and the number in flight with the value stays
    -- within its limit, or within 1 where the limit is 0.
    pub new_in_flight :
        (r : Rule K f.F) (c : Controller K f.F) (moves : List Move)
        → r.metric_type ≡ concurrency
        → new_base_traffic_shaping_controller r ≡ some c
        → limit_of dec f text int64_value arg c ≡ limit
        → (ns : List ℕ) × (in_flight dec f text int64_value arg moves c 0 ≡ some ns) × AllWithin ns
    unfolding new_base_traffic_shaping_controller new_base_traffic_shaping_controller_with_metric
        lookup
    new_in_flight r c moves for_concurrency made has_limit =
        let size =
          (if slt64 0 r.params_max_capacity
            then r.params_max_capacity
            else concurrency_max_count) in
        let positive : slt64 0 size ≡ true = ground arith in
        let fresh : Controller K f.F = new_base_traffic_shaping_controller_with_metric r (
          some (record {
            rule_time_counter = none;
            rule_token_counter = none;
            concurrent_counter = new_lru_cache_map size;
          })) in
        let made' : new_base_traffic_shaping_controller r ≡ some fresh = rw for_concurrency refl in
        let same : c ≡ fresh = some_inj _ _ (sym made ∙ made') in
        let counts : Counts dec f text int64_value arg limit fresh 0 = record {
          metric = _;
          counter = _;
          has_metric = refl;
          has_counter = new_lru_eq dec f text int64_value size positive;
          is_concurrency = for_concurrency;
          for_concurrency = for_concurrency;
          valid = new_lru-IsValid dec f text int64_value size positive _ refl;
          has_limit = ap (limit_of dec f text int64_value arg) (sym same) ∙ has_limit;
          count = inr (refl, refl);
        } in
        rw same (in_flight_lem moves fresh 0 (omega arith) counts)
