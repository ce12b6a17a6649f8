-- ===== src/Hotspot/TrafficShaping/Bucket.antt =====
-- The reject controller of core/hotspot/traffic_shaping.go as a token bucket for each parameter.
use gmiter.Prelude.{
  ℕ, ◌+◌, ◌-◌, ◌*◌, ◌/◌, ◌^◌, ◌≤◌, ◌<◌, ◌≡◌, refl, sym, ◌∙◌, inl, inr, Bool, true, false, not, none,
  some, ltb, leb, ◌==◌, if◌then◌else◌, half64, add64, sub64, mul64, sdiv64, slt64, arith,
  Bool-cases, leb→le, ==_of_pos, if_intro,
}
use gmiter.Prelude.Float.{Float64}
use gmiter.Chain.TokenResult.{GoString}
use gmiter.Hotspot.Lru.{Lru}
use gmiter.Hotspot.Lru.Entries.{lookup}
use gmiter.Hotspot.Lru.Recency.{touch, get_lem}
use gmiter.Hotspot.Rule.{Rule}
use gmiter.Hotspot.Controller.{store, assign, Controller, Message, Outcome, returned}
use gmiter.Hotspot.TrafficShaping.{
  block_with, refill, spend, reject_round, refilled, refill_from, spend_from, reject_from,
}
use gmiter.Hotspot.TrafficShaping.Store.{lookup-assign, add_if_absent-held, lookup-touch}
use gmiter.Hotspot.TrafficShaping.Pairing.{ArePaired}
use mathlib.Core.Logic.{if_pos}
use mathlib.Core.Path.{subst}
use native.Mathlib.Nat.{mul-le-mul_right, div-le_self}

-- The time of the last refill, the tokens left, and whether a request of `batch` tokens is let through.
abbrev pub bucket : (window max rate last rest now batch : ℕ) → (ℕ × ℕ) × Bool
bucket window max rate last rest now batch =
    let added = (now - last) * rate / window in
    if ltb window (now - last)
    then (let filled = (if ltb max (added + rest) then max else added + rest) in
        if leb batch filled then ((now, filled - batch), true) else ((last, rest), false))
    else if leb batch rest
    then ((last, rest - batch), true)
    else ((last, rest), false)

abbrev pub is_pass : {R V : Type 0} → Outcome R V → Bool
is_pass (returned none) = true
is_pass _ = false

module _ (window max rate last rest now batch : ℕ) (positive : 0 < window) (short : window < half64)
    (small_max : max < 2 ^ 20) (small_rate : rate ≤ max) (small_rest : rest ≤ max)
    (small_batch : batch ≤ max) (early : now < 2 ^ 42) (past : last ≤ now) where
  product_lt : (now - last) * rate < 2 ^ 62
  product_lt =
      let k : (now - last) * rate ≤ 2 ^ 42 * rate = mul-le-mul_right rate (omega arith) in
      omega arith

  added_eq : sdiv64 (mul64 (sub64 now last) rate) window ≡ (now - last) * rate / window
  added_eq =
      let e : sub64 now last ≡ now - last = omega arith in
      let p : mul64 (now - last) rate ≡ (now - last) * rate = omega (arith, product_lt) in
      let l : ltb ((now - last) * rate) half64 ≡ true = ground (arith, product_lt) in
      let w : ltb window half64 ≡ true = ground arith in rw (e, p, l, w) refl

  added_lt : (now - last) * rate / window < 2 ^ 62
  added_lt = omega (arith, product_lt, div-le_self ((now - last) * rate) window)

  abbrev filled : ℕ
  filled =
      let added = (now - last) * rate / window in
      if ltb max (added + rest) then max else added + rest

  filled_le : filled ≤ max
  filled_le = ground arith

  -- A difference is below 0 where the subtrahend is the larger.
  below : (a : ℕ) → a ≤ max → slt64 (sub64 a batch) 0 ≡ not (leb batch a)
  below a h = ground arith

  above : (a : ℕ) → a ≤ max → leb batch a ≡ true → sub64 a batch ≡ a - batch
  above a h e = let l : batch ≤ a = leb→le batch a e in omega arith

  module _ {K V : Type 0} (dec : Discrete K) (f : Float64) (text : Message → K → GoString)
      (int64_value : ℕ → V) where
    refilled_eq :
        refilled dec f text int64_value max rate batch window (sub64 now last) rest
        ≡ sub64 filled batch
    unfolding refilled
    refilled_eq =
        let sum : add64 ((now - last) * rate / window) rest ≡ (now - last) * rate / window + rest =
          omega (arith, added_lt) in
        let test : slt64 max ((now - last) * rate / window + rest)
            ≡ ltb max ((now - last) * rate / window + rest) =
          ground (arith, added_lt) in
        rw (added_eq, sum, test) (ground arith)

    module _ (c : Controller K f.F) (is_window : mul64 c.duration_in_sec 1000 ≡ window) (arg : K)
        (times tokens : Lru K ℕ) (p : ArePaired dec times tokens)
        (found : lookup dec arg times.evict_list ≡ some last)
        (found' : lookup dec arg tokens.evict_list ≡ some rest) where
      -- What the caches hold for the parameter, and whether the request was let through.
      abbrev pub Shows : (Lru K ℕ × Lru K ℕ) × Outcome (Rule K f.F) V → (ℕ × ℕ) × Bool → Type 0
      Shows x b =
          (lookup dec arg x.0.0.evict_list ≡ some b.0.0)
          × (lookup dec arg x.0.1.evict_list ≡ some b.0.1)
          × (is_pass x.1 ≡ b.1)

      touched_time : lookup dec arg (touch dec arg last times.evict_list) ≡ some last
      touched_time = lookup-touch dec times p.times_valid arg arg last found ∙ found

      touched_tokens : lookup dec arg (touch dec arg rest tokens.evict_list) ≡ some rest
      touched_tokens = lookup-touch dec tokens p.tokens_valid arg arg rest found' ∙ found'

      stored_time :
          (v : ℕ) → lookup dec arg (assign dec arg v (touch dec arg last times.evict_list)) ≡ some v
      stored_time v =
          lookup-assign dec arg arg v last _ touched_time ∙ if_pos (dec arg arg) refl _ _

      stored_tokens :
          (v : ℕ)
          → lookup dec arg (assign dec arg v (touch dec arg rest tokens.evict_list)) ≡ some v
      stored_tokens v =
          lookup-assign dec arg arg v rest _ touched_tokens ∙ if_pos (dec arg arg) refl _ _

      refill-Shows :
          ltb window (now - last) ≡ true
          → Shows
              (refill dec f text int64_value c arg batch rate max now
                (record times { evict_list = touch dec arg last times.evict_list })
                tokens
                last)
              (bucket window max rate last rest now batch)
      unfolding refill refill_from block_with store
      refill-Shows passed =
          let some_window : (window == 0) ≡ false = ==_of_pos window positive in
          rw
            (
              refill,
              add_if_absent-held dec tokens p.tokens_valid arg _ rest found',
              is_window,
              some_window,
              refilled_eq,
              below filled filled_le,
              passed,
            )
            (elim (Bool-cases (leb batch filled)) [
              | inl enough ↦
                  rw (enough, above filled filled_le enough)
                    (stored_time now, stored_tokens (filled - batch), refl)
              | inr few ↦ rw few (touched_time, touched_tokens, refl)
            ])

      spend-Shows :
          ltb window (now - last) ≡ false
          → Shows
              (spend dec f text int64_value c arg batch rate max now
                (record times { evict_list = touch dec arg last times.evict_list })
                tokens)
              (bucket window max rate last rest now batch)
      unfolding spend spend_from block_with store
      spend-Shows within =
          rw
            (
              spend,
              get_lem dec tokens p.tokens_valid arg rest found',
              below rest small_rest,
              within,
            )
            (elim (Bool-cases (leb batch rest)) [
              | inl enough ↦
                  rw (enough, above rest small_rest enough)
                    (touched_time, stored_tokens (rest - batch), refl)
              | inr few ↦ rw few (touched_time, touched_tokens, refl)
            ])

      round_eq : reject_round dec f text int64_value c arg batch rate max now times tokens ≡ (
          let times' : Lru K ℕ = record times {
            evict_list = touch dec arg last times.evict_list;
          } in
          if ltb window (now - last)
          then refill dec f text int64_value c arg batch rate max now times' tokens last
          else spend dec f text int64_value c arg batch rate max now times' tokens)
      unfolding reject_round reject_from
      round_eq =
          let elapsed : sub64 now last ≡ now - last = omega arith in
          let test : slt64 window (now - last) ≡ ltb window (now - last) = ground arith in
          rw
            (
              reject_round,
              add_if_absent-held dec times p.times_valid arg now last found,
              is_window,
              elapsed,
              test,
            )
            refl

      -- A round of the loop is a step of the bucket.
      pub reject_round-Shows :
          Shows
            (reject_round dec f text int64_value c arg batch rate max now times tokens)
            (bucket window max rate last rest now batch)
      reject_round-Shows =
          subst (λ x. Shows x (bucket window max rate last rest now batch)) (sym round_eq)
            (if_intro (λ x. Shows x (bucket window max rate last rest now batch))
              (ltb window (now - last)) _ _ refill-Shows spend-Shows)
