-- ===== src/Hotspot/TrafficShaping/Pairing.antt =====
-- The two caches of the reject controller of core/hotspot/traffic_shaping.go hold the same parameters.
use gmiter.Prelude.{
  ℕ, ◌≡◌, refl, sym, ap, ◌∙◌, ◌⊎◌, inl, inr, false, Option, none, some, List, ◌∷◌, ◌==◌, sub64,
  mul64, slt64, Bool-cases,
}
use gmiter.Prelude.Float.{Float64}
use gmiter.Chain.TokenResult.{TokenResult, GoString}
use gmiter.Hotspot.Lru
use gmiter.Hotspot.Lru.{Lru}
use gmiter.Hotspot.Lru.Entries.{lookup, is_some}
use gmiter.Hotspot.Lru.Invariant.{IsValid}
use gmiter.Hotspot.Lru.Recency.{touch, get_lem, get-IsValid}
use gmiter.Hotspot.Lru.Runs.{add_if_absent-IsValid}
use gmiter.Hotspot.Rule.{Rule}
use gmiter.Hotspot.Controller.{store, Controller, Message, Outcome, returned, spinning}
use gmiter.Hotspot.TrafficShaping.{
  block_with, refill, spend, reject_round, reject_loop, refilled, refill_from, spend_from,
  reject_from,
}
use gmiter.Hotspot.TrafficShaping.Store.{
  keys, keys-assign, store-IsValid, held-keys, keys-remove, keys-take, add_if_absent-held,
  add_if_absent-missing, add_if_absent-new,
}
use mathlib.Core.Path.{subst}

module _ {K : Type 0} (dec : Discrete K) where
  pub record ArePaired (times tokens : Lru K ℕ) : Type 0 where
    pub times_valid : IsValid dec times
    pub tokens_valid : IsValid dec tokens
    pub same_size : times.size ≡ tokens.size
    pub same_keys : keys dec times.evict_list ≡ keys dec tokens.evict_list

  pub is_some-cases :
      (o p : Option ℕ)
      → is_some o ≡ is_some p
      → (o ≡ none) × (p ≡ none) ⊎ ((a : ℕ) × (b : ℕ) × (o ≡ some a) × (p ≡ some b))
  is_some-cases none none e = inl (refl, refl)
  is_some-cases none (some b) e = cc
  is_some-cases (some a) none e = cc
  is_some-cases (some a) (some b) e = inr (a, b, refl, refl)

  module _ (times tokens : Lru K ℕ) (p : ArePaired times tokens) where
    pub paired-cases :
        (k : K)
        → (lookup dec k times.evict_list ≡ none) × (lookup dec k tokens.evict_list ≡ none)
          ⊎ ((last : ℕ) × (rest : ℕ) × (lookup dec k times.evict_list ≡ some last)
              × (lookup dec k tokens.evict_list ≡ some rest))
    paired-cases k =
        is_some-cases (lookup dec k times.evict_list) (lookup dec k tokens.evict_list)
          (held-keys dec k times.evict_list tokens.evict_list p.same_keys)

    pub store_times : (k : K) (v : ℕ) → ArePaired (store dec times k v) tokens
    unfolding store
    store_times k v = record {
      times_valid = store-IsValid dec times k v p.times_valid;
      tokens_valid = p.tokens_valid;
      same_size = p.same_size;
      same_keys = keys-assign dec k v times.evict_list ∙ p.same_keys;
    }

    pub store_tokens : (k : K) (v : ℕ) → ArePaired times (store dec tokens k v)
    unfolding store
    store_tokens k v = record {
      times_valid = p.times_valid;
      tokens_valid = store-IsValid dec tokens k v p.tokens_valid;
      same_size = p.same_size;
      same_keys = p.same_keys ∙ sym (keys-assign dec k v tokens.evict_list);
    }

    -- A new parameter is put in front of both, and the oldest falls out of both.
    pub missing-ArePaired :
        (k : K) (a b : ℕ)
        → lookup dec k times.evict_list ≡ none
        → lookup dec k tokens.evict_list ≡ none
        → ArePaired (Lru.add_if_absent dec times k a).0 (Lru.add_if_absent dec tokens k b).0
    missing-ArePaired k a b gone gone' =
        let (_, l, s) = add_if_absent-missing dec times p.times_valid k a gone in
        let (_, l', s') = add_if_absent-missing dec tokens p.tokens_valid k b gone' in
        record {
          times_valid = add_if_absent-IsValid dec times k a p.times_valid;
          tokens_valid = add_if_absent-IsValid dec tokens k b p.tokens_valid;
          same_size = s ∙ p.same_size ∙ sym s';
          same_keys =
              rw (l, l', p.same_size)
                (keys-take dec tokens.size ((k, a) ∷ times.evict_list) ((k, b) ∷ tokens.evict_list)
                  (ap (◌∷◌ k) p.same_keys));
        }

    -- A parameter that both hold is put in front of both.
    pub held-ArePaired :
        (k : K) (a b : ℕ)
        → lookup dec k times.evict_list ≡ some a
        → lookup dec k tokens.evict_list ≡ some b
        → ArePaired
            (record times { evict_list = touch dec k a times.evict_list })
            (record tokens { evict_list = touch dec k b tokens.evict_list })
    held-ArePaired k a b found found' = record {
      times_valid =
          subst (IsValid dec) (ap (λ x. x.0) (get_lem dec times p.times_valid k a found))
            (get-IsValid dec times p.times_valid k);
      tokens_valid =
          subst (IsValid dec) (ap (λ x. x.0) (get_lem dec tokens p.tokens_valid k b found'))
            (get-IsValid dec tokens p.tokens_valid k);
      same_size = p.same_size;
      same_keys = ap (◌∷◌ k) (keys-remove dec k times.evict_list tokens.evict_list p.same_keys);
    }

module _ {K V : Type 0} (dec : Discrete K) (f : Float64) (text : Message → K → GoString)
    (int64_value : ℕ → V) where
  -- The caches are paired still, and there is a result.
  abbrev pub Settled : (Lru K ℕ × Lru K ℕ) × Outcome (Rule K f.F) V → Type 0
  Settled x =
      ArePaired dec x.0.0 x.0.1 × ((r : Option (TokenResult (Rule K f.F) V)) × (x.1 ≡ returned r))

  module _ (c : Controller K f.F) (window_pos : (mul64 c.duration_in_sec 1000 == 0) ≡ false)
      (arg : K) (batch token_count max_count now : ℕ) (times tokens : Lru K ℕ)
      (p : ArePaired dec times tokens) where
    refill-Settled :
        (last rest : ℕ)
        → (found : lookup dec arg times.evict_list ≡ some last)
        → (found' : lookup dec arg tokens.evict_list ≡ some rest)
        → Settled (
            refill dec f text int64_value c arg batch token_count max_count now
              (record times { evict_list = touch dec arg last times.evict_list })
              tokens
              last)
    unfolding refill refill_from block_with
    refill-Settled last rest found found' =
        let q = held-ArePaired dec times tokens p arg last rest found found' in
        rw (refill, add_if_absent-held dec tokens p.tokens_valid arg _ rest found', window_pos)
          (elim (Bool-cases (
            slt64
              (refilled dec f text int64_value max_count token_count batch
                (mul64 c.duration_in_sec 1000) (sub64 now last) rest)
              0)) [
                | inl low ↦ rw low (q, (_, refl))
                | inr enough ↦
                    rw enough
                      (store_times dec _ _ (store_tokens dec _ _ q arg _) arg now, (_, refl))
              ])

    spend-Settled :
        (last rest : ℕ)
        → (found : lookup dec arg times.evict_list ≡ some last)
        → (found' : lookup dec arg tokens.evict_list ≡ some rest)
        → Settled (
            spend dec f text int64_value c arg batch token_count max_count now
              (record times { evict_list = touch dec arg last times.evict_list })
              tokens)
    unfolding spend spend_from block_with
    spend-Settled last rest found found' =
        let q = held-ArePaired dec times tokens p arg last rest found found' in
        rw (spend, get_lem dec tokens p.tokens_valid arg rest found')
          (elim (Bool-cases (slt64 (sub64 rest batch) 0)) [
            | inl low ↦ rw low (q, (_, refl))
            | inr enough ↦ rw enough (store_tokens dec _ _ q arg _, (_, refl))
          ])

    -- A round of the loop gives a result, and leaves the caches paired.
    pub reject_round-Settled :
        Settled
          (reject_round dec f text int64_value c arg batch token_count max_count now times tokens)
    unfolding reject_round reject_from
    reject_round-Settled = elim (paired-cases dec times tokens p arg) [
      | inl (gone, gone') ↦
          rw (reject_round, add_if_absent-new dec times p.times_valid arg now gone)
            (missing-ArePaired dec times tokens p arg now _ gone gone', (_, refl))
      | inr (last, rest, found, found') ↦
          rw (reject_round, add_if_absent-held dec times p.times_valid arg now last found)
            (elim (Bool-cases (slt64 (mul64 c.duration_in_sec 1000) (sub64 now last))) [
              | inl passed ↦ rw passed (refill-Settled last rest found found')
              | inr within ↦ rw within (spend-Settled last rest found found')
            ])
    ]

  Settled-eq :
      (x : (Lru K ℕ × Lru K ℕ) × Outcome (Rule K f.F) V)
      (rest : (Lru K ℕ × Lru K ℕ) × Outcome (Rule K f.F) V)
      → Settled x
      → elim x.1 [ spinning ↦ rest | other ↦ (x.0, other) ] ≡ x
  Settled-eq x rest (q, (r, e)) = rw e refl

  -- The loop gives a result in its first round.
  pub reject_loop_eq :
      (c : Controller K f.F)
      → (mul64 c.duration_in_sec 1000 == 0) ≡ false
      → (arg : K) (batch token_count max_count now : ℕ) (nows : List ℕ) (times tokens : Lru K ℕ)
      → ArePaired dec times tokens
      → reject_loop dec f text int64_value c arg batch token_count max_count times tokens
          (now ∷ nows)
        ≡ reject_round dec f text int64_value c arg batch token_count max_count now times tokens
  unfolding reject_loop
  reject_loop_eq c window_pos arg batch token_count max_count now nows times tokens p =
      Settled-eq _ _
        (reject_round-Settled c window_pos arg batch token_count max_count now times tokens p)

  pub reject_loop-Settled :
      (c : Controller K f.F)
      → (mul64 c.duration_in_sec 1000 == 0) ≡ false
      → (arg : K) (batch token_count max_count now : ℕ) (nows : List ℕ) (times tokens : Lru K ℕ)
      → ArePaired dec times tokens
      → Settled (
          reject_loop dec f text int64_value c arg batch token_count max_count times tokens
            (now ∷ nows))
  reject_loop-Settled c window_pos arg batch token_count max_count now nows times tokens p =
      subst Settled
        (sym (reject_loop_eq c window_pos arg batch token_count max_count now nows times tokens p))
        (reject_round-Settled c window_pos arg batch token_count max_count now times tokens p)
