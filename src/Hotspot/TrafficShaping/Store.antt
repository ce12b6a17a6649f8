-- ===== src/Hotspot/TrafficShaping/Store.antt =====
-- The caches of core/hotspot/traffic_shaping.go under `AddIfAbsent`, `Get` and a write through a pointer.
use gmiter.Prelude.{
  ℕ, zero, suc, ◌≡◌, refl, sym, ap, ◌∙◌, inl, inr, true, false, Option, none, some, List, [], ◌∷◌,
  length, arith, take, Bool-cases,
}
use gmiter.Hotspot.Lru
use gmiter.Hotspot.Lru.{Lru, move_to_front}
use gmiter.Hotspot.Lru.Entries.{lookup, remove, has, is_some, Distinct, lookup-remove}
use gmiter.Hotspot.Lru.Invariant.{IsValid, push-evict_list, push-size}
use gmiter.Hotspot.Lru.Recency.{touch}
use gmiter.Hotspot.Controller.{assign, store}
use mathlib.Core.Logic.{ite}

module _ {K : Type 0} (dec : Discrete K) where
  abbrev pub keys : List (K × ℕ) → List K
  keys [] = []
  keys ((k, v) ∷ l) = k ∷ keys l

  pub keys-assign : (k : K) (v : ℕ) (l : List (K × ℕ)) → keys (assign dec k v l) ≡ keys l
  unfolding assign
  keys-assign k v [] = refl
  keys-assign k v ((j, w) ∷ l) = ground (arith, keys-assign k v l)

  pub lookup-assign :
      (k q : K) (v w : ℕ) (l : List (K × ℕ))
      → lookup dec k l ≡ some w
      → lookup dec q (assign dec k v l) ≡ ite (dec k q) (some v) (lookup dec q l)
  unfolding lookup assign
  lookup-assign k q v w [] h = cc
  lookup-assign k q v w ((j, u) ∷ l) h = ground (arith, lookup-assign k q v w l)

  is_some-assign :
      (k q : K) (v : ℕ) (l : List (K × ℕ))
      → is_some (lookup dec q (assign dec k v l)) ≡ is_some (lookup dec q l)
  unfolding lookup assign
  is_some-assign k q v [] = refl
  is_some-assign k q v ((j, u) ∷ l) = ground (arith, is_some-assign k q v l)

  assign-Distinct :
      (k : K) (v : ℕ) (l : List (K × ℕ)) → Distinct dec l → Distinct dec (assign dec k v l)
  unfolding assign
  assign-Distinct k v [] d = tt
  assign-Distinct k v ((j, u) ∷ l) d =
      ground (arith, assign-Distinct k v l, is_some-assign k j v l, unsome)
    where
      unsome : (o : Option ℕ) → is_some o ≡ false → o ≡ none
      unsome none e = refl
      unsome (some x) e = cc

  length-assign : (k : K) (v : ℕ) (l : List (K × ℕ)) → length (assign dec k v l) ≡ length l
  unfolding assign
  length-assign k v [] = refl
  length-assign k v ((j, u) ∷ l) = ground (arith, length-assign k v l)

  pub store-IsValid : (c : Lru K ℕ) (k : K) (v : ℕ) → IsValid dec c → IsValid dec (store dec c k v)
  unfolding store
  store-IsValid c k v valid = record {
    agrees = record {
      distinct = assign-Distinct k v c.evict_list valid.agrees.distinct;
      same_keys = λ q. valid.agrees.same_keys q ∙ sym (is_some-assign k q v c.evict_list);
    };
    positive = valid.positive;
    bounded = rw (length-assign k v c.evict_list) valid.bounded;
  }

  -- Whether a key is held is said by the keys.
  pub held-keys :
      (k : K) (l m : List (K × ℕ))
      → keys l ≡ keys m
      → is_some (lookup dec k l) ≡ is_some (lookup dec k m)
  unfolding lookup
  held-keys k [] [] e = refl
  held-keys k [] (y ∷ m) e = cc
  held-keys k (x ∷ l) [] e = cc
  held-keys k ((i, x) ∷ l) ((j, y) ∷ m) e = ground (arith, e, held-keys k l m)

  pub keys-remove :
      (k : K) (l m : List (K × ℕ)) → keys l ≡ keys m → keys (remove dec k l) ≡ keys (remove dec k m)
  unfolding remove
  keys-remove k [] [] e = refl
  keys-remove k [] (y ∷ m) e = cc
  keys-remove k (x ∷ l) [] e = cc
  keys-remove k ((i, x) ∷ l) ((j, y) ∷ m) e = ground (arith, e, keys-remove k l m)

  pub keys-take : (n : ℕ) (l m : List (K × ℕ)) → keys l ≡ keys m → keys (take n l) ≡ keys (take n m)
  keys-take zero l m e = refl
  keys-take (suc n) [] [] e = refl
  keys-take (suc n) [] (y ∷ m) e = cc
  keys-take (suc n) (x ∷ l) [] e = cc
  keys-take (suc n) ((i, x) ∷ l) ((j, y) ∷ m) e = ground (arith, e, keys-take n l m)

  module _ (c : Lru K ℕ) (valid : IsValid dec c) (k : K) where
    pub add_if_absent-held :
        (v w : ℕ)
        → lookup dec k c.evict_list ≡ some w
        → Lru.add_if_absent dec c k v
          ≡ (record c { evict_list = touch dec k w c.evict_list }, some w, [])
    unfolding Lru.add_if_absent move_to_front
    add_if_absent-held v w found =
        let there : has dec k c.items ≡ true = valid.agrees.same_keys k ∙ ap is_some found in
        rw (there, move_to_front, found) refl

    pub add_if_absent-missing :
        (v : ℕ)
        → lookup dec k c.evict_list ≡ none
        → ((Lru.add_if_absent dec c k v).1 ≡ none)
          × ((Lru.add_if_absent dec c k v).0.evict_list ≡ take c.size ((k, v) ∷ c.evict_list))
          × ((Lru.add_if_absent dec c k v).0.size ≡ c.size)
    unfolding Lru.add_if_absent
    add_if_absent-missing v gone =
        let absent : has dec k c.items ≡ false = valid.agrees.same_keys k ∙ ap is_some gone in
        rw absent (refl, push-evict_list dec c k v absent valid, push-size dec c k v absent valid)

    pub add_if_absent-new :
        (v : ℕ)
        → lookup dec k c.evict_list ≡ none
        → Lru.add_if_absent dec c k v
          ≡ ((Lru.add_if_absent dec c k v).0, none, (Lru.add_if_absent dec c k v).2)
    add_if_absent-new v gone =
        let (c', prior, calls) = Lru.add_if_absent dec c k v in
        let e : prior ≡ none = (add_if_absent-missing v gone).0 in rw e refl

    pub add_if_absent-size : (v : ℕ) → (Lru.add_if_absent dec c k v).0.size ≡ c.size
    unfolding Lru.add_if_absent
    add_if_absent-size v = elim (Bool-cases (has dec k c.items)) [
      | inl there ↦ rw there refl
      | inr absent ↦ rw absent (push-size dec c k v absent valid)
    ]

    -- The key is in front afterwards.
    pub lookup-touch :
        (q : K) (w : ℕ)
        → lookup dec k c.evict_list ≡ some w
        → lookup dec q (touch dec k w c.evict_list) ≡ lookup dec q c.evict_list
    unfolding lookup
    lookup-touch q w found =
        ground (arith, found, lookup-remove dec k q c.evict_list valid.agrees.distinct)
