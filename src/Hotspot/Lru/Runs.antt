-- ===== src/Hotspot/Lru/Runs.antt =====
-- Sequences of calls of the methods of core/hotspot/cache/lru.go, and the loop of `Keys`.
use gmiter.Prelude.{
  ℕ, zero, suc, ◌-◌, ◌≤◌, ◌<◌, ◌≡◌, refl, ap, inl, inr, true, false, Option, some, List, [], ◌∷◌,
  length, arith, take, Bool-cases, Option-cases,
}
use gmiter.Hotspot.Lru.{
  Lru, move_to_front, remove_element, drop_oldest, push, add, add_if_absent, get, remove_key,
  remove_oldest, drop_oldest_times, resize, purge, keys_from,
}
use gmiter.Hotspot.Lru.Entries.{lookup, remove, has, last, init}
use gmiter.Hotspot.Lru.Invariant.{
  Agrees, IsValid, push-evict_list, push-Agrees, push-size, remove_element-Agrees,
  drop_oldest-Agrees, drop_oldest_lem,
}
use gmiter.Hotspot.Lru.Recency.{add-IsValid, get-IsValid, held}
use mathlib.Core.Path.{subst}

pub data Op (K V : Type 0) : Type 0 where
  add_of : K → V → Op K V
  add_if_absent_of : K → V → Op K V
  get_of : K → Op K V
  remove_of : K → Op K V
  remove_oldest_of : Op K V
  resize_of : (size : ℕ) → Op K V
  purge_of : Op K V

module _ {K V : Type 0} (dec : Discrete K) where
  abbrev pub apply : Op K V → Lru K V → Lru K V
  apply (add_of k v) c = (add dec c k v).0
  apply (add_if_absent_of k v) c = (add_if_absent dec c k v).0
  apply (get_of k) c = (get dec c k).0
  apply (remove_of k) c = (remove_key dec c k).0
  apply remove_oldest_of c = (remove_oldest dec c).0
  apply (resize_of size) c = (resize dec c size).0
  apply purge_of c = (purge dec c).0

  abbrev pub apply_all : List (Op K V) → Lru K V → Lru K V
  apply_all [] c = c
  apply_all (o ∷ os) c = apply_all os (apply o c)

  -- A cache is never resized to nothing.
  abbrev pub Sized : List (Op K V) → Type 0
  Sized [] = Unit
  Sized (resize_of size ∷ os) = (0 < size) × Sized os
  Sized (o ∷ os) = Sized os

  length-remove-le : (k : K) (l : List (K × V)) → length (remove dec k l) ≤ length l
  unfolding remove
  length-remove-le k [] = omega arith
  length-remove-le k ((j, v) ∷ l) = ground (arith, length-remove-le k l)

  remove_element-IsValid :
      (c : Lru K V) (k : K) (v : V) → IsValid dec c → IsValid dec (remove_element dec c k v).0
  unfolding remove_element
  remove_element-IsValid c k v valid = record {
    agrees = remove_element-Agrees dec c k v valid.agrees;
    positive = valid.positive;
    bounded = omega (arith, length-remove-le k c.evict_list, valid.bounded);
  }

  pub push-IsValid :
      (c : Lru K V) (k : K) (v : V)
      → has dec k c.items ≡ false
      → IsValid dec c
      → IsValid dec (push dec c k v).0
  push-IsValid c k v h valid = record {
    agrees = push-Agrees dec c k v h valid;
    positive = rw (push-size dec c k v h valid) valid.positive;
    bounded =
        rw (push-size dec c k v h valid, push-evict_list dec c k v h valid) (take_le c.size _);
  }
    where
      take_le : (n : ℕ) (xs : List (K × V)) → length (take n xs) ≤ n
      take_le zero xs = omega arith
      take_le (suc n) [] = omega arith
      take_le (suc n) (x ∷ xs) = omega (arith, take_le n xs)

  pub add_if_absent-IsValid :
      (c : Lru K V) (k : K) (v : V) → IsValid dec c → IsValid dec (add_if_absent dec c k v).0
  unfolding add_if_absent get
  add_if_absent-IsValid c k v valid = elim (Bool-cases (has dec k c.items)) [
    | inl h ↦ rw h (subst (IsValid dec) (got h) (get-IsValid dec c valid k))
    | inr h ↦ rw h (push-IsValid c k v h valid)
  ]
    where
      got :
          has dec k c.items ≡ true
          → (get dec c k).0 ≡ record c { evict_list = move_to_front dec k c.evict_list }
      got h = rw h refl

  remove_key-IsValid : (c : Lru K V) (k : K) → IsValid dec c → IsValid dec (remove_key dec c k).0
  unfolding remove_key
  remove_key-IsValid c k valid = elim (Bool-cases (has dec k c.items)) [
    | inl h ↦ (let (w, e) = held dec c valid k h in rw (h, e) (remove_element-IsValid c k w valid))
    | inr h ↦ rw h valid
  ]

  remove_oldest-IsValid : (c : Lru K V) → IsValid dec c → IsValid dec (remove_oldest dec c).0
  unfolding remove_oldest
  remove_oldest-IsValid c valid = elim (Option-cases (last c.evict_list)) [
    | inl e ↦ rw (e, remove_oldest) valid
    | inr (y, e) ↦ rw (e, remove_oldest) (remove_element-IsValid c y.0 y.1 valid)
  ]

  purge-IsValid : (c : Lru K V) → IsValid dec c → IsValid dec (purge dec c).0
  unfolding purge has lookup
  purge-IsValid c valid = record {
    agrees = record { distinct = tt; same_keys = λ k. refl };
    positive = valid.positive;
    bounded = omega arith;
  }

  length-init : (x : K × V) (l : List (K × V)) → length (init (x ∷ l)) ≡ length l
  unfolding init
  length-init x [] = refl
  length-init x (y ∷ l) = ap suc (length-init y l)

  drop_oldest-length :
      (c : Lru K V)
      → Agrees dec c
      → length (drop_oldest dec c).0.evict_list ≡ length c.evict_list - 1
  unfolding drop_oldest last
  drop_oldest-length c a = go c.evict_list refl
    where
      go :
          (l : List (K × V))
          → c.evict_list ≡ l
          → length (drop_oldest dec c).0.evict_list ≡ length c.evict_list - 1
      go [] e = rw e refl
      go (x ∷ l) e =
          let (_, _, _, h, _) = drop_oldest_lem dec c x l e a in
          rw h (rw e (omega (arith, length-init x l)))

  -- `n` rounds of `removeOldest` keep map and list in agreement and leave the size field and all but the last `n` entries.
  drop_oldest_times_lem :
      (n : ℕ) (c : Lru K V)
      → Agrees dec c
      → Agrees dec (drop_oldest_times dec n c).0
        × (length (drop_oldest_times dec n c).0.evict_list ≡ length c.evict_list - n)
  unfolding drop_oldest_times
  drop_oldest_times_lem zero c a = (a, omega arith)
  drop_oldest_times_lem (suc n) c a =
      let (a', h) = drop_oldest_times_lem n (drop_oldest dec c).0 (drop_oldest-Agrees dec c a) in
      (a', omega (arith, h, drop_oldest-length c a))

  resize-IsValid :
      (c : Lru K V) (size : ℕ) → 0 < size → IsValid dec c → IsValid dec (resize dec c size).0
  unfolding resize
  resize-IsValid c size h valid =
      let (a, e) = drop_oldest_times_lem (length c.evict_list - size) c valid.agrees in
      record {
        agrees = record { distinct = a.distinct; same_keys = a.same_keys };
        positive = h;
        bounded = omega (arith, e);
      }

  -- Every sequence of calls keeps the cache well formed.
  pub apply_all-IsValid :
      (os : List (Op K V)) (c : Lru K V) → Sized os → IsValid dec c → IsValid dec (apply_all os c)
  apply_all-IsValid [] c h valid = valid
  apply_all-IsValid (add_of k v ∷ os) c h valid =
      apply_all-IsValid os _ h (add-IsValid dec c valid k v)
  apply_all-IsValid (add_if_absent_of k v ∷ os) c h valid =
      apply_all-IsValid os _ h (add_if_absent-IsValid c k v valid)
  apply_all-IsValid (get_of k ∷ os) c h valid = apply_all-IsValid os _ h (get-IsValid dec c valid k)
  apply_all-IsValid (remove_of k ∷ os) c h valid =
      apply_all-IsValid os _ h (remove_key-IsValid c k valid)
  apply_all-IsValid (remove_oldest_of ∷ os) c h valid =
      apply_all-IsValid os _ h (remove_oldest-IsValid c valid)
  apply_all-IsValid (resize_of size ∷ os) c h valid =
      apply_all-IsValid os _ h.1 (resize-IsValid c size h.0 valid)
  apply_all-IsValid (purge_of ∷ os) c h valid = apply_all-IsValid os _ h (purge-IsValid c valid)

-- `Keys` on a list that is not empty writes the key it reads last into the first slot and leaves the
-- other slots as they were made.
pub keys_from_lem :
    {K V : Type 0} (k : K) (v : V) (l : List (K × V)) (x : Option K) (slots : List (Option K))
    → (q : K) × (u : V) × (last ((k, v) ∷ l) ≡ some (q, u))
      × (keys_from (x ∷ slots) ((k, v) ∷ l) ≡ some (some q ∷ slots))
unfolding keys_from last
keys_from_lem k v [] x slots = (k, v, refl, refl)
keys_from_lem k v ((j, w) ∷ l) x slots = keys_from_lem j w l (some k) slots
