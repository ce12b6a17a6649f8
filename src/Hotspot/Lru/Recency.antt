-- ===== src/Hotspot/Lru/Recency.antt =====
-- What the operations of core/hotspot/cache/lru.go do to the entries, in order of use.
use gmiter.Prelude.{
  ℕ, zero, suc, ◌≤◌, ◌<◌, ◌≡◌, refl, sym, ap, ◌∙◌, inl, inr, true, false, Option, none, some, List,
  [], ◌∷◌, length, arith, take, take-whole, Bool-cases,
}
use gmiter.Hotspot.Lru.{Lru, move_to_front, add, get, peek}
use gmiter.Hotspot.Lru.Entries.{lookup, remove, has, is_some, length-remove, remove_absent}
use gmiter.Hotspot.Lru.Invariant.{IsValid, push-evict_list, push-Agrees, push-size, front-Agrees}
use mathlib.Core.Logic.{if_pos}
use mathlib.Core.Bool.{false≢true}

module _ {K V : Type 0} (dec : Discrete K) where
  length-take-le : (n : ℕ) (xs : List (K × V)) → length (take n xs) ≤ n
  length-take-le zero xs = omega arith
  length-take-le (suc n) [] = omega arith
  length-take-le (suc n) (x ∷ xs) = omega (arith, length-take-le n xs)

  -- The entries with `k` used last.
  abbrev pub touch : K → V → List (K × V) → List (K × V)
  touch k v l = (k, v) ∷ remove dec k l

  module _ (c : Lru K V) (valid : IsValid dec c) (k : K) where
    pub held : has dec k c.items ≡ true → (w : V) × (lookup dec k c.evict_list ≡ some w)
    held h = found (lookup dec k c.evict_list) refl
      where
        found :
            (o : Option V)
            → lookup dec k c.evict_list ≡ o
            → (w : V) × (lookup dec k c.evict_list ≡ some w)
        found none e = absurd (false≢true (sym (ap is_some e) ∙ sym (valid.agrees.same_keys k) ∙ h))
        found (some w) e = (w, e)

    pub missing : has dec k c.items ≡ false → lookup dec k c.evict_list ≡ none
    missing h = gone (lookup dec k c.evict_list) refl
      where
        gone : (o : Option V) → lookup dec k c.evict_list ≡ o → lookup dec k c.evict_list ≡ none
        gone none e = e
        gone (some w) e = absurd (false≢true (sym h ∙ valid.agrees.same_keys k ∙ ap is_some e))

    front_le : has dec k c.items ≡ true → suc (length (remove dec k c.evict_list)) ≤ c.size
    front_le h =
        let (w, e) = held h in omega (arith, length-remove dec k c.evict_list w e, valid.bounded)

    front_fits :
        (v : V)
        → has dec k c.items ≡ true
        → touch k v c.evict_list ≡ take c.size (touch k v c.evict_list)
    front_fits v h = take-whole _ c.size (front_le h)

    -- `Add` makes the key the one used last and keeps as many entries as fit, the least recently used
    -- ones being dropped.
    pub add_lem : (v : V) → (add dec c k v).0.evict_list ≡ take c.size (touch k v c.evict_list)
    unfolding add
    add_lem v = elim (Bool-cases (has dec k c.items)) [
      | inl h ↦ rw h (front_fits v h)
      | inr h ↦ rw h (
          push-evict_list dec c k v h valid
          ∙ ap (λ l. take c.size ((k, v) ∷ l)) (sym (remove_absent dec k c.evict_list (missing h))))
    ]

    pub add-IsValid : (v : V) → IsValid dec (add dec c k v).0
    unfolding add
    add-IsValid v = elim (Bool-cases (has dec k c.items)) [
      | inl h ↦ rw h (record {
        agrees = front-Agrees dec c k v h valid.agrees;
        positive = valid.positive;
        bounded = front_le h;
      })
      | inr h ↦ rw h (record {
        agrees = push-Agrees dec c k v h valid;
        positive = rw (push-size dec c k v h valid) valid.positive;
        bounded =
            rw (push-size dec c k v h valid, push-evict_list dec c k v h valid)
              (length-take-le c.size _);
      })
    ]

    -- `Get` of a key that is there gives its value and makes the key the one used last, without any
    -- other change.
    pub get_lem :
        (w : V)
        → lookup dec k c.evict_list ≡ some w
        → get dec c k ≡ (record c { evict_list = touch k w c.evict_list }, some w)
    unfolding get move_to_front
    get_lem w found =
        let there : has dec k c.items ≡ true = valid.agrees.same_keys k ∙ ap is_some found in
        rw (there, move_to_front, found) refl

    pub get-IsValid : IsValid dec (get dec c k).0
    unfolding get move_to_front
    get-IsValid = elim (Bool-cases (has dec k c.items)) [
      | inl h ↦
          let (w, e) = held h in
          rw (h, move_to_front, e)
            (record {
              agrees = front-Agrees dec c k w h valid.agrees;
              positive = valid.positive;
              bounded = front_le h;
            })
      | inr h ↦ rw h valid
    ]

    pub peek_lem : peek dec c k ≡ lookup dec k c.evict_list
    unfolding peek
    peek_lem = elim (Bool-cases (has dec k c.items)) [
      | inl h ↦ rw h refl
      | inr h ↦ rw h (sym (missing h))
    ]

  lookup-take-touch :
      (n : ℕ) (k : K) (v : V) (l : List (K × V))
      → 0 < n
      → lookup dec k (take n (touch k v l)) ≡ some v
  unfolding lookup
  lookup-take-touch zero k v l h = absurd (omega arith)
  lookup-take-touch (suc n) k v l h = if_pos (dec k k) refl _ _

  -- What was just put with a key is what the key shows.
  pub peek-add :
      (c : Lru K V) → IsValid dec c → (k : K) (v : V) → peek dec (add dec c k v).0 k ≡ some v
  peek-add c valid k v =
      peek_lem (add dec c k v).0 (add-IsValid c valid k v) k
      ∙ ap (lookup dec k) (add_lem c valid k v)
      ∙ lookup-take-touch c.size k v c.evict_list valid.positive
