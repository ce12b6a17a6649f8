-- ===== src/Hotspot/Lru/Invariant.antt =====
-- The agreement of the map and the list of core/hotspot/cache/lru.go.
use gmiter.Prelude.{
  suc, ◌≤◌, ◌<◌, ◌≡◌, refl, ◌∙◌, inl, inr, true, false, some, List, [], ◌∷◌, length, ltb, arith,
  take, take-whole, Bool-cases, Option-cases, ltb→lt,
}
use gmiter.Hotspot.Lru.{Lru, remove_element, drop_oldest, push}
use gmiter.Hotspot.Lru.Entries.{
  init-take, last_of_cons, lookup, remove, has, last, init, is_some, Distinct, lookup-remove,
  remove-Distinct, last_lem, has-without,
}
use mathlib.Core.Logic.{if_pos}

module _ {K V : Type 0} (dec : Discrete K) where
  -- No key stands twice in the list, and the map has the keys of the list.
  pub record Agrees (c : Lru K V) : Type 0 where
    pub distinct : Distinct dec c.evict_list
    pub same_keys : (k : K) → has dec k c.items ≡ is_some (lookup dec k c.evict_list)

  -- Besides, there are at most `size` entries.
  pub record IsValid (c : Lru K V) : Type 0 where
    pub agrees : Agrees c
    pub positive : 0 < c.size
    pub bounded : length c.evict_list ≤ c.size

  pub remove_element-Agrees :
      (c : Lru K V) (k : K) (v : V) → Agrees c → Agrees (remove_element dec c k v).0
  unfolding remove_element
  remove_element-Agrees c k v a = record {
    distinct = remove-Distinct dec k c.evict_list a.distinct;
    same_keys = λ q. ground (
      arith,
      has-without dec k q c.items,
      a.same_keys q,
      lookup-remove dec k q c.evict_list a.distinct,
    );
  }

  -- An entry in front, in place of the one with its key.
  pub front-Agrees :
      (c : Lru K V) (k : K) (v : V)
      → has dec k c.items ≡ true
      → Agrees c
      → Agrees (record c { evict_list = (k, v) ∷ remove dec k c.evict_list })
  unfolding lookup
  front-Agrees c k v h a = record {
    distinct = (
      lookup-remove dec k k c.evict_list a.distinct ∙ if_pos (dec k k) refl _ _,
      remove-Distinct dec k c.evict_list a.distinct,
    );
    same_keys = λ q.
        ground
          (arith, h, a.same_keys q, a.same_keys k, lookup-remove dec k q c.evict_list a.distinct);
  }

  new-Agrees :
      (c : Lru K V) (k : K) (v : V)
      → has dec k c.items ≡ false
      → Agrees c
      → Agrees (record c { evict_list = (k, v) ∷ c.evict_list; items = k ∷ c.items })
  unfolding lookup has
  new-Agrees c k v h a = record {
    distinct = (ground (arith, a.same_keys k), a.distinct);
    same_keys = λ q. ground (arith, a.same_keys q);
  }

  -- `removeOldest` on a list that is not empty drops its last entry, and reports it.
  pub drop_oldest_lem :
      (c : Lru K V) (x : K × V) (l : List (K × V))
      → c.evict_list ≡ x ∷ l
      → Agrees c
      → (k : K) × (v : V) × (last c.evict_list ≡ some (k, v))
        × ((drop_oldest dec c).0.evict_list ≡ init c.evict_list)
        × ((drop_oldest dec c).1 ≡ (k, v) ∷ [])
  unfolding drop_oldest remove_element
  drop_oldest_lem c x l e a =
      let (y, h) = last_of_cons x l in
      let h' : last c.evict_list ≡ some (y.0, y.1) = rw e h in
      let (found, dropped) = last_lem dec c.evict_list y.0 y.1 a.distinct h' in
      (y.0, y.1, h', rw (h', drop_oldest) dropped, rw (h', drop_oldest) refl)

  pub drop_oldest-Agrees : (c : Lru K V) → Agrees c → Agrees (drop_oldest dec c).0
  unfolding drop_oldest
  drop_oldest-Agrees c a = elim (Option-cases (last c.evict_list)) [
    | inl e ↦ rw (e, drop_oldest) a
    | inr (y, e) ↦ rw (e, drop_oldest) (remove_element-Agrees c y.0 y.1 a)
  ]

  pub drop_oldest-size : (c : Lru K V) → (drop_oldest dec c).0.size ≡ c.size
  unfolding drop_oldest remove_element
  drop_oldest-size c = ground arith

  -- A new entry is put in front; what no longer fits is dropped, and reported.
  module _ (c : Lru K V) (k : K) (v : V) (absent : has dec k c.items ≡ false)
      (valid : IsValid c) where
    abbrev pushed : Lru K V
    pushed = record c { evict_list = (k, v) ∷ c.evict_list; items = k ∷ c.items }

    pub push-evict_list : (push dec c k v).0.evict_list ≡ take c.size ((k, v) ∷ c.evict_list)
    unfolding push
    push-evict_list = elim (Bool-cases (ltb c.size (suc (length c.evict_list)))) [
      | inl full ↦
          let (_, _, _, e, _) =
            drop_oldest_lem pushed (k, v) c.evict_list refl
              (new-Agrees c k v absent valid.agrees) in
          rw full (
            e
            ∙ init-take c.size ((k, v) ∷ c.evict_list)
                (omega (arith, ltb→lt c.size (suc (length c.evict_list)) full, valid.bounded)))
      | inr room ↦ rw room (take-whole _ c.size (ground arith))
    ]

    pub push-Agrees : Agrees (push dec c k v).0
    unfolding push
    push-Agrees = elim (Bool-cases (ltb c.size (suc (length c.evict_list)))) [
      | inl full ↦ rw full (drop_oldest-Agrees pushed (new-Agrees c k v absent valid.agrees))
      | inr room ↦ rw room (new-Agrees c k v absent valid.agrees)
    ]

    pub push-size : (push dec c k v).0.size ≡ c.size
    unfolding push
    push-size = ground (arith, drop_oldest-size pushed)
