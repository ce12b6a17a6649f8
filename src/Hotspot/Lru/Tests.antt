-- ===== src/Hotspot/Lru/Tests.antt =====
-- core/hotspot/cache/lru.go on a cache of two entries.
use gmiter.Prelude.{ℕ, ◌≡◌, refl, none, some, [], ◌∷◌, arith, take}
use gmiter.Hotspot.Lru.{Lru, add, peek, keys_from}
use gmiter.Hotspot.Lru.Entries.{lookup, has, last}
use gmiter.Hotspot.Lru.Invariant.{IsValid}
use gmiter.Hotspot.Lru.Recency.{touch, add_lem, peek-add}
use gmiter.Hotspot.Lru.Runs.{add_of, get_of, resize_of, apply_all, apply_all-IsValid, keys_from_lem}
use native.Mathlib.Decide.{ℕ_discrete}

program : Unit {0}
unfolding lookup has last ℕ_discrete
program = tt

abbrev empty : Lru ℕ ℕ
empty = record { size = 2; evict_list = []; items = [] }

abbrev full : Lru ℕ ℕ
full = record { size = 2; evict_list = (8, 80) ∷ (7, 70) ∷ []; items = 8 ∷ 7 ∷ [] }

empty-IsValid : IsValid ℕ_discrete empty
unfolding program
empty-IsValid = record {
  agrees = record { distinct = tt; same_keys = λ k. refl };
  positive = omega arith;
  bounded = omega arith;
}

full-IsValid : IsValid ℕ_discrete full
unfolding program
full-IsValid = record {
  agrees = record { distinct = (refl, (refl, tt)); same_keys = λ k. ground arith };
  positive = omega arith;
  bounded = omega arith;
}

apply_all-IsValid_example : IsValid ℕ_discrete (
    apply_all ℕ_discrete
      (add_of 7 70 ∷ add_of 8 80 ∷ get_of 7 ∷ add_of 9 90 ∷ resize_of 1 ∷ [])
      empty)
apply_all-IsValid_example =
    apply_all-IsValid ℕ_discrete
      (add_of 7 70 ∷ add_of 8 80 ∷ get_of 7 ∷ add_of 9 90 ∷ resize_of 1 ∷ []) empty
      (omega arith, tt) empty-IsValid

add_lem_example :
    (add ℕ_discrete full 9 90).0.evict_list ≡ take 2 (touch ℕ_discrete 9 90 full.evict_list)
add_lem_example = add_lem ℕ_discrete full full-IsValid 9 90

peek-add_example : peek ℕ_discrete (add ℕ_discrete full 9 90).0 9 ≡ some 90
peek-add_example = peek-add ℕ_discrete full full-IsValid 9 90

keys_from_lem_example :
    (q : ℕ) × (u : ℕ) × (last {A = ℕ × ℕ} ((7, 70) ∷ (8, 80) ∷ []) ≡ some (q, u))
    × (keys_from {V = ℕ} (none ∷ none ∷ []) ((7, 70) ∷ (8, 80) ∷ []) ≡ some (some q ∷ none ∷ []))
keys_from_lem_example = keys_from_lem 7 70 ((8, 80) ∷ []) none (none ∷ [])
