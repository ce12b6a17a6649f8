-- ===== src/Hotspot/Lru.antt =====
-- core/hotspot/cache/lru.go: the cache of the most recently used parameters.
-- The list holds the entries, front first. An element of the list is made with its key and keeps it, so
-- the map `items` from keys to elements is its set of keys, and `items[key]` is the element with that
-- key. `onEvict` is reported as the entries that it is called with, in order.
pub mod Entries
pub mod Invariant
pub mod Recency
pub mod Runs
mod Tests
use gmiter.Prelude.{
  ℕ, zero, suc, ◌-◌, Bool, true, false, Option, none, some, List, [], ◌∷◌, ◌++◌, length, ltb, ◌==◌,
  if◌then◌else◌,
}
use gmiter.Hotspot.Lru.Entries.{lookup, remove, has, without, last, init}
use mathlib.Core.Logic.{ite}

pub record Lru (K V : Type 0) : Type 0 where
  pub size : ℕ
  pub evict_list : List (K × V)
  pub items : List K

unfoldable pub new_lru : {K V : Type 0} → ℕ → Option (Lru K V)
new_lru size =
    if size == 0 then none else some (record { size = size; evict_list = []; items = [] })

module _ {K V : Type 0} (dec : Discrete K) where
  -- `MoveToFront` of the element with the key.
  unfoldable pub move_to_front : K → List (K × V) → List (K × V)
  move_to_front key l = elim (lookup dec key l) [ none ↦ l | some v ↦ (key, v) ∷ remove dec key l ]

  unfoldable pub remove_element : Lru K V → K → V → Lru K V × List (K × V)
  remove_element c key value = (
    record c { evict_list = remove dec key c.evict_list; items = without dec key c.items },
    (key, value) ∷ [],
  )

  -- The private `removeOldest`.
  unfoldable pub drop_oldest : Lru K V → Lru K V × List (K × V)
  drop_oldest c = elim (last c.evict_list) [ none ↦ (c, []) | some (k, v) ↦ remove_element c k v ]

  -- A new entry in front, and the oldest one out if there are too many.
  unfoldable pub push : Lru K V → K → V → Lru K V × List (K × V)
  push c key value =
      let c' = record c { evict_list = (key, value) ∷ c.evict_list; items = key ∷ c.items } in
      if ltb c'.size (length c'.evict_list) then drop_oldest c' else (c', [])

  unfoldable pub add : Lru K V → K → V → Lru K V × List (K × V)
  add c key value =
      if has dec key c.items
      then (record c { evict_list = (key, value) ∷ remove dec key c.evict_list }, [])
      else push c key value

  -- The prior value, if the key is there.
  unfoldable pub add_if_absent : Lru K V → K → V → Lru K V × Option V × List (K × V)
  add_if_absent c key value =
      if has dec key c.items
      then (
        record c { evict_list = move_to_front key c.evict_list },
        lookup dec key c.evict_list,
        [],
      )
      else (let (c', calls) = push c key value in (c', none, calls))

  unfoldable pub get : Lru K V → K → Lru K V × Option V
  get c key =
      if has dec key c.items
      then (record c { evict_list = move_to_front key c.evict_list }, lookup dec key c.evict_list)
      else (c, none)

  unfoldable pub contains : Lru K V → K → Bool
  contains c key = has dec key c.items

  unfoldable pub peek : Lru K V → K → Option V
  peek c key = if has dec key c.items then lookup dec key c.evict_list else none

  -- `none` for the element only where the map and the list disagree.
  unfoldable pub remove_key : Lru K V → K → Lru K V × Bool × List (K × V)
  remove_key c key =
      if has dec key c.items
      then elim (lookup dec key c.evict_list) [
        | none ↦ (c, true, [])
        | some v ↦ (let (c', calls) = remove_element c key v in (c', true, calls))
      ]
      else (c, false, [])

  unfoldable pub remove_oldest : Lru K V → Lru K V × Option (K × V) × List (K × V)
  remove_oldest c = elim (last c.evict_list) [
    | none ↦ (c, none, [])
    | some (k, v) ↦ (let (c', calls) = remove_element c k v in (c', some (k, v), calls))
  ]

  unfoldable pub get_oldest : Lru K V → Option (K × V)
  get_oldest c = last c.evict_list

  unfoldable pub len : Lru K V → ℕ
  len c = length c.evict_list

  -- `n` rounds of `removeOldest`.
  unfoldable pub drop_oldest_times : ℕ → Lru K V → Lru K V × List (K × V)
  drop_oldest_times zero c = (c, [])
  drop_oldest_times (suc n) c =
      let (c', calls) = drop_oldest c in
      let (c'', calls') = drop_oldest_times n c' in (c'', calls ++ calls')

  -- `diff` is 0 where the list is no longer than `size`.
  unfoldable pub resize : Lru K V → ℕ → Lru K V × ℕ × List (K × V)
  resize c size =
      let diff = length c.evict_list - size in
      let (c', calls) = drop_oldest_times diff c in (record c' { size = size }, diff, calls)

  -- The entries that `onEvict` is called with come in the order of a map, which is any order: here
  -- that of the list.
  unfoldable pub purge : Lru K V → Lru K V × List (K × V)
  purge c = (record c { evict_list = []; items = [] }, c.evict_list)

-- The loop of `Keys` from the back: the index `i` is not advanced, so each key overwrites the first
-- slot. A write past the end panics.
unfoldable pub keys_from :
    {K V : Type 0} → List (Option K) → List (K × V) → Option (List (Option K))
keys_from slots [] = some slots
keys_from [] ((k, v) ∷ l) = none
keys_from (x ∷ slots) ((k, v) ∷ l) = keys_from (some k ∷ slots) l
