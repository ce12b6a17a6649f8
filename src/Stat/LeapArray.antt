-- ===== src/Stat/LeapArray.antt =====
-- core/stat/base/leap_array.go: the circular array of time buckets.
-- A `*BucketWrap` is named by the index of the slot that holds it; an operation that changes the array
-- returns the new one. `uint64` times wrap; an `int` is a 64-bit pattern, so a negative index is a
-- large number. A bucket's content is any type `A` with the two methods of `BucketGenerator`.
pub mod WellFormed
pub mod Construct
pub mod Current
pub mod Window
pub mod Spin
mod Tests
use gmiter.Prelude.{
  ℕ, zero, suc, ◌+◌, ◌-◌, ◌*◌, ◌/◌, ◌%◌, Bool, true, false, ◌&&◌, ◌||◌, not, Option, none, some,
  List, [], ◌∷◌, ◌++◌, length, get_elem?, set, ltb, leb, ◌==◌, if◌then◌else◌, add64, sub64, half64,
  mod64, Result, ok, err, panic,
}

pub record BucketWrap {ℓ} (A : Type ℓ) : Type ℓ where
  pub bucket_start : ℕ  -- uint64
  pub value : A

-- The two methods of `BucketGenerator`: `reset_value` is what `ResetBucketTo` does to the content.
pub record BucketGenerator {ℓ} (A : Type ℓ) : Type ℓ where
  pub new_empty_bucket : A
  pub reset_value : A → A

pub data Error : Type 0 where
  invalid_parameters : Error
  nil_generator : Error
  time_not_positive : Error
  time_behind : ℕ → ℕ → Error

unfoldable pub is_time_in_bucket {ℓ} : {A : Type ℓ} → BucketWrap A → ℕ → ℕ → Bool
is_time_in_bucket ww now bucket_length =
    leb ww.bucket_start now && ltb now (add64 ww.bucket_start bucket_length)

unfoldable pub calculate_start_time : ℕ → ℕ → ℕ
calculate_start_time now bucket_length = now - now % bucket_length

-- A slot holds a `*BucketWrap`, which may be nil.
pub record LeapArray {ℓ} (A : Type ℓ) : Type ℓ where
  pub bucket_length : ℕ  -- uint32, in ms
  pub sample_count : ℕ  -- uint32
  pub interval : ℕ  -- uint32, in ms
  pub slots : List (Option (BucketWrap A))

-- What one round of the spin gives: the bucket (by its slot), an error, or another round.
pub data Round {ℓ} (A : Type ℓ) : Type ℓ where
  found : ℕ → LeapArray A → Round A
  failed : Error → Round A
  again : LeapArray A → Round A

-- What happens before a round: other goroutines change the array, and hold the lock or not.
pub record Turn {ℓ} (A : Type ℓ) : Type ℓ where
  pub interfere : LeapArray A → LeapArray A
  pub locked : Bool

module _ {ℓ} {A : Type ℓ} where
  -- `count` new buckets from `start` on, one bucket length apart.
  unfoldable pub fill : BucketGenerator A → ℕ → ℕ → ℕ → List (Option (BucketWrap A))
  fill bg bucket_length zero start = []
  fill bg bucket_length (suc count) start =
      some (record { bucket_start = start; value = bg.new_empty_bucket })
      ∷ fill bg bucket_length count (add64 start bucket_length)

  -- The slots from `idx` on are filled first, then those before it. A zero `bucket_length` or `len`
  -- is a division by zero.
  unfoldable pub new_atomic_bucket_wrap_array_with_time :
      ℕ → ℕ → ℕ → BucketGenerator A → Result Error (List (Option (BucketWrap A)))
  new_atomic_bucket_wrap_array_with_time len bucket_length now bg =
      if bucket_length == 0 || len == 0
      then panic
      else (let idx = now / bucket_length % len in
          let start = calculate_start_time now bucket_length in
          ok (
            fill bg bucket_length idx ((start + (len - idx) * bucket_length) % mod64)
            ++ fill bg bucket_length (len - idx) start))

  -- `none` for an index out of bounds or negative.
  unfoldable pub element_offset : List (Option (BucketWrap A)) → ℕ → Option ℕ
  element_offset slots idx = if leb (length slots) idx || leb half64 idx then none else some idx

  unfoldable pub get : List (Option (BucketWrap A)) → ℕ → Option (BucketWrap A)
  unfolding element_offset
  get slots idx = elim (element_offset slots idx) [
    | none ↦ none
    | some offset ↦ elim (get_elem? slots offset) [ none ↦ none | some slot ↦ slot ]
  ]

  -- The swap from nil to a new bucket, the only one that the code makes: the slots, and whether it
  -- took place.
  unfoldable pub compare_nil_and_set :
      List (Option (BucketWrap A)) → ℕ → BucketWrap A → List (Option (BucketWrap A)) × Bool
  unfolding element_offset
  compare_nil_and_set slots idx update = elim (element_offset slots idx) [
    | none ↦ (slots, false)
    | some offset ↦ elim (get_elem? slots offset) [
      | none ↦ (slots, false)
      | some slot ↦ elim slot [
        | none ↦ (set slots offset (some update), true)
        | some w ↦ (slots, false)
      ]
    ]
  ]

  -- `generator` is nil as `none`.
  unfoldable pub new_leap_array :
      ℕ → ℕ → ℕ → Option (BucketGenerator A) → Result Error (LeapArray A)
  new_leap_array sample_count interval now generator =
      if sample_count == 0
      then err invalid_parameters
      else if not (interval % sample_count == 0)
      then err invalid_parameters
      else elim generator [
        | none ↦ err nil_generator
        | some bg ↦
            elim (new_atomic_bucket_wrap_array_with_time sample_count (interval / sample_count) now
              bg) [
                | ok slots ↦ ok (record {
                  bucket_length = interval / sample_count;
                  sample_count = sample_count;
                  interval = interval;
                  slots = slots;
                })
                | err e ↦ err e
                | panic ↦ panic
              ]
      ]

  -- `int(timeId) % length`: the remainder of a negative `int` is negative or 0.
  unfoldable pub calculate_time_idx : LeapArray A → ℕ → ℕ
  calculate_time_idx la now =
      let time_id = now / la.bucket_length in
      if ltb time_id half64
      then time_id % length la.slots
      else (mod64 - (mod64 - time_id) % length la.slots) % mod64

  unfoldable pub reset_bucket_to : BucketGenerator A → BucketWrap A → ℕ → BucketWrap A
  reset_bucket_to bg ww start = record { bucket_start = start; value = bg.reset_value ww.value }

  -- The bucket of the slot, reset: the two branches that hold the update lock.
  unfoldable pub reset_slot : BucketGenerator A → LeapArray A → ℕ → BucketWrap A → ℕ → LeapArray A
  reset_slot bg la idx old start = record la {
    slots = set la.slots idx (some (reset_bucket_to bg old start));
  }

  -- One round of the `for` of `currentBucketOfTime`; `locked` is what `TryLock` gives.
  unfoldable pub current_bucket_round : BucketGenerator A → LeapArray A → ℕ → ℕ → Bool → Round A
  current_bucket_round bg la idx start locked = elim (get la.slots idx) [
    | none ↦
        (let (slots, swapped) =
            compare_nil_and_set la.slots idx
              (record { bucket_start = start; value = bg.new_empty_bucket }) in
          if swapped then found idx (record la { slots = slots }) else again la)
    | some old ↦
        if start == old.bucket_start
        then found idx la
        else if ltb old.bucket_start start
        then (if locked then found idx (reset_slot bg la idx old start) else again la)
        else if locked
        then found idx (reset_slot bg la idx old start)
        else if la.sample_count == 1
        then found idx la
        else failed (time_behind start old.bucket_start)
  ]

  -- The spin over the turns given; `none` where it is still spinning after the last.
  unfoldable pub current_bucket_loop :
      BucketGenerator A
      → LeapArray A
      → ℕ
      → ℕ
      → List (Turn A)
      → Option (Result Error (ℕ × LeapArray A))
  current_bucket_loop bg la idx start [] = none
  current_bucket_loop bg la idx start (t ∷ turns) =
      elim (current_bucket_round bg (t.interfere la) idx start t.locked) [
        | found i la' ↦ some (ok (i, la'))
        | failed e ↦ some (err e)
        | again la' ↦ current_bucket_loop bg la' idx start turns
      ]

  unfoldable pub current_bucket_of_time :
      BucketGenerator A → LeapArray A → ℕ → List (Turn A) → Option (Result Error (ℕ × LeapArray A))
  current_bucket_of_time bg la now turns =
      if now == 0
      then some (err time_not_positive)
      else if la.bucket_length == 0 || length la.slots == 0
      then some panic
      else current_bucket_loop bg la (calculate_time_idx la now)
          (calculate_start_time now la.bucket_length) turns

  unfoldable pub is_bucket_deprecated : LeapArray A → ℕ → BucketWrap A → Bool
  is_bucket_deprecated la now ww = ltb la.interval (sub64 now ww.bucket_start)

  -- The loop of `ValuesConditional`, over the slots left.
  unfoldable pub values_from :
      LeapArray A → ℕ → (ℕ → Bool) → List (Option (BucketWrap A)) → List (BucketWrap A)
  unfolding is_bucket_deprecated
  values_from la now predicate [] = []
  values_from la now predicate (none ∷ slots) = values_from la now predicate slots
  values_from la now predicate (some ww ∷ slots) =
      let rest = values_from la now predicate slots in
      if is_bucket_deprecated la now ww || not (predicate ww.bucket_start) then rest else ww ∷ rest

  unfoldable pub values_conditional : LeapArray A → ℕ → (ℕ → Bool) → List (BucketWrap A)
  unfolding values_from
  values_conditional la now predicate =
      if now == 0 then [] else values_from la now predicate la.slots

  -- `valuesWithTime` is the same loop with no predicate.
  unfoldable pub values_with_time : LeapArray A → ℕ → List (BucketWrap A)
  unfolding values_from
  values_with_time la now = if now == 0 then [] else values_from la now (λ _. true) la.slots
