-- ===== src/Stat/LeapArray/Spin.antt =====
-- The spin of `currentBucketOfTime` in core/stat/base/leap_array.go under interference.
use gmiter.Prelude.{
  ℕ, ◌<◌, ◌≡◌, refl, sym, ◌⊎◌, inl, inr, Bool, true, false, some, List, [], ◌∷◌, length, arith,
  get_elem?_of_lt, Option-cases, Result, ok, err,
}
use mathlib.Core.Bool.{false≢true}
use gmiter.Stat.LeapArray.{
  BucketGenerator, LeapArray, Error, Round, found, failed, again, Turn, get, element_offset,
  compare_nil_and_set, current_bucket_round, current_bucket_loop,
}

module _ {ℓ} {A : Type ℓ} (bg : BucketGenerator A) (i start : ℕ) where
  -- The index is that of a slot of the array.
  abbrev pub InRange : LeapArray A → Type 0
  InRange la = element_offset la.slots i ≡ some i

  -- No turn takes slots away, and in one of them the update lock is free.
  abbrev pub IsFair : List (Turn A) → Type ℓ
  IsFair [] = ⊥ × Unit
  IsFair (t ∷ turns) =
      ((la : LeapArray A) → InRange la → InRange (t.interfere la))
      × ((t.locked ≡ true) ⊎ IsFair turns)

  abbrev is_again : Round A → Bool
  is_again (again la) = true
  is_again _ = false

  InRange-lt : (la : LeapArray A) → InRange la → i < length la.slots
  unfolding element_offset
  InRange-lt la h = ground arith

  round_ends :
      (la : LeapArray A) → InRange la → is_again (current_bucket_round bg la i start true) ≡ false
  unfolding current_bucket_round get compare_nil_and_set
  round_ends la h =
      let (slot, e) = get_elem?_of_lt la.slots i (InRange-lt la h) in
      elim (Option-cases slot) [ inl empty ↦ ground arith | inr (w, full) ↦ ground arith ]

  round_stays :
      (la : LeapArray A) (locked : Bool) {la' : LeapArray A}
      → current_bucket_round bg la i start locked ≡ again la'
      → la' ≡ la
  unfolding current_bucket_round
  round_stays la locked h = ground arith

  Round-cases :
      (r : Round A)
      → ((j : ℕ) × (la : LeapArray A) × (r ≡ found j la))
        ⊎ ((e : Error) × (r ≡ failed e))
        ⊎ ((la : LeapArray A) × (r ≡ again la))
  Round-cases (found j la) = inl (j, la, refl)
  Round-cases (failed e) = inr (inl (e, refl))
  Round-cases (again la) = inr (inr (la, refl))

  -- The spin ends as soon as a round has the update lock, whatever the other goroutines do to the
  -- buckets between the rounds.
  pub current_bucket_loop_ends :
      (la : LeapArray A) (turns : List (Turn A))
      → InRange la
      → IsFair turns
      → (o : Result Error (ℕ × LeapArray A)) × (current_bucket_loop bg la i start turns ≡ some o)
  unfolding current_bucket_loop
  current_bucket_loop_ends la [] h f = absurd f.0
  current_bucket_loop_ends la (t ∷ turns) h f =
      elim (Round-cases (current_bucket_round bg (t.interfere la) i start t.locked)) [
        | inl (j, la', e) ↦ (ok (j, la'), rw (e, current_bucket_loop))
        | inr (inl (x, e)) ↦ (err x, rw (e, current_bucket_loop))
        | inr (inr (la', e)) ↦
            let kept : InRange la' = rw (round_stays (t.interfere la) t.locked e) (f.0 la h) in
            elim f.1 [
              | inl locked ↦
                  let ended : is_again (current_bucket_round bg (t.interfere la) i start t.locked)
                      ≡ false =
                    rw locked (round_ends (t.interfere la) (f.0 la h)) in
                  absurd (false≢true (sym (rw e at ended)))
              | inr later ↦
                  rw (e, current_bucket_loop) (current_bucket_loop_ends la' turns kept later)
            ]
      ]
