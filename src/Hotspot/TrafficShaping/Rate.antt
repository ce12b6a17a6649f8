-- ===== src/Hotspot/TrafficShaping/Rate.antt =====
-- How much the reject controller of core/hotspot/traffic_shaping.go lets through for one parameter.
use gmiter.Prelude.{
  ℕ, ◌+◌, ◌-◌, ◌*◌, ◌/◌, ◌≤◌, ◌≡◌, refl, sym, ap, ◌∙◌, Bool, true, false, ltb, leb, if◌then◌else◌,
  arith, leb→le, if_intro,
}
use gmiter.Hotspot.TrafficShaping.Bucket.{bucket}
use native.Mathlib.Nat.{mul-le-mul_right, div-add-mod', add-mul}

-- What a step of the bucket grants.
abbrev pub granted_by : (ℕ × ℕ) × Bool → ℕ → ℕ
granted_by b batch = if b.1 then batch else 0

-- The step with the test of the batch before it.
abbrev pub admit : (window max rate last rest now batch : ℕ) → (ℕ × ℕ) × Bool
admit window max rate last rest now batch =
    if ltb max batch then ((last, rest), false) else bucket window max rate last rest now batch

-- A step keeps the rest within the maximum, and what it grants is paid for by the rest and by the
-- time that has passed between two refills.
pub record IsPaid (window max rate last rest now batch : ℕ) (b : (ℕ × ℕ) × Bool) : Type 0 where
  pub small : b.0.1 ≤ max
  pub later : last ≤ b.0.0
  pub early : b.0.0 ≤ now
  pub paid : b.0.1 * window + granted_by b batch * window ≤ rest * window + (b.0.0 - last) * rate

module _ (window max rate last rest now batch : ℕ) (small_rest : rest ≤ max)
    (past : last ≤ now) where
  same-IsPaid : IsPaid window max rate last rest now batch ((last, rest), false)
  same-IsPaid = record { small = small_rest; later = omega arith; early = past; paid = omega arith }

  split : (a : ℕ) → batch ≤ a → (a - batch) * window + batch * window ≡ a * window
  split a h =
      let e : a - batch + batch ≡ a = omega arith in
      sym (add-mul (a - batch) batch window) ∙ ap (λ n. n * window) e

  -- A full bucket, or what was added to it.
  filled_lem :
      (a added : ℕ)
      → added * window ≤ (now - last) * rate
      → a ≡ (if ltb max (added + rest) then max else added + rest)
      → (a ≤ max) × (a * window ≤ rest * window + (now - last) * rate)
  filled_lem a added h e =
      let le : a ≤ added + rest = ground arith in
      let k : a * window ≤ (added + rest) * window = mul-le-mul_right window le in
      (ground arith, omega (arith, add-mul added rest window))

  taken-IsPaid :
      (a last' : ℕ)
      → a ≤ max
      → last ≤ last'
      → last' ≤ now
      → a * window ≤ rest * window + (last' - last) * rate
      → leb batch a ≡ true
      → IsPaid window max rate last rest now batch ((last', a - batch), true)
  taken-IsPaid a last' le later early pays enough = record {
    small = omega arith;
    later = later;
    early = early;
    paid = omega (arith, split a (leb→le batch a enough));
  }

  bucket-IsPaid :
      IsPaid window max rate last rest now batch (bucket window max rate last rest now batch)
  bucket-IsPaid =
      let full =
        filled_lem _ ((now - last) * rate / window)
          (omega (arith, div-add-mod' ((now - last) * rate) window)) refl in
      if_intro (IsPaid window max rate last rest now batch) (ltb window (now - last)) _ _
        (λ _.
          if_intro (IsPaid window max rate last rest now batch) _ _ _
            (λ enough. taken-IsPaid _ now full.0 past (omega arith) full.1 enough)
            (λ _. same-IsPaid))
        (λ _.
          if_intro (IsPaid window max rate last rest now batch) _ _ _
            (λ enough. taken-IsPaid rest last small_rest (omega arith) past (omega arith) enough)
            (λ _. same-IsPaid))

  pub admit-IsPaid :
      IsPaid window max rate last rest now batch (admit window max rate last rest now batch)
  admit-IsPaid =
      if_intro (IsPaid window max rate last rest now batch) (ltb max batch) _ _ (λ _. same-IsPaid)
        (λ _. bucket-IsPaid)
