-- ===== src/Isolation/Verdicts.antt =====
-- When core/isolation lets a call through.
use gmiter.Prelude.{
  ℕ, ◌+◌, ◌%◌, ◌≤◌, ◌<◌, ◌≡◌, refl, ◌⊎◌, true, false, some, List, [], ◌∷◌, get_elem?, zero, suc,
  ltb, ◌==◌, mod32, arith, Bool-cases, inl, inr, ltb→lt, some_inj,
}
use gmiter.Stat.Node.{BaseStatNode}
use gmiter.Isolation.{Rule, Checked, concurrency, count_of, check_pass, check_pass_from}
use mathlib.Core.Path.{subst}

-- The sum that the code compares, in 32 bits.
abbrev pub demand : BaseStatNode → ℕ → ℕ
demand n batch_count = (count_of n + batch_count) % mod32

-- The rule limits the calls in flight and the demand does not pass its threshold, or is over it.
abbrev pub Admits : BaseStatNode → ℕ → Rule → Type 0
Admits n batch_count r = r.metric_type ≡ concurrency → demand n batch_count ≤ r.threshold

abbrev pub Exceeded : BaseStatNode → ℕ → Rule → Type 0
Exceeded n batch_count r = (r.metric_type ≡ concurrency) × (r.threshold < demand n batch_count)

module _ (n : BaseStatNode) (batch_count : ℕ) where
  abbrev AllAdmit : List Rule → Type 0
  AllAdmit rules = (i : ℕ) (r : Rule) → get_elem? rules i ≡ some r → Admits n batch_count r

  abbrev pub IsVerdict : List Rule → Checked → Type 0
  IsVerdict rules checked =
      (checked.passed ≡ true) × AllAdmit rules
      ⊎ (checked.passed ≡ false)
        × (i : ℕ) × (r : Rule) × (get_elem? rules i ≡ some r)
        × (checked.rule ≡ some r)
        × Exceeded n batch_count r

  AllAdmit-cons :
      (r : Rule) (rules : List Rule)
      → Admits n batch_count r
      → AllAdmit rules
      → AllAdmit (r ∷ rules)
  AllAdmit-cons r rules admits all zero s at = subst (Admits n batch_count) (some_inj _ _ at) admits
  AllAdmit-cons r rules admits all (suc i) s at = all i s at

  -- A rule that does not refuse the call goes in front.
  IsVerdict-cons :
      (r : Rule) (rules : List Rule) (checked : Checked)
      → Admits n batch_count r
      → IsVerdict rules checked
      → IsVerdict (r ∷ rules) checked
  IsVerdict-cons r rules checked admits (inl (e, all)) = inl (e, AllAdmit-cons r rules admits all)
  IsVerdict-cons r rules checked admits (inr (e, i, s, at, named, over)) =
      inr (e, suc i, s, at, named, over)

  check_pass_from-IsVerdict :
      (rules : List Rule) (cur_count : ℕ)
      → (checked : Checked) × (check_pass_from rules (some n) batch_count cur_count ≡ some checked)
        × IsVerdict rules checked
  unfolding check_pass_from
  check_pass_from-IsVerdict [] cur_count = (_, refl, inl (refl, λ i r at. absurd cc))
  check_pass_from-IsVerdict (r ∷ rules) cur_count =
      elim (Bool-cases (r.metric_type == concurrency)) [
        | inr other ↦
            let (checked, e, v) = check_pass_from-IsVerdict rules cur_count in
            (
              checked,
              rw (other, check_pass_from) e,
              IsVerdict-cons r rules checked (λ is. absurd (ground (arith, is, other))) v,
            )
        | inl applies ↦ elim (Bool-cases (ltb r.threshold (demand n batch_count))) [
          | inl over ↦ (
            record { passed = false; rule = some r; snapshot = count_of n },
            rw (applies, over) refl,
            inr (refl, zero, r, refl, refl, (ground (arith, applies), ltb→lt _ _ over)),
          )
          | inr under ↦
              let (checked, e, v) = check_pass_from-IsVerdict rules (count_of n) in
              (
                checked,
                rw (applies, under) e,
                IsVerdict-cons r rules checked (λ _. ground (arith, under)) v,
              )
        ]
      ]

  -- On a resource with a node the check returns, whatever the rules. A call that it lets through is admitted by
  -- every concurrency rule: the calls in flight with its batch are within the threshold, in 32 bits. A
  -- call that it refuses is over the threshold of the concurrency rule that it names, which is one of the rules.
  pub check_pass_lem :
      (rules : List Rule)
      → (checked : Checked) × (check_pass rules (some n) batch_count ≡ some checked)
        × IsVerdict rules checked
  unfolding check_pass
  check_pass_lem rules = check_pass_from-IsVerdict rules 0
