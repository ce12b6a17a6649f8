-- ===== src/Chain/Slots/Order.antt =====
-- The order of the slots of core/base/slot_chain.go.
use gmiter.Prelude.{
  ℕ, ◌≤◌, ◌≡◌, refl, sym, ap, ◌∙◌, List, [], ◌∷◌, ◌++◌, ◌==◌, if◌then◌else◌, Bool-cases, inl, inr,
}
use gmiter.Chain.Slots.{
  StatPrepareSlot, RuleCheckSlot, StatSlot, RouterSlot, SlotChain, new_slot_chain,
  add_stat_prepare_slot, add_rule_check_slot, add_stat_slot, add_router_slot,
}

module _ {A : Type 0} (order : A → ℕ) where
  -- Nothing below the bound, and ascending.
  abbrev pub SortedFrom : ℕ → List A → Type 0
  SortedFrom n [] = Unit
  SortedFrom n (x ∷ l) = (n ≤ order x) × SortedFrom (order x) l

  -- The elements of one order.
  abbrev pub at : ℕ → List A → List A
  at n [] = []
  at n (x ∷ l) = if order x == n then x ∷ at n l else at n l

  -- In ascending order, and those of one order as they stand in `added`.
  abbrev pub IsArranged : (arranged added : List A) → Type 0
  IsArranged arranged added = SortedFrom 0 arranged × ((n : ℕ) → at n arranged ≡ at n added)

  at-append : (n : ℕ) (l r : List A) → at n (l ++ r) ≡ at n l ++ at n r
  at-append n [] r = refl
  at-append n (x ∷ l) r = elim (Bool-cases (order x == n)) [
    | inl e ↦ rw e (ap (◌∷◌ x) (at-append n l r))
    | inr e ↦ rw e (at-append n l r)
  ]

-- What the documentation of `sort.SliceStable` says: the result is in order, and equal elements keep
-- their order.
abbrev pub SortsStably : ((A : Type 0) → (A → ℕ) → List A → List A) → Type 1
SortsStably slice_stable =
    (A : Type 0) (order : A → ℕ) (l : List A) → IsArranged order (slice_stable A order l) l

append_nil : {A : Type 0} (l : List A) → l ++ [] ≡ l
append_nil [] = refl
append_nil (x ∷ l) = ap (◌∷◌ x) (append_nil l)

append_assoc : {A : Type 0} (l r t : List A) → (l ++ r) ++ t ≡ l ++ (r ++ t)
append_assoc [] r t = refl
append_assoc (x ∷ l) r t = ap (◌∷◌ x) (append_assoc l r t)

module _ (slice_stable : (A : Type 0) → (A → ℕ) → List A → List A)
    (stable : SortsStably slice_stable) where
  -- One addition more.
  next :
      {A : Type 0} (order : A → ℕ) (l seen : List A) (s : A)
      → IsArranged order l seen
      → IsArranged order (slice_stable A order (l ++ s ∷ [])) (seen ++ s ∷ [])
  next {A} order l seen s (_, same) =
      let (sorted, kept) = stable A order (l ++ s ∷ []) in
      (
        sorted,
        λ n.
            kept n
            ∙ at-append order n l (s ∷ [])
            ∙ ap (λ x. x ++ at order n (s ∷ [])) (same n)
            ∙ sym (at-append order n seen (s ∷ [])),
      )

-- A slot of any kind, to be added.
pub data Added (R V D : Type 0) : Type 0 where
  stat_prepare : StatPrepareSlot R V D → Added R V D
  rule_check : RuleCheckSlot R V D → Added R V D
  stat : StatSlot R V D → Added R V D
  router : RouterSlot R V D → Added R V D

module _ {R V D : Type 0} where
  -- The slots of one kind, in the order of their addition.
  abbrev pub stat_prepares : List (Added R V D) → List (StatPrepareSlot R V D)
  stat_prepares [] = []
  stat_prepares (stat_prepare s ∷ l) = s ∷ stat_prepares l
  stat_prepares (_ ∷ l) = stat_prepares l

  abbrev pub rule_checks_of : List (Added R V D) → List (RuleCheckSlot R V D)
  rule_checks_of [] = []
  rule_checks_of (rule_check s ∷ l) = s ∷ rule_checks_of l
  rule_checks_of (_ ∷ l) = rule_checks_of l

  abbrev pub stats_of : List (Added R V D) → List (StatSlot R V D)
  stats_of [] = []
  stats_of (stat s ∷ l) = s ∷ stats_of l
  stats_of (_ ∷ l) = stats_of l

  abbrev pub routers_of : List (Added R V D) → List (RouterSlot R V D)
  routers_of [] = []
  routers_of (router s ∷ l) = s ∷ routers_of l
  routers_of (_ ∷ l) = routers_of l

  module _ (slice_stable : (A : Type 0) → (A → ℕ) → List A → List A) where
    abbrev pub add : SlotChain R V D → Added R V D → SlotChain R V D
    add sc (stat_prepare s) = add_stat_prepare_slot slice_stable sc s
    add sc (rule_check s) = add_rule_check_slot slice_stable sc s
    add sc (stat s) = add_stat_slot slice_stable sc s
    add sc (router s) = add_router_slot slice_stable sc s

    -- The slots added one after the other.
    unfoldable pub add_all : SlotChain R V D → List (Added R V D) → SlotChain R V D
    add_all sc [] = sc
    add_all sc (s ∷ l) = add_all (add sc s) l

    -- The four lists of a chain, arranged.
    abbrev pub IsOrdered :
        SlotChain R V D
        → List (StatPrepareSlot R V D)
        → List (RuleCheckSlot R V D)
        → List (StatSlot R V D)
        → List (RouterSlot R V D)
        → Type 0
    IsOrdered sc p q r t =
        IsArranged (λ x. x.order) sc.stat_pres p
        × IsArranged (λ x. x.order) sc.rule_checks q
        × IsArranged (λ x. x.order) sc.stats r
        × IsArranged (λ x. x.order) sc.routers t

    module _ (stable : SortsStably slice_stable) where
      add_all-IsOrdered :
          (l : List (Added R V D)) (sc : SlotChain R V D) (p : List (StatPrepareSlot R V D))
          (q : List (RuleCheckSlot R V D)) (r : List (StatSlot R V D)) (t : List (RouterSlot R V D))
          → IsOrdered sc p q r t
          → IsOrdered
              (add_all sc l)
              (p ++ stat_prepares l)
              (q ++ rule_checks_of l)
              (r ++ stats_of l)
              (t ++ routers_of l)
      unfolding add_all add_stat_prepare_slot add_rule_check_slot add_stat_slot add_router_slot
      add_all-IsOrdered [] sc p q r t h =
          rw (append_nil p, append_nil q, append_nil r, append_nil t) h
      add_all-IsOrdered (stat_prepare s ∷ l) sc p q r t (hp, hq, hr, ht) =
          rw (← append_assoc p (s ∷ []) (stat_prepares l)) (
            add_all-IsOrdered l _ (p ++ s ∷ []) q r t
              (next slice_stable stable _ sc.stat_pres p s hp, hq, hr, ht))
      add_all-IsOrdered (rule_check s ∷ l) sc p q r t (hp, hq, hr, ht) =
          rw (← append_assoc q (s ∷ []) (rule_checks_of l)) (
            add_all-IsOrdered l _ p (q ++ s ∷ []) r t
              (hp, next slice_stable stable _ sc.rule_checks q s hq, hr, ht))
      add_all-IsOrdered (stat s ∷ l) sc p q r t (hp, hq, hr, ht) =
          rw (← append_assoc r (s ∷ []) (stats_of l)) (
            add_all-IsOrdered l _ p q (r ++ s ∷ []) t
              (hp, hq, next slice_stable stable _ sc.stats r s hr, ht))
      add_all-IsOrdered (router s ∷ l) sc p q r t (hp, hq, hr, ht) =
          rw (← append_assoc t (s ∷ []) (routers_of l)) (
            add_all-IsOrdered l _ p q r (t ++ s ∷ [])
              (hp, hq, hr, next slice_stable stable _ sc.routers t s ht))

      -- With a sort that is stable, a chain that starts new has, after any sequence of the four kinds of
      -- additions, exactly the slots added in each of its lists, in ascending order, and those of one order
      -- in the order of their addition.
      pub add_all-new_slot_chain :
          (l : List (Added R V D))
          → IsOrdered
              (add_all new_slot_chain l)
              (stat_prepares l)
              (rule_checks_of l)
              (stats_of l)
              (routers_of l)
      unfolding new_slot_chain
      add_all-new_slot_chain l =
          add_all-IsOrdered l new_slot_chain [] [] [] []
            ((tt, λ n. refl), (tt, λ n. refl), (tt, λ n. refl), (tt, λ n. refl))
