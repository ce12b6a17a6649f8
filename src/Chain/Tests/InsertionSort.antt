-- ===== src/Chain/Tests/InsertionSort.antt =====
-- An insertion sort, in the place of `sort.SliceStable`.
use gmiter.Prelude.{
  ℕ, ◌≤◌, ◌<◌, ◌≡◌, refl, sym, ap, ◌∙◌, ◌⊎◌, inl, inr, true, false, List, [], ◌∷◌, ◌++◌, ltb, ◌==◌,
  if◌then◌else◌, arith, Bool-cases, ltb→lt, ==_iff, ==_of_ne,
}
use gmiter.Chain.Slots.Order.{SortedFrom, at, SortsStably}
use mathlib.Core.Path.{subst}

module _ {A : Type 0} (order : A → ℕ) where
  -- An element goes behind those of its own order.
  unfoldable pub insert : A → List A → List A
  insert x [] = x ∷ []
  insert x (y ∷ l) =
      let rest = insert x l in if ltb (order x) (order y) then x ∷ y ∷ l else y ∷ rest

  unfoldable pub insert_all : List A → List A → List A
  insert_all acc [] = acc
  insert_all acc (x ∷ l) = insert_all (insert x acc) l

module _ {A : Type 0} where
  append_nil : (l : List A) → l ++ [] ≡ l
  append_nil [] = refl
  append_nil (x ∷ l) = ap (◌∷◌ x) (append_nil l)

  append_assoc : (l r t : List A) → (l ++ r) ++ t ≡ l ++ (r ++ t)
  append_assoc [] r t = refl
  append_assoc (x ∷ l) r t = ap (◌∷◌ x) (append_assoc l r t)

module _ {A : Type 0} (order : A → ℕ) where
  insert-SortedFrom :
      (x : A) (n : ℕ) (l : List A)
      → n ≤ order x
      → SortedFrom order n l
      → SortedFrom order n (insert order x l)
  unfolding insert
  insert-SortedFrom x n [] h s = (h, tt)
  insert-SortedFrom x n (y ∷ l) h s = elim (Bool-cases (ltb (order x) (order y))) [
    | inl e ↦ rw e (h, (omega (arith, ltb→lt (order x) (order y) e), s.1))
    | inr e ↦ rw e (s.0, insert-SortedFrom x (order y) l (ground arith) s.1)
  ]

  at_below : (n m : ℕ) (l : List A) → n < m → SortedFrom order m l → at order n l ≡ []
  at_below n m [] h s = refl
  at_below n m (x ∷ l) h s =
      rw (==_of_ne (order x) n (λ e. omega (arith, e, s.0)))
        (at_below n (order x) l (omega (arith, s.0)) s.1)

  at-insert :
      (x : A) (n m : ℕ) (l : List A)
      → SortedFrom order m l
      → at order n (insert order x l) ≡ at order n l ++ at order n (x ∷ [])
  unfolding insert
  at-insert x n m [] s = refl
  at-insert x n m (y ∷ l) s = elim (Bool-cases (ltb (order x) (order y))) [
    | inl e ↦ rw e (put_before (ltb→lt (order x) (order y) e))
    | inr e ↦ rw e (put_behind (at-insert x n (order y) l s.1) (Bool-cases (order y == n)))
  ]
    where
      put_before :
          order x < order y → at order n (x ∷ y ∷ l) ≡ at order n (y ∷ l) ++ at order n (x ∷ [])
      put_before h = elim (Bool-cases (order x == n)) [
        | inl q ↦
            let nil : at order n (y ∷ l) ≡ [] =
              at_below n (order y) (y ∷ l) (omega (arith, h, (==_iff (order x) n).0 q))
                (omega arith, s.1) in
            rw q (subst (λ r. x ∷ r ≡ r ++ x ∷ []) (sym nil) refl)
        | inr q ↦ rw q (sym (append_nil (at order n (y ∷ l))))
      ]

      put_behind :
          at order n (insert order x l) ≡ at order n l ++ at order n (x ∷ [])
          → ((order y == n) ≡ true) ⊎ ((order y == n) ≡ false)
          → at order n (y ∷ insert order x l) ≡ at order n (y ∷ l) ++ at order n (x ∷ [])
      put_behind ih (inl p) = rw p (ap (◌∷◌ y) ih)
      put_behind ih (inr p) = rw p ih

  insert_all_lem :
      (acc l : List A)
      → SortedFrom order 0 acc
      → SortedFrom order 0 (insert_all order acc l)
        × ((n : ℕ) → at order n (insert_all order acc l) ≡ at order n acc ++ at order n l)
  unfolding insert_all
  insert_all_lem acc [] s = (s, λ n. sym (append_nil (at order n acc)))
  insert_all_lem acc (x ∷ l) s =
      let (sorted, same) =
        insert_all_lem (insert order x acc) l (insert-SortedFrom x 0 acc (omega arith) s) in
      (
        sorted,
        λ n.
            same n
            ∙ ap (λ r. r ++ at order n l) (at-insert x n 0 acc s)
            ∙ front_of x n (at order n acc) l,
      )
    where
      front_of :
          (x : A) (n : ℕ) (r l : List A)
          → (r ++ at order n (x ∷ [])) ++ at order n l ≡ r ++ at order n (x ∷ l)
      front_of x n r l = elim (Bool-cases (order x == n)) [
        | inl q ↦ rw q (append_assoc r (x ∷ []) (at order n l))
        | inr q ↦ rw q (ap (λ u. u ++ at order n l) (append_nil r))
      ]

abbrev pub insertion_sort : (A : Type 0) → (A → ℕ) → List A → List A
insertion_sort A order l = insert_all order [] l

pub insertion_sort-SortsStably : SortsStably insertion_sort
insertion_sort-SortsStably A order l = insert_all_lem order [] l tt
