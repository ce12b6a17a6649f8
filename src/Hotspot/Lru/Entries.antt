-- ===== src/Hotspot/Lru/Entries.antt =====
-- Lists of entries with a key, for core/hotspot/cache/lru.go.
use gmiter.Prelude.{
  ℕ, zero, suc, ◌≡◌, refl, sym, ap, ◌∙◌, ◌≢◌, Bool, true, false, Option, none, some, List, [], ◌∷◌,
  length, arith, take, some_inj,
}
use mathlib.Core.Logic.{ite, if_pos, if_neg}
use mathlib.Core.Path.{subst}

module _ {K V : Type 0} (dec : Discrete K) where
  unfoldable pub lookup : K → List (K × V) → Option V
  lookup k [] = none
  lookup k ((j, v) ∷ l) = ite (dec j k) (some v) (lookup k l)

  -- Without the first entry of the key.
  unfoldable pub remove : K → List (K × V) → List (K × V)
  remove k [] = []
  remove k ((j, v) ∷ l) = ite (dec j k) l ((j, v) ∷ remove k l)

module _ {K : Type 0} (dec : Discrete K) where
  unfoldable pub has : K → List K → Bool
  has k [] = false
  has k (j ∷ ks) = ite (dec j k) true (has k ks)

  -- Without the key, wherever it stands.
  unfoldable pub without : K → List K → List K
  without k [] = []
  without k (j ∷ ks) = let rest = without k ks in ite (dec j k) rest (j ∷ rest)

module _ {ℓ} {A : Type ℓ} where
  unfoldable pub last : List A → Option A
  last [] = none
  last (x ∷ []) = some x
  last (x ∷ y ∷ l) = last (y ∷ l)

  unfoldable pub init : List A → List A
  init [] = []
  init (x ∷ []) = []
  init (x ∷ y ∷ l) = x ∷ init (y ∷ l)

abbrev pub is_some {ℓ} : {A : Type ℓ} → Option A → Bool
is_some none = false
is_some (some a) = true

-- No key stands twice.
abbrev pub Distinct : {K V : Type 0} → Discrete K → List (K × V) → Type 0
Distinct dec [] = Unit
Distinct dec ((k, v) ∷ l) = (lookup dec k l ≡ none) × Distinct dec l

pub init-take {ℓ} : {A : Type ℓ} (n : ℕ) (l : List A) → length l ≡ suc n → init l ≡ take n l
unfolding init
init-take n [] h = absurd (omega arith)
init-take zero (x ∷ []) h = refl
init-take (suc n) (x ∷ []) h = absurd (omega arith)
init-take zero (x ∷ y ∷ l) h = absurd (omega arith)
init-take (suc n) (x ∷ y ∷ l) h = ap (◌∷◌ x) (init-take n (y ∷ l) (omega arith))

pub last_of_cons {ℓ} : {A : Type ℓ} (x : A) (l : List A) → (y : A) × (last (x ∷ l) ≡ some y)
unfolding last
last_of_cons x [] = (x, refl)
last_of_cons x (y ∷ l) = last_of_cons y l

pub none≢some {ℓ} : {A : Type ℓ} {a : A} → none ≡ some a → ⊥
none≢some h = cc

module _ {K V : Type 0} (dec : Discrete K) where
  pub lookup-remove :
      (k q : K) (l : List (K × V))
      → Distinct dec l
      → lookup dec q (remove dec k l) ≡ ite (dec k q) none (lookup dec q l)
  unfolding lookup remove
  lookup-remove k q [] d = ground arith
  lookup-remove k q ((j, v) ∷ l) d = ground (arith, lookup-remove k q l)

  pub remove-Distinct : (k : K) (l : List (K × V)) → Distinct dec l → Distinct dec (remove dec k l)
  unfolding remove
  remove-Distinct k [] d = tt
  remove-Distinct k ((j, v) ∷ l) d = ground (arith, remove-Distinct k l, lookup-remove k j l)

  pub length-remove :
      (k : K) (l : List (K × V)) (v : V)
      → lookup dec k l ≡ some v
      → length l ≡ suc (length (remove dec k l))
  unfolding lookup remove
  length-remove k [] v h = cc
  length-remove k ((j, w) ∷ l) v h = ground (arith, length-remove k l v)

  pub remove_absent : (k : K) (l : List (K × V)) → lookup dec k l ≡ none → remove dec k l ≡ l
  unfolding lookup remove
  remove_absent k [] h = refl
  remove_absent k ((j, v) ∷ l) h = ground (arith, remove_absent k l)

  -- The last entry is found under its key, and to remove its key is to drop it.
  pub last_lem :
      (l : List (K × V)) (k : K) (v : V)
      → Distinct dec l
      → last l ≡ some (k, v)
      → (lookup dec k l ≡ some v) × (remove dec k l ≡ init l)
  unfolding lookup remove last init
  last_lem [] k v d h = cc
  last_lem ((j, w) ∷ []) k v d h =
      let e : (j, w) ≡ (k, v) = some_inj _ _ h in
      let same : j ≡ k = ap (λ p. p.0) e in
      let same_value : w ≡ v = ap (λ p. p.1) e in
      (if_pos (dec j k) same _ _ ∙ ap some same_value, if_pos (dec j k) same _ _)
  last_lem ((j, w) ∷ (i, u) ∷ l) k v d h =
      let (found, dropped) = last_lem ((i, u) ∷ l) k v d.1 h in
      let other : j ≢ k =
        λ e. none≢some (sym d.0 ∙ subst (λ x. lookup dec x ((i, u) ∷ l) ≡ some v) (sym e) found) in
      (if_neg (dec j k) other _ _ ∙ found, if_neg (dec j k) other _ _ ∙ ap (◌∷◌ (j, w)) dropped)

module _ {K : Type 0} (dec : Discrete K) where
  pub has-without :
      (k q : K) (ks : List K) → has dec q (without dec k ks) ≡ ite (dec k q) false (has dec q ks)
  unfolding has without
  has-without k q [] = ground arith
  has-without k q (j ∷ ks) = ground (arith, has-without k q ks)
