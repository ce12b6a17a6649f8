-- ===== src/Retry/Policy/Attempts.antt =====
-- How often the policies of core/retry/policy let a call be tried.
use gmiter.Prelude.{
  ℕ, suc, ◌+◌, ◌<◌, ◌≡◌, refl, sym, ap, ◌∙◌, inl, inr, Bool, true, false, ◌&&◌, ◌||◌, Option, none,
  some, List, [], ◌∷◌, length, ltb, if◌then◌else◌, half32, slt32, arith, Option-cases, lt→ltb,
}
use gmiter.Retry.Classify.{GoString}
use gmiter.Retry.Policy.{
  RtyContextSupport, new_support, register_support, never, max_attempts, composite, Policies,
  no_policies, policy, Context, support_context, never_context, composite_context, Contexts,
  no_contexts, context, get_support, get_retry_count, open_context, vote, can_retry, can_retry_each,
  register_error, register_all,
}

abbrev pub map_option {ℓ} : {A B : Type ℓ} → (A → B) → Option A → Option B
map_option f none = none
map_option f (some a) = some (f a)

module _ (match_string : GoString → GoString → Option Bool) where
  -- The policies that say yes.
  abbrev pub answers : (now : ℕ) → Policies → Contexts → Option (List Bool)
  answers now ps no_contexts = some []
  answers now no_policies (context c cs) = none
  answers now (policy p ps) (context c cs) = elim (can_retry match_string now p c) [
    | none ↦ none
    | some b ↦ map_option (λ bs. b ∷ bs) (answers now ps cs)
  ]

abbrev pub any : List Bool → Bool
any [] = false
any (b ∷ bs) = b || any bs

abbrev pub all : List Bool → Bool
all [] = true
all (b ∷ bs) = b && all bs

or_false : (b : Bool) → (b || false) ≡ b
or_false true = refl
or_false false = refl

and_true : (b : Bool) → (b && true) ≡ b
and_true true = refl
and_true false = refl

vote-any :
    (r b : Bool) (o : Option (List Bool))
    → map_option (λ bs. vote true r b || any bs) o
      ≡ map_option (λ bs. r || any bs) (map_option (λ bs. b ∷ bs) o)
unfolding vote
vote-any r b none = refl
vote-any true true (some bs) = refl
vote-any true false (some bs) = refl
vote-any false b (some bs) = ground arith

vote-all :
    (r b : Bool) (o : Option (List Bool))
    → map_option (λ bs. vote false r b && all bs) o
      ≡ map_option (λ bs. r && all bs) (map_option (λ bs. b ∷ bs) o)
unfolding vote
vote-all r b none = refl
vote-all true b (some bs) = ground arith
vote-all false true (some bs) = refl
vote-all false false (some bs) = refl

module _ (match_string : GoString → GoString → Option Bool) where
  optimistic_loop :
      (now : ℕ) (retryable : Bool) (ps : Policies) (cs : Contexts)
      → can_retry_each match_string now true retryable ps cs
        ≡ map_option (λ bs. retryable || any bs) (answers match_string now ps cs)
  unfolding can_retry_each
  optimistic_loop now retryable ps no_contexts = ap some (sym (or_false retryable))
  optimistic_loop now retryable no_policies (context c cs) = refl
  optimistic_loop now retryable (policy p ps) (context c cs) =
      elim (Option-cases (can_retry match_string now p c)) [
        | inl e ↦ rw (e, answers) refl
        | inr (b, e) ↦
            rw (e, answers)
              (optimistic_loop now (vote true retryable b) ps cs
                ∙ vote-any retryable b (answers match_string now ps cs))
      ]

  pessimistic_loop :
      (now : ℕ) (retryable : Bool) (ps : Policies) (cs : Contexts)
      → can_retry_each match_string now false retryable ps cs
        ≡ map_option (λ bs. retryable && all bs) (answers match_string now ps cs)
  unfolding can_retry_each
  pessimistic_loop now retryable ps no_contexts = ap some (sym (and_true retryable))
  pessimistic_loop now retryable no_policies (context c cs) = refl
  pessimistic_loop now retryable (policy p ps) (context c cs) =
      elim (Option-cases (can_retry match_string now p c)) [
        | inl e ↦ rw (e, answers) refl
        | inr (b, e) ↦
            rw (e, answers)
              (pessimistic_loop now (vote false retryable b) ps cs
                ∙ vote-all retryable b (answers match_string now ps cs))
      ]

  -- An optimistic composite retries if any of its policies does, a pessimistic one if all of them do.
  pub composite_lem :
      (now : ℕ) (ps : Policies) (optimistic : Bool) (s : RtyContextSupport) (cs : Contexts)
      (qs : Policies)
      → can_retry match_string now (composite ps optimistic) (composite_context s cs qs)
        ≡ map_option (if optimistic then any else all) (answers match_string now qs cs)
  unfolding can_retry
  composite_lem now ps true s cs qs = optimistic_loop now false qs cs
  composite_lem now ps false s cs qs = pessimistic_loop now true qs cs

counted :
    (n : ℕ) (s : RtyContextSupport) (es : List GoString)
    → s.count + length es < half32
    → (s' : RtyContextSupport) × (register_all (max_attempts n) (support_context s) es
        ≡ some (support_context s'))
      × (s'.count ≡ s.count + length es)
unfolding register_all register_error register_support
counted n s [] h = (s, refl, omega arith)
counted n s (e ∷ es) h =
    let s' = register_support s (some e) in
    let one : s'.count ≡ s.count + 1 = omega arith in
    let (s'', same, more) = counted n s' es (omega (arith, one)) in
    (s'', same, omega (arith, more, one))

slt32_small : (a b n : ℕ) → a ≡ b → n < half32 → b < half32 → slt32 a n ≡ ltb b n
slt32_small a b n e h h' = ground arith

-- A call under the policy of `attempts` tries is tried again exactly while it failed fewer times.
pub max_attempts_lem :
    (match_string : GoString → GoString → Option Bool) (opened now attempts : ℕ)
    (es : List GoString)
    → attempts < half32
    → length es < half32
    → (c : Context) × (register_all
          (max_attempts attempts)
          (open_context opened (max_attempts attempts))
          es
        ≡ some c)
      × (can_retry match_string now (max_attempts attempts) c ≡ some (ltb (length es) attempts))
unfolding open_context can_retry get_retry_count get_support
max_attempts_lem match_string opened now attempts es small few =
    let (s, same, count) = counted attempts new_support es (omega arith) in
    (
      support_context s,
      same,
      ap some (slt32_small s.count (length es) attempts (omega (arith, count)) small few),
    )

finished_stays :
    (s : RtyContextSupport) (es : List GoString)
    → (s' : RtyContextSupport) × (register_all never (never_context s true) es
        ≡ some (never_context s' true))
unfolding register_all register_error
finished_stays s [] = (s, refl)
finished_stays s (e ∷ es) = finished_stays (register_support s (some e)) es

-- The policy that is to allow the first try only refuses the first and allows every later one.
pub never_lem :
    (match_string : GoString → GoString → Option Bool) (opened now : ℕ) (es : List GoString)
    → (c : Context) × (register_all never (open_context opened never) es ≡ some c)
      × (can_retry match_string now never c ≡ some (ltb 0 (length es)))
unfolding open_context can_retry register_all register_error
never_lem match_string opened now [] = (_, refl, refl)
never_lem match_string opened now (e ∷ es) =
    let (s, same) = finished_stays (register_support new_support (some e)) es in
    (never_context s true, same, ap some (sym (lt→ltb 0 (suc (length es)) (omega arith))))
