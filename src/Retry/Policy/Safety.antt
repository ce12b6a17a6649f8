-- ===== src/Retry/Policy/Safety.antt =====
-- The contexts of core/retry/policy that fit a policy, and the type assertions on them.
use gmiter.Prelude.{ℕ, ◌≡◌, refl, Bool, not, Option, some, List, [], ◌∷◌}
use gmiter.Retry.Classify.{GoString, ErrorClassifier}
use gmiter.Retry.Policy.{
  RtyContextSupport, register_support, Policy, never, always, max_attempts, simple,
  error_classifier, timeout, composite, Policies, no_policies, policy, Context, support_context,
  never_context, simple_context, timeout_context, composite_context, Contexts, no_contexts, context,
  open_context, open_contexts, vote, can_retry, can_retry_each, register_error, register_errors,
  register_all,
}

-- A context of the type that the policy opens.
mutual
  pub data Fits : Policy → Context → Type 0 where
    never_fits : {s : RtyContextSupport} {finished : Bool} → Fits never (never_context s finished)
    always_fits : {s : RtyContextSupport} {finished : Bool} → Fits always (never_context s finished)
    max_attempts_fits : {n : ℕ} {s : RtyContextSupport} → Fits (max_attempts n) (support_context s)
    simple_fits :
        {n : ℕ} {e : ErrorClassifier} {s : RtyContextSupport} → Fits (simple n e) (simple_context s)
    error_classifier_fits :
        {e : ErrorClassifier} {s : RtyContextSupport}
        → Fits (error_classifier e) (support_context s)
    timeout_fits :
        {t limit start : ℕ} {s : RtyContextSupport}
        → Fits (timeout t) (timeout_context s limit start)
    composite_fits :
        {ps qs : Policies} {optimistic : Bool} {s : RtyContextSupport} {cs : Contexts}
        → FitsEach qs cs
        → Fits (composite ps optimistic) (composite_context s cs qs)

  pub data FitsEach : Policies → Contexts → Type 0 where
    none_fits : FitsEach no_policies no_contexts
    each_fits :
        {p : Policy} {c : Context} {ps : Policies} {cs : Contexts}
        → Fits p c
        → FitsEach ps cs
        → FitsEach (policy p ps) (context c cs)

mutual
  unfolding open_context open_contexts

  open_context-Fits : (now : ℕ) (p : Policy) → Fits p (open_context now p)
  open_context-Fits now never = never_fits
  open_context-Fits now always = always_fits
  open_context-Fits now (max_attempts attempts) = max_attempts_fits
  open_context-Fits now (simple attempts classifier) = simple_fits
  open_context-Fits now (error_classifier classifier) = error_classifier_fits
  open_context-Fits now (timeout t) = timeout_fits
  open_context-Fits now (composite ps optimistic) = composite_fits (open_contexts-FitsEach now ps)

  open_contexts-FitsEach : (now : ℕ) (ps : Policies) → FitsEach ps (open_contexts now ps)
  open_contexts-FitsEach now no_policies = none_fits
  open_contexts-FitsEach now (policy p ps) =
      each_fits (open_context-Fits now p) (open_contexts-FitsEach now ps)

mutual
  unfolding register_error register_errors

  register_error-Fits :
      {p : Policy} {c : Context} (e : Option GoString)
      → Fits p c
      → (c' : Context) × (register_error p c e ≡ some c') × Fits p c'
  register_error-Fits e never_fits = (_, refl, never_fits)
  register_error-Fits e always_fits = (_, refl, always_fits)
  register_error-Fits e max_attempts_fits = (_, refl, max_attempts_fits)
  register_error-Fits e simple_fits = (_, refl, simple_fits)
  register_error-Fits e error_classifier_fits = (_, refl, error_classifier_fits)
  register_error-Fits e timeout_fits = (_, refl, timeout_fits)
  register_error-Fits e (composite_fits {qs} {s} h) =
      let (cs', same, fit) = register_errors-FitsEach e h in
      (composite_context (register_support s e) cs' qs, rw same refl, composite_fits fit)

  register_errors-FitsEach :
      {ps : Policies} {cs : Contexts} (e : Option GoString)
      → FitsEach ps cs
      → (cs' : Contexts) × (register_errors ps cs e ≡ some cs') × FitsEach ps cs'
  register_errors-FitsEach e none_fits = (no_contexts, refl, none_fits)
  register_errors-FitsEach e (each_fits h hs) =
      let (c', same, fit) = register_error-Fits e h in
      let (cs', same', fit') = register_errors-FitsEach e hs in
      (context c' cs', rw (same, same') refl, each_fits fit fit')

register_all-Fits :
    (p : Policy) (es : List GoString) (c : Context)
    → Fits p c
    → (c' : Context) × (register_all p c es ≡ some c') × Fits p c'
unfolding register_all
register_all-Fits p [] c h = (c, refl, h)
register_all-Fits p (e ∷ es) c h =
    let (c', same, fit) = register_error-Fits (some e) h in
    let (c'', same', fit') = register_all-Fits p es c' fit in
    (c'', rw (same, register_all) same', fit')

module _ (match_string : GoString → GoString → Option Bool) where
  mutual
    unfolding can_retry can_retry_each

    can_retry-Fits :
        (now : ℕ) {p : Policy} {c : Context}
        → Fits p c
        → (b : Bool) × (can_retry match_string now p c ≡ some b)
    can_retry-Fits now never_fits = (_, refl)
    can_retry-Fits now always_fits = (_, refl)
    can_retry-Fits now max_attempts_fits = (_, refl)
    can_retry-Fits now simple_fits = (_, refl)
    can_retry-Fits now error_classifier_fits = (_, refl)
    can_retry-Fits now timeout_fits = (_, refl)
    can_retry-Fits now (composite_fits {optimistic} h) =
        can_retry_each-FitsEach now optimistic (not optimistic) h

    can_retry_each-FitsEach :
        (now : ℕ) (optimistic retryable : Bool) {ps : Policies} {cs : Contexts}
        → FitsEach ps cs
        → (b : Bool) × (can_retry_each match_string now optimistic retryable ps cs ≡ some b)
    can_retry_each-FitsEach now optimistic retryable none_fits = (retryable, refl)
    can_retry_each-FitsEach now optimistic retryable (each_fits h hs) =
        let (answer, same) = can_retry-Fits now h in
        let (b, same') =
          can_retry_each-FitsEach now optimistic (vote optimistic retryable answer) hs in
        (b, rw (same, same') refl)

  -- For every policy with classifiers that are not nil, nested composites included: the context that it opens takes any sequence of errors,
  -- and at any later time the policy says whether to retry; no type assertion and no index panics.
  pub can_retry-total :
      (opened now : ℕ) (p : Policy) (es : List GoString)
      → (c : Context) × (b : Bool) × (register_all p (open_context opened p) es ≡ some c)
        × (can_retry match_string now p c ≡ some b)
  can_retry-total opened now p es =
      let (c, same, fit) =
        register_all-Fits p es (open_context opened p) (open_context-Fits opened p) in
      let (b, answer) = can_retry-Fits now fit in (c, b, same, answer)
