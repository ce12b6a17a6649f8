-- ===== src/Retry/Policy.antt =====
-- core/retry/policy and core/retry/context: the retry policies and the contexts that they open. A policy is
-- one of the code's types, and so is a context; a call of a policy with another policy's context fails its
-- type assertion, which panics (none). A context's parent and its attributes, which no policy reads, are
-- left out. The classifier of a policy is not nil. The clock is the parameter `now` of the calls that read it, the same for the parts of a
-- composite; an int32 or int64 is its bit pattern.
pub mod Safety
pub mod Attempts
use gmiter.Prelude.{
  ℕ, ◌+◌, ◌%◌, Bool, true, false, not, ◌&&◌, Option, none, some, List, [], ◌∷◌, if◌then◌else◌,
  mod32, sub64, slt64, slt32,
}
use gmiter.Retry.Classify.{GoString, PatternMatcher, ErrorClassifier, set_classified, classify}

pub record RtyContextSupport : Type 0 where
  pub terminate : Bool
  pub count : ℕ
  pub last_error : Option GoString

abbrev pub new_support : RtyContextSupport
new_support = record { terminate = false; count = 0; last_error = none }

unfoldable pub register_support : RtyContextSupport → Option GoString → RtyContextSupport
register_support r none = record r { last_error = none }
register_support r (some e) = record r { last_error = some e; count = (r.count + 1) % mod32 }

mutual
  pub data Policy : Type 0 where
    never : Policy
    always : Policy
    max_attempts : (attempts : ℕ) → Policy
    simple : (attempts : ℕ) → ErrorClassifier → Policy
    error_classifier : ErrorClassifier → Policy
    timeout : (limit : ℕ) → Policy
    composite : Policies → (optimistic : Bool) → Policy

  pub data Policies : Type 0 where
    no_policies : Policies
    policy : Policy → Policies → Policies

mutual
  pub data Context : Type 0 where
    support_context : RtyContextSupport → Context
    never_context : RtyContextSupport → (finished : Bool) → Context
    simple_context : RtyContextSupport → Context
    timeout_context : RtyContextSupport → (limit start : ℕ) → Context
    composite_context : RtyContextSupport → Contexts → Policies → Context

  pub data Contexts : Type 0 where
    no_contexts : Contexts
    context : Context → Contexts → Contexts

unfoldable pub get_support : Context → RtyContextSupport
get_support (support_context s) = s
get_support (never_context s finished) = s
get_support (simple_context s) = s
get_support (timeout_context s limit start) = s
get_support (composite_context s cs ps) = s

unfoldable pub get_retry_count : Context → ℕ
get_retry_count c = (get_support c).count

-- `NewSimpleRetryPolicyWithMaxAttemptsAndErrorsAndDefault`.
unfoldable pub new_simple_retry_policy :
    (attempts : ℕ) → List GoString → (default_value : Bool) → Policy
new_simple_retry_policy attempts errs default_value =
    simple attempts
      (record (set_classified
        (record { default_value = false; classified = []; matcher = PatternMatcher.exact_match })
        errs) { default_value = default_value })

unfoldable pub is_alive : (now limit start : ℕ) → Bool
is_alive now limit start = not (slt64 limit (sub64 now start))

mutual
  pub open_context : (now : ℕ) → Policy → Context
  open_context now never = never_context new_support false
  open_context now always = never_context new_support false
  open_context now (max_attempts attempts) = support_context new_support
  open_context now (simple attempts classifier) = simple_context new_support
  open_context now (error_classifier classifier) = support_context new_support
  open_context now (timeout t) = timeout_context new_support t now
  open_context now (composite ps optimistic) =
      composite_context new_support (open_contexts now ps) ps

  pub open_contexts : (now : ℕ) → Policies → Contexts
  open_contexts now no_policies = no_contexts
  open_contexts now (policy p ps) = context (open_context now p) (open_contexts now ps)

-- One round of the loops of a composite: the flag is set by a policy that agrees, if optimistic, and
-- cleared by one that does not, if pessimistic.
unfoldable pub vote : (optimistic retryable answer : Bool) → Bool
vote true retryable answer = if answer then true else retryable
vote false retryable answer = if answer then retryable else false

module _ (match_string : GoString → GoString → Option Bool) where
  -- No error yet, or one that the classifier accepts.
  unfoldable pub classifies : ErrorClassifier → RtyContextSupport → Bool
  classifies classifier s = elim s.last_error [
    | none ↦ true
    | some e ↦ classify match_string classifier (some e)
  ]

  unfoldable pub simple_can_retry : (attempts : ℕ) → ErrorClassifier → RtyContextSupport → Bool
  simple_can_retry attempts classifier s = classifies classifier s && slt32 s.count attempts

  mutual
    pub can_retry : (now : ℕ) → Policy → Context → Option Bool
    can_retry now never (never_context s finished) = some finished
    can_retry now always c = some true
    can_retry now (max_attempts attempts) c = some (slt32 (get_retry_count c) attempts)
    can_retry now (simple attempts classifier) c =
        some (simple_can_retry attempts classifier (get_support c))
    can_retry now (error_classifier classifier) c = some (classifies classifier (get_support c))
    can_retry now (timeout t) (timeout_context s limit start) = some (is_alive now limit start)
    can_retry now (composite ps optimistic) (composite_context s cs qs) =
        can_retry_each now optimistic (not optimistic) qs cs
    can_retry now p c = none

    pub can_retry_each :
        (now : ℕ) → (optimistic retryable : Bool) → Policies → Contexts → Option Bool
    can_retry_each now optimistic retryable ps no_contexts = some retryable
    can_retry_each now optimistic retryable no_policies (context c cs) = none
    can_retry_each now optimistic retryable (policy p ps) (context c cs) =
        elim (can_retry now p c) [
          | none ↦ none
          | some answer ↦ can_retry_each now optimistic (vote optimistic retryable answer) ps cs
        ]

mutual
  pub register_error : Policy → Context → Option GoString → Option Context
  register_error never (never_context s finished) e =
      some (never_context (register_support s e) true)
  register_error always (never_context s finished) e =
      some (never_context (register_support s e) true)
  register_error (max_attempts attempts) (support_context s) e =
      some (support_context (register_support s e))
  register_error (simple attempts classifier) (simple_context s) e =
      some (simple_context (register_support s e))
  register_error (error_classifier classifier) (support_context s) e =
      some (support_context (register_support s e))
  register_error (timeout t) (timeout_context s limit start) e =
      some (timeout_context (register_support s e) limit start)
  register_error (composite ps optimistic) (composite_context s cs qs) e =
      elim (register_errors qs cs e) [
        | none ↦ none
        | some cs' ↦ some (composite_context (register_support s e) cs' qs)
      ]
  register_error p c e = none

  pub register_errors : Policies → Contexts → Option GoString → Option Contexts
  register_errors ps no_contexts e = some no_contexts
  register_errors no_policies (context c cs) e = none
  register_errors (policy p ps) (context c cs) e = elim (register_error p c e) [
    | none ↦ none
    | some c' ↦ elim (register_errors ps cs e) [ none ↦ none | some cs' ↦ some (context c' cs') ]
  ]

-- A call that fails again and again: the errors in order.
unfoldable pub register_all : Policy → Context → List GoString → Option Context
register_all p c [] = some c
register_all p c (e ∷ es) = elim (register_error p c (some e)) [
  | none ↦ none
  | some c' ↦ register_all p c' es
]
