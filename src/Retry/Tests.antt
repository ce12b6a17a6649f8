-- ===== src/Retry/Tests.antt =====
-- core/retry on examples.
use gmiter.Prelude.{◌≡◌, ◌≢◌, Bool, true, false, Option, none, some, [], ◌∷◌, if◌then◌else◌, arith}
use gmiter.Retry.Classify.{
  GoString, ErrorClassifier, prefix_match, any_match, classify, listed, classify_lem,
}
use gmiter.Retry.Policy.{
  new_support, Policy, never, max_attempts, error_classifier, timeout, composite, no_policies,
  policy, Context, never_context, composite_context, no_contexts, context, open_context, can_retry,
  register_all,
}
use gmiter.Retry.Policy.Safety.{can_retry-total}
use gmiter.Retry.Policy.Attempts.{
  answers, all, map_option, composite_lem, max_attempts_lem, never_lem,
}
use gmiter.Retry.Backoff.{ExponentialBackOffContext, sleeps, ideal, sleeps_lem}

-- No pattern compiles.
abbrev no_regexp : GoString → GoString → Option Bool
no_regexp key msg = none

abbrev timed_out : GoString
timed_out = 84 ∷ 79 ∷ []

abbrev classifier : ErrorClassifier
classifier = record { default_value = true; classified = timed_out ∷ []; matcher = prefix_match }

prefix≢any : prefix_match ≢ any_match
prefix≢any h = cc

classify_lem_example :
    classify no_regexp classifier (some (84 ∷ 79 ∷ 33 ∷ []))
    ≡ (if listed no_regexp prefix_match (84 ∷ 79 ∷ 33 ∷ []) (timed_out ∷ []) then true else false)
classify_lem_example = classify_lem no_regexp classifier (84 ∷ 79 ∷ 33 ∷ []) prefix≢any

abbrev both : Policy
both =
    composite
      (policy (max_attempts 2)
        (policy (timeout 1000) (policy (error_classifier classifier) no_policies)))
      false

can_retry-total_example :
    (c : Context) × (b : Bool) × (register_all both (open_context 10 both) (timed_out ∷ [])
      ≡ some c)
    × (can_retry no_regexp 500 both c ≡ some b)
can_retry-total_example = can_retry-total no_regexp 10 500 both (timed_out ∷ [])

composite_lem_example :
    can_retry no_regexp 5 both (
      composite_context new_support
        (context (never_context new_support true) no_contexts)
        (policy never no_policies))
    ≡ map_option all (
        answers no_regexp 5
          (policy never no_policies)
          (context (never_context new_support true) no_contexts))
composite_lem_example =
    composite_lem no_regexp 5
      (policy (max_attempts 2)
        (policy (timeout 1000) (policy (error_classifier classifier) no_policies)))
      false new_support (context (never_context new_support true) no_contexts)
      (policy never no_policies)

max_attempts_lem_example :
    (c : Context) × (register_all
        (max_attempts 3)
        (open_context 0 (max_attempts 3))
        (timed_out ∷ timed_out ∷ [])
      ≡ some c)
    × (can_retry no_regexp 9 (max_attempts 3) c ≡ some true)
max_attempts_lem_example =
    max_attempts_lem no_regexp 0 9 3 (timed_out ∷ timed_out ∷ []) (omega arith) (omega arith)

never_lem_example :
    (c : Context) × (register_all never (open_context 0 never) [] ≡ some c)
    × (can_retry no_regexp 9 never c ≡ some false)
never_lem_example = never_lem no_regexp 0 9 []

abbrev backoff : ExponentialBackOffContext
backoff = record { multiplier = 2; interval = 100; max_interval = 350 }

sleeps_lem_example : sleeps 4 backoff ≡ ideal 4 2 100 350
sleeps_lem_example = sleeps_lem 4 backoff (omega arith) (omega arith) (omega arith) (omega arith)
