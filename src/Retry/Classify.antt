-- ===== src/Retry/Classify.antt =====
-- core/retry/classify/error_classifier.go. An `error` is its text, a Go string is its list of bytes, and
-- `regexp.MatchString` is a parameter, with none for a pattern that does not compile.
use gmiter.Prelude.{
  ℕ, ◌≡◌, refl, ◌∙◌, ◌≢◌, Bool, true, false, not, ◌&&◌, ◌||◌, Option, none, some, List, [], ◌∷◌,
  ◌++◌, ◌==◌, if◌then◌else◌, arith,
}

abbrev pub GoString : Type 0
GoString = List ℕ

pub data PatternMatcher : Type 0 where
  exact_match : PatternMatcher
  prefix_match : PatternMatcher
  suffix_match : PatternMatcher
  contain_match : PatternMatcher
  regular_match : PatternMatcher
  any_match : PatternMatcher
  -- Any other int32.
  other_match : (code : ℕ) → PatternMatcher

pub record ErrorClassifier : Type 0 where
  pub default_value : Bool
  pub classified : List GoString
  pub matcher : PatternMatcher

-- The string tests of the standard library, the string first.
abbrev pub equal : GoString → GoString → Bool
equal [] [] = true
equal (x ∷ xs) (y ∷ ys) = (x == y) && equal xs ys
equal xs ys = false

abbrev pub has_prefix : GoString → GoString → Bool
has_prefix xs [] = true
has_prefix [] (y ∷ ys) = false
has_prefix (x ∷ xs) (y ∷ ys) = (x == y) && has_prefix xs ys

abbrev pub contains : GoString → GoString → Bool
contains [] key = has_prefix [] key
contains (x ∷ xs) key = has_prefix (x ∷ xs) key || contains xs key

abbrev pub has_suffix : GoString → GoString → Bool
has_suffix [] key = equal [] key
has_suffix (x ∷ xs) key = equal (x ∷ xs) key || has_suffix xs key

unfoldable pub set_classified : ErrorClassifier → List GoString → ErrorClassifier
set_classified e errs = record e { classified = e.classified ++ errs }

module _ (match_string : GoString → GoString → Option Bool) where
  -- One round of the loop's `switch`.
  unfoldable pub matches : PatternMatcher → GoString → GoString → Bool
  matches exact_match key msg = equal key msg
  matches prefix_match key msg = has_prefix msg key
  matches contain_match key msg = contains msg key
  matches suffix_match key msg = has_suffix msg key
  matches regular_match key msg = elim (match_string key msg) [
    | none ↦ contains msg key
    | some b ↦ b
  ]
  matches any_match key msg = contains msg key
  matches (other_match code) key msg = contains msg key

  unfoldable pub classify_from : ErrorClassifier → GoString → List GoString → Bool
  classify_from e msg [] = not e.default_value
  classify_from e msg (key ∷ keys) =
      if matches e.matcher key msg then e.default_value else classify_from e msg keys

  unfoldable pub classify : ErrorClassifier → Option GoString → Bool
  classify e none = e.default_value
  classify e (some msg) = elim e.matcher [ any_match ↦ true | _ ↦ classify_from e msg e.classified ]

  -- Some listed error matches.
  unfoldable pub listed : PatternMatcher → GoString → List GoString → Bool
  listed m msg [] = false
  listed m msg (key ∷ keys) = matches m key msg || listed m msg keys

  classify_from_lem :
      (e : ErrorClassifier) (msg : GoString) (keys : List GoString)
      → classify_from e msg keys
        ≡ (if listed e.matcher msg keys then e.default_value else not e.default_value)
  unfolding classify_from listed
  classify_from_lem e msg [] = refl
  classify_from_lem e msg (key ∷ keys) = ground (arith, classify_from_lem e msg keys)

  classify_listed :
      (e : ErrorClassifier) (msg : GoString)
      → e.matcher ≢ any_match
      → classify e (some msg) ≡ classify_from e msg e.classified
  unfolding classify
  classify_listed e msg h = go e.matcher refl
    where
      go :
          (m : PatternMatcher)
          → e.matcher ≡ m
          → classify e (some msg) ≡ classify_from e msg e.classified
      go any_match p = absurd (h p)
      go (other_match code) p = rw p refl
      go exact_match p = rw p refl
      go prefix_match p = rw p refl
      go suffix_match p = rw p refl
      go contain_match p = rw p refl
      go regular_match p = rw p refl

  -- Whatever the way of matching, but for `any_match`, an error is classified as the default value if a
  -- listed error matches it, and as its opposite if none does.
  pub classify_lem :
      (e : ErrorClassifier) (msg : GoString)
      → e.matcher ≢ any_match
      → classify e (some msg)
        ≡ (if listed e.matcher msg e.classified then e.default_value else not e.default_value)
  classify_lem e msg h = classify_listed e msg h ∙ classify_from_lem e msg e.classified
