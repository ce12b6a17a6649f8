-- ===== src/Prelude/Strings.antt =====
-- Go strings as lists of bytes, and the functions of package strings and of util/string.go that the checks use.
use Prim.Native.Nat.{ℕ, ◌+◌}
use mathlib.Core.Bool.{Bool, true, false, ◌&&◌, ◌||◌}
use mathlib.Core.List.{List, [], ◌∷◌}
use gmiter.Prelude.Tests.{leb, ◌==◌, if◌then◌else◌}

abbrev pub Bytes : Type 0
Bytes = List ℕ

unfoldable pub same_string : Bytes → Bytes → Bool
same_string [] [] = true
same_string [] (b ∷ t) = false
same_string (a ∷ s) [] = false
same_string (a ∷ s) (b ∷ t) = (a == b) && same_string s t

abbrev pub is_empty : Bytes → Bool
is_empty [] = true
is_empty (a ∷ s) = false

-- An ASCII letter as a small one.
abbrev pub to_lower : ℕ → ℕ
to_lower b = if leb 65 b && leb b 90 then b + 32 else b

-- `strings.EqualFold` with a text of small letters none of which folds to anything but its capital.
unfoldable pub equal_fold : Bytes → Bytes → Bool
equal_fold [] [] = true
equal_fold [] (b ∷ t) = false
equal_fold (a ∷ s) [] = false
equal_fold (a ∷ s) (b ∷ t) = (to_lower a == b) && equal_fold s t

-- "default" and ','.
abbrev pub default_text : Bytes
default_text = 100 ∷ 101 ∷ 102 ∷ 97 ∷ 117 ∷ 108 ∷ 116 ∷ []

abbrev pub comma : ℕ
comma = 44

abbrev in_front : ℕ → List Bytes → List Bytes
in_front b [] = (b ∷ []) ∷ []
in_front b (t ∷ ts) = (b ∷ t) ∷ ts

-- `strings.Split` by a separator of one byte.
unfoldable pub split : ℕ → Bytes → List Bytes
split sep [] = [] ∷ []
split sep (b ∷ s) = let rest = split sep s in if b == sep then [] ∷ rest else in_front b rest

-- `Contains` of util/string.go.
unfoldable pub contains : Bytes → List Bytes → Bool
contains find [] = false
contains find (s ∷ arr) = if same_string s find then true else contains find arr

-- `needContinueCheck` of the rule slots: whether a rule for `limit_app` is about the calling service.
unfoldable pub is_limited : (limit_app from_service : Bytes) → Bool
is_limited limit_app from_service =
    is_empty limit_app
    || equal_fold limit_app default_text
    || contains from_service (split comma limit_app)
