-- ===== src/Tests/Assert.antt =====
-- What the repository's tests assert, as tests.
use wirefinder.Prelude.{ℕ, Bool, true, false, ◌&&◌, ◌==◌, Option, none, some, List, [], ◌∷◌}
use wirefinder.Text.{Text, equal, contains}
use wirefinder.Result.{Result, ok, err}

abbrev pub all : List Bool → Bool
all [] = true
all (b ∷ bs) = b && all bs

abbrev pub same_text : Option Text → Option Text → Bool
same_text none none = true
same_text (some a) (some b) = equal a b
same_text _ _ = false

abbrev pub same_texts : List Text → List Text → Bool
same_texts [] [] = true
same_texts (a ∷ ls) (b ∷ bs) = equal a b && same_texts ls bs
same_texts _ _ = false

abbrev pub same_number : Option ℕ → Option ℕ → Bool
same_number none none = true
same_number (some a) (some b) = a == b
same_number _ _ = false

module _ {A : Type 0} where
  abbrev pub holds : (A → Bool) → Result A → Bool
  holds p (ok a) = p a
  holds p (err e) = false

  abbrev pub is_err : Result A → Bool
  is_err (ok a) = false
  is_err (err e) = true

  abbrev pub fails_on : Result A → Text → Bool
  fails_on (ok a) part = false
  fails_on (err e) part = contains e part

  -- `unwrap_err() == e`
  abbrev pub same_error : Result A → Text → Bool
  same_error (ok a) e = false
  same_error (err f) e = equal f e
