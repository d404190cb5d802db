-- ===== src/Exec/Returns.antt =====
-- Actions that return a value from every state: one rule for each way to build an action.
use wirefinder.Prelude.{◌≡◌, refl, ap, ◌∙◌}
use wirefinder.Result.{Result, ok}
use wirefinder.Exec.{Exec, continue, pure, lift, attempt, ◌>>=◌}

pub record Returns {ℓ} {S A : Type ℓ} (m : Exec S A) (a : A) : Type ℓ where
  pub at : (s : S) → (m s).0 ≡ ok a

module _ {ℓ} {S A : Type ℓ} where
  pub Returns-pure : (a : A) → Returns {S = S} (pure a) a
  unfolding pure
  Returns-pure a = record { at = λ s. refl }

  pub Returns-lift : (r : Result A) {a : A} → r ≡ ok a → Returns {S = S} (lift r) a
  unfolding lift
  Returns-lift r e = record { at = λ s. e }

module _ {ℓ} {S A B : Type ℓ} where
  pub Returns-bind :
      (m : Exec S A) (f : A → Exec S B) {a : A} {b : B}
      → Returns m a
      → Returns (f a) b
      → Returns (m >>= f) b
  unfolding ◌>>=◌
  Returns-bind m f k l = record {
    at = λ s. ap (λ r. (continue r f (m s).1).0) (k.at s) ∙ l.at (m s).1;
  }

  -- Whatever comes of the attempt, the code goes on.
  pub Returns-attempt :
      (m : Exec S A) (f : Result A → Exec S B) {b : B}
      → ((r : Result A) → Returns (f r) b)
      → Returns (attempt m >>= f) b
  unfolding ◌>>=◌ attempt
  Returns-attempt m f k = record { at = λ s. (k (m s).0).at (m s).1 }
