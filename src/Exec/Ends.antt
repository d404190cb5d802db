-- ===== src/Exec/Ends.antt =====
-- What holds after an action that returned, and what holds after one that raised: one rule for each
-- way to build an action.
use mathlib.Core.Path.{subst}
use wirefinder.Prelude.{◌≡◌, refl}
use wirefinder.Result.{Result, ok, err}
use wirefinder.Exec.{Exec, continue, pure, lift, attempt, ◌>>=◌}

module _ {ℓ} {S A : Type ℓ} where
  -- `Q` of the state after a return, `E` of the state after an error.
  abbrev pub After : (A → S → Type ℓ) → (S → Type ℓ) → Result A → S → Type ℓ
  After Q E (ok a) s = Q a s
  After Q E (err e) s = E s

  pub record Ends (P : S → Type ℓ) (m : Exec S A) (Q : A → S → Type ℓ) (E : S → Type ℓ)
      : Type ℓ where
    pub at : (s : S) → P s → After Q E (m s).0 (m s).1

module _ {ℓ} {S A : Type ℓ} {P E : S → Type ℓ} where
  pub Ends-lift :
      (r : Result A) → ((s : S) → P s → E s) → Ends P (lift r) (λ a s. (r ≡ ok a) × P s) E
  unfolding lift
  Ends-lift (ok a) w = record { at = λ s h. (refl, h) }
  Ends-lift (err e) w = record { at = λ s h. w s h }

  pub Ends-pure : (a : A) → Ends P (pure a) (λ _ s. P s) E
  unfolding pure
  Ends-pure a = record { at = λ s h. h }

module _ {ℓ} {S A B : Type ℓ} {E : S → Type ℓ} {Q : A → S → Type ℓ} {R : B → S → Type ℓ} where
  Ends-continue :
      (r : Result A) (f : A → Exec S B) (s : S)
      → ((a : A) → Ends (Q a) (f a) R E)
      → After Q E r s
      → After R E (continue r f s).0 (continue r f s).1
  Ends-continue (ok a) f s k h = (k a).at s h
  Ends-continue (err e) f s k h = h

  pub Ends-bind :
      {P : S → Type ℓ} {m : Exec S A} {f : A → Exec S B}
      → Ends P m Q E
      → ((a : A) → Ends (Q a) (f a) R E)
      → Ends P (m >>= f) R E
  unfolding ◌>>=◌
  Ends-bind {P} {m} {f} k l = record { at = λ s h. Ends-continue (m s).0 f (m s).1 l (k.at s h) }

module _ {ℓ} {S A : Type ℓ} (Q R : A → S → Type ℓ) (E F : S → Type ℓ) where
  After-weaken :
      ((a : A) (s : S) → Q a s → R a s)
      → ((s : S) → E s → F s)
      → (r : Result A) (s : S) → After Q E r s
      → After R F r s
  After-weaken v w (ok a) s h = v a s h
  After-weaken v w (err e) s h = w s h

  pub Ends-weaken :
      {P : S → Type ℓ} {m : Exec S A}
      → ((a : A) (s : S) → Q a s → R a s)
      → ((s : S) → E s → F s)
      → Ends P m Q E
      → Ends P m R F
  Ends-weaken {P} {m} v w k = record { at = λ s h. After-weaken v w (m s).0 (m s).1 (k.at s h) }

-- A part of the precondition that does not speak of the state.
pub Ends-given {ℓ} :
    {S A H : Type ℓ} {P E : S → Type ℓ} {Q : A → S → Type ℓ} {m : Exec S A}
    → (H → Ends P m Q E)
    → Ends (λ s. H × P s) m Q E
Ends-given k = record { at = λ s h. (k h.0).at s h.1 }

-- What an outcome tells: of a return, and of either end.
pub After-ok {ℓ} :
    {S A : Type ℓ} (Q : A → S → Type ℓ) (E : S → Type ℓ) (r : Result A) (s : S) {a : A}
    → r ≡ ok a
    → After Q E r s
    → Q a s
After-ok Q E r s e h = subst (λ r. After Q E r s) e h

pub After-either {ℓ} :
    {S A : Type ℓ} (Q : A → S → Type ℓ) (E : S → Type ℓ)
    → ((a : A) (s : S) → Q a s → E s)
    → (r : Result A) (s : S) → After Q E r s
    → E s
After-either Q E w (ok a) s h = w a s h
After-either Q E w (err e) s h = h

-- An attempt always returns, and its result says which end it was.
pub Ends-attempt {ℓ} :
    {S A : Type ℓ} {P : S → Type ℓ} {m : Exec S A}
    → Ends P m (λ _ s. P s) P
    → Ends P (attempt m) (λ _ s. P s) P
unfolding attempt
Ends-attempt {P} {m} k = record {
  at = λ s h. After-either (λ _ t. P t) P (λ _ t p. p) (m s).0 (m s).1 (k.at s h);
}

pub After-both {ℓ} :
    {S A : Type ℓ} (E : S → Type ℓ) (r : Result A) (s : S) → E s → After (λ _ t. E t) E r s
After-both E (ok a) s h = h
After-both E (err e) s h = h
