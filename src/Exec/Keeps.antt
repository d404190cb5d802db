-- ===== src/Exec/Keeps.antt =====
-- What an action keeps, whichever way it ends: the rules of Exec/Ends with one predicate for the
-- state before, after a return and after an error.
use wirefinder.Result.{Result}
use wirefinder.Exec.{Exec, pure, lift, attempt, ◌>>=◌}
use wirefinder.Exec.Ends.{
  Ends, Ends-pure, Ends-lift, Ends-attempt, Ends-bind, Ends-weaken, After-either, After-both,
}

pub record Keeps {ℓ} {S A : Type ℓ} (P : S → Type ℓ) (m : Exec S A) : Type ℓ where
  pub ends : Ends P m (λ _ s. P s) P

-- The state that a run leaves.
pub kept {ℓ} :
    {S A : Type ℓ} {P : S → Type ℓ} {m : Exec S A} → Keeps P m → (s : S) → P s → P (m s).1
kept {P} {m} k s h = After-either (λ _ t. P t) P (λ _ t p. p) (m s).0 (m s).1 (k.ends.at s h)

pub Keeps-step {ℓ} :
    {S A : Type ℓ} {P : S → Type ℓ} {m : Exec S A} → ((s : S) → P s → P (m s).1) → Keeps P m
Keeps-step {P} {m} k = record { ends = record { at = λ s h. After-both P (m s).0 (m s).1 (k s h) } }

module _ {ℓ} {S : Type ℓ} {P : S → Type ℓ} where
  pub Keeps-bind :
      {A B : Type ℓ} {first : Exec S A} {next : A → Exec S B}
      → Keeps P first
      → ((a : A) → Keeps P (next a))
      → Keeps P (first >>= next)
  Keeps-bind k l = record { ends = Ends-bind k.ends λ a. (l a).ends }

  pub Keeps-attempt : {A : Type ℓ} {m : Exec S A} → Keeps P m → Keeps P (attempt m)
  Keeps-attempt k = record { ends = Ends-attempt k.ends }

  pub Keeps-lift : {A : Type ℓ} (r : Result A) → Keeps P (lift r)
  Keeps-lift r = record {
    ends = Ends-weaken _ (λ _ s. P s) P P (λ _ s h. h.1) (λ s h. h) (Ends-lift r λ s h. h);
  }

  pub Keeps-pure : {A : Type ℓ} (a : A) → Keeps P (pure a)
  Keeps-pure a = record { ends = Ends-pure a }
