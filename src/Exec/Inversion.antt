-- ===== src/Exec/Inversion.antt =====
-- What a run that returned tells of its parts.
use wirefinder.Prelude.{◌≡◌, refl, ap}
use wirefinder.Result.{Result, ok, err}
use wirefinder.Exec.{Exec, pure, lift, attempt, continue, ◌>>=◌}

module _ {ℓ} {S A B : Type ℓ} where
  continue-eq-ok :
      (r : Result A) (f : A → Exec S B) (t : S) {b : B} {u : S}
      → continue r f t ≡ (ok b, u)
      → (a : A) × (r ≡ ok a) × (f a t ≡ (ok b, u))
  continue-eq-ok (ok a) f t h = (a, refl, h)
  continue-eq-ok (err e) f t h = absurd (cc (ap (λ (p : Result B × S). p.0) h))

  -- Both parts of a bind returned.
  pub bind-eq-ok :
      (m : Exec S A) (f : A → Exec S B) (s : S) {b : B} {u : S}
      → (m >>= f) s ≡ (ok b, u)
      → (a : A) × (t : S) × (m s ≡ (ok a, t)) × (f a t ≡ (ok b, u))
  unfolding ◌>>=◌
  bind-eq-ok m f s h =
      let (a, e, k) = continue-eq-ok (m s).0 f (m s).1 h in (a, (m s).1, (λ i. (e i, (m s).1)), k)

module _ {ℓ} {S A : Type ℓ} where
  pub lift-eq-ok :
      (r : Result A) (s : S) {a : A} {t : S} → lift r s ≡ (ok a, t) → (r ≡ ok a) × (s ≡ t)
  unfolding lift
  lift-eq-ok r s h = (ap (λ (p : Result A × S). p.0) h, ap (λ (p : Result A × S). p.1) h)

  pub attempt-eq-ok :
      (m : Exec S A) (s : S) {r : Result A} {t : S} → attempt m s ≡ (ok r, t) → m s ≡ (r, t)
  unfolding attempt
  attempt-eq-ok m s h = cc

  pub pure-eq-ok : (a : A) (s : S) {b : A} {t : S} → pure a s ≡ (ok b, t) → s ≡ t
  unfolding pure
  pure-eq-ok a s h = ap (λ (p : Result A × S). p.1) h

  pub pure-eq-ok_value : (a : A) (s : S) {b : A} {t : S} → pure a s ≡ (ok b, t) → a ≡ b
  unfolding pure
  pure-eq-ok_value a s h = cc (ap (λ (p : Result A × S). p.0) h)
