-- ===== src/Result.antt =====
-- `Result<T, String>`: every fallible function of the daemon reports its error as text.
use wirefinder.Prelude.{
  Bool, true, false, ◌≡◌, refl, ◌⊎◌, inl, inr, List, [], ◌∷◌, Option, none, some,
}
use wirefinder.Text.{Text}

pub data Result {ℓ} (A : Type ℓ) : Type ℓ where
  ok : A → Result A
  err : Text → Result A

module _ {ℓ κ} {A : Type ℓ} {B : Type κ} where
  infixl 5 ◌>>=◌
  abbrev pub ◌>>=◌ : Result A → (A → Result B) → Result B
  ok a >>= f = f a
  err e >>= f = err e

-- `Result::map`
abbrev pub map_ok {ℓ κ} : {A : Type ℓ} {B : Type κ} → (A → B) → Result A → Result B
map_ok f (ok a) = ok (f a)
map_ok f (err e) = err e

module _ {ℓ} {A : Type ℓ} where
  -- `Result::map_err`
  abbrev pub map_err : (Text → Text) → Result A → Result A
  map_err f (ok a) = ok a
  map_err f (err e) = err (f e)

  abbrev pub is_ok : Result A → Bool
  is_ok (ok a) = true
  is_ok (err e) = false

  -- `Result::ok`
  abbrev pub to_option : Result A → Option A
  to_option (ok a) = some a
  to_option (err e) = none

  -- `Option::ok_or`
  abbrev pub ok_or : Option A → Text → Result A
  ok_or none e = err e
  ok_or (some a) e = ok a

  pub Result-cases : (r : Result A) → ((a : A) × (r ≡ ok a)) ⊎ ((e : Text) × (r ≡ err e))
  Result-cases (ok a) = inl (a, refl)
  Result-cases (err e) = inr (e, refl)

-- `iter().map(f).collect::<Result<Vec<_>, _>>()`: the first error ends the walk.
unfoldable pub traverse {ℓ κ} :
    {A : Type ℓ} {B : Type κ} → (A → Result B) → List A → Result (List B)
traverse f [] = ok []
traverse f (x ∷ xs) = let rest = traverse f xs in f x >>= λ y. rest >>= λ ys. ok (y ∷ ys)
