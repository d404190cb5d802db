-- ===== src/Text/Numbers.antt =====
-- The range of the numbers that are read.
use wirefinder.Prelude.{
  ℕ, ◌+◌, ◌*◌, ◌-◌, ◌<◌, Bool, true, ltb, Option, none, some, [], ◌∷◌, ◌≡◌, refl, arith,
}
use wirefinder.Text.{Text, parse_unsigned, read_digits, read_unsigned}

-- The number, if there is one, is below the limit.
abbrev pub below : ℕ → Option ℕ → Bool
below limit none = true
below limit (some n) = ltb n limit

read_digits-below :
    (limit n : ℕ) (t : Text) → n < limit → below limit (read_digits limit n t) ≡ true
unfolding read_digits
read_digits-below limit n [] h = ground arith
read_digits-below limit n (c ∷ cs) h =
    ground (arith, read_digits-below limit (n * 10 + (c - 48)) cs)

pub parse_unsigned-below :
    (limit : ℕ) (t : Text) → 0 < limit → below limit (parse_unsigned limit t) ≡ true
unfolding parse_unsigned read_unsigned
parse_unsigned-below limit [] h = refl
parse_unsigned-below limit (c ∷ []) h = ground (arith, read_digits-below limit 0 (c ∷ []) h)
parse_unsigned-below limit (c ∷ d ∷ ds) h =
    ground (arith, read_digits-below limit 0 (d ∷ ds) h, read_digits-below limit 0 (c ∷ d ∷ ds) h)
