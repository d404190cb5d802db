-- ===== src/Text/Digits.antt =====
-- The digits that a number is printed as are read back, and `n + 1` rounds are enough to print them.
use wirefinder.Prelude.{
  ℕ, zero, suc, ◌+◌, ◌/◌, ◌%◌, ◌<◌, Bool, true, false, ◌&&◌, ltb, leb, ◌==◌, some, [], ◌∷◌, ◌≡◌,
  refl, arith, ◌∙◌, not, none, if◌then◌else◌, Bool-cases, inl, inr,
}
use wirefinder.Prelude.Lists.{any, is_empty}
use wirefinder.Text.Trimming.{StartsClean, EndsClean}
use wirefinder.Text.{
  is_whitespace, Text, show_digits, show_ℕ, read_digits, read_unsigned, parse_unsigned,
}

abbrev pub is_digit : ℕ → Bool
is_digit c = leb 48 c && leb c 57

read_digits-show_digits :
    (limit fuel n : ℕ) (acc : Text)
    → n < fuel
    → read_digits limit 0 (show_digits fuel n acc)
      ≡ (if ltb n limit then read_digits limit n acc else none)
unfolding show_digits read_digits
read_digits-show_digits limit zero n acc h = ground arith
read_digits-show_digits limit (suc fuel) n acc h =
    ground (arith, read_digits-show_digits limit fuel (n / 10) ((48 + n % 10) ∷ acc))

abbrev StartsDigit : Text → Type 0
StartsDigit [] = ⊥
StartsDigit (c ∷ cs) = is_digit c ≡ true

show_digits-StartsDigit :
    (fuel n : ℕ) (acc : Text) → n < fuel → StartsDigit (show_digits fuel n acc)
unfolding show_digits
show_digits-StartsDigit zero n acc h = ground arith
show_digits-StartsDigit (suc fuel) n acc h =
    ground (arith, show_digits-StartsDigit fuel (n / 10) ((48 + n % 10) ∷ acc))

parse_unsigned-digit :
    (limit : ℕ) (t : Text) → StartsDigit t → parse_unsigned limit t ≡ read_digits limit 0 t
unfolding parse_unsigned read_unsigned
parse_unsigned-digit limit [] h = absurd h
parse_unsigned-digit limit (c ∷ cs) h = ground arith

-- The decimal digits of a number are read as the number if it is below the limit, else refused: the
-- rounds that printing takes are enough for every number.
pub parse_unsigned-show_ℕ :
    (limit n : ℕ) → parse_unsigned limit (show_ℕ n) ≡ (if ltb n limit then some n else none)
unfolding show_ℕ read_digits
parse_unsigned-show_ℕ limit n =
    parse_unsigned-digit limit (show_digits (n + 1) n [])
      (show_digits-StartsDigit (n + 1) n [] (omega arith))
    ∙ read_digits-show_digits limit (n + 1) n [] (omega arith)

-- A text of decimal digits, one at least.
pub record IsDigits (t : Text) : Type 0 where
  pub not_empty : is_empty t ≡ false
  pub digits : any (λ c. not (is_digit c)) t ≡ false

show_digits-IsDigits :
    (fuel n : ℕ) (acc : Text)
    → n < fuel
    → any (λ c. not (is_digit c)) acc ≡ false
    → IsDigits (show_digits fuel n acc)
unfolding show_digits
show_digits-IsDigits zero n acc h k = ground arith
show_digits-IsDigits (suc fuel) n acc h k = elim (Bool-cases (ltb n 10)) [
  | inl small ↦ rw small (record { not_empty = refl; digits = ground arith })
  | inr big ↦
      rw big
        (show_digits-IsDigits fuel (n / 10) ((48 + n % 10) ∷ acc) (ground arith) (ground arith))
]

pub show_ℕ-IsDigits : (n : ℕ) → IsDigits (show_ℕ n)
unfolding show_ℕ
show_ℕ-IsDigits n = show_digits-IsDigits (n + 1) n [] (omega arith) refl

pub digits-EndsClean : (t : Text) → any (λ c. not (is_digit c)) t ≡ false → EndsClean t
unfolding is_whitespace
digits-EndsClean [] h = tt
digits-EndsClean (c ∷ []) h = ground arith
digits-EndsClean (c ∷ d ∷ t) h = ground (arith, digits-EndsClean (d ∷ t))

pub digits-StartsClean : (t : Text) → any (λ c. not (is_digit c)) t ≡ false → StartsClean t
unfolding is_whitespace
digits-StartsClean [] h = tt
digits-StartsClean (c ∷ t) h = ground arith

pub digits-any :
    (c : ℕ) (t : Text)
    → is_digit c ≡ false
    → any (λ c. not (is_digit c)) t ≡ false
    → any (λ d. d == c) t ≡ false
digits-any c [] l h = refl
digits-any c (d ∷ t) l h = ground (arith, digits-any c t l)
