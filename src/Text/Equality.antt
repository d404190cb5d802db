-- ===== src/Text/Equality.antt =====
-- `equal` decides the equality of texts.
use wirefinder.Prelude.{true, ◌∷◌, ◌≡◌, refl, ◌↔◌, arith}
use wirefinder.Text.{Text, equal}

pub equal_iff : (a b : Text) → (equal a b ≡ true) ↔ (a ≡ b)
unfolding equal
equal_iff (x ∷ a) (y ∷ b) = ground (arith, equal_iff a b)
equal_iff _ _ = ground arith

pub equal_self : (a : Text) → equal a a ≡ true
equal_self a = (equal_iff a a).1 refl

pub equal_sym : (a b : Text) → equal a b ≡ equal b a
equal_sym a b = ground (arith, equal_iff a b, equal_iff b a)
