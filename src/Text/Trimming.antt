-- ===== src/Text/Trimming.antt =====
-- What `trim` leaves has no white space at either end, and trimming it again changes nothing.
use wirefinder.Prelude.{false, [], ◌∷◌, ◌≡◌, refl, arith}
use wirefinder.Text.{Text, is_whitespace, trim_start, trim_end, trim}

abbrev pub StartsClean : Text → Type 0
StartsClean [] = Unit
StartsClean (c ∷ cs) = is_whitespace c ≡ false

abbrev pub EndsClean : Text → Type 0
EndsClean [] = Unit
EndsClean (c ∷ []) = is_whitespace c ≡ false
EndsClean (c ∷ d ∷ ds) = EndsClean (d ∷ ds)

pub record IsTrimmed (s : Text) : Type 0 where
  pub starts : StartsClean s
  pub ends : EndsClean s

trim_start-StartsClean : (s : Text) → StartsClean (trim_start s)
unfolding trim_start
trim_start-StartsClean [] = tt
trim_start-StartsClean (c ∷ cs) = ground (arith, trim_start-StartsClean cs)

trim_end-StartsClean : (s : Text) → StartsClean s → StartsClean (trim_end s)
unfolding trim_end
trim_end-StartsClean [] h = tt
trim_end-StartsClean (c ∷ cs) h = ground arith

trim_end-EndsClean : (s : Text) → EndsClean (trim_end s)
unfolding trim_end
trim_end-EndsClean [] = tt
trim_end-EndsClean (c ∷ cs) = ground (arith, trim_end-EndsClean cs)

pub trim-IsTrimmed : (s : Text) → IsTrimmed (trim s)
unfolding trim
trim-IsTrimmed s = record {
  starts = trim_end-StartsClean (trim_start s) (trim_start-StartsClean s);
  ends = trim_end-EndsClean (trim_start s);
}

trim_start_clean : (s : Text) → StartsClean s → trim_start s ≡ s
unfolding trim_start
trim_start_clean [] h = refl
trim_start_clean (c ∷ cs) h = ground arith

trim_end_clean : (s : Text) → EndsClean s → trim_end s ≡ s
unfolding trim_end
trim_end_clean [] h = refl
trim_end_clean (c ∷ []) h = ground arith
trim_end_clean (c ∷ d ∷ ds) h = ground (arith, trim_end_clean (d ∷ ds) h)

-- A trimmed text is its own trim.
pub IsTrimmed-trim : (s : Text) → IsTrimmed s → trim s ≡ s
unfolding trim
IsTrimmed-trim s h = ground (arith, trim_start_clean s h.starts, trim_end_clean s h.ends)

pub trim-trim : (s : Text) → trim (trim s) ≡ trim s
trim-trim s = IsTrimmed-trim (trim s) (trim-IsTrimmed s)
