-- ===== src/Cli/Humanize.antt =====
-- `humanize` of cli/src/main.rs: a count of bytes as text, through a double-precision number.
-- A double is given by its value, a fraction: `bytes as f64` is a whole number, and the divisions
-- by 1024 are exact, so the loop only multiplies the denominator.
pub mod Near
use wirefinder.Prelude.{
  ℕ, zero, suc, ◌+◌, ◌*◌, ◌/◌, ◌%◌, ◌^◌, ltb, List, [], ◌∷◌, ◌++◌, if◌then◌else◌,
}
use wirefinder.Text.{Text, lit, show_ℕ}

-- To the nearest multiple, a tie to the even one: the rounding of `as f64` and of `{:.1}`.
unfoldable pub round_div : ℕ → ℕ → ℕ
round_div n d =
    let q = n / d in
    let r = n % d in if ltb (2 * r) d then q else if ltb d (2 * r) then q + 1 else q + q % 2

-- The distance of the doubles at `n`, whose mantissa has 53 bits.
unfoldable pub spacing : ℕ → ℕ → ℕ
spacing zero n = 1
spacing (suc fuel) n = if ltb n (2 ^ 53) then 1 else 2 * spacing fuel (n / 2)

-- `n as f64` of a u64, which is below 2 ^ 11 times the limit of exact doubles
unfoldable pub to_f64 : ℕ → ℕ
to_f64 n = let ulp = spacing 11 n in round_div n ulp * ulp

pub record Scaled : Type 0 where
  pub divisor : ℕ
  pub unit : Text

-- The loop over the units; the value is `value / s.divisor`.
unfoldable pub scale : List Text → ℕ → Scaled → Scaled
scale [] value s = s
scale (next ∷ units) value s =
    let rest = scale units value (record { divisor = s.divisor * 1024; unit = next }) in
    if ltb value (1024 * s.divisor) then s else rest

-- `{:.1}` of `value / divisor`, in tenths
unfoldable pub tenths : ℕ → ℕ → ℕ
tenths value divisor = round_div (10 * value) divisor

unfoldable pub show_tenths : ℕ → Text
show_tenths t = show_ℕ (t / 10) ++ (lit "." ++ show_ℕ (t % 10))

unfoldable pub show_scaled : ℕ → Scaled → Text
show_scaled value s = show_tenths (tenths value s.divisor) ++ (lit " " ++ s.unit)

abbrev pub binary_units : List Text
binary_units = lit "KiB" ∷ lit "MiB" ∷ lit "GiB" ∷ []

unfoldable pub humanize : ℕ → Text
humanize bytes =
    if ltb bytes 1024
    then show_ℕ bytes ++ lit " B"
    else show_scaled (to_f64 bytes)
        (scale binary_units (to_f64 bytes) (record { divisor = 1; unit = lit "B" }))
