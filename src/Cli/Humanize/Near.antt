-- ===== src/Cli/Humanize/Near.antt =====
-- How far the text of `humanize` (cli/src/main.rs) is from the count that it stands for.
use native.Mathlib.Nat.{div-add-mod', mod-lt}
use wirefinder.Prelude.{
  ℕ, zero, suc, ◌+◌, ◌*◌, ◌/◌, ◌%◌, ◌^◌, ◌≤◌, ◌<◌, ◌≡◌, refl, ◌⊎◌, inl, inr, ltb, ◌++◌, arith,
  Bool-cases, false,
}
use wirefinder.Text.{Text, lit}
use wirefinder.Cli.Humanize.{
  round_div, spacing, to_f64, Scaled, scale, tenths, show_tenths, show_scaled, binary_units,
  humanize,
}

even_or_odd : (q : ℕ) → (q % 2 ≡ 0) ⊎ (q % 2 ≡ 1)
even_or_odd q = omega arith

add_one_mul : (q d : ℕ) → (q + 1) * d ≡ q * d + d
add_one_mul q d = grind arith

add_parity : (q d : ℕ) → ((q + q % 2) * d ≡ q * d) ⊎ ((q + q % 2) * d ≡ q * d + d)
add_parity q d = elim (even_or_odd q) [
  | inl e ↦ inl (rw e (omega arith))
  | inr e ↦ inr (rw e (omega (arith, add_one_mul q d)))
]

round_div_near :
    (n d : ℕ)
    → 0 < d
    → (2 * n ≤ 2 * (round_div n d * d) + d) × (2 * (round_div n d * d) ≤ 2 * n + d)
unfolding round_div
round_div_near n d h =
    ground (arith, div-add-mod' n d, mod-lt n h, add_parity (n / d) d, add_one_mul (n / d) d)

pow-suc_two : (n : ℕ) → 2 ^ suc n ≡ 2 * 2 ^ n
pow-suc_two n = omega arith

spacing_bounds : (fuel n : ℕ) → (0 < spacing fuel n) × (spacing fuel n ≤ 2 ^ fuel)
unfolding spacing
spacing_bounds zero n = omega arith
spacing_bounds (suc fuel) n = ground (arith, spacing_bounds fuel (n / 2), pow-suc_two fuel)

-- The fuel of `to_f64` is enough at every u64: the mantissa that is rounded has 53 bits at most,
-- and all of them where any is lost.
spacing_enough :
    (fuel n : ℕ)
    → n < 2 ^ 53 * 2 ^ fuel
    → (n < 2 ^ 53 * spacing fuel n) × ((spacing fuel n ≡ 1) ⊎ (2 ^ 52 * spacing fuel n ≤ n))
unfolding spacing
spacing_enough zero n h = (omega arith, inl refl)
spacing_enough (suc fuel) n h = ground (arith, spacing_enough fuel (n / 2), pow-suc_two fuel)

to_f64_near : (n : ℕ) → (n ≤ to_f64 n + 1024) × (to_f64 n ≤ n + 1024)
unfolding to_f64
to_f64_near n = omega (arith, spacing_bounds 11 n, round_div_near n (spacing 11 n))

spacing_one : (fuel n : ℕ) → n < 2 ^ 53 → spacing fuel n ≡ 1
unfolding spacing
spacing_one zero n h = refl
spacing_one (suc fuel) n h = ground arith

to_f64_exact : (n : ℕ) → n < 2 ^ 53 → to_f64 n ≡ n
unfolding to_f64
to_f64_exact n h = rw (spacing_one 11 n h) (omega (arith, round_div_near n 1))

-- A unit, and how many bytes it stands for.
pub data Stands : Text → ℕ → Type 0 where
  kib : Stands (lit "KiB") 1024
  mib : Stands (lit "MiB") 1_048_576
  gib : Stands (lit "GiB") 1_073_741_824

abbrev start : Scaled
start = record { divisor = 1; unit = lit "B" }

-- The unit that fits a value: the value is one unit at least, and below 1024 units if there is
-- a larger one.
record IsChosen (v : ℕ) (s : Scaled) : Type 0 where
  stands : Stands s.unit s.divisor
  least : s.divisor ≤ v
  most : (v < 1024 * s.divisor) ⊎ (s.divisor ≡ 1_073_741_824)

ltb_small : (v k : ℕ) → k ≤ v → ltb v k ≡ false
ltb_small v k h = ground arith

scale-IsChosen : (v : ℕ) → 1024 ≤ v → IsChosen v (scale binary_units v start)
unfolding scale
scale-IsChosen v h = rw (ltb_small v 1024 h) (elim (Bool-cases (ltb v 1_048_576)) [
  | inl small ↦ rw small (record { stands = kib; least = h; most = inl (ground arith) })
  | inr large ↦ rw large (elim (Bool-cases (ltb v 1_073_741_824)) [
    | inl small ↦
        rw small (record { stands = mib; least = ground arith; most = inl (ground arith) })
    | inr huge ↦ rw huge (record { stands = gib; least = ground arith; most = inr refl })
  ])
])

-- The text of a count from 1024 on is a number with one decimal and a unit. The number is 1.0 at
-- least, and 1024.0 at most if it is not in the largest unit; it is within a tenth of the count.
pub record IsNear (bytes : ℕ) (text : Text) : Type 0 where
  pub t : ℕ
  pub unit : Text
  pub divisor : ℕ
  pub shown : text ≡ show_tenths t ++ (lit " " ++ unit)
  pub stands : Stands unit divisor
  pub below : t * divisor ≤ 10 * bytes + divisor
  pub above : 10 * bytes ≤ t * divisor + divisor
  pub least : 10 ≤ t
  pub most : (t ≤ 10_240) ⊎ (divisor ≡ 1_073_741_824)

-- What the double of a count can be.
abbrev IsDouble : ℕ → ℕ → Type 0
IsDouble bytes v = (v ≡ bytes) ⊎ ((2 ^ 52 ≤ v) × (v ≤ bytes + 1024) × (bytes ≤ v + 1024))

to_f64-IsDouble : (n : ℕ) → IsDouble n (to_f64 n)
to_f64-IsDouble n = elim (Bool-cases (ltb n (2 ^ 53))) [
  | inl small ↦ inl (to_f64_exact n (ground arith))
  | inr large ↦ inr (ground (arith, to_f64_near n))
]

tenths_near :
    (bytes v : ℕ) {unit : Text} {divisor : ℕ}
    → IsDouble bytes v
    → Stands unit divisor
    → divisor ≤ v
    → (v < 1024 * divisor) ⊎ (divisor ≡ 1_073_741_824)
    → (tenths v divisor * divisor ≤ 10 * bytes + divisor)
      × (10 * bytes ≤ tenths v divisor * divisor + divisor)
      × (10 ≤ tenths v divisor)
      × ((tenths v divisor ≤ 10_240) ⊎ (divisor ≡ 1_073_741_824))
unfolding tenths
tenths_near bytes v close kib least most = ground (arith, round_div_near (10 * v) 1024)
tenths_near bytes v close mib least most = ground (arith, round_div_near (10 * v) 1_048_576)
tenths_near bytes v close gib least most = ground (arith, round_div_near (10 * v) 1_073_741_824)

show_scaled-IsNear :
    (bytes v : ℕ) (s : Scaled) → IsDouble bytes v → IsChosen v s → IsNear bytes (show_scaled v s)
unfolding show_scaled
show_scaled-IsNear bytes v s close c =
    let (below, above, least, most) = tenths_near bytes v close c.stands c.least c.most in
    record {
      t = tenths v s.divisor;
      unit = s.unit;
      divisor = s.divisor;
      shown = refl;
      stands = c.stands;
      below = below;
      above = above;
      least = least;
      most = most;
    }

-- A count of bytes from 1024 on reads as a number in KiB, MiB or GiB that is within a tenth of the
-- count, 1.0 at least, and 1024.0 at most unless the unit is GiB.
pub humanize-IsNear : (bytes : ℕ) → 1024 ≤ bytes → IsNear bytes (humanize bytes)
unfolding humanize
humanize-IsNear bytes h = rw (ltb_small bytes 1024 h) (
    show_scaled-IsNear bytes (to_f64 bytes) (scale binary_units (to_f64 bytes) start)
      (to_f64-IsDouble bytes)
      (scale-IsChosen (to_f64 bytes) (ground (arith, to_f64-IsDouble bytes))))
