-- ===== src/Tests/Ipv6.antt =====
-- IPv6 literals as `std::net::Ipv6Addr` reads and prints them, for the tests; the forms that end in a
-- dotted quad are left out.
use wirefinder.Prelude.{
  ℕ, zero, suc, ◌+◌, ◌-◌, ◌*◌, ◌/◌, ◌%◌, ◌^◌, ◌&&◌, ◌==◌, leb, ltb, Option, none, some, List, [],
  ◌∷◌, ◌++◌, and_then, map_some, map, if◌then◌else◌,
}
use wirefinder.Prelude.Lists.{length}
use wirefinder.Text.{Text, lit, split, join}

abbrev digit : ℕ → Option ℕ
digit c =
    if leb b'0' c && leb c b'9'
    then some (c - b'0')
    else if leb b'a' c && leb c b'f'
    then some (c - 0x57)
    else if leb b'A' c && leb c b'F'
    then some (c - 0x37)
    else none

abbrev hex_from : ℕ → Text → Option ℕ
hex_from acc [] = some acc
hex_from acc (c ∷ cs) = and_then (digit c) (λ d. hex_from (acc * 16 + d) cs)

-- One to four hexadecimal digits
abbrev group : Text → Option ℕ
group [] = none
group t = if leb (length t) 4 then hex_from 0 t else none

abbrev groups : List Text → Option (List ℕ)
groups [] = some []
groups (t ∷ ts) = and_then (group t) (λ g. map_some (λ gs. g ∷ gs) (groups ts))

-- The groups of one side of `::`, which may be empty
abbrev side : Text → Option (List ℕ)
side [] = some []
side t = groups (split b':' t)

-- The text around the first `::`
abbrev halves : Text → Option (Text × Text)
halves [] = none
halves (c ∷ []) = none
halves (c ∷ d ∷ rest) =
    let later = halves (d ∷ rest) in
    if c == b':' && d == b':' then some ([], rest) else map_some (λ p. (c ∷ p.0, p.1)) later

abbrev zeros : ℕ → List ℕ
zeros zero = []
zeros (suc n) = 0 ∷ zeros n

abbrev number : ℕ → List ℕ → ℕ
number acc [] = acc
number acc (g ∷ gs) = number (acc * 2 ^ 16 + g) gs

abbrev filled : List ℕ → List ℕ → Option ℕ
filled front back =
    let n = length front + length back in
    if ltb n 8 then some (number 0 (front ++ (zeros (8 - n) ++ back))) else none

abbrev eight : List ℕ → Option ℕ
eight gs = if length gs == 8 then some (number 0 gs) else none

abbrev around : Text → Option (Text × Text) → Option ℕ
around t none = and_then (groups (split b':' t)) eight
around t (some (front, back)) = and_then (side front) (λ f. and_then (side back) (filled f))

abbrev pub parse_v6 : Text → Option ℕ
parse_v6 t = around t (halves t)

abbrev hex_digit : ℕ → ℕ
hex_digit d = if ltb d 10 then b'0' + d else 0x57 + d

-- No more digits than the group needs.
abbrev shown_group : ℕ → Text
shown_group n =
    if ltb n 16
    then hex_digit n ∷ []
    else if ltb n 256
    then hex_digit (n / 16) ∷ hex_digit (n % 16) ∷ []
    else if ltb n 4096
    then hex_digit (n / 256) ∷ hex_digit (n / 16 % 16) ∷ hex_digit (n % 16) ∷ []
    else hex_digit (n / 4096)
      ∷ hex_digit (n / 256 % 16)
      ∷ hex_digit (n / 16 % 16)
      ∷ hex_digit (n % 16)
      ∷ []

-- The eight groups, the last one first in `n`
abbrev groups_of : ℕ → ℕ → List ℕ → List ℕ
groups_of zero n gs = gs
groups_of (suc k) n gs = groups_of k (n / 2 ^ 16) (n % 2 ^ 16 ∷ gs)

abbrev zero_run : List ℕ → ℕ
zero_run [] = 0
zero_run (g ∷ gs) = if g == 0 then suc (zero_run gs) else 0

-- The longest run of zero groups
abbrev longest : List ℕ → ℕ
longest [] = 0
longest (g ∷ gs) =
    let here = zero_run (g ∷ gs) in let later = longest gs in if leb later here then here else later

abbrev drop_groups : ℕ → List ℕ → List ℕ
drop_groups zero gs = gs
drop_groups (suc n) [] = []
drop_groups (suc n) (g ∷ gs) = drop_groups n gs

-- The groups before and after the first run of `n` zeros
abbrev at_run : ℕ → List ℕ → List ℕ × List ℕ
at_run n [] = ([], [])
at_run n (g ∷ gs) =
    let (front, back) = at_run n gs in
    if zero_run (g ∷ gs) == n then ([], drop_groups n (g ∷ gs)) else (g ∷ front, back)

abbrev joined : List ℕ → Text
joined gs = join (lit ":") (map shown_group gs)

-- A run of two zeros and more is shortened to `::`.
abbrev pub show_v6 : ℕ → Text
show_v6 n =
    let gs = groups_of 8 n [] in
    let run = longest gs in
    let (front, back) = at_run run gs in
    if ltb run 2 then joined gs else joined front ++ (lit "::" ++ joined back)
