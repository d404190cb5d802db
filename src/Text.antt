-- ===== src/Text.antt =====
-- Rust's `str`: a list of code points, with the functions of the standard library that the
-- program calls.
pub mod Equality
pub mod Trimming
pub mod Numbers
pub mod Digits
pub mod Lines
use Prim.Native.Char.{code}
use wirefinder.Prelude.{
  ℕ, zero, suc, ◌+◌, ◌-◌, ◌*◌, ◌/◌, ◌%◌, String, Bool, true, false, ◌&&◌, ◌||◌, Option, none, some,
  List, [], ◌∷◌, ◌++◌, leb, ltb, ◌==◌, if◌then◌else◌, map_some,
}

abbrev pub Text : Type 0
Text = List ℕ

-- A literal of the source.
unfoldable pub lit : String → Text
lit String.[] = []
lit (String.◌∷◌ c s) = code c ∷ lit s

unfoldable pub equal : Text → Text → Bool
equal [] [] = true
equal (x ∷ xs) (y ∷ ys) = x == y && equal xs ys
equal _ _ = false

-- `char::is_whitespace`: the code points of Unicode's White_Space.
unfoldable pub is_whitespace : ℕ → Bool
is_whitespace c =
    (leb 0x9 c && leb c 0xd)
    || c == 0x20
    || c == 0x85
    || c == 0xa0
    || c == 0x1680
    || (leb 0x2000 c && leb c 0x200a)
    || c == 0x2028
    || c == 0x2029
    || c == 0x202f
    || c == 0x205f
    || c == 0x3000

unfoldable pub trim_start : Text → Text
trim_start [] = []
trim_start (c ∷ cs) = if is_whitespace c then trim_start cs else c ∷ cs

-- White space is dropped where only white space follows.
unfoldable pub trim_end : Text → Text
trim_end [] = []
trim_end (c ∷ cs) = elim (trim_end cs) [
  | [] ↦ if is_whitespace c then [] else c ∷ []
  | d ∷ ds ↦ c ∷ d ∷ ds
]

unfoldable pub trim : Text → Text
unfolding trim_start trim_end is_whitespace
trim s = trim_end (trim_start s)

-- `str::split_once` at one character
unfoldable pub split_once : ℕ → Text → Option (Text × Text)
split_once sep [] = none
split_once sep (c ∷ cs) =
    if c == sep then some ([], cs) else map_some (λ p. (c ∷ p.0, p.1)) (split_once sep cs)

-- What stands before the first `sep`, or the whole text.
unfoldable pub before : ℕ → Text → Text
before sep [] = []
before sep (c ∷ cs) = if c == sep then [] else c ∷ before sep cs

-- `str::split` at one character: always at least one piece
push_piece : ℕ → List Text → List Text
push_piece c [] = (c ∷ []) ∷ []
push_piece c (p ∷ ps) = (c ∷ p) ∷ ps

unfoldable pub split : ℕ → Text → List Text
unfolding push_piece
split sep [] = [] ∷ []
split sep (c ∷ cs) = let rest = split sep cs in if c == sep then [] ∷ rest else push_piece c rest

unfoldable pub strip_prefix : ℕ → Text → Option Text
strip_prefix c [] = none
strip_prefix c (d ∷ ds) = if d == c then some ds else none

unfoldable pub strip_suffix : ℕ → Text → Option Text
strip_suffix c [] = none
strip_suffix c (d ∷ []) = if d == c then some [] else none
strip_suffix c (d ∷ e ∷ ds) = map_some (◌∷◌ d) (strip_suffix c (e ∷ ds))

-- `str::lines`: pieces that end in a line feed, and a last one if anything is left; one carriage
-- return before the line feed is dropped.
drop_cr : Text → Text
drop_cr [] = []
drop_cr (c ∷ []) = if c == 0xd then [] else c ∷ []
drop_cr (c ∷ d ∷ ds) = c ∷ drop_cr (d ∷ ds)

finish_lines : List Text → List Text
finish_lines [] = []
finish_lines ([] ∷ []) = []
finish_lines ((c ∷ cs) ∷ []) = (c ∷ cs) ∷ []
finish_lines (p ∷ q ∷ ps) = drop_cr p ∷ finish_lines (q ∷ ps)

unfoldable pub lines : Text → List Text
unfolding split drop_cr finish_lines
lines s = finish_lines (split 0xa s)

unfoldable pub to_ascii_lowercase : Text → Text
to_ascii_lowercase [] = []
to_ascii_lowercase (c ∷ cs) =
    (if leb b'A' c && leb c b'Z' then c + 32 else c) ∷ to_ascii_lowercase cs

-- `str::eq_ignore_ascii_case`
unfoldable pub eq_ignore_ascii_case : Text → Text → Bool
unfolding equal to_ascii_lowercase
eq_ignore_ascii_case a b = equal (to_ascii_lowercase a) (to_ascii_lowercase b)

unfoldable pub starts_with : Text → Text → Bool
starts_with s [] = true
starts_with [] (d ∷ ds) = false
starts_with (c ∷ cs) (d ∷ ds) = c == d && starts_with cs ds

-- `str::contains` of a text
unfoldable pub contains : Text → Text → Bool
unfolding starts_with
contains [] q = starts_with [] q
contains (c ∷ cs) q = starts_with (c ∷ cs) q || contains cs q

-- The decimal digits of a number, as `{}` prints them; `n + 1` rounds are always enough.
show_digits : ℕ → ℕ → Text → Text
show_digits zero n acc = acc
show_digits (suc fuel) n acc =
    let more = show_digits fuel (n / 10) ((48 + n % 10) ∷ acc) in
    if ltb n 10 then (48 + n) ∷ acc else more

unfoldable pub show_ℕ : ℕ → Text
unfolding show_digits
show_ℕ n = show_digits (n + 1) n []

-- `str::parse` at an unsigned type: an optional `+`, then digits, one at least, below the limit.
read_digits : ℕ → ℕ → Text → Option ℕ
read_digits limit n [] = some n
read_digits limit n (c ∷ cs) =
    let m = n * 10 + (c - 48) in
    let rest = read_digits limit m cs in
    if (leb 48 c && leb c 57) && ltb m limit then rest else none

read_unsigned : ℕ → Text → Option ℕ
read_unsigned limit [] = none
read_unsigned limit (c ∷ cs) = read_digits limit 0 (c ∷ cs)

unfoldable pub parse_unsigned : ℕ → Text → Option ℕ
unfolding read_digits read_unsigned
parse_unsigned limit [] = none
parse_unsigned limit (c ∷ cs) =
    if c == b'+' then read_unsigned limit cs else read_unsigned limit (c ∷ cs)

-- `join(", ")`
unfoldable pub join : Text → List Text → Text
join sep [] = []
join sep (p ∷ []) = p
join sep (p ∷ q ∷ ps) = p ++ (sep ++ join sep (q ∷ ps))

-- The bytes of a character, and of a text, in UTF-8.
abbrev pub utf8_len : ℕ → ℕ
utf8_len c = if ltb c 0x80 then 1 else if ltb c 0x800 then 2 else if ltb c 0x10000 then 3 else 4

unfoldable pub byte_len : Text → ℕ
byte_len [] = 0
byte_len (c ∷ cs) = utf8_len c + byte_len cs
