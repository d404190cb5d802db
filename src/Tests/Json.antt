-- ===== src/Tests/Json.antt =====
-- JSON as text, for the tests that look at it: values, a compact printer, and a reader.
pub mod Format
use wirefinder.Prelude.{
  ℕ, zero, suc, ◌+◌, ◌-◌, ◌*◌, ◌&&◌, ◌||◌, ◌==◌, leb, Bool, true, false, Option, none, some, List,
  [], ◌∷◌, ◌++◌, and_then, map_some, if◌then◌else◌,
}
use wirefinder.Prelude.Lists.{length}
use wirefinder.Text.{Text, lit, equal, show_ℕ, is_whitespace}

mutual
  pub data Value : Type 0 where
    null : Value
    bool : Bool → Value
    num : ℕ → Value
    str : Text → Value
    arr : Items → Value
    obj : Fields → Value

  pub data Items : Type 0 where
    nil : Items
    cons : Value → Items → Items

  pub data Fields : Type 0 where
    end : Fields
    field : Text → Value → Fields → Fields

-- The characters that a string escapes.
escaped : Text → Text
escaped [] = []
escaped (c ∷ cs) =
    let rest = escaped cs in
    if c == 0x22
    then 0x5c ∷ 0x22 ∷ rest
    else if c == 0x5c
    then 0x5c ∷ 0x5c ∷ rest
    else if c == 0xa
    then 0x5c ∷ b'n' ∷ rest
    else if c == 0xd
    then 0x5c ∷ b'r' ∷ rest
    else if c == 9
    then 0x5c ∷ b't' ∷ rest
    else c ∷ rest

unfoldable pub quoted : Text → Text
unfolding escaped
quoted t = 0x22 ∷ (escaped t ++ (0x22 ∷ []))

unfoldable mutual
  pub print : Value → Text
  print null = lit "null"
  print (bool true) = lit "true"
  print (bool false) = lit "false"
  print (num n) = show_ℕ n
  print (str t) = quoted t
  print (arr nil) = lit "[]"
  print (arr (cons v vs)) = b'[' ∷ (print v ++ print_items vs)
  print (obj end) = lit "{}"
  print (obj (field k v fs)) = b'{' ∷ (quoted k ++ (b':' ∷ (print v ++ print_fields fs)))

  pub print_items : Items → Text
  print_items nil = lit "]"
  print_items (cons v vs) = b',' ∷ (print v ++ print_items vs)

  pub print_fields : Fields → Text
  print_fields end = lit "}"
  print_fields (field k v fs) = b',' ∷ (quoted k ++ (b':' ∷ (print v ++ print_fields fs)))

pub data Token : Type 0 where
  mark : ℕ → Token
  text : Text → Token
  number : ℕ → Token
  word : Text → Token

-- What the reader is in the middle of; texts and words are kept in reverse.
pub data Mode : Type 0 where
  between : Mode
  in_text : Text → Mode
  in_escape : Text → Mode
  in_number : ℕ → Mode
  in_word : Text → Mode

abbrev is_digit : ℕ → Bool
is_digit c = leb b'0' c && leb c b'9'

abbrev is_letter : ℕ → Bool
is_letter c = leb b'a' c && leb c b'z'

unfoldable pub back : Text → Text → Text
back [] acc = acc
back (c ∷ cs) acc = back cs (c ∷ acc)

abbrev unescape : ℕ → ℕ
unescape c = if c == b'n' then 0xa else if c == b'r' then 0xd else if c == b't' then 9 else c

-- What a mode leaves when it ends before this character.
unfoldable pub finished : Mode → List Token
finished (in_number n) = number n ∷ []
finished (in_word w) = word (back w []) ∷ []
finished _ = []

-- From between two tokens, by the next character.
unfoldable pub begins : ℕ → List Token × Mode
begins c =
    if is_whitespace c
    then ([], between)
    else if c == 0x22
    then ([], in_text [])
    else if is_digit c
    then ([], in_number (c - 48))
    else if is_letter c
    then ([], in_word (c ∷ []))
    else (mark c ∷ [], between)

abbrev after : Mode → List Token × Mode → List Token × Mode
after m (ts, n) = (finished m ++ ts, n)

-- The tokens that a character completes, and the mode after it.
unfoldable pub step : Mode → ℕ → List Token × Mode
step (in_text acc) c =
    if c == 0x22
    then (text (back acc []) ∷ [], between)
    else if c == 0x5c
    then ([], in_escape acc)
    else ([], in_text (c ∷ acc))
step (in_escape acc) c = ([], in_text (unescape c ∷ acc))
step (in_number n) c =
    if is_digit c then ([], in_number (n * 10 + (c - 48))) else after (in_number n) (begins c)
step (in_word w) c = if is_letter c then ([], in_word (c ∷ w)) else after (in_word w) (begins c)
step between c = begins c

unfoldable pub tokens : Mode → Text → List Token
tokens m [] = finished m
tokens m (c ∷ cs) = let (ts, n) = step m c in ts ++ tokens n cs

abbrev is_mark : ℕ → List Token → Option (List Token)
is_mark c (mark d ∷ ts) = if d == c then some ts else none
is_mark c _ = none

abbrev word_value : Text → Option Value
word_value w =
    if equal w (lit "null")
    then some null
    else if equal w (lit "true")
    then some (bool true)
    else if equal w (lit "false")
    then some (bool false)
    else none

-- The fuel is the number of tokens: each round takes one at least.
unfoldable mutual
  pub read_value : ℕ → List Token → Option (Value × List Token)
  read_value zero ts = none
  read_value (suc f) [] = none
  read_value (suc f) (text t ∷ ts) = some (str t, ts)
  read_value (suc f) (number n ∷ ts) = some (num n, ts)
  read_value (suc f) (word w ∷ ts) = map_some (λ v. (v, ts)) (word_value w)
  read_value (suc f) (mark c ∷ ts) = elim (c == b'[') [
    | true ↦ elim (is_mark b']' ts) [
      | some rest ↦ some (arr nil, rest)
      | none ↦ map_some (λ p. (arr p.0, p.1)) (read_items f ts)
    ]
    | false ↦ elim (c == b'{') [
      | true ↦ elim (is_mark b'}' ts) [
        | some rest ↦ some (obj end, rest)
        | none ↦ map_some (λ p. (obj p.0, p.1)) (read_fields f ts)
      ]
      | false ↦ none
    ]
  ]

  pub read_items : ℕ → List Token → Option (Items × List Token)
  read_items zero ts = none
  read_items (suc f) ts = and_then (read_value f ts) (λ p. elim (is_mark b',' p.1) [
    | some rest ↦ map_some (λ q. (cons p.0 q.0, q.1)) (read_items f rest)
    | none ↦ map_some (λ rest. (cons p.0 nil, rest)) (is_mark b']' p.1)
  ])

  pub read_fields : ℕ → List Token → Option (Fields × List Token)
  read_fields zero ts = none
  read_fields (suc f) [] = none
  read_fields (suc f) (text k ∷ ts) = and_then (is_mark b':' ts) (λ ts.
      and_then (read_value f ts) (λ p. elim (is_mark b',' p.1) [
        | some rest ↦ map_some (λ q. (field k p.0 q.0, q.1)) (read_fields f rest)
        | none ↦ map_some (λ rest. (field k p.0 end, rest)) (is_mark b'}' p.1)
      ]))
  read_fields (suc f) (mark c ∷ ts) = none
  read_fields (suc f) (number n ∷ ts) = none
  read_fields (suc f) (word w ∷ ts) = none

abbrev whole : Option (Value × List Token) → Option Value
whole (some (v, [])) = some v
whole _ = none

unfoldable pub read : Text → Option Value
read t = let ts = tokens between t in whole (read_value (length ts + length ts + 1) ts)
