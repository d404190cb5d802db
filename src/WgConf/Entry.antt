-- ===== src/WgConf/Entry.antt =====
-- One line `key = value` of a wg-quick file, as `parse` reads it.
use wirefinder.Prelude.{
  ℕ, Bool, false, not, ◌||◌, ◌&&◌, leb, none, some, [], ◌∷◌, ◌++◌, ◌≡◌, refl, sym, ap, ◌∙◌, arith,
}
use wirefinder.Prelude.Lists.{any, is_empty}
use wirefinder.Text.{Text, trim, trim_start, trim_end, is_whitespace, split_once, strip_prefix}
use wirefinder.Text.Lines.{has, IsLine, before-absent, strip_suffix-clean}
use wirefinder.Text.Trimming.{StartsClean, EndsClean, IsTrimmed-trim}
use wirefinder.WgConf.{Acc, content, header, read_content, read_line, key_value, assign}
use wirefinder.WgConf.Print.{entry, IsValue}

abbrev pub is_letter : ℕ → Bool
is_letter c = (leb b'A' c && leb c b'Z') || (leb b'a' c && leb c b'z')

-- The key is a word of ASCII letters.
pub record IsWord (t : Text) : Type 0 where
  pub not_empty : is_empty t ≡ false
  pub letters : any (λ c. not (is_letter c)) t ≡ false

pub has-append : (c : ℕ) (a b : Text) → has c (a ++ b) ≡ (has c a || has c b)
has-append c [] b = refl
has-append c (d ∷ a) b = ground (arith, has-append c a b)

has-letters :
    (c : ℕ) (t : Text)
    → is_letter c ≡ false
    → any (λ c. not (is_letter c)) t ≡ false
    → has c t ≡ false
has-letters c [] l h = refl
has-letters c (d ∷ t) l h = ground (arith, has-letters c t l)

pub EndsClean-append : (a b : Text) → is_empty b ≡ false → EndsClean b → EndsClean (a ++ b)
EndsClean-append [] b e h = h
EndsClean-append (c ∷ []) [] e h = absurd (cc e)
EndsClean-append (c ∷ []) (d ∷ b) e h = h
EndsClean-append (c ∷ d ∷ a) b e h = EndsClean-append (d ∷ a) b e h

split_once-append :
    (sep : ℕ) (a b : Text) → has sep a ≡ false → split_once sep (a ++ (sep ∷ b)) ≡ some (a, b)
unfolding split_once
split_once-append sep [] b h = ground arith
split_once-append sep (c ∷ a) b h = ground (arith, split_once-append sep a b)

trim_end-letters :
    (t : Text) → any (λ c. not (is_letter c)) t ≡ false → trim_end (t ++ (0x20 ∷ [])) ≡ t
unfolding trim_end is_whitespace
trim_end-letters [] h = refl
trim_end-letters (c ∷ []) h = ground arith
trim_end-letters (c ∷ d ∷ t) h = ground (arith, trim_end-letters (d ∷ t))

trim_start-letters :
    (t rest : Text)
    → is_empty t ≡ false
    → any (λ c. not (is_letter c)) t ≡ false
    → trim_start (t ++ rest) ≡ t ++ rest
unfolding trim_start is_whitespace
trim_start-letters [] rest e h = absurd (cc e)
trim_start-letters (c ∷ t) rest e h = ground arith

trim-word : (t : Text) → IsWord t → trim (t ++ (0x20 ∷ [])) ≡ t
unfolding trim
trim-word t w =
    rw (trim_start-letters t (0x20 ∷ []) w.not_empty w.letters) (trim_end-letters t w.letters)

pub trim-space : (t : Text) → trim (0x20 ∷ t) ≡ trim t
unfolding trim trim_start is_whitespace
trim-space t = refl

letters-StartsClean :
    (t rest : Text)
    → is_empty t ≡ false
    → any (λ c. not (is_letter c)) t ≡ false
    → StartsClean (t ++ rest)
unfolding is_whitespace
letters-StartsClean [] rest e h = absurd (cc e)
letters-StartsClean (c ∷ t) rest e h = ground arith

letters-header :
    (t rest : Text)
    → is_empty t ≡ false
    → any (λ c. not (is_letter c)) t ≡ false
    → header (t ++ rest) ≡ none
unfolding header strip_prefix
letters-header [] rest e h = absurd (cc e)
letters-header (c ∷ t) rest e h = ground arith

letters-is_empty : (t rest : Text) → is_empty t ≡ false → is_empty (t ++ rest) ≡ false
letters-is_empty [] rest e = absurd (cc e)
letters-is_empty (c ∷ t) rest e = refl

tail-EndsClean : (v : Text) → IsValue v → EndsClean (0x20 ∷ b'=' ∷ 0x20 ∷ v)
tail-EndsClean [] w = absurd (cc w.not_empty)
tail-EndsClean (c ∷ v) w = w.trimmed.ends

append_space : (a b : Text) → (a ++ (0x20 ∷ [])) ++ b ≡ a ++ (0x20 ∷ b)
append_space [] b = refl
append_space (c ∷ a) b = ap (λ t. c ∷ t) (append_space a b)

module _ (key value : Text) (w : IsWord key) (v : IsValue value) where
  entry-EndsClean : EndsClean (entry key value)
  entry-EndsClean = EndsClean-append key (0x20 ∷ b'=' ∷ 0x20 ∷ value) refl (tail-EndsClean value v)

  entry-has :
      (c : ℕ)
      → is_letter c ≡ false
      → has c (0x20 ∷ b'=' ∷ 0x20 ∷ value) ≡ false
      → has c (entry key value) ≡ false
  entry-has c l h =
      has-append c key (0x20 ∷ b'=' ∷ 0x20 ∷ value) ∙ rw (has-letters c key l w.letters) h

  pub entry-IsLine : IsLine (entry key value)
  entry-IsLine = record { one_line = entry-has 0xa refl v.one_line; ends = entry-EndsClean }

  entry-content : content (entry key value) ≡ entry key value
  unfolding content
  entry-content =
      rw
        (
          strip_suffix-clean (entry key value) entry-EndsClean,
          before-absent b'#' (entry key value) (entry-has b'#' refl v.no_comment),
        )
        (IsTrimmed-trim (entry key value) (record {
          starts = letters-StartsClean key (0x20 ∷ b'=' ∷ 0x20 ∷ value) w.not_empty w.letters;
          ends = entry-EndsClean;
        }))

  entry-split_once : split_once b'=' (entry key value) ≡ some (key ++ (0x20 ∷ []), 0x20 ∷ value)
  entry-split_once =
      ap (split_once b'=') (sym (append_space key (b'=' ∷ 0x20 ∷ value)))
      ∙ split_once-append b'=' (key ++ (0x20 ∷ [])) (0x20 ∷ value)
          (has-append b'=' key (0x20 ∷ []) ∙ rw (has-letters b'=' key refl w.letters) refl)

  -- A line of a key and a value is the assignment of the value to the key.
  pub read_line-entry :
      (acc : Acc) (n : ℕ) → read_line acc n (entry key value) ≡ assign acc.section acc key value n
  unfolding read_line read_content key_value
  read_line-entry acc n =
      rw
        (
          entry-content,
          letters-is_empty key (0x20 ∷ b'=' ∷ 0x20 ∷ value) w.not_empty,
          letters-header key (0x20 ∷ b'=' ∷ 0x20 ∷ value) w.not_empty w.letters,
          entry-split_once,
          trim-word key w,
          trim-space value,
          IsTrimmed-trim value v.trimmed,
        )
        refl
