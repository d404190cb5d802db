-- ===== src/Text/Lines.antt =====
-- Lines that are written one after the other are read back by `lines`.
use wirefinder.Prelude.{ℕ, Bool, false, ◌==◌, none, List, map, [], ◌∷◌, ◌++◌, ◌≡◌, refl, ap, arith}
use wirefinder.Prelude.Lists.{any, All, is_empty}
use wirefinder.Text.{
  Text, is_whitespace, split, push_piece, drop_cr, finish_lines, lines, strip_suffix, before, trim,
  trim_start,
}
use wirefinder.Text.Trimming.{EndsClean}

-- The character stands in the text.
abbrev pub has : ℕ → Text → Bool
has c t = any (λ d. d == c) t

unfoldable pub unlines : List Text → Text
unlines [] = []
unlines (l ∷ ls) = l ++ (0xa ∷ unlines ls)

pub record IsLine (t : Text) : Type 0 where
  pub one_line : has 0xa t ≡ false
  pub ends : EndsClean t

pub split-append :
    (sep : ℕ) (t rest : Text)
    → has sep t ≡ false
    → split sep (t ++ (sep ∷ rest)) ≡ t ∷ split sep rest
unfolding split push_piece
split-append sep [] rest h = ground arith
split-append sep (c ∷ t) rest h = ground (arith, split-append sep t rest)

pub before-absent : (c : ℕ) (t : Text) → has c t ≡ false → before c t ≡ t
unfolding before
before-absent c [] h = refl
before-absent c (d ∷ t) h = ground (arith, before-absent c t)

drop_cr-clean : (t : Text) → EndsClean t → drop_cr t ≡ t
unfolding drop_cr is_whitespace
drop_cr-clean [] h = refl
drop_cr-clean (c ∷ []) h = ground arith
drop_cr-clean (c ∷ d ∷ t) h = ap (λ u. c ∷ u) (drop_cr-clean (d ∷ t) h)

pub strip_suffix-clean : (t : Text) → EndsClean t → strip_suffix 0xd t ≡ none
unfolding strip_suffix is_whitespace
strip_suffix-clean [] h = refl
strip_suffix-clean (c ∷ []) h = ground arith
strip_suffix-clean (c ∷ d ∷ t) h = rw (strip_suffix-clean (d ∷ t) h) refl

finish_lines-cons :
    (l : Text) (ps : List Text)
    → is_empty ps ≡ false
    → finish_lines (l ∷ ps) ≡ drop_cr l ∷ finish_lines ps
unfolding finish_lines
finish_lines-cons l [] h = absurd (cc h)
finish_lines-cons [] (p ∷ ps) h = refl
finish_lines-cons (c ∷ l) (p ∷ ps) h = refl

push_piece-full : (c : ℕ) (ps : List Text) → is_empty (push_piece c ps) ≡ false
unfolding push_piece
push_piece-full c [] = refl
push_piece-full c (p ∷ ps) = refl

split-full : (sep : ℕ) (t : Text) → is_empty (split sep t) ≡ false
unfolding split
split-full sep [] = refl
split-full sep (c ∷ t) = ground (arith, push_piece-full c (split sep t))

pub lines-unlines : (ls : List Text) → All IsLine ls → lines (unlines ls) ≡ ls
unfolding lines unlines split finish_lines
lines-unlines [] h = refl
lines-unlines (l ∷ ls) h =
    rw
      (
        split-append 0xa l (unlines ls) h.0.one_line,
        finish_lines-cons l (split 0xa (unlines ls)) (split-full 0xa (unlines ls)),
        drop_cr-clean l h.0.ends,
      )
      (ap (λ t. l ∷ t) (lines-unlines ls h.1))

pub split-absent : (sep : ℕ) (t : Text) → has sep t ≡ false → split sep t ≡ t ∷ []
unfolding split push_piece
split-absent sep [] h = refl
split-absent sep (c ∷ t) h = ground (arith, split-absent sep t)

-- White space before the first piece falls away when the pieces are trimmed.
map-trim-push_piece :
    (ps : List Text) → is_empty ps ≡ false → map trim (push_piece 0x20 ps) ≡ map trim ps
unfolding push_piece trim trim_start is_whitespace
map-trim-push_piece [] h = absurd (cc h)
map-trim-push_piece (p ∷ ps) h = refl

pub map-trim-split_space :
    (sep : ℕ) (t : Text)
    → (0x20 == sep) ≡ false
    → map trim (split sep (0x20 ∷ t)) ≡ map trim (split sep t)
unfolding split
map-trim-split_space sep t h = rw h (map-trim-push_piece (split sep t) (split-full sep t))
