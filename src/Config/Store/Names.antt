-- ===== src/Config/Store/Names.antt =====
-- The temporary file beside a state file, of `Store::save` in daemon/src/config.rs.
use wirefinder.Prelude.{
  ℕ, Bool, true, false, ◌==◌, Option, none, some, [], ◌∷◌, ◌++◌, ◌≡◌, refl, arith, Option-cases,
  inl, inr,
}
use wirefinder.Prelude.Lists.{any}
use wirefinder.Text.{Text, lit, equal}
use wirefinder.Text.Equality.{equal_iff}
use wirefinder.Config.Store.{tmp_path}
use wirefinder.Config.Store.Fs.{FilePath, stem_of, with_extension, rsplit_dot, file_stem}

has_dot : Text → Bool
has_dot s = any (λ c. c == b'.') s

-- What follows the last dot has none.
rsplit_dot-none : (name : Text) → rsplit_dot name ≡ none → has_dot name ≡ false
unfolding rsplit_dot has_dot
rsplit_dot-none [] h = refl
rsplit_dot-none (c ∷ cs) h = ground (arith, rsplit_dot-none cs)

longer : (s : Text) (c : ℕ) (t : Text) → equal (s ++ c ∷ t) s ≡ false
unfolding equal
longer [] c t = refl
longer (d ∷ s) c t = ground (arith, longer s c t)

-- A text with a dot is none without.
dotted-differs : (a b : Text) → has_dot a ≡ true → has_dot b ≡ false → equal a b ≡ false
dotted-differs a b h k = ground (arith, equal_iff a b)

extended-differs :
    (name stem last ext : Text)
    → rsplit_dot name ≡ some (stem, last)
    → has_dot ext ≡ true
    → equal (stem ++ (b'.' ∷ ext)) name ≡ false
unfolding rsplit_dot equal
extended-differs [] stem last ext h k = cc
extended-differs (c ∷ cs) stem last ext h k = elim (Option-cases (rsplit_dot cs)) [
  | inl dotless ↦ ground (arith, dotted-differs ext cs k (rsplit_dot-none cs dotless))
  | inr (p, found) ↦ ground (arith, extended-differs cs p.0 p.1 ext found k)
]

stem_of-differs :
    (name : Text) (o : Option (Text × Text))
    → rsplit_dot name ≡ o
    → equal (stem_of name o ++ (b'.' ∷ lit "json.tmp")) name ≡ false
unfolding stem_of lit has_dot
stem_of-differs name none h = longer name b'.' (lit "json.tmp")
stem_of-differs name (some ([], last)) h = longer name b'.' (lit "json.tmp")
stem_of-differs name (some (c ∷ cs, last)) h =
    extended-differs name (c ∷ cs) last (lit "json.tmp") h refl

-- The temporary name is never the name of the state file itself.
pub tmp_path-differs : (path : FilePath) → equal (tmp_path path).file_name path.file_name ≡ false
unfolding with_extension file_stem
tmp_path-differs path = stem_of-differs path.file_name (rsplit_dot path.file_name) refl
