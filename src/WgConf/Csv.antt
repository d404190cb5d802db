-- ===== src/WgConf/Csv.antt =====
-- The lists of a wg-quick file: `csv` reads back what was joined by commas.
use wirefinder.Prelude.{ℕ, false, not, List, [], ◌∷◌, ◌++◌, ◌≡◌, refl, ap, ◌∙◌, map}
use wirefinder.Prelude.Lists.{All, is_empty, retain}
use wirefinder.Text.{Text, lit, join, trim, split}
use wirefinder.Text.Lines.{has, split-append, split-absent, map-trim-split_space}
use wirefinder.Text.Trimming.{EndsClean, StartsClean, IsTrimmed-trim}
use wirefinder.WgConf.{csv}
use wirefinder.WgConf.Print.{IsValue, IsItem}
use wirefinder.WgConf.Entry.{has-append, EndsClean-append}

map-trim-join :
    (v : Text) (vs : List Text)
    → All IsItem (v ∷ vs)
    → map trim (split b',' (join (lit ", ") (v ∷ vs))) ≡ v ∷ vs
unfolding join lit
map-trim-join v [] h =
    rw (split-absent b',' v h.0.no_comma) (ap (λ t. t ∷ []) (IsTrimmed-trim v h.0.value.trimmed))
map-trim-join v (w ∷ vs) h =
    rw
      (
        split-append b',' v (0x20 ∷ join (b',' ∷ 0x20 ∷ []) (w ∷ vs)) h.0.no_comma,
        IsTrimmed-trim v h.0.value.trimmed,
        map-trim-split_space b',' (join (b',' ∷ 0x20 ∷ []) (w ∷ vs)) refl,
      )
      (ap (λ ts. v ∷ ts) (map-trim-join w vs h.1))

retain-items : (vs : List Text) → All IsItem vs → retain (λ s. not (is_empty s)) vs ≡ vs
retain-items [] h = refl
retain-items (v ∷ vs) h = rw h.0.value.not_empty (ap (λ ts. v ∷ ts) (retain-items vs h.1))

pub csv-join :
    (v : Text) (vs : List Text) → All IsItem (v ∷ vs) → csv (join (lit ", ") (v ∷ vs)) ≡ v ∷ vs
unfolding csv
csv-join v vs h = rw (map-trim-join v vs h) (retain-items (v ∷ vs) h)

join-has :
    (c : ℕ) (v : Text) (vs : List Text)
    → has c (lit ", ") ≡ false
    → All (λ t. has c t ≡ false) (v ∷ vs)
    → has c (join (lit ", ") (v ∷ vs)) ≡ false
unfolding join
join-has c v [] k h = h.0
join-has c v (w ∷ vs) k h =
    has-append c v (lit ", " ++ join (lit ", ") (w ∷ vs))
    ∙ rw (h.0, has-append c (lit ", ") (join (lit ", ") (w ∷ vs)), k) (join-has c w vs k h.1)

append-is_empty : (a b : Text) → is_empty b ≡ false → is_empty (a ++ b) ≡ false
append-is_empty [] b h = h
append-is_empty (c ∷ a) b h = refl

StartsClean-append : (a b : Text) → is_empty a ≡ false → StartsClean a → StartsClean (a ++ b)
StartsClean-append [] b e h = absurd (cc e)
StartsClean-append (c ∷ a) b e h = h

join-not_empty :
    (v : Text) (vs : List Text) → All IsItem (v ∷ vs) → is_empty (join (lit ", ") (v ∷ vs)) ≡ false
unfolding join lit
join-not_empty v [] h = h.0.value.not_empty
join-not_empty v (w ∷ vs) h = append-is_empty v (b',' ∷ 0x20 ∷ join (lit ", ") (w ∷ vs)) refl

join-EndsClean :
    (v : Text) (vs : List Text) → All IsItem (v ∷ vs) → EndsClean (join (lit ", ") (v ∷ vs))
unfolding join
join-EndsClean v [] h = h.0.value.trimmed.ends
join-EndsClean v (w ∷ vs) h =
    EndsClean-append v (lit ", " ++ join (lit ", ") (w ∷ vs))
      (append-is_empty (lit ", ") (join (lit ", ") (w ∷ vs)) (join-not_empty w vs h.1))
      (EndsClean-append (lit ", ") (join (lit ", ") (w ∷ vs)) (join-not_empty w vs h.1)
        (join-EndsClean w vs h.1))

join-StartsClean :
    (v : Text) (vs : List Text) → All IsItem (v ∷ vs) → StartsClean (join (lit ", ") (v ∷ vs))
unfolding join
join-StartsClean v [] h = h.0.value.trimmed.starts
join-StartsClean v (w ∷ vs) h =
    StartsClean-append v (lit ", " ++ join (lit ", ") (w ∷ vs)) h.0.value.not_empty
      h.0.value.trimmed.starts

All-map {ℓ} :
    {P Q : Text → Type ℓ} (vs : List Text) → ((t : Text) → P t → Q t) → All P vs → All Q vs
All-map [] k h = tt
All-map (v ∷ vs) k h = (k v h.0, All-map vs k h.1)

-- A list of items is a value of its own.
pub join-IsValue :
    (v : Text) (vs : List Text) → All IsItem (v ∷ vs) → IsValue (join (lit ", ") (v ∷ vs))
unfolding lit
join-IsValue v vs h = record {
  not_empty = join-not_empty v vs h;
  trimmed = record { starts = join-StartsClean v vs h; ends = join-EndsClean v vs h };
  no_comment = join-has b'#' v vs refl (All-map (v ∷ vs) (λ t w. w.value.no_comment) h);
  one_line = join-has 0xa v vs refl (All-map (v ∷ vs) (λ t w. w.value.one_line) h);
}
