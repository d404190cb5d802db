-- ===== src/WgConf/Comments.antt =====
-- Blank lines and comments do not change what `parse` of daemon/src/wgconf.rs reads: errors name
-- their line, and nothing else depends on its number.
use wirefinder.Prelude.{
  ℕ, ◌+◌, Option, none, some, List, [], ◌∷◌, ◌≡◌, refl, ◌∙◌, sym, ap, arith, Bool-cases, inl, inr,
  if◌then◌else◌, Bool, true, false, not, map,
}
use wirefinder.Prelude.Lists.{is_empty, retain}
use wirefinder.Text.{Text, lines, trim}
use wirefinder.Result.{Result, ok, err, ◌>>=◌, to_option}
use wirefinder.WgConf.{
  parse, finish, Section, interface, peer, Iface, PeerAcc, Acc, start, set_scalar, parse_num,
  set_iface, set_peer, update_last, update_iface, assign, key_value, read_content, read_line,
  read_lines, content, header,
}

-- Two results that may differ only in their errors.
record SameOk {A : Type 0} (r s : Result A) : Type 0 where
  same : to_option r ≡ to_option s

SameOk-self : {A : Type 0} (r : Result A) → SameOk r r
SameOk-self r = record { same = refl }

SameOk-errors : {A : Type 0} (d e : Text) → SameOk {A = A} (err d) (err e)
SameOk-errors d e = record { same = refl }

same-bind :
    {A B : Type 0} (r s : Result A) (f g : A → Result B)
    → to_option r ≡ to_option s
    → ((a : A) → SameOk (f a) (g a))
    → to_option (r >>= f) ≡ to_option (s >>= g)
same-bind (ok a) (ok b) f g h k = (k a).same ∙ ap (λ c. to_option (g c)) (cc h)
same-bind (ok a) (err e) f g h k = absurd (cc h)
same-bind (err e) (ok b) f g h k = absurd (cc h)
same-bind (err e) (err d) f g h k = refl

SameOk-bind :
    {A B : Type 0} {r s : Result A} {f g : A → Result B}
    → SameOk r s
    → ((a : A) → SameOk (f a) (g a))
    → SameOk (r >>= f) (s >>= g)
SameOk-bind {r} {s} {f} {g} h k = record { same = same-bind r s f g h.same k }

SameOk-if :
    {A : Type 0} (b : Bool) {r r' s s' : Result A}
    → SameOk r r'
    → SameOk s s'
    → SameOk (if b then r else s) (if b then r' else s')
SameOk-if true h k = h
SameOk-if false h k = k

module _ (n m : ℕ) where
  set_iface-SameOk :
      (i : Iface) (key value : Text) → SameOk (set_iface i key value n) (set_iface i key value m)
  unfolding set_iface set_scalar parse_num
  set_iface-SameOk i key value = record { same = ground arith }

  set_peer-SameOk :
      (p : PeerAcc) (key value : Text) → SameOk (set_peer p key value n) (set_peer p key value m)
  unfolding set_peer set_scalar parse_num
  set_peer-SameOk p key value = record { same = ground arith }

  update_iface-SameOk :
      (o : Option Iface) (key value : Text)
      → SameOk
          (update_iface (λ i. set_iface i key value n) o)
          (update_iface (λ i. set_iface i key value m) o)
  unfolding update_iface
  update_iface-SameOk none key value = record { same = refl }
  update_iface-SameOk (some i) key value =
      SameOk-bind (set_iface-SameOk i key value) λ j. SameOk-self _

  update_last-SameOk :
      (ps : List PeerAcc) (key value : Text)
      → SameOk
          (update_last (λ p. set_peer p key value n) ps)
          (update_last (λ p. set_peer p key value m) ps)
  unfolding update_last
  update_last-SameOk [] key value = record { same = refl }
  update_last-SameOk (p ∷ []) key value =
      SameOk-bind (set_peer-SameOk p key value) λ q. SameOk-self _
  update_last-SameOk (p ∷ q ∷ ps) key value =
      SameOk-bind (update_last-SameOk (q ∷ ps) key value) λ rest. SameOk-self _

  assign-SameOk :
      (s : Option Section) (acc : Acc) (key value : Text)
      → SameOk (assign s acc key value n) (assign s acc key value m)
  unfolding assign
  assign-SameOk none acc key value = record { same = refl }
  assign-SameOk (some interface) acc key value =
      SameOk-bind (update_iface-SameOk acc.iface key value) λ i. SameOk-self _
  assign-SameOk (some peer) acc key value =
      SameOk-bind (update_last-SameOk acc.peers key value) λ ps. SameOk-self _

  key_value-SameOk :
      (acc : Acc) (text : Text) (o : Option (Text × Text))
      → SameOk (key_value acc n text o) (key_value acc m text o)
  unfolding key_value
  key_value-SameOk acc text none = record { same = refl }
  key_value-SameOk acc text (some (key, value)) =
      assign-SameOk acc.section acc (trim key) (trim value)

  read_content-SameOk :
      (acc : Acc) (text : Text) (o : Option Text)
      → SameOk (read_content acc n text o) (read_content acc m text o)
  unfolding read_content
  read_content-SameOk acc text (some inner) = record { same = refl }
  read_content-SameOk acc text none = key_value-SameOk acc text _

-- The contents of the lines that have any.
abbrev pub contents : List Text → List Text
contents ls = retain (λ c. not (is_empty c)) (map content ls)

-- The loop over contents, with no line numbers.
read_contents : Acc → List Text → Result Acc
read_contents acc [] = ok acc
read_contents acc (c ∷ cs) = do acc' ← read_content acc 0 c (header c); read_contents acc' cs

read_lines-SameOk :
    (n : ℕ) (acc : Acc) (ls : List Text)
    → SameOk (read_lines acc n ls) (read_contents acc (contents ls))
unfolding read_lines read_line read_contents
read_lines-SameOk n acc [] = SameOk-self _
read_lines-SameOk n acc (raw ∷ rest) = elim (Bool-cases (is_empty (content raw))) [
  | inl blank ↦ rw blank (read_lines-SameOk (n + 1) acc rest)
  | inr full ↦ rw full (
      SameOk-bind (read_content-SameOk n 0 acc (content raw) (header (content raw)))
        λ b. read_lines-SameOk (n + 1) b rest)
]

-- Two texts whose lines have the same contents, when comments, the white space at both ends of
-- a line and the lines that then are empty are dropped, are both refused, or both parsed and
-- as the same configuration.
pub parse-contents :
    (t u : Text)
    → contents (lines t) ≡ contents (lines u)
    → to_option (parse t) ≡ to_option (parse u)
unfolding parse
parse-contents t u h =
    (SameOk-bind (read_lines-SameOk 1 start (lines t)) λ a. SameOk-self (finish a)).same
    ∙ ap (λ cs. to_option (read_contents start cs >>= finish)) h
    ∙ sym ((SameOk-bind (read_lines-SameOk 1 start (lines u)) λ a. SameOk-self (finish a)).same)
