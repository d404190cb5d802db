-- ===== src/WgConf/Reads.antt =====
-- How the loop of `parse` in daemon/src/wgconf.rs goes over lines: one rule for each kind of line.
use mathlib.Core.Path.{subst}
use wirefinder.Prelude.{
  Bool, true, false, ltb, if◌then◌else◌, none, ◌∙◌, ℕ, ◌+◌, some, List, [], ◌∷◌, ◌++◌, ◌≡◌, refl,
  ap, ◌∙◌,
}
use wirefinder.Text.{lit, Text, show_ℕ}
use wirefinder.Text.Digits.{
  parse_unsigned-show_ℕ, show_ℕ-IsDigits, digits-EndsClean, digits-StartsClean, digits-any,
}
use wirefinder.Result.{ok, err}
use wirefinder.WgConf.{
  parse_num, or_bad_number, at_line, interface, peer, Iface, PeerAcc, Acc, set_iface, set_peer,
  update_last, update_iface, assign, read_line, read_lines,
}
use wirefinder.WgConf.Print.{entry, IsValue}
use wirefinder.WgConf.Entry.{IsWord, read_line-entry}

-- The lines take the loop from one state to another, whatever their numbers and what follows.
pub record Reads (ls : List Text) (a b : Acc) : Type 0 where
  pub at :
      (n : ℕ) (rest : List Text) → (m : ℕ) × (read_lines a n (ls ++ rest) ≡ read_lines b m rest)

pub Reads-nil : (a : Acc) → Reads [] a a
Reads-nil a = record { at = λ n rest. (n, refl) }

pub Reads-same : {a b : Acc} → a ≡ b → Reads [] a b
Reads-same {a} e = subst (λ c. Reads [] a c) e (Reads-nil a)

pub Reads-line :
    (raw : Text) (a b : Acc) → ((n : ℕ) → read_line a n raw ≡ ok b) → Reads (raw ∷ []) a b
unfolding read_lines
Reads-line raw a b h = record { at = λ n rest. (n + 1, rw (h n) refl) }

append_lines : (ks ls ms : List Text) → (ks ++ ls) ++ ms ≡ ks ++ (ls ++ ms)
append_lines [] ls ms = refl
append_lines (k ∷ ks) ls ms = ap (λ t. k ∷ t) (append_lines ks ls ms)

pub Reads-append :
    {ks ls : List Text} {a b c : Acc} → Reads ks a b → Reads ls b c → Reads (ks ++ ls) a c
Reads-append {ks} {ls} {a} k l = record {
  at = λ n rest.
      let (m, e) = k.at n (ls ++ rest) in
      let (o, f) = l.at m rest in (o, ap (read_lines a n) (append_lines ks ls rest) ∙ e ∙ f);
}

abbrev pub in_interface : Iface → Acc
in_interface i = record { iface = some i; peers = []; section = some interface }

abbrev pub in_peer : Iface → PeerAcc → Acc
in_peer i p = record { iface = some i; peers = p ∷ []; section = some peer }

pub Reads-iface :
    {key value : Text} (i j : Iface)
    → IsWord key
    → IsValue value
    → ((n : ℕ) → set_iface i key value n ≡ ok j)
    → Reads (entry key value ∷ []) (in_interface i) (in_interface j)
unfolding assign update_iface
Reads-iface {key} {value} i j w v h =
    Reads-line (entry key value) (in_interface i) (in_interface j)
      λ n. read_line-entry key value w v (in_interface i) n ∙ rw (h n) refl

pub Reads-peer :
    {key value : Text} (i : Iface) (p q : PeerAcc)
    → IsWord key
    → IsValue value
    → ((n : ℕ) → set_peer p key value n ≡ ok q)
    → Reads (entry key value ∷ []) (in_peer i p) (in_peer i q)
unfolding assign update_last
Reads-peer {key} {value} i p q w v h =
    Reads-line (entry key value) (in_peer i p) (in_peer i q)
      λ n. read_line-entry key value w v (in_peer i p) n ∙ rw (h n) refl

or_bad_number-if :
    (key value : Text) (line n : ℕ) (b : Bool)
    → or_bad_number key value line (if b then some n else none) ≡ (
        if b
        then ok (some n)
        else err (
            at_line line
              (lit "'" ++ (key ++ (lit "' must be a number, got '" ++ (value ++ lit "'"))))))
or_bad_number-if key value line n true = refl
or_bad_number-if key value line n false = refl

-- A decimal number is taken exactly if it is in the range of the type at which it is read, and as
-- that number; else the error names the line.
pub parse_num-show_ℕ :
    (limit n : ℕ) (key : Text) (line : ℕ)
    → parse_num limit key (show_ℕ n) line ≡ (
        if ltb n limit
        then ok (some n)
        else err (
            at_line line
              (lit "'" ++ (key ++ (lit "' must be a number, got '" ++ (show_ℕ n ++ lit "'"))))))
unfolding parse_num
parse_num-show_ℕ limit n key line =
    rw (parse_unsigned-show_ℕ limit n) (or_bad_number-if key (show_ℕ n) line n (ltb n limit))

pub parse_num-below :
    (limit n : ℕ) (key : Text) (line : ℕ)
    → ltb n limit ≡ true
    → parse_num limit key (show_ℕ n) line ≡ ok (some n)
parse_num-below limit n key line h = parse_num-show_ℕ limit n key line ∙ rw h refl

pub show_ℕ-IsValue : (n : ℕ) → IsValue (show_ℕ n)
show_ℕ-IsValue n =
    let d = show_ℕ-IsDigits n in
    record {
      not_empty = d.not_empty;
      trimmed = record {
        starts = digits-StartsClean (show_ℕ n) d.digits;
        ends = digits-EndsClean (show_ℕ n) d.digits;
      };
      no_comment = digits-any b'#' (show_ℕ n) refl d.digits;
      one_line = digits-any 0xa (show_ℕ n) refl d.digits;
    }
