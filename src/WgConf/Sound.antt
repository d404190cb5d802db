-- ===== src/WgConf/Sound.antt =====
-- What daemon/src/wgconf.rs guarantees of a file that parses, and that its two `expect` calls never
-- panic.
use wirefinder.Prelude.{
  ltb, ℕ, String, ◌+◌, Bool, true, false, not, ◌&&◌, Option, none, some, List, [], ◌∷◌, ◌++◌, ◌≡◌,
  refl, arith, is_some, if◌then◌else◌,
}
use wirefinder.Prelude.Lists.{length, is_empty}
use wirefinder.Text.{Text, lit, starts_with, equal, to_ascii_lowercase, trim, split_once, lines}
use wirefinder.Text.Numbers.{below}
use wirefinder.Result.{Result, ok, err, ◌>>=◌, ok_or}
use wirefinder.WgConf.{
  ParsedConfig, Section, interface, peer, Iface, PeerAcc, Acc, peer_default, u16, u32, csv, start,
  content, header, start_section, set_iface, set_peer, update_last, update_iface, assign, key_value,
  read_content, read_line, read_lines, the_peer, finish, parse,
}
use wirefinder.WgConf.Good.{
  iface_fits, peer_fits, peers_fit, iface_state, fits, is_panic, Good, Good-bind, Good-ok, Good-err,
  Good-if, parse_num-Good, set_scalar-Good, good-ok, good-err,
}

abbrev names : Text → String → Bool
names key name = equal (to_ascii_lowercase key) (lit name)

-- An assignment keeps the range of the numbers, and never panics.
set_iface-Good :
    (i : Iface) (key value : Text) (line : ℕ)
    → iface_fits i ≡ true
    → Good iface_fits (set_iface i key value line)
unfolding set_iface
set_iface-Good i key value line h =
    Good-if (names key "privatekey")
      (Good-bind (set_scalar-Good i.private_key key value line)
        λ v _. Good-ok {a = record i { private_key = v }} h)
      (Good-if (names key "address")
        (Good-ok {a = record i { addresses = i.addresses ++ csv value }} h)
        (Good-if (names key "dns") (Good-ok {a = record i { dns = i.dns ++ csv value }} h) (
          Good-if (names key "listenport")
            (Good-bind (parse_num-Good u16 key value line (omega arith))
              λ n k. Good-ok {a = record i { listen_port = n }} (ground arith))
            (Good-if (names key "mtu")
              (Good-bind (parse_num-Good u32 key value line (omega arith))
                λ n k. Good-ok {a = record i { mtu = n }} (ground arith))
              (Good-ok {a = i} h)))))

set_peer-Good :
    (p : PeerAcc) (key value : Text) (line : ℕ)
    → peer_fits p ≡ true
    → Good peer_fits (set_peer p key value line)
unfolding set_peer
set_peer-Good p key value line h =
    Good-if (names key "publickey")
      (Good-bind (set_scalar-Good p.public_key key value line)
        λ v _. Good-ok {a = record p { public_key = v }} h)
      (Good-if (names key "endpoint")
        (Good-bind (set_scalar-Good p.endpoint key value line)
          λ v _. Good-ok {a = record p { endpoint = v }} h)
        (Good-if (names key "allowedips")
          (Good-ok {a = record p { allowed_ips = p.allowed_ips ++ csv value }} h)
          (Good-if (names key "presharedkey")
            (Good-bind (set_scalar-Good p.preshared_key key value line)
              λ v _. Good-ok {a = record p { preshared_key = v }} h)
            (Good-if (names key "persistentkeepalive")
              (Good-bind (parse_num-Good u16 key value line (omega arith))
                λ n k. Good-ok {a = record p { keepalive = n }} k)
              (Good-ok {a = p} h)))))

-- A nonempty list of accumulators stays one.
abbrev some_fit : List PeerAcc → Bool
some_fit ps = peers_fit ps && not (is_empty ps)

update_last-Good :
    (f : PeerAcc → Result PeerAcc) (ps : List PeerAcc)
    → ((p : PeerAcc) → peer_fits p ≡ true → Good peer_fits (f p))
    → some_fit ps ≡ true
    → Good some_fit (update_last f ps)
unfolding update_last
update_last-Good f [] k h = absurd (cc h)
update_last-Good f (p ∷ []) k h = Good-bind (k p (ground arith)) λ q fine. Good-ok (ground arith)
update_last-Good f (p ∷ q ∷ ps) k h =
    Good-bind (update_last-Good f (q ∷ ps) k (ground arith)) λ rest fine. Good-ok (ground arith)

assign_iface-Good :
    (acc : Acc) (i : Option Iface) (key value : Text) (line : ℕ)
    → acc.section ≡ some interface
    → acc.iface ≡ i
    → fits acc ≡ true
    → Good fits
        (update_iface (λ i. set_iface i key value line) i >>= λ j. ok (record acc { iface = j }))
unfolding update_iface
assign_iface-Good acc none key value line e there h = absurd (ground arith)
assign_iface-Good acc (some i) key value line e there h =
    Good-bind {p = λ j. iface_state j && is_some j}
      (Good-bind (set_iface-Good i key value line (ground arith)) λ j fine. Good-ok (ground arith))
      λ j fine. Good-ok (ground arith)

assign-Good :
    (acc : Acc) (key value : Text) (line : ℕ) (section : Option Section)
    → acc.section ≡ section
    → fits acc ≡ true
    → Good fits (assign section acc key value line)
unfolding assign lit starts_with
assign-Good acc key value line none e h = Good-err refl
assign-Good acc key value line (some interface) e h =
    assign_iface-Good acc acc.iface key value line e refl h
assign-Good acc key value line (some peer) e h =
    Good-bind
      (update_last-Good (λ p. set_peer p key value line) acc.peers
        (λ p k. set_peer-Good p key value line k) (ground arith))
      λ ps fine. Good-ok (ground arith)

peers_fit-append :
    (ps : List PeerAcc) → peers_fit ps ≡ true → some_fit (ps ++ peer_default ∷ []) ≡ true
peers_fit-append [] h = refl
peers_fit-append (p ∷ ps) h = ground (arith, peers_fit-append ps)

start_section-Good :
    (acc : Acc) (inner : Text) → fits acc ≡ true → Good fits (start_section acc inner)
unfolding start_section lit starts_with
start_section-Good acc inner h =
    Good-if _ (Good-if _ (Good-err refl) (Good-ok (ground arith)))
      (Good-if _ (Good-ok (ground (arith, peers_fit-append acc.peers))) (Good-err refl))

key_value-Good :
    (acc : Acc) (line : ℕ) (text : Text) (kv : Option (Text × Text))
    → fits acc ≡ true
    → Good fits (key_value acc line text kv)
unfolding key_value lit starts_with
key_value-Good acc line text none h = Good-err refl
key_value-Good acc line text (some (key, value)) h =
    assign-Good acc (trim key) (trim value) line acc.section refl h

read_content-Good :
    (acc : Acc) (line : ℕ) (text : Text) (inner : Option Text)
    → fits acc ≡ true
    → Good fits (read_content acc line text inner)
unfolding read_content
read_content-Good acc line text (some inner) h = start_section-Good acc (trim inner) h
read_content-Good acc line text none h = key_value-Good acc line text (split_once b'=' text) h

read_lines-Good :
    (acc : Acc) (line : ℕ) (rest : List Text)
    → fits acc ≡ true
    → Good fits (read_lines acc line rest)
unfolding read_lines read_line
read_lines-Good acc line [] h = Good-ok h
read_lines-Good acc line (raw ∷ rest) h =
    Good-bind
      (Good-if _ (Good-ok h) (read_content-Good acc line (content raw) (header (content raw)) h))
      λ acc' fine. read_lines-Good acc' (line + 1) rest fine

-- What a file that parses comes to.
abbrev pub parsed_fits : ParsedConfig → Bool
parsed_fits p =
    not (is_empty p.addresses)
    && not (is_empty p.allowed_ips)
    && below u16 p.listen_port
    && below u32 p.mtu
    && below u16 p.keepalive

ok_or-Good {ℓ} :
    {A : Type ℓ} (p : A → Bool) (o : Option A) (e : Text)
    → ((a : A) → o ≡ some a → p a ≡ true)
    → is_panic e ≡ false
    → Good p (ok_or o e)
ok_or-Good p none e k h = Good-err h
ok_or-Good p (some a) e k h = Good-ok (k a refl)

the_peer-Good : (ps : List PeerAcc) → peers_fit ps ≡ true → Good peer_fits (the_peer ps)
unfolding the_peer lit starts_with
the_peer-Good [] h = Good-err refl
the_peer-Good (p ∷ ps) h =
    Good-if (ltb 1 (length (p ∷ ps))) (Good-err refl) (Good-ok (ground arith))

addresses-Good :
    (addresses : List Text)
    → Good
        (λ (a : List Text). not (is_empty a))
        (if is_empty addresses then err (lit "[Interface]: missing Address") else ok addresses)
unfolding lit starts_with
addresses-Good [] = Good-err refl
addresses-Good (a ∷ rest) = Good-ok refl

finish-Good : (acc : Acc) → fits acc ≡ true → Good parsed_fits (finish acc)
unfolding finish lit starts_with
finish-Good acc h =
    Good-bind (ok_or-Good iface_fits acc.iface _ (λ i e. ground arith) refl) λ iface i_fits.
      Good-bind (the_peer-Good acc.peers (ground arith)) λ p p_fits.
        Good-bind (ok_or-Good (λ _. true) iface.private_key _ (λ _ _. refl) refl) λ private_key _.
          Good-bind {p = λ (a : List Text). not (is_empty a)} (addresses-Good iface.addresses)
            λ addresses some_address.
              Good-bind (ok_or-Good (λ _. true) p.public_key _ (λ _ _. refl) refl) λ public_key _.
                Good-bind (ok_or-Good (λ _. true) p.endpoint _ (λ _ _. refl) refl)
                  λ endpoint _. Good-ok (ground arith)

parse-Good : (text : Text) → Good parsed_fits (parse text)
unfolding parse
parse-Good text =
    Good-bind (read_lines-Good start 1 (lines text) refl) λ acc fine. finish-Good acc fine

-- A file that parses has an address and an allowed IP, and its numbers are in the range of the
-- types that hold them: u16 for the port and the keepalive, u32 for the MTU.
pub parse_fits : (text : Text) {p : ParsedConfig} → parse text ≡ ok p → parsed_fits p ≡ true
parse_fits text h = good-ok _ _ (parse-Good text).holds h

-- No file makes any of the three `expect` calls of the parser panic.
pub parse_never_panics : (text : Text) {e : Text} → parse text ≡ err e → is_panic e ≡ false
parse_never_panics text h = good-err parsed_fits _ (parse-Good text).holds h
