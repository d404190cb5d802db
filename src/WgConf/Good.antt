-- ===== src/WgConf/Good.antt =====
-- The invariant of the accumulators of daemon/src/wgconf.rs, and the rules by which it is kept.
use wirefinder.Prelude.{
  ℕ, ◌<◌, Bool, true, false, not, ◌&&◌, Option, none, some, List, [], ◌∷◌, ◌≡◌, refl, arith,
  is_some, if◌then◌else◌,
}
use wirefinder.Prelude.Lists.{is_empty}
use wirefinder.Text.{Text, lit, starts_with}
use wirefinder.Text.Numbers.{below, parse_unsigned-below}
use wirefinder.Result.{Result, ok, err, ◌>>=◌}
use wirefinder.WgConf.{
  Section, interface, peer, Iface, PeerAcc, Acc, u16, u32, set_scalar, or_bad_number, parse_num,
}

abbrev pub iface_fits : Iface → Bool
iface_fits i = below u16 i.listen_port && below u32 i.mtu

abbrev pub peer_fits : PeerAcc → Bool
peer_fits p = below u16 p.keepalive

abbrev pub peers_fit : List PeerAcc → Bool
peers_fit [] = true
peers_fit (p ∷ ps) = peer_fits p && peers_fit ps

abbrev pub iface_state : Option Iface → Bool
iface_state none = true
iface_state (some i) = iface_fits i

-- A section that is open has its accumulator.
abbrev pub is_started : Option Section → Option Iface → List PeerAcc → Bool
is_started none i ps = true
is_started (some interface) i ps = is_some i
is_started (some peer) i ps = not (is_empty ps)

abbrev pub fits : Acc → Bool
fits acc =
    iface_state acc.iface && (peers_fit acc.peers && is_started acc.section acc.iface acc.peers)

-- The error is that of one of the two `expect` calls.
abbrev pub is_panic : Text → Bool
is_panic e = starts_with e (lit "panic: ")

abbrev pub good {ℓ} : {A : Type ℓ} → (A → Bool) → Result A → Bool
good p (ok a) = p a
good p (err e) = not (is_panic e)

pub record Good {ℓ} {A : Type ℓ} (p : A → Bool) (r : Result A) : Type ℓ where
  pub holds : good p r ≡ true

good-continue {ℓ} :
    {A B : Type ℓ} (p : A → Bool) (q : B → Bool) (m : Result A) (f : A → Result B)
    → good p m ≡ true
    → ((a : A) → p a ≡ true → Good q (f a))
    → good q (m >>= f) ≡ true
good-continue p q (ok a) f h k = (k a h).holds
good-continue p q (err e) f h k = h

pub Good-bind {ℓ} :
    {A B : Type ℓ} {p : A → Bool} {q : B → Bool} {m : Result A} {f : A → Result B}
    → Good p m
    → ((a : A) → p a ≡ true → Good q (f a))
    → Good q (m >>= f)
Good-bind {p} {q} {m} {f} g k = record { holds = good-continue p q m f g.holds k }

pub Good-ok {ℓ} : {A : Type ℓ} {p : A → Bool} {a : A} → p a ≡ true → Good p (ok a)
Good-ok h = record { holds = h }

pub Good-err {ℓ} : {A : Type ℓ} {p : A → Bool} {e : Text} → is_panic e ≡ false → Good p (err e)
Good-err h = record { holds = rw h refl }

pub Good-if {ℓ} :
    {A : Type ℓ} {p : A → Bool} (b : Bool) {r s : Result A}
    → Good p r
    → Good p s
    → Good p (if b then r else s)
Good-if true h k = h
Good-if false h k = k

pub or_bad_number-Good :
    (limit : ℕ) (key value : Text) (line : ℕ) (n : Option ℕ)
    → below limit n ≡ true
    → Good (below limit) (or_bad_number key value line n)
unfolding lit starts_with
or_bad_number-Good limit key value line none h = Good-err refl
or_bad_number-Good limit key value line (some n) h = Good-ok h

pub parse_num-Good :
    (limit : ℕ) (key value : Text) (line : ℕ)
    → 0 < limit
    → Good (below limit) (parse_num limit key value line)
unfolding parse_num
parse_num-Good limit key value line h =
    or_bad_number-Good limit key value line _ (parse_unsigned-below limit value h)

pub set_scalar-Good :
    (old : Option Text) (key value : Text) (line : ℕ)
    → Good (λ _. true) (set_scalar old key value line)
unfolding set_scalar lit starts_with
set_scalar-Good none key value line = Good-ok refl
set_scalar-Good (some v) key value line = Good-err refl

pub good-ok {ℓ} :
    {A : Type ℓ} (p : A → Bool) (r : Result A) {a : A} → good p r ≡ true → r ≡ ok a → p a ≡ true
good-ok p (ok a) h e = cc (h, e)
good-ok p (err e) h k = absurd (cc k)

pub good-err {ℓ} :
    {A : Type ℓ} (p : A → Bool) (r : Result A) {e : Text}
    → good p r ≡ true
    → r ≡ err e
    → is_panic e ≡ false
good-err p (ok a) h k = absurd (cc k)
good-err p (err e) h k = ground (arith, k)
