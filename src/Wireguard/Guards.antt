-- ===== src/Wireguard/Guards.antt =====
-- The kill switch of `nft_script` in daemon/src/wireguard.rs: every address is guarded.
use mathlib.Core.List.{append_assoc, append-nil}
use wirefinder.Prelude.{
  ℕ, Bool, true, false, not, refl, Bool-cases, inl, inr, Option, List, [], ◌∷◌, ◌++◌, ◌≡◌, sym, ◌∙◌,
  ap,
}
use wirefinder.Prelude.Lists.{All, retain}
use wirefinder.Text.{Text, lit}
use wirefinder.External.{External, IpAddr, v4, v6, IpAddrMask, is_ipv6}
use wirefinder.Wireguard.Firewall.{
  of_family, retire, guard_rule, guard_rules, connmark, nonzero, declare, family_script, nft_script,
}

-- The text stands in the script as a whole.
pub record IsWithin (part whole : Text) : Type 0 where
  pub pre : Text
  pub post : Text
  pub split_at : whole ≡ pre ++ (part ++ post)

IsWithin-right :
    {part whole : Text} (more : Text) → IsWithin part whole → IsWithin part (whole ++ more)
IsWithin-right {part} {whole} more w = record {
  pre = w.pre;
  post = w.post ++ more;
  split_at =
      ap (λ t. t ++ more) w.split_at
      ∙ append_assoc w.pre (part ++ w.post) more
      ∙ ap (λ t. w.pre ++ t) (append_assoc part w.post more);
}

IsWithin-left :
    {part whole : Text} (more : Text) → IsWithin part whole → IsWithin part (more ++ whole)
IsWithin-left {part} {whole} more w = record {
  pre = more ++ w.pre;
  post = w.post;
  split_at = ap (λ t. more ++ t) w.split_at ∙ sym (append_assoc more w.pre (part ++ w.post));
}

IsWithin-self : (part : Text) → IsWithin part part
IsWithin-self part = record { pre = []; post = []; split_at = sym (append-nil part) }

All-map :
    {P Q : IpAddrMask → Type 0} (own : List IpAddrMask)
    → ((a : IpAddrMask) → P a → Q a)
    → All P own
    → All Q own
All-map [] f h = tt
All-map (a ∷ rest) f h = (f a h.0, All-map rest f h.1)

module _ (x : External) (ifname : Text) (v6 : Bool) where
  guard_rules-IsWithin :
      (own : List IpAddrMask)
      → All (λ a. IsWithin (guard_rule x ifname v6 a) (guard_rules x ifname v6 own)) own
  unfolding guard_rules
  guard_rules-IsWithin [] = tt
  guard_rules-IsWithin (a ∷ rest) = (
    IsWithin-right (guard_rules x ifname v6 rest) (IsWithin-self (guard_rule x ifname v6 a)),
    All-map rest (λ b w. IsWithin-left (guard_rule x ifname v6 a) w) (guard_rules-IsWithin rest),
  )

  declare-IsWithin :
      (own : List IpAddrMask) (fwmark : Option ℕ)
      → All (λ a. IsWithin (guard_rule x ifname v6 a) (declare x ifname v6 own fwmark)) own
  unfolding declare
  declare-IsWithin [] fwmark = tt
  declare-IsWithin (a ∷ rest) fwmark =
      All-map (a ∷ rest)
        (λ b w. IsWithin-right (lit "}\n") (
          IsWithin-right (connmark (nonzero fwmark))
            (IsWithin-right (lit "\t}\n") (IsWithin-left _ w))))
        (guard_rules-IsWithin (a ∷ rest))

  -- Every address of a family has its guard rule in the script of that family, whatever the mark.
  family_script-IsWithin :
      (addresses : List IpAddrMask) (fwmark : Option ℕ)
      → All
          (λ a. IsWithin (guard_rule x ifname v6 a) (family_script x ifname v6 addresses fwmark))
          (retain (of_family v6) addresses)
  unfolding family_script
  family_script-IsWithin addresses fwmark =
      All-map (retain (of_family v6) addresses) (λ a w. IsWithin-left (retire v6) w)
        (declare-IsWithin (retain (of_family v6) addresses) fwmark)

-- The address and the keyword of its family.
abbrev keyword : IpAddr → Text
keyword (v4 n) = lit "ip"
keyword (v6 n) = lit "ip6"

-- The rule that drops what comes for an address from another interface and not from this host.
abbrev pub drop_rule : External → Text → IpAddr → Text
drop_rule x ifname ip =
    lit "\t\tiifname != \""
    ++ ifname
    ++ lit "\" "
    ++ keyword ip
    ++ lit " daddr "
    ++ x.show_ip ip
    ++ lit " fib saddr type != local drop\n"

All-found :
    (P : IpAddrMask → Type 0) (p : IpAddrMask → Bool) (own : List IpAddrMask)
    → All P (retain p own)
    → All (λ a. p a ≡ true → P a) own
All-found P p [] h = tt
All-found P p (a ∷ rest) h = elim (Bool-cases (p a)) [
  | inl kept ↦ let k = rw kept at h in ((λ _. k.0), All-found P p rest k.1)
  | inr dropped ↦ ((λ e. absurd (cc (dropped, e))), All-found P p rest (rw dropped at h))
]

module _ (x : External) (ifname script : Text) where
  either_family :
      (ip : IpAddr) (cidr : ℕ)
      → (not (is_ipv6 ip) ≡ true
          → IsWithin (guard_rule x ifname false (record { address = ip; cidr = cidr })) script)
      → (is_ipv6 ip ≡ true
          → IsWithin (guard_rule x ifname true (record { address = ip; cidr = cidr })) script)
      → IsWithin (drop_rule x ifname ip) script
  unfolding guard_rule is_ipv6
  either_family (v4 n) cidr h k = h refl
  either_family (v6 n) cidr h k = k refl

  All-either :
      (own : List IpAddrMask)
      → All (λ a. of_family false a ≡ true → IsWithin (guard_rule x ifname false a) script) own
      → All (λ a. of_family true a ≡ true → IsWithin (guard_rule x ifname true a) script) own
      → All (λ a. IsWithin (drop_rule x ifname a.address) script) own
  All-either [] h k = tt
  All-either (a ∷ rest) h k = (either_family a.address a.cidr h.0 k.0, All-either rest h.1 k.1)

-- Whatever the mark, the script has for every address of the tunnel, IPv4 or IPv6, the rule that drops
-- a packet for it that comes in by another interface than the tunnel's and is not from this host.
pub nft_script-IsWithin :
    (x : External) (ifname : Text) (addresses : List IpAddrMask) (fwmark : Option ℕ)
    → All
        (λ a. IsWithin (drop_rule x ifname a.address) (nft_script x ifname addresses fwmark))
        addresses
unfolding nft_script
nft_script-IsWithin x ifname addresses fwmark =
    let v4_script = family_script x ifname false addresses fwmark in
    let v6_script = family_script x ifname true addresses fwmark in
    All-either x ifname (v4_script ++ v6_script) addresses
      (All-found _ (of_family false) addresses (
        All-map (retain (of_family false) addresses) (λ a w. IsWithin-right v6_script w)
          (family_script-IsWithin x ifname false addresses fwmark)))
      (All-found _ (of_family true) addresses (
        All-map (retain (of_family true) addresses) (λ a w. IsWithin-left v4_script w)
          (family_script-IsWithin x ifname true addresses fwmark)))
