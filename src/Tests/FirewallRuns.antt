-- ===== src/Tests/FirewallRuns.antt =====
-- The tests of the packet filter and of resolvconf's interface names of daemon/src/wireguard.rs, by name.
use wirefinder.Prelude.{
  ℕ, suc, Bool, true, not, ◌≡◌, refl, Option, none, some, List, [], ◌∷◌, map, map_some,
  if◌then◌else◌,
}
use wirefinder.Text.{
  Text, lit, equal, trim, trim_start, trim_end, is_whitespace, split, split_once, parse_unsigned,
  show_ℕ, contains, starts_with, lines, strip_suffix,
}
use wirefinder.External.{v4, IpAddrMask, is_ipv6}
use wirefinder.Wireguard.Firewall.{
  nft_script, family_script, declare, guard_rule, guard_rules, mark_chains, connmark,
}
use wirefinder.Wireguard.Resolvconf.{interface_order_prefix, is_prefix}
use wirefinder.Tests.Assert.{all, same_text}
use wirefinder.Tests.Sample.{sample}
use wirefinder.Tests.RecordingWg.{is_before}

-- 10.0.0.4/24
abbrev addrs : List IpAddrMask
addrs = record { address = v4 0xa000004; cidr = 24 } ∷ []

-- `str::find` of a text
text_index : Text → Text → Option ℕ
text_index q [] = if starts_with [] q then some 0 else none
text_index q (c ∷ cs) = if starts_with (c ∷ cs) q then some 0 else map_some suc (text_index q cs)

abbrev unmarked : Text → Bool
unmarked script = all (
    contains script (lit "fib saddr type != local drop")
    ∷ not (contains script (lit "premangle"))
    ∷ not (contains script (lit "postmangle"))
    ∷ [])

abbrev nft_script_guards_the_tunnel_address_against_the_local_link : Bool
nft_script_guards_the_tunnel_address_against_the_local_link =
    let script = nft_script sample (lit "wirefinder") addrs (some 51820) in
    all (
      contains script
        (lit "iifname != \"wirefinder\" ip daddr 10.0.0.4 fib saddr type != local drop")
      ∷ not (contains script (lit "10.0.0.4/24"))
      ∷ contains script (lit "type filter hook prerouting priority -300;")
      ∷ [])

abbrev nft_script_makes_the_fwmark_sticky_across_a_udp_flow : Bool
nft_script_makes_the_fwmark_sticky_across_a_udp_flow =
    let script = nft_script sample (lit "wirefinder") addrs (some 51821) in
    all (
      contains script (lit "meta l4proto udp mark 51821 ct mark set mark")
      ∷ contains script (lit "meta l4proto udp meta mark set ct mark")
      ∷ contains script (lit "priority -150;")
      ∷ [])

abbrev nft_script_without_a_fwmark_keeps_the_anti_spoof_rule_only : Bool
nft_script_without_a_fwmark_keeps_the_anti_spoof_rule_only =
    all (
      map (λ mark. unmarked (nft_script sample (lit "wirefinder") addrs mark)) (none ∷ some 0 ∷ []))

abbrev nft_script_retires_the_family_a_tunnel_no_longer_uses : Bool
nft_script_retires_the_family_a_tunnel_no_longer_uses =
    let script = nft_script sample (lit "wirefinder") addrs (some 51820) in
    all (
      contains script (lit "delete table ip6 wirefinder\n")
      ∷ not (contains script (lit "table ip6 wirefinder {"))
      ∷ is_before (text_index (lit "delete table ip wirefinder") script)
          (text_index (lit "table ip wirefinder {") script)
      ∷ [])

abbrev nft_script_with_no_addresses_is_a_pure_teardown : Bool
nft_script_with_no_addresses_is_a_pure_teardown =
    equal (nft_script sample (lit "wirefinder") [] none) (
      lit
        "add table ip wirefinder\ndelete table ip wirefinder\nadd table ip6 wirefinder\ndelete table ip6 wirefinder\n")

abbrev interface_order_prefix_picks_the_first_valid_entry : Bool
interface_order_prefix_picks_the_first_valid_entry =
    same_text (interface_order_prefix (lit "# comment\nwg*\neth*\n")) (some (lit "wg"))

abbrev interface_order_prefix_handles_dashes_and_skips_malformed_lines : Bool
interface_order_prefix_handles_dashes_and_skips_malformed_lines = all (
    same_text (interface_order_prefix (lit "not-a-pattern\nmy-vpn*\n")) (some (lit "my-vpn"))
    ∷ same_text (interface_order_prefix []) none
    ∷ same_text (interface_order_prefix (lit "*\n")) none
    ∷ same_text (interface_order_prefix (lit "eth0\nwlan0\n")) none
    ∷ [])

-- Every test passes.
firewall_runs_pass :
    all (
      nft_script_guards_the_tunnel_address_against_the_local_link
      ∷ nft_script_makes_the_fwmark_sticky_across_a_udp_flow
      ∷ nft_script_without_a_fwmark_keeps_the_anti_spoof_rule_only
      ∷ nft_script_retires_the_family_a_tunnel_no_longer_uses
      ∷ nft_script_with_no_addresses_is_a_pure_teardown
      ∷ interface_order_prefix_picks_the_first_valid_entry
      ∷ interface_order_prefix_handles_dashes_and_skips_malformed_lines ∷ [])
    ≡ true
unfolding lit equal trim trim_start trim_end is_whitespace split split_once parse_unsigned show_ℕ
    contains nft_script family_script declare guard_rule guard_rules mark_chains connmark is_ipv6
    interface_order_prefix is_prefix starts_with lines strip_suffix text_index
firewall_runs_pass = refl
