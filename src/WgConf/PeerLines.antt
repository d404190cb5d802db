-- ===== src/WgConf/PeerLines.antt =====
-- The lines of a [Peer] section of a canonical file, as `parse` of daemon/src/wgconf.rs reads them.
use wirefinder.Prelude.{ℕ, true, false, Option, none, some, List, [], ◌∷◌, ◌≡◌, refl, ap, map_some}
use wirefinder.Prelude.Lists.{All, is_empty}
use wirefinder.Text.{
  Text, trim, before, strip_suffix, strip_prefix, eq_ignore_ascii_case, lit, equal, join,
  to_ascii_lowercase, show_ℕ,
}
use wirefinder.Text.Numbers.{below}
use wirefinder.WgConf.{
  Iface, PeerAcc, peer_default, u16, set_scalar, set_peer, read_line, content, header,
  start_section, read_content,
}
use wirefinder.WgConf.Print.{entry, entry_if, IsValue, IsItem, MaybeValue}
use wirefinder.WgConf.Entry.{IsWord}
use wirefinder.WgConf.Csv.{csv-join, join-IsValue}
use wirefinder.WgConf.Reads.{
  Reads, Reads-same, Reads-line, Reads-peer, in_interface, in_peer, show_ℕ-IsValue, parse_num-below,
}

pub public_key-IsWord : IsWord (lit "PublicKey")
unfolding lit
public_key-IsWord = record { not_empty = refl; letters = refl }

pub endpoint-IsWord : IsWord (lit "Endpoint")
unfolding lit
endpoint-IsWord = record { not_empty = refl; letters = refl }

pub allowed_ips-IsWord : IsWord (lit "AllowedIPs")
unfolding lit
allowed_ips-IsWord = record { not_empty = refl; letters = refl }

pub preshared_key-IsWord : IsWord (lit "PresharedKey")
unfolding lit
preshared_key-IsWord = record { not_empty = refl; letters = refl }

pub keepalive-IsWord : IsWord (lit "PersistentKeepalive")
unfolding lit
keepalive-IsWord = record { not_empty = refl; letters = refl }

pub Reads-peer_section :
    (i : Iface) → Reads (lit "[Peer]" ∷ []) (in_interface i) (in_peer i peer_default)
unfolding read_line content header start_section read_content lit trim before strip_suffix
    strip_prefix eq_ignore_ascii_case to_ascii_lowercase equal
Reads-peer_section i = Reads-line (lit "[Peer]") (in_interface i) (in_peer i peer_default) λ n. refl

module _ (i : Iface) (p : PeerAcc) where
  pub Reads-public_key :
      (v : Text)
      → p.public_key ≡ none
      → IsValue v
      → Reads
          (entry (lit "PublicKey") v ∷ [])
          (in_peer i p)
          (in_peer i (record p { public_key = some v }))
  unfolding set_peer set_scalar equal to_ascii_lowercase lit
  Reads-public_key v e w =
      Reads-peer i p (record p { public_key = some v }) public_key-IsWord w λ n. rw e refl

  pub Reads-endpoint :
      (v : Text)
      → p.endpoint ≡ none
      → IsValue v
      → Reads
          (entry (lit "Endpoint") v ∷ [])
          (in_peer i p)
          (in_peer i (record p { endpoint = some v }))
  unfolding set_peer set_scalar equal to_ascii_lowercase lit
  Reads-endpoint v e w =
      Reads-peer i p (record p { endpoint = some v }) endpoint-IsWord w λ n. rw e refl

  pub Reads-allowed_ips :
      (vs : List Text)
      → p.allowed_ips ≡ []
      → is_empty vs ≡ false
      → All IsItem vs
      → Reads
          (entry (lit "AllowedIPs") (join (lit ", ") vs) ∷ [])
          (in_peer i p)
          (in_peer i (record p { allowed_ips = vs }))
  unfolding set_peer equal to_ascii_lowercase lit
  Reads-allowed_ips [] e f h = absurd (cc f)
  Reads-allowed_ips (v ∷ vs) e f h =
      Reads-peer i p (record p { allowed_ips = v ∷ vs }) allowed_ips-IsWord (join-IsValue v vs h)
        λ n. rw (e, csv-join v vs h) refl

  pub Reads-preshared_key :
      (o : Option Text)
      → p.preshared_key ≡ none
      → MaybeValue o
      → Reads
          (entry_if (lit "PresharedKey") o)
          (in_peer i p)
          (in_peer i (record p { preshared_key = o }))
  unfolding set_peer set_scalar equal to_ascii_lowercase lit
  Reads-preshared_key none e w = Reads-same (ap (λ d. in_peer i (record p { preshared_key = d })) e)
  Reads-preshared_key (some v) e w =
      Reads-peer i p (record p { preshared_key = some v }) preshared_key-IsWord w λ n. rw e refl

  pub Reads-keepalive :
      (o : Option ℕ)
      → p.keepalive ≡ none
      → below u16 o ≡ true
      → Reads
          (entry_if (lit "PersistentKeepalive") (map_some show_ℕ o))
          (in_peer i p)
          (in_peer i (record p { keepalive = o }))
  unfolding set_peer equal to_ascii_lowercase lit
  Reads-keepalive none e h = Reads-same (ap (λ d. in_peer i (record p { keepalive = d })) e)
  Reads-keepalive (some k) e h =
      Reads-peer i p (record p { keepalive = some k }) keepalive-IsWord (show_ℕ-IsValue k)
        λ n. rw (parse_num-below u16 k _ n h) refl
