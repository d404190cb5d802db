-- ===== src/WgConf/InterfaceLines.antt =====
-- The lines of an [Interface] section of a canonical file, as `parse` of daemon/src/wgconf.rs reads them.
use wirefinder.Prelude.{ℕ, true, false, Option, none, some, List, [], ◌∷◌, ◌≡◌, refl, ap, map_some}
use wirefinder.Prelude.Lists.{All, is_empty}
use wirefinder.Text.{
  Text, trim, before, strip_suffix, strip_prefix, eq_ignore_ascii_case, lit, equal, join,
  to_ascii_lowercase, show_ℕ,
}
use wirefinder.Text.Numbers.{below}
use wirefinder.WgConf.{
  Iface, start, iface_default, u16, u32, set_scalar, set_iface, read_line, content, header,
  start_section, read_content,
}
use wirefinder.WgConf.Print.{entry, entry_if, listed, IsValue, IsItem}
use wirefinder.WgConf.Entry.{IsWord}
use wirefinder.WgConf.Csv.{csv-join, join-IsValue}
use wirefinder.WgConf.Reads.{
  Reads, Reads-same, Reads-line, Reads-iface, in_interface, show_ℕ-IsValue, parse_num-below,
}

pub private_key-IsWord : IsWord (lit "PrivateKey")
unfolding lit
private_key-IsWord = record { not_empty = refl; letters = refl }

pub address-IsWord : IsWord (lit "Address")
unfolding lit
address-IsWord = record { not_empty = refl; letters = refl }

pub dns-IsWord : IsWord (lit "DNS")
unfolding lit
dns-IsWord = record { not_empty = refl; letters = refl }

pub listen_port-IsWord : IsWord (lit "ListenPort")
unfolding lit
listen_port-IsWord = record { not_empty = refl; letters = refl }

pub mtu-IsWord : IsWord (lit "MTU")
unfolding lit
mtu-IsWord = record { not_empty = refl; letters = refl }

pub Reads-interface : Reads (lit "[Interface]" ∷ []) start (in_interface iface_default)
unfolding read_line content header start_section read_content lit trim before strip_suffix
    strip_prefix eq_ignore_ascii_case to_ascii_lowercase equal
Reads-interface = Reads-line (lit "[Interface]") start (in_interface iface_default) λ n. refl

pub Reads-private_key :
    (i : Iface) (v : Text)
    → i.private_key ≡ none
    → IsValue v
    → Reads
        (entry (lit "PrivateKey") v ∷ [])
        (in_interface i)
        (in_interface (record i { private_key = some v }))
unfolding set_iface set_scalar equal to_ascii_lowercase lit
Reads-private_key i v e w =
    Reads-iface i (record i { private_key = some v }) private_key-IsWord w λ n. rw e refl

pub Reads-address :
    (i : Iface) (vs : List Text)
    → i.addresses ≡ []
    → is_empty vs ≡ false
    → All IsItem vs
    → Reads
        (entry (lit "Address") (join (lit ", ") vs) ∷ [])
        (in_interface i)
        (in_interface (record i { addresses = vs }))
unfolding set_iface equal to_ascii_lowercase lit
Reads-address i [] e f h = absurd (cc f)
Reads-address i (v ∷ vs) e f h =
    Reads-iface i (record i { addresses = v ∷ vs }) address-IsWord (join-IsValue v vs h)
      λ n. rw (e, csv-join v vs h) refl

pub Reads-dns :
    (i : Iface) (vs : List Text)
    → i.dns ≡ []
    → All IsItem vs
    → Reads
        (entry_if (lit "DNS") (listed vs))
        (in_interface i)
        (in_interface (record i { dns = vs }))
unfolding set_iface equal to_ascii_lowercase lit
Reads-dns i [] e h = Reads-same (ap (λ d. in_interface (record i { dns = d })) e)
Reads-dns i (v ∷ vs) e h =
    Reads-iface i (record i { dns = v ∷ vs }) dns-IsWord (join-IsValue v vs h)
      λ n. rw (e, csv-join v vs h) refl

pub Reads-listen_port :
    (i : Iface) (o : Option ℕ)
    → i.listen_port ≡ none
    → below u16 o ≡ true
    → Reads
        (entry_if (lit "ListenPort") (map_some show_ℕ o))
        (in_interface i)
        (in_interface (record i { listen_port = o }))
unfolding set_iface equal to_ascii_lowercase lit
Reads-listen_port i none e h = Reads-same (ap (λ d. in_interface (record i { listen_port = d })) e)
Reads-listen_port i (some k) e h =
    Reads-iface i (record i { listen_port = some k }) listen_port-IsWord (show_ℕ-IsValue k)
      λ n. rw (parse_num-below u16 k _ n h) refl

pub Reads-mtu :
    (i : Iface) (o : Option ℕ)
    → i.mtu ≡ none
    → below u32 o ≡ true
    → Reads
        (entry_if (lit "MTU") (map_some show_ℕ o))
        (in_interface i)
        (in_interface (record i { mtu = o }))
unfolding set_iface equal to_ascii_lowercase lit
Reads-mtu i none e h = Reads-same (ap (λ d. in_interface (record i { mtu = d })) e)
Reads-mtu i (some k) e h =
    Reads-iface i (record i { mtu = some k }) mtu-IsWord (show_ℕ-IsValue k)
      λ n. rw (parse_num-below u32 k _ n h) refl
