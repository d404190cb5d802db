-- ===== src/Wireguard/Resolvconf.antt =====
-- `resolvconf_ifname`, `interface_order_prefix` and `which` of daemon/src/wireguard.rs: the name under
-- which the resolver's entry of the tunnel is registered.
use wirefinder.Prelude.{
  Bool, true, false, not, ◌&&◌, ◌||◌, ◌==◌, leb, Option, none, some, List, [], ◌∷◌, ◌++◌, ◌≡◌, refl,
  ◌⊎◌, inl, inr, Bool-cases, arith, ℕ, map, if◌then◌else◌,
}
use wirefinder.Prelude.Lists.{is_empty}
use wirefinder.Text.{Text, lit, trim, lines, split, strip_suffix}
use wirefinder.Result.{Result, ok, err}

-- What is read of the environment and of the file system: the variable PATH, which paths exist and
-- which are symbolic links, and the text of a file.
pub record System : Type 0 where
  pub path : Option Text
  pub exists : Text → Bool
  pub is_symlink : Text → Result Bool
  pub read : Text → Result Text

-- `Path::join` with a relative path that is a file's name
ends_in_slash : Text → Bool
ends_in_slash [] = true
ends_in_slash (c ∷ []) = c == b'/'
ends_in_slash (c ∷ d ∷ cs) = ends_in_slash (d ∷ cs)

unfoldable pub join_path : Text → Text → Text
unfolding ends_in_slash
join_path dir cmd = if ends_in_slash dir then dir ++ cmd else dir ++ (b'/' ∷ cmd)

unfoldable pub first_existing : (Text → Bool) → List Text → Option Text
first_existing exists [] = none
first_existing exists (p ∷ ps) =
    let rest = first_existing exists ps in if exists p then some p else rest

-- `env::split_paths` splits at colons.
abbrev pub candidates : Text → Text → List Text
candidates cmd path = map (λ dir. join_path dir cmd) (split b':' path)

abbrev which_in : System → Text → Option Text → Option Text
which_in system cmd none = none
which_in system cmd (some path) = first_existing system.exists (candidates cmd path)

unfoldable pub which : System → Text → Option Text
which system cmd = which_in system cmd system.path

is_prefix_byte : ℕ → Bool
is_prefix_byte b =
    (leb b'0' b && leb b b'9')
    || (leb b'A' b && leb b b'Z')
    || (leb b'a' b && leb b b'z')
    || b == b'-'

all_prefix_bytes : Text → Bool
unfolding is_prefix_byte
all_prefix_bytes [] = true
all_prefix_bytes (b ∷ bs) = is_prefix_byte b && all_prefix_bytes bs

unfoldable pub is_prefix : Text → Bool
unfolding all_prefix_bytes
is_prefix p = not (is_empty p) && all_prefix_bytes p

abbrev valid_prefix : Option Text → Option Text
valid_prefix none = none
valid_prefix (some p) = if is_prefix p then some p else none

abbrev first_some : Option Text → Option Text → Option Text
first_some (some p) rest = some p
first_some none rest = rest

prefix_of_lines : List Text → Option Text
prefix_of_lines [] = none
prefix_of_lines (line ∷ rest) =
    first_some (valid_prefix (strip_suffix b'*' (trim line))) (prefix_of_lines rest)

unfoldable pub interface_order_prefix : Text → Option Text
unfolding prefix_of_lines
interface_order_prefix content = prefix_of_lines (lines content)

prefix_name : Text → Option Text → Text
prefix_name base none = base
prefix_name base (some prefix) = prefix ++ (b'.' ∷ base)

prefixed : Text → Result Text → Text
unfolding prefix_name
prefixed base (err _) = base
prefixed base (ok content) = prefix_name base (interface_order_prefix content)

valid_prefix-is_prefix : (o : Option Text) (p : Text) → valid_prefix o ≡ some p → is_prefix p ≡ true
valid_prefix-is_prefix none p h = absurd (cc h)
valid_prefix-is_prefix (some q) p h = ground arith

prefix_of_lines-is_prefix :
    (ls : List Text) (p : Text) → prefix_of_lines ls ≡ some p → is_prefix p ≡ true
unfolding prefix_of_lines
prefix_of_lines-is_prefix [] p h = absurd (cc h)
prefix_of_lines-is_prefix (line ∷ rest) p h = ground (
  arith,
  valid_prefix-is_prefix (strip_suffix b'*' (trim line)) p,
  prefix_of_lines-is_prefix rest p,
)

-- The prefix that is read from an interface-order file is not empty and has letters, digits and
-- dashes only.
pub interface_order_prefix-is_prefix :
    (content : Text) {p : Text} → interface_order_prefix content ≡ some p → is_prefix p ≡ true
unfolding interface_order_prefix
interface_order_prefix-is_prefix content {p} h = prefix_of_lines-is_prefix (lines content) p h

abbrev pub order_path : Text
order_path = lit "/etc/resolvconf/interface-order"

-- A path whose metadata cannot be read is taken for a link.
abbrev link_or_unknown : Result Bool → Bool
link_or_unknown (ok link?) = link?
link_or_unknown (err e) = true

abbrev name_by_command : System → Text → Option Text → Text
name_by_command system base none = base
name_by_command system base (some p) =
    if link_or_unknown (system.is_symlink p) then base else prefixed base (system.read order_path)

unfoldable pub resolvconf_ifname : System → Text → Text
unfolding prefixed
resolvconf_ifname system base =
    if not (system.exists order_path)
    then base
    else name_by_command system base (which system (lit "resolvconf"))

-- A name with a prefix: the prefix is one that an interface-order file can hold, and the command
-- that was found is known to be no link.
pub record IsPrefixed (system : System) (base name : Text) : Type 0 where
  pub prefix : Text
  pub command : Text
  pub name_is : name ≡ prefix ++ (b'.' ∷ base)
  pub valid : is_prefix prefix ≡ true
  pub found : which system (lit "resolvconf") ≡ some command
  pub real : system.is_symlink command ≡ ok false

module _ (system : System) (base : Text) where
  prefix_name_forms :
      (o : Option Text)
      → (prefix_name base o ≡ base)
        ⊎ ((prefix : Text) × (prefix_name base o ≡ prefix ++ (b'.' ∷ base)) × (o ≡ some prefix))
  unfolding prefix_name
  prefix_name_forms none = inl refl
  prefix_name_forms (some prefix) = inr (prefix, refl, refl)

  prefixed_forms :
      (r : Result Text)
      → (prefixed base r ≡ base)
        ⊎ ((prefix : Text) × (prefixed base r ≡ prefix ++ (b'.' ∷ base))
            × (is_prefix prefix ≡ true))
  unfolding prefixed
  prefixed_forms (err e) = inl refl
  prefixed_forms (ok content) = elim (prefix_name_forms (interface_order_prefix content)) [
    | inl plain ↦ inl plain
    | inr (prefix, named, read) ↦ inr (prefix, named, interface_order_prefix-is_prefix content read)
  ]

  named_by_link :
      (command : Text) (r : Result Bool)
      → which system (lit "resolvconf") ≡ some command
      → system.is_symlink command ≡ r
      → let name = if link_or_unknown r then base else prefixed base (system.read order_path) in
        (name ≡ base) ⊎ IsPrefixed system base name
  named_by_link command (err e) found e2 = inl refl
  named_by_link command (ok true) found e2 = inl refl
  named_by_link command (ok false) found e2 = elim (prefixed_forms (system.read order_path)) [
    | inl plain ↦ inl plain
    | inr (prefix, named, valid) ↦ inr (record {
      prefix = prefix;
      command = command;
      name_is = named;
      valid = valid;
      found = found;
      real = e2;
    })
  ]

  named_by_command :
      (o : Option Text)
      → which system (lit "resolvconf") ≡ o
      → (name_by_command system base o ≡ base)
        ⊎ IsPrefixed system base (name_by_command system base o)
  named_by_command none e = inl refl
  named_by_command (some command) e = named_by_link command (system.is_symlink command) e refl

  -- The name of the resolver's entry is that of the interface, or has a prefix of letters, digits
  -- and dashes before a dot, the latter only if the first `resolvconf` on PATH is known to be no
  -- symbolic link.
  pub resolvconf_ifname_forms :
      (resolvconf_ifname system base ≡ base)
      ⊎ IsPrefixed system base (resolvconf_ifname system base)
  unfolding resolvconf_ifname
  resolvconf_ifname_forms = elim (Bool-cases (system.exists order_path)) [
    | inl there ↦ rw there (named_by_command (which system (lit "resolvconf")) refl)
    | inr absent ↦ rw absent (inl refl)
  ]
