-- ===== src/Daemon/Active.antt =====
-- The single active flag of daemon/src/daemon.rs: which server `list_servers` shows as active after a
-- switch.
use mathlib.Core.Path.{subst}
use mathlib.Core.Option.{some-injective}
use wirefinder.Prelude.{
  Bool, true, false, Option, some, List, [], ◌∷◌, ◌≡◌, refl, sym, ap, ◌∙◌, map, arith, Bool-cases,
  inl, inr,
}
use wirefinder.Prelude.Lists.{any, find, All}
use wirefinder.Text.{Text, equal, trim}
use wirefinder.Text.Equality.{equal_iff}
use wirefinder.Result.{ok, Result-cases}
use wirefinder.External.{External}
use wirefinder.Keys.{public_key}
use wirefinder.Proto.{ServerInfo}
use wirefinder.Config.{ServerConfig, named, info}
use wirefinder.Config.Names.{IsUnique}
use wirefinder.Wireguard.{LiveInterface}
use wirefinder.Wireguard.Validate.{parse_named_key}
use wirefinder.Wireguard.Sound.{IsSound}
use wirefinder.Daemon.State.{Moment}
use wirefinder.Daemon.Status.{list_one}

module _ (x : External) (name key : Text) where
  -- The server's own key is `key` exactly if it bears the name.
  pub record Fits (s : ServerConfig) : Type 0 where
    pub own : Text
    pub derived : public_key x s.private_key ≡ ok own
    pub agrees : equal key own ≡ equal s.name name

  pub Fits-resolved_endpoint :
      (s : ServerConfig) (cached : Option Text)
      → Fits s
      → Fits (record s { resolved_endpoint = cached })
  Fits-resolved_endpoint s cached f = record { own = f.own; derived = f.derived; agrees = f.agrees }

  list_one_active :
      (m : Moment) (live : LiveInterface) (connecting? : Bool) (s : ServerConfig)
      → live.public_key ≡ some key
      → Fits s
      → ((list_one x m (some live) connecting? s).active ≡ equal s.name name)
        × ((list_one x m (some live) connecting? s).name ≡ s.name)
  unfolding list_one info
  list_one_active m live connecting? s speaks f = rw (f.derived, speaks) (f.agrees, refl)

  -- The flag of every entry of a list says whether it bears the name.
  abbrev pub Flags : List ServerInfo → Type 0
  Flags = All (λ i. i.active ≡ equal i.name name)

  pub list-Flags :
      (m : Moment) (live : LiveInterface) (connecting? : Bool) (ss : List ServerConfig)
      → live.public_key ≡ some key
      → All Fits ss
      → Flags (map (list_one x m (some live) connecting?) ss)
        × (any (λ i. i.active) (map (list_one x m (some live) connecting?) ss)
            ≡ any (named name) ss)
  unfolding named
  list-Flags m live connecting? [] speaks fits = (tt, refl)
  list-Flags m live connecting? (s ∷ ss) speaks fits =
      let (flag, same) = list_one_active m live connecting? s speaks fits.0 in
      let (flags, some_flag) = list-Flags m live connecting? ss speaks fits.1 in
      ((flag ∙ ap (λ n. equal n name) (sym same), flags), rw (flag, some_flag) refl)

all_false :
    (p : ServerConfig → Bool) (ss : List ServerConfig)
    → any p ss ≡ false
    → All (λ s. p s ≡ false) ss
all_false p [] h = tt
all_false p (s ∷ ss) h = (ground arith, all_false p ss (ground arith))

-- Where names are unique, whoever bears the name is the one that is found.
abbrev pub IsThe : Text → ServerConfig → ServerConfig → Type 0
IsThe name server s = named name s ≡ true → s ≡ server

others-IsThe :
    (name : Text) (server : ServerConfig) (ss : List ServerConfig)
    → All (λ s. named name s ≡ false) ss
    → All (IsThe name server) ss
others-IsThe name server [] h = tt
others-IsThe name server (s ∷ ss) h =
    (λ e. absurd (cc (sym e ∙ h.0)), others-IsThe name server ss h.1)

pub find-IsThe :
    (name : Text) (server : ServerConfig) (ss : List ServerConfig)
    → IsUnique ss
    → find (named name) ss ≡ some server
    → All (IsThe name server) ss
unfolding named
find-IsThe name server [] u h = tt
find-IsThe name server (s ∷ ss) u h = elim (Bool-cases (named name s)) [
  | inl here ↦ (
    λ _. some-injective _ _ (rw here at h),
    others-IsThe name server ss (
        all_false (named name) ss
          (subst (λ n. any (named n) ss ≡ false) ((equal_iff s.name name).0 here) u.0)),
  )
  | inr later ↦ (λ e. absurd (cc (sym e ∙ later)), find-IsThe name server ss u.1 (rw later at h))
]

ok-injective : {a b : Text} → ok a ≡ ok b → a ≡ b
ok-injective h = cc

agreed : (a b : Bool) → (a ≡ true → b ≡ true) → (b ≡ true → a ≡ true) → a ≡ b
agreed true b h k = sym (h refl)
agreed false true h k = k refl
agreed false false h k = refl

module _ (x : External) where
  -- No other server has the server's own key.
  abbrev pub HasOwnKey : ServerConfig → List ServerConfig → Type 0
  HasOwnKey server =
      All (λ s. public_key x s.private_key ≡ public_key x server.private_key → s.name ≡ server.name)

  sound_key : (s : ServerConfig) → IsSound x s → (k : Text) × (public_key x s.private_key ≡ ok k)
  unfolding public_key parse_named_key
  sound_key s sound = elim (Result-cases (x.parse_key (trim s.private_key))) [
    | inl (k, e) ↦ (x.show_key (x.public_key k), rw e refl)
    | inr (t, e) ↦ absurd (cc (rw e at sound.private_ok))
  ]

  module _ (name key : Text) (server : ServerConfig)
      (derived : public_key x server.private_key ≡ ok key) (bears : server.name ≡ name) where
    server-Fits :
        (s : ServerConfig)
        → IsSound x s
        → IsThe name server s
        → (public_key x s.private_key ≡ public_key x server.private_key → s.name ≡ server.name)
        → Fits x name key s
    unfolding named
    server-Fits s sound the own =
        let (k, e) = sound_key s sound in
        let same : s.name ≡ name → k ≡ key = λ here. ok-injective (
          sym e
          ∙ ap (λ (t : ServerConfig). public_key x t.private_key)
              (the ((equal_iff s.name name).1 here))
          ∙ derived) in
        let back : key ≡ k → s.name ≡ name =
          λ here. own (e ∙ ap ok (sym here) ∙ sym derived) ∙ bears in
        record {
          own = k;
          derived = e;
          agrees =
              agreed (equal key k) (equal s.name name)
                (λ h. (equal_iff s.name name).1 (back ((equal_iff key k).0 h)))
                (λ h. (equal_iff key k).1 (sym (same ((equal_iff s.name name).0 h))));
        }

    pub servers-Fits :
        (ss : List ServerConfig)
        → All (IsSound x) ss
        → All (IsThe name server) ss
        → HasOwnKey server ss
        → All (Fits x name key) ss
    servers-Fits [] sound the own = tt
    servers-Fits (s ∷ ss) sound the own =
        (server-Fits s sound.0 the.0 own.0, servers-Fits ss sound.1 the.1 own.1)
