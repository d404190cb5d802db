-- ===== src/Daemon/Refinement.antt =====
-- The daemon implements the directory of servers: every request makes an edit that it allows.
use wirefinder.Prelude.{◌≡◌, refl, ◌∙◌, arith, List, [], ◌∷◌, map, if◌then◌else◌, map_some, false}
use wirefinder.Prelude.Lists.{find, All}
use wirefinder.Text.{Text, equal, trim}
use wirefinder.Text.Equality.{equal_iff}
use wirefinder.External.{External}
use wirefinder.Proto.{Request}
use wirefinder.Config.{ServerConfig, Config, named, find_server}
use wirefinder.Config.Lookup.{find_server-upsert_server, find_server-remove_server}
use wirefinder.Config.Store.{Codec}
use wirefinder.Config.Store.Fs.{FilePath}
use wirefinder.Wireguard.{Wireguard}
use wirefinder.Daemon.State.{Daemon}
use wirefinder.Daemon.Handle.{cache_endpoint, handle}
use wirefinder.Daemon.Directory.{
  Directory, Edit, keep, put, drop, touch, Puts, Drops, Touches, Stays, Allows, apply, located,
  IsRun, done, step,
}
use wirefinder.Daemon.Changes.{Change, same, stored, removed, refreshed, handle-Change}
use wirefinder.Daemon.Invariant.{Traffic, handle_all}

find-cache_endpoint :
    (name addr other : Text) (ss : List ServerConfig)
    → find (named other) (cache_endpoint name addr ss) ≡ (
        if equal name other
        then map_some (located addr) (find (named other) ss)
        else find (named other) ss)
unfolding cache_endpoint named
find-cache_endpoint name addr other [] = ground arith
find-cache_endpoint name addr other (s ∷ ss) = ground (
  arith,
  equal_iff s.name name,
  equal_iff name other,
  equal_iff s.name other,
  find-cache_endpoint name addr other ss,
)

-- A change of the list of servers is an edit of the directory.
record IsEdit (P : Edit → Type 0) (c c' : Config) : Type 0 where
  edit : Edit
  allowed : P edit
  agrees : (n : Text) → find_server c' n ≡ apply edit (find_server c) n

Change-IsEdit : (x : External) {P : Edit → Type 0} {c c' : Config} → Change x P c c' → IsEdit P c c'
unfolding apply find_server
Change-IsEdit x (same a e) = record { edit = keep; allowed = a; agrees = λ n. rw e refl }
Change-IsEdit x {c} (stored s a p n e) = record {
  edit = put s;
  allowed = a;
  agrees = λ n. rw e (find_server-upsert_server c s n);
}
Change-IsEdit x {c} (removed name a e) = record {
  edit = drop name;
  allowed = a;
  agrees = λ n. rw e (find_server-remove_server c name n);
}
Change-IsEdit x {c} (refreshed name addr a e) = record {
  edit = touch name addr;
  allowed = a;
  agrees = λ n. rw e (find-cache_endpoint name addr n c.servers);
}

module _ (x : External) (codec : Codec) (path : FilePath) {S : Type 0} (wg : Wireguard S) where
  -- Under any requests, whatever their outcomes, the names lead to servers as in a run of the
  -- directory, where each request changes nothing or makes its one edit: an addition, an import
  -- or an edit puts a server under the trimmed name it gives, a removal drops the name it gives,
  -- a switch sets the cached address of the server it names, and the others change nothing.
  pub handle_all-IsRun :
      (traffic : Traffic) (d : Daemon S)
      → IsRun
          (map (λ p. p.1) traffic)
          (find_server d.cfg)
          (find_server (handle_all x codec path wg traffic d).cfg)
  unfolding handle_all
  handle_all-IsRun [] d = done (λ n. refl)
  handle_all-IsRun ((m, req) ∷ rest) d =
      let e = Change-IsEdit x (handle-Change x codec path wg m req d) in
      step e.edit e.allowed e.agrees (handle_all-IsRun rest (handle x codec path wg m req d).1)

-- The request does not name the server.
abbrev pub Spares : Text → Request → Type 0
Spares n (Request.add_server spec) = equal (trim spec.name) n ≡ false
Spares n (Request.edit_server spec) = equal (trim spec.name) n ≡ false
Spares n (Request.import_server name conf) = equal (trim name) n ≡ false
Spares n (Request.remove_server name) = equal name n ≡ false
Spares n (Request.switch_server name) = equal name n ≡ false
Spares n _ = Unit

Puts-apply :
    (m n : Text) (e : Edit) (v : Directory) → equal m n ≡ false → Puts m e → apply e v n ≡ v n
unfolding apply
Puts-apply m n keep v h a = refl
Puts-apply m n (put s) v h a = rw (a, h) refl
Puts-apply m n (drop k) v h a = absurd a
Puts-apply m n (touch k addr) v h a = absurd a

Drops-apply :
    (m n : Text) (e : Edit) (v : Directory) → equal m n ≡ false → Drops m e → apply e v n ≡ v n
unfolding apply
Drops-apply m n keep v h a = refl
Drops-apply m n (put s) v h a = absurd a
Drops-apply m n (drop k) v h a = rw (a, h) refl
Drops-apply m n (touch k addr) v h a = absurd a

Touches-apply :
    (m n : Text) (e : Edit) (v : Directory) → equal m n ≡ false → Touches m e → apply e v n ≡ v n
unfolding apply
Touches-apply m n keep v h a = refl
Touches-apply m n (put s) v h a = absurd a
Touches-apply m n (drop k) v h a = absurd a
Touches-apply m n (touch k addr) v h a = rw (a, h) refl

Stays-apply : (n : Text) (e : Edit) (v : Directory) → Stays e → apply e v n ≡ v n
unfolding apply
Stays-apply n keep v a = refl
Stays-apply n (put s) v a = absurd a
Stays-apply n (drop k) v a = absurd a
Stays-apply n (touch k addr) v a = absurd a

Allows-apply :
    (n : Text) (r : Request) (e : Edit) (v : Directory)
    → Spares n r
    → Allows r e
    → apply e v n ≡ v n
Allows-apply n (Request.add_server spec) e v = Puts-apply _ n e v
Allows-apply n (Request.edit_server spec) e v = Puts-apply _ n e v
Allows-apply n (Request.import_server name conf) e v = Puts-apply _ n e v
Allows-apply n (Request.remove_server name) e v = Drops-apply _ n e v
Allows-apply n (Request.switch_server name) e v = Touches-apply _ n e v
Allows-apply n Request.status e v = λ _ a. Stays-apply n e v a
Allows-apply n (Request.list_servers q) e v = λ _ a. Stays-apply n e v a
Allows-apply n (Request.get_server name) e v = λ _ a. Stays-apply n e v a
Allows-apply n Request.disconnect e v = λ _ a. Stays-apply n e v a

-- What a run that does not name a server leaves of it.
IsRun-Spares :
    (n : Text) (rs : List Request) (v w : Directory) → All (Spares n) rs → IsRun rs v w → w n ≡ v n
IsRun-Spares n [] v w h (done e) = e n
IsRun-Spares n (r ∷ rs) v w h (step {u} e a u≡ run) =
    IsRun-Spares n rs u w h.1 run ∙ u≡ n ∙ Allows-apply n r e v h.0 a

module _ (x : External) (codec : Codec) (path : FilePath) {S : Type 0} (wg : Wireguard S) where
  -- A server that no addition, import, edit, removal or switch among the requests names is configured after
  -- them exactly as before, whatever their outcomes.
  pub find_server-handle_all :
      (name : Text) (traffic : Traffic) (d : Daemon S)
      → All (Spares name) (map (λ p. p.1) traffic)
      → find_server (handle_all x codec path wg traffic d).cfg name ≡ find_server d.cfg name
  find_server-handle_all name traffic d h =
      IsRun-Spares name (map (λ p. p.1) traffic) (find_server d.cfg)
        (find_server (handle_all x codec path wg traffic d).cfg) h
        (handle_all-IsRun x codec path wg traffic d)
