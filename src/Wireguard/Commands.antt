-- ===== src/Wireguard/Commands.antt =====
-- The programs that daemon/src/wireguard.rs runs (`ip`, `nft`, `resolvconf`), as an interface: a
-- run takes a program, its arguments and its standard input.
use wirefinder.Prelude.{Bool, List, [], ◌∷◌, ◌++◌, if◌then◌else◌}
use wirefinder.Text.{Text, lit}
use wirefinder.Result.{Result, ok, err, map_err}
use wirefinder.Exec.{Exec, lift, attempt, ◌>>=◌, ◌>>◌}

-- `ExitStatus`
pub record Status : Type 0 where
  pub success : Bool
  pub shown : Text

-- A child that was spawned: whether its input was written, and how it ended.
pub record Child : Type 0 where
  pub written : Result (Unit {0})
  pub waited : Result Status
  pub stdout : Text

-- The error is that of `spawn`, `status` or `output`.
abbrev pub Runner : Type 0 → Type 0
Runner S = Text → List Text → Text → Exec S Child

-- `status.success()` or the error text that names the status
abbrev pub expect_success : Text → Status → Result (Unit {0})
expect_success what s = if s.success then ok tt else err (what ++ (lit " exited with " ++ s.shown))

abbrev prefixed {ℓ} : {A : Type ℓ} → Text → Result A → Result A
prefixed what = map_err (λ e. what ++ (lit ": " ++ e))

module _ {S : Type 0} (run : Runner S) where
  unfoldable pub run_nft : Text → Exec S (Unit {0})
  run_nft script = do
    spawned ← attempt (run (lit "nft") (lit "-f" ∷ lit "-" ∷ []) script)
    child ← lift (prefixed (lit "nft") spawned)
    status ← lift (prefixed (lit "nft") child.waited)
    lift (prefixed (lit "nft: writing ruleset") child.written)
    lift (expect_success (lit "nft -f") status)

  -- `resolvconf -d <ifname> -f`
  unfoldable pub reset_resolvconf : Text → Exec S (Unit {0})
  reset_resolvconf ifname = do
    ran ← attempt (run (lit "resolvconf") (lit "-d" ∷ ifname ∷ lit "-f" ∷ []) [])
    child ← lift (prefixed (lit "resolvconf") ran)
    status ← lift (prefixed (lit "resolvconf") child.waited)
    lift (expect_success (lit "resolvconf -d " ++ ifname) status)
