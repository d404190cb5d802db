-- ===== src/Daemon/Directory.antt =====
-- What the daemon of daemon/src/daemon.rs promises of its configured servers: a directory from names
-- to servers, and the edits of it that each request of proto/src/lib.rs may make. The order of the servers and the fields
-- of the state file are forgotten.
use wirefinder.Prelude.{◌≡◌, Option, none, some, List, [], ◌∷◌, if◌then◌else◌, map_some}
use wirefinder.Text.{Text, equal, trim}
use wirefinder.Proto.{Request}
use wirefinder.Config.{ServerConfig}

abbrev pub Directory : Type 0
Directory = Text → Option ServerConfig

pub data Edit : Type 0 where
  keep : Edit
  put : ServerConfig → Edit
  drop : Text → Edit
  touch : Text → Text → Edit

abbrev pub located : Text → ServerConfig → ServerConfig
located addr s = record s { resolved_endpoint = some addr }

unfoldable pub apply : Edit → Directory → Directory
apply keep v n = v n
apply (put s) v n = if equal s.name n then some s else v n
apply (drop m) v n = if equal m n then none else v n
apply (touch m addr) v n = if equal m n then map_some (located addr) (v n) else v n

abbrev pub Stays : Edit → Type 0
Stays keep = Unit
Stays _ = ⊥

abbrev pub Puts : Text → Edit → Type 0
Puts n keep = Unit
Puts n (put s) = s.name ≡ n
Puts n _ = ⊥

abbrev pub Drops : Text → Edit → Type 0
Drops n keep = Unit
Drops n (drop m) = m ≡ n
Drops n _ = ⊥

abbrev pub Touches : Text → Edit → Type 0
Touches n keep = Unit
Touches n (touch m addr) = m ≡ n
Touches n _ = ⊥

-- The edits that a request may make: any may fail, and then keeps the directory.
abbrev pub Allows : Request → Edit → Type 0
Allows (Request.add_server spec) = Puts (trim spec.name)
Allows (Request.edit_server spec) = Puts (trim spec.name)
Allows (Request.import_server name conf) = Puts (trim name)
Allows (Request.remove_server name) = Drops name
Allows (Request.switch_server name) = Touches name
Allows _ = Stays

-- The runs of the directory under a list of requests.
pub data IsRun : List Request → Directory → Directory → Type 0 where
  done : {v w : Directory} → ((n : Text) → w n ≡ v n) → IsRun [] v w
  step :
      {r : Request} {rs : List Request} {v u w : Directory} (e : Edit)
      → Allows r e
      → ((n : Text) → u n ≡ apply e v n)
      → IsRun rs u w
      → IsRun (r ∷ rs) v w
