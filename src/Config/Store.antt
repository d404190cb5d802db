-- ===== src/Config/Store.antt =====
-- `Store` of daemon/src/config.rs: the state file, written aside and renamed into place.
pub mod Fs
pub mod Names
pub mod Atomic
pub mod Recovery
use wirefinder.Prelude.{ℕ, Option, none, some, ◌++◌, if◌then◌else◌}
use wirefinder.Prelude.Lists.{is_empty}
use wirefinder.Text.{Text, lit}
use wirefinder.Result.{Result, ok, err, map_err}
use wirefinder.Exec.{Exec, pure, lift, attempt, ◌>>=◌, ◌>>◌}
use wirefinder.Config.{Config, default}
use Fs.{
  FilePath, Disk, shown, with_extension, touch, open_truncate, write_all, rename, Read, content,
  not_found, failed, read_to_string,
}

-- `serde_json` at the type `Config`
pub record Codec : Type 0 where
  pub encode : Config → Result Text
  pub decode : Text → Result Config

-- `map_err(|e| format!("{what}: {e}"))`
unfoldable pub naming {ℓ} : {S A : Type ℓ} → Text → Exec S A → Exec S A
naming what m = do r ← attempt m; lift (map_err (λ e. what ++ (lit ": " ++ e)) r)

abbrev pub mode_private : ℕ
mode_private = 0o600

-- The file is opened, written and synced.
unfoldable pub write_private : Text → Text → Exec Disk (Unit {0})
write_private name text = do open_truncate name mode_private; write_all name text; touch

-- The directory, if the path names one.
unfoldable pub directory : FilePath → Option Text
directory p = elim p.parent [ none ↦ none | some dir ↦ if is_empty dir then none else some dir ]

unfoldable pub create_parent : Option Text → Exec Disk (Unit {0})
create_parent none = pure tt
create_parent (some dir) = naming dir touch

-- `File::open(dir)` and `sync_all`
unfoldable pub sync_parent : Option Text → Exec Disk (Unit {0})
sync_parent none = pure tt
sync_parent (some dir) = naming (dir ++ lit ": fsync") (do touch; touch)

abbrev pub tmp_path : FilePath → FilePath
tmp_path path = with_extension path (lit "json.tmp")

module _ (codec : Codec) (path : FilePath) where
  unfoldable pub save : Config → Exec Disk (Unit {0})
  unfolding naming directory create_parent sync_parent
  save cfg = do
    create_parent (directory path)
    json ← lift (codec.encode cfg)
    naming (shown (tmp_path path)) (write_private (tmp_path path).file_name json)
    naming (shown (tmp_path path) ++ (lit " -> " ++ shown path))
        (rename (tmp_path path).file_name path.file_name)
    sync_parent (directory path)

  unfoldable pub loaded : Read → Result Config
  loaded (content text) = map_err (λ e. shown path ++ (lit ": " ++ e)) (codec.decode text)
  loaded not_found = ok default
  loaded (failed e) = err (shown path ++ (lit ": " ++ e))

  unfoldable pub load : Exec Disk Config
  unfolding loaded
  load = do read ← read_to_string path.file_name; lift (loaded read)
