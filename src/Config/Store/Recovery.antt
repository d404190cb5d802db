-- ===== src/Config/Store/Recovery.antt =====
-- What `Store::load` of daemon/src/config.rs finds after a save.
use wirefinder.Prelude.{
  Option, none, some, [], ◌++◌, ◌≡◌, refl, sym, ◌∙◌, ap, inl, inr, ◌⊎◌, Option-cases,
}
use wirefinder.Text.{Text, lit}
use wirefinder.Result.{Result, ok, map_err}
use wirefinder.Exec.{◌>>=◌, lift}
use wirefinder.Exec.Ends.{After-ok, After-either}
use wirefinder.Config.{Config, default}
use wirefinder.Config.Store.{Codec, save, load, loaded}
use wirefinder.Config.Store.Fs.{
  FilePath, Disk, shown, Files, next_fault, read_to_string, read_outcome, read_file,
}
use wirefinder.Config.Store.Atomic.{held, IsWhole, IsSaved, save-Ends}

module _ (codec : Codec) (path : FilePath) (cfg : Config) (d : Disk) where
  -- Whatever calls of a save fail and wherever, the state file holds what it held before or the
  -- whole code of the new configuration.
  pub save-IsWhole :
      IsWhole codec path cfg (held path.file_name d.files) (save codec path cfg d).1.files
  save-IsWhole =
      After-either (λ _ t. IsSaved codec path cfg t.files)
        (λ t. IsWhole codec path cfg (held path.file_name d.files) t.files) (λ _ t h. inr h)
        (save codec path cfg d).0 (save codec path cfg d).1
        ((save-Ends codec path cfg (held path.file_name d.files)).at d refl)

  -- A save that returns has put the whole code of the configuration under the state file's name.
  pub save-IsSaved :
      (save codec path cfg d).0 ≡ ok tt → IsSaved codec path cfg (save codec path cfg d).1.files
  save-IsSaved h =
      After-ok (λ _ t. IsSaved codec path cfg t.files)
        (λ t. IsWhole codec path cfg (held path.file_name d.files) t.files)
        (save codec path cfg d).0 (save codec path cfg d).1 h
        ((save-Ends codec path cfg (held path.file_name d.files)).at d refl)

-- A start that meets no fault, on the files that a run left.
abbrev pub restart : Codec → FilePath → Files → Result Config
restart codec path files = (load codec path (record { files = files; faults = [] })).0

module _ (codec : Codec) (path : FilePath) where
  -- What a text of the state file, or its absence, is loaded as.
  found : Option Text → Result Config
  found none = ok default
  found (some text) = map_err (λ e. shown path ++ (lit ": " ++ e)) (codec.decode text)

  restart-found : (files : Files) → restart codec path files ≡ found (held path.file_name files)
  unfolding load ◌>>=◌ lift loaded read_to_string next_fault read_outcome read_file held found
  restart-found files = elim (Option-cases (files path.file_name)) [
    | inl missing ↦ rw missing refl
    | inr (f, there) ↦ rw there refl
  ]

  module _ (cfg : Config)
      (decodes : (text : Text) → codec.encode cfg ≡ ok text → codec.decode text ≡ ok cfg) where
    pub restart-IsSaved :
        (files : Files) → IsSaved codec path cfg files → restart codec path files ≡ ok cfg
    unfolding found
    restart-IsSaved files (text, e, h) = restart-found files ∙ rw (h, decodes text e) refl

    -- With a code that is read back as it was written: after a save that returns, a restart
    -- loads the configuration that was saved.
    pub restart-save :
        (d : Disk)
        → (save codec path cfg d).0 ≡ ok tt
        → restart codec path (save codec path cfg d).1.files ≡ ok cfg
    restart-save d h = restart-IsSaved _ (save-IsSaved codec path cfg d h)

    -- With a code that is read back as it was written: after a save that failed anywhere, a restart
    -- loads what it would have loaded before the save, or the configuration that was to be saved.
    pub restart-save_either :
        (d : Disk)
        → (restart codec path (save codec path cfg d).1.files ≡ restart codec path d.files)
          ⊎ (restart codec path (save codec path cfg d).1.files ≡ ok cfg)
    restart-save_either d = elim (save-IsWhole codec path cfg d) [
      | inl same ↦ inl (restart-found _ ∙ ap found same ∙ sym (restart-found d.files))
      | inr saved ↦ inr (restart-IsSaved _ saved)
    ]

  -- What a load that returns has read is what a restart would read.
  pub load-restart :
      (d : Disk) {cfg : Config}
      → (load codec path d).0 ≡ ok cfg
      → restart codec path d.files ≡ ok cfg
  unfolding load ◌>>=◌ lift loaded read_to_string next_fault read_outcome read_file
  load-restart d {cfg} = elim (Option-cases (next_fault d.faults).0) [
    | inl fine ↦ rw fine λ h. h
    | inr (f, fault) ↦ rw fault λ h. absurd (cc h)
  ]

  pub load-files : (d : Disk) → (load codec path d).1.files ≡ d.files
  unfolding load ◌>>=◌ lift read_to_string
  load-files d = refl
