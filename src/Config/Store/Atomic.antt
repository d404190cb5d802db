-- ===== src/Config/Store/Atomic.antt =====
-- `Store::save` of daemon/src/config.rs leaves the state file whole, whichever call fails.
use wirefinder.Prelude.{
  ℕ, false, Option, none, some, [], ◌++◌, ◌≡◌, refl, Option-cases, inl, inr, ◌⊎◌, map_some, arith,
}
use wirefinder.Text.{Text, lit, equal}
use wirefinder.Text.Equality.{equal_self}
use wirefinder.Result.{Result, ok, err, map_err}
use wirefinder.Exec.{Exec, ◌>>=◌}
use wirefinder.Exec.Ends.{After, Ends, Ends-lift, Ends-pure, Ends-bind, Ends-weaken, Ends-given}
use wirefinder.Config.{Config}
use wirefinder.Config.Store.{
  Codec, naming, mode_private, write_private, directory, create_parent, sync_parent, tmp_path, save,
}
use wirefinder.Config.Store.Names.{tmp_path-differs}
use wirefinder.Config.Store.Fs.{
  File, Files, FilePath, settle, put, next_fault, call, outcome, touch, opened, append_to,
  open_truncate, write_all, rename,
}

abbrev pub content_of : Option File → Option Text
content_of f = map_some (λ f. f.content) f

-- What the file under the name holds, if there is one.
unfoldable pub held : Text → Files → Option Text
held name files = content_of (files name)

touch-Ends :
    (P E : Files → Type 0)
    → ((fs : Files) → P fs → E fs)
    → Ends (λ d. P d.files) touch (λ _ d. P d.files) (λ d. E d.files)
unfolding touch call settle outcome
touch-Ends P E w = record {
  at = λ d h. elim (Option-cases (next_fault d.faults).0) [
    | inl fine ↦ rw fine h
    | inr (f, bad) ↦ rw bad (w d.files h)
  ];
}

naming-After {ℓ} :
    {S A : Type ℓ} (Q : A → S → Type ℓ) (E : S → Type ℓ) (what : Text) (r : Result A) (s : S)
    → After Q E r s
    → After Q E (map_err (λ e. what ++ (lit ": " ++ e)) r) s
naming-After Q E what (ok a) s h = h
naming-After Q E what (err e) s h = h

naming-Ends {ℓ} :
    {S A : Type ℓ} {P E : S → Type ℓ} {Q : A → S → Type ℓ} (what : Text) {m : Exec S A}
    → Ends P m Q E
    → Ends P (naming what m) Q E
unfolding naming ◌>>=◌
naming-Ends {E} {Q} what {m} k = record {
  at = λ s h. naming-After Q E what (m s).0 (m s).1 (k.at s h);
}

module _ (name other text : Text) (old : Option Text) (differ : equal name other ≡ false) where
  open_truncate-Ends :
      (mode : ℕ)
      → Ends
          (λ d. held other d.files ≡ old)
          (open_truncate name mode)
          (λ _ d. (held name d.files ≡ some []) × (held other d.files ≡ old))
          (λ d. held other d.files ≡ old)
  unfolding open_truncate call settle outcome put held opened
  open_truncate-Ends mode = record {
    at = λ d h. elim (Option-cases (next_fault d.faults).0) [
      | inl fine ↦ elim (Option-cases (d.files name)) [
        | inl missing ↦ rw (fine, equal_self name, missing, differ) (refl, h)
        | inr (f, found) ↦ rw (fine, equal_self name, found, differ) (refl, h)
      ]
      | inr (f, bad) ↦ rw bad h
    ];
  }

  write_all-Ends :
      Ends
        (λ d. (held name d.files ≡ some []) × (held other d.files ≡ old))
        (write_all name text)
        (λ _ d. (held name d.files ≡ some text) × (held other d.files ≡ old))
        (λ d. held other d.files ≡ old)
  unfolding write_all call settle outcome put held append_to
  write_all-Ends = record {
    at = λ d h. elim (Option-cases (next_fault d.faults).0) [
      | inl fine ↦ elim (Option-cases (d.files name)) [
        | inl missing ↦ absurd (cc (missing, h.0))
        | inr (f, found) ↦ ground (arith, equal_self name)
      ]
      | inr (f, bad) ↦ rw (bad, differ) h.1
    ];
  }

  rename-Ends :
      Ends
        (λ d. (held name d.files ≡ some text) × (held other d.files ≡ old))
        (rename name other)
        (λ _ d. held other d.files ≡ some text)
        (λ d. held other d.files ≡ old)
  unfolding rename call settle outcome put held
  rename-Ends = record {
    at = λ d k. elim (Option-cases (next_fault d.faults).0) [
      | inl fine ↦ rw (fine, differ, equal_self other) k.0
      | inr (f, bad) ↦ rw bad k.1
    ];
  }

  write_private-Ends :
      Ends
        (λ d. held other d.files ≡ old)
        (write_private name text)
        (λ _ d. (held name d.files ≡ some text) × (held other d.files ≡ old))
        (λ d. held other d.files ≡ old)
  unfolding write_private
  write_private-Ends = Ends-bind (open_truncate-Ends mode_private) λ _.
      Ends-bind write_all-Ends λ _.
        touch-Ends (λ fs. (held name fs ≡ some text) × (held other fs ≡ old))
          (λ fs. held other fs ≡ old) (λ fs h. h.1)

module _ (codec : Codec) (path : FilePath) (cfg : Config) where
  -- The state file holds the whole code of the configuration.
  abbrev pub IsSaved : Files → Type 0
  IsSaved fs = (text : Text) × (codec.encode cfg ≡ ok text) × (held path.file_name fs ≡ some text)

module _ (codec : Codec) (path : FilePath) (cfg : Config) (old : Option Text) where
  -- The state file holds what it held, or the whole code of the configuration.
  abbrev pub IsWhole : Files → Type 0
  IsWhole fs = (held path.file_name fs ≡ old) ⊎ IsSaved codec path cfg fs

  create_parent-Ends :
      (dir : Option Text)
      → Ends
          (λ d. held path.file_name d.files ≡ old)
          (create_parent dir)
          (λ _ d. held path.file_name d.files ≡ old)
          (λ d. IsWhole d.files)
  unfolding create_parent
  create_parent-Ends none = Ends-pure tt
  create_parent-Ends (some dir) =
      naming-Ends dir (touch-Ends (λ fs. held path.file_name fs ≡ old) IsWhole (λ fs h. inl h))

  sync_parent-Ends :
      (dir : Option Text)
      → Ends
          (λ d. IsSaved codec path cfg d.files)
          (sync_parent dir)
          (λ _ d. IsSaved codec path cfg d.files)
          (λ d. IsWhole d.files)
  unfolding sync_parent
  sync_parent-Ends none = Ends-pure tt
  sync_parent-Ends (some dir) = naming-Ends _ (
      Ends-bind (touch-Ends (IsSaved codec path cfg) IsWhole (λ fs h. inr h))
        λ _. touch-Ends (IsSaved codec path cfg) IsWhole (λ fs h. inr h))

  module _ (text : Text) (e : codec.encode cfg ≡ ok text) where
    abbrev tmp : Text
    tmp = (tmp_path path).file_name

    written-Ends :
        Ends
          (λ d. held path.file_name d.files ≡ old)
          (write_private tmp text)
          (λ _ d. (held tmp d.files ≡ some text) × (held path.file_name d.files ≡ old))
          (λ d. IsWhole d.files)
    written-Ends =
        Ends-weaken _ _ _ (λ d. IsWhole d.files) (λ _ d h. h) (λ d h. inl h)
          (write_private-Ends tmp path.file_name text old (tmp_path-differs path))

    renamed-Ends :
        Ends
          (λ d. (held tmp d.files ≡ some text) × (held path.file_name d.files ≡ old))
          (rename tmp path.file_name)
          (λ _ d. IsSaved codec path cfg d.files)
          (λ d. IsWhole d.files)
    renamed-Ends =
        Ends-weaken _ (λ _ d. IsSaved codec path cfg d.files) _ (λ d. IsWhole d.files)
          (λ _ d h. (text, e, h)) (λ d h. inl h)
          (rename-Ends tmp path.file_name text old (tmp_path-differs path))

  pub save-Ends :
      Ends
        (λ d. held path.file_name d.files ≡ old)
        (save codec path cfg)
        (λ _ d. IsSaved codec path cfg d.files)
        (λ d. IsWhole d.files)
  unfolding save
  save-Ends = Ends-bind (create_parent-Ends (directory path)) λ _.
      Ends-bind (Ends-lift (codec.encode cfg) λ d h. inl h) λ text. Ends-given λ e.
        Ends-bind (naming-Ends _ (written-Ends text e)) λ _.
          Ends-bind (naming-Ends _ (renamed-Ends text e)) λ _. sync_parent-Ends (directory path)
