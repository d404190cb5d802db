-- ===== src/Config/Store/Fs.antt =====
-- The calls of `std::fs` and `std::path` that `Store` makes, on the directory of the state file.
-- Each call takes the next entry of a script of faults, and succeeds when there is none.
use wirefinder.Prelude.{ℕ, zero, suc, Option, none, some, List, [], ◌∷◌, ◌++◌, ◌==◌, if◌then◌else◌}
use wirefinder.Prelude.Lists.{is_empty}
use wirefinder.Text.{Text, lit, equal}
use wirefinder.Result.{Result, ok, err}
use wirefinder.Exec.{Exec}

pub record File : Type 0 where
  pub content : Text
  pub mode : ℕ

-- `none` is success; a failed `write_all` has written the given number of characters.
pub record Fault : Type 0 where
  pub message : Text
  pub written : ℕ

pub record Disk : Type 0 where
  pub files : Text → Option File
  pub faults : List (Option Fault)

-- A path as its parent and its last component.
pub record FilePath : Type 0 where
  pub parent : Option Text
  pub file_name : Text

-- `Path::display`
unfoldable pub shown : FilePath → Text
shown p = elim p.parent [
  | none ↦ p.file_name
  | some dir ↦ if is_empty dir then p.file_name else dir ++ (lit "/" ++ p.file_name)
]

-- `rsplit_once('.')` of a file name
unfoldable pub rsplit_dot : Text → Option (Text × Text)
rsplit_dot [] = none
rsplit_dot (c ∷ cs) = elim (rsplit_dot cs) [
  | some (stem, ext) ↦ some (c ∷ stem, ext)
  | none ↦ if c == b'.' then some ([], cs) else none
]

unfoldable pub stem_of : Text → Option (Text × Text) → Text
stem_of name none = name
stem_of name (some (stem, ext)) = if is_empty stem then name else stem

-- `Path::file_stem`: a name whose only dot stands first has no extension.
unfoldable pub file_stem : Text → Text
unfolding rsplit_dot stem_of
file_stem name = stem_of name (rsplit_dot name)

-- `Path::with_extension`
unfoldable pub with_extension : FilePath → Text → FilePath
unfolding file_stem
with_extension p ext = record p { file_name = file_stem p.file_name ++ (b'.' ∷ ext) }

unfoldable pub put : (Text → Option File) → Text → Option File → Text → Option File
put files name f other = if equal name other then f else files other

-- Takes the next entry of the script.
unfoldable pub next_fault : List (Option Fault) → Option Fault × List (Option Fault)
next_fault [] = (none, [])
next_fault (f ∷ fs) = (f, fs)

abbrev pub Files : Type 0
Files = Text → Option File

unfoldable pub outcome : Option Fault → Result (Unit {0})
outcome none = ok tt
outcome (some f) = err f.message

unfoldable pub settle : (Files → Files) → (Fault → Files → Files) → Option Fault → Files → Files
settle done broken none files = done files
settle done broken (some f) files = broken f files

-- A call that changes the files by `done`, or by `broken` if it fails.
unfoldable pub call : (Files → Files) → (Fault → Files → Files) → Exec Disk (Unit {0})
unfolding next_fault outcome settle
call done broken d =
    let (f, rest) = next_fault d.faults in
    (outcome f, record { files = settle done broken f d.files; faults = rest })

-- A call that changes no file's content or mode.
unfoldable pub touch : Exec Disk (Unit {0})
unfolding call
touch = call (λ fs. fs) (λ _ fs. fs)

-- `create(true).truncate(true).mode(…)`: the mode is that of a new file only.
unfoldable pub opened : Option File → ℕ → File
opened none mode = record { content = []; mode = mode }
opened (some f) mode = record f { content = [] }

unfoldable pub open_truncate : Text → ℕ → Exec Disk (Unit {0})
unfolding call opened put
open_truncate name mode = call (λ fs. put fs name (some (opened (fs name) mode))) (λ _ fs. fs)

unfoldable pub take : ℕ → Text → Text
take n [] = []
take zero (c ∷ cs) = []
take (suc n) (c ∷ cs) = c ∷ take n cs

unfoldable pub append_to : Option File → Text → Option File
append_to none text = none
append_to (some f) text = some (record f { content = f.content ++ text })

unfoldable pub write_all : Text → Text → Exec Disk (Unit {0})
unfolding call append_to take put
write_all name text =
    call (λ fs. put fs name (append_to (fs name) text))
      (λ f fs. put fs name (append_to (fs name) (take f.written text)))

unfoldable pub rename : Text → Text → Exec Disk (Unit {0})
unfolding call put
rename from to = call (λ fs. put (put fs to (fs from)) from none) (λ _ fs. fs)

-- The error of a read: the kind `NotFound`, or another one.
pub data Read : Type 0 where
  content : Text → Read
  not_found : Read
  failed : Text → Read

unfoldable pub read_file : Option File → Read
read_file none = not_found
read_file (some f) = content f.content

unfoldable pub read_outcome : Option Fault → Option File → Read
read_outcome none f = read_file f
read_outcome (some e) f = failed e.message

unfoldable pub read_to_string : Text → Exec Disk Read
unfolding next_fault read_outcome read_file
read_to_string name d =
    let (f, rest) = next_fault d.faults in
    (ok (read_outcome f (d.files name)), record d { faults = rest })
