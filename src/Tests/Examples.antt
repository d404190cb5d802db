-- ===== src/Tests/Examples.antt =====
-- The properties of the configuration and of its file at concrete inputs.
use wirefinder.Prelude.{◌≡◌, ◌⊎◌, refl, sym, ap, none, some, [], ◌∷◌}
use wirefinder.Text.{Text, lit}
use wirefinder.Result.{Result, ok, err}
use wirefinder.Exec.{pure, lift, attempt, raise, ◌>>=◌}
use wirefinder.Proto.{Request}
use wirefinder.Config.{Config}
use wirefinder.Config.Store.{save, naming, write_private, directory, create_parent, sync_parent}
use wirefinder.Config.Store.Fs.{
  Disk, rsplit_dot, stem_of, file_stem, with_extension, shown, put, next_fault, call, outcome,
  settle, touch, opened, open_truncate, take, append_to, write_all, rename,
}
use wirefinder.Config.Store.Recovery.{restart, restart-save, restart-save_either}
use wirefinder.Daemon.Invariant.{
  IsConfigured, default-IsConfigured, handle_all, handle_all-IsConfigured,
}
use wirefinder.Tests.World.{
  toy, toy_codec, state_path, toy_wg, at_noon, fresh, home_spec, two_servers, empty_disk,
}

abbrev read_back : Result Text → Result Config
read_back (ok t) = toy_codec.decode t
read_back (err e) = ok two_servers

toy_reads :
    (text : Text) → toy_codec.encode two_servers ≡ ok text → toy_codec.decode text ≡ ok two_servers
unfolding lit
toy_reads text e = ap (λ (r : Result Text). read_back r) (sym e)

saves : (save toy_codec state_path two_servers empty_disk).0 ≡ ok tt
unfolding lit pure lift attempt raise ◌>>=◌ naming write_private directory create_parent sync_parent
    save rsplit_dot stem_of file_stem with_extension shown put next_fault call outcome settle touch
    opened open_truncate take append_to write_all rename
saves = refl

restart-save_example :
    restart toy_codec state_path (save toy_codec state_path two_servers empty_disk).1.files
    ≡ ok two_servers
restart-save_example = restart-save toy_codec state_path two_servers toy_reads empty_disk saves

-- The rename fails.
abbrev faulty_disk : Disk
faulty_disk = record empty_disk {
  faults = none ∷ none ∷ none ∷ none ∷ some (record { message = lit "full"; written = 0 }) ∷ [];
}

restart-save_either_example :
    (restart toy_codec state_path (save toy_codec state_path two_servers faulty_disk).1.files
      ≡ restart toy_codec state_path faulty_disk.files)
    ⊎ (restart toy_codec state_path (save toy_codec state_path two_servers faulty_disk).1.files
        ≡ ok two_servers)
restart-save_either_example =
    restart-save_either toy_codec state_path two_servers toy_reads faulty_disk

handle_all-IsConfigured_example :
    IsConfigured toy
      (handle_all toy toy_codec state_path toy_wg
        ((at_noon, Request.add_server home_spec)
          ∷ (at_noon, Request.switch_server (lit "home"))
          ∷ [])
        fresh).cfg
handle_all-IsConfigured_example =
    handle_all-IsConfigured toy toy_codec state_path toy_wg
      ((at_noon, Request.add_server home_spec) ∷ (at_noon, Request.switch_server (lit "home")) ∷ [])
      fresh (default-IsConfigured toy)
