-- ===== src/Ui/Tray.antt =====
-- The tray and the window of ui/src-tauri/src/lib.rs: `set_tray_summary`, `show_main`, and the
-- handlers that `run` registers. The handles of the framework are an interface.
pub mod Events
use wirefinder.Prelude.{ℕ, Bool, true, false, List, [], ◌∷◌, if◌then◌else◌}
use wirefinder.Text.{Text, lit, equal}
use wirefinder.Result.{Result}
use wirefinder.Exec.{Exec, pure, attempt, ◌>>=◌, ◌>>◌}

-- `AppHandle`, by what the source calls. A tray icon and a window are looked up by name; the menu's
-- header is the item that `TrayStatus` keeps.
pub record App (S : Type 0) : Type 0 where
  pub has_tray : Text → S → Bool
  pub has_window : Text → S → Bool
  pub set_tooltip : Text → Text → Exec S (Unit {0})
  pub set_header : Text → Exec S (Unit {0})
  pub unminimize : Text → Exec S (Unit {0})
  pub show : Text → Exec S (Unit {0})
  pub set_focus : Text → Exec S (Unit {0})
  pub exit : ℕ → S → S

abbrev pub main_label : Text
main_label = lit "main"

-- An item of the tray's menu: its id, its text, and whether it can be chosen.
pub data MenuEntry : Type 0 where
  item : Text → Text → Bool → MenuEntry
  separator : MenuEntry

abbrev pub menu_entries : List MenuEntry
menu_entries =
    item (lit "status") (lit "Wirefinder — starting…") false
    ∷ separator
    ∷ item (lit "show") (lit "Show Wirefinder") true
    ∷ item (lit "quit") (lit "Quit") true
    ∷ []

pub data MouseButton : Type 0 where
  left : MouseButton
  right : MouseButton
  middle : MouseButton

pub data ButtonState : Type 0 where
  up : ButtonState
  down : ButtonState

-- What reaches the handlers: a second launch, a choice of the menu, a click on the tray icon, or any
-- other event of it.
pub data Event : Type 0 where
  second_launch : Event
  menu : Text → Event
  click : MouseButton → ButtonState → Event
  other : Event

abbrev pub is_release : MouseButton → ButtonState → Bool
is_release MouseButton.left ButtonState.up = true
is_release _ _ = false

module _ {S : Type 0} where
  -- `if let Some(…) = …`, for a handle that is looked up
  abbrev pub if_there : Bool → Exec S (Unit {0}) → Exec S (Unit {0})
  if_there true m = m
  if_there false m = pure tt

module _ {S : Type 0} (app : App S) where
  -- An error of the tooltip is ignored.
  set_tooltip : Text → Exec S (Unit {0})
  set_tooltip summary = do attempt (app.set_tooltip main_label summary); pure tt

  unfoldable pub set_tray_summary : Text → Exec S (Unit {0})
  unfolding set_tooltip
  set_tray_summary summary = do
    (λ s. if_there (app.has_tray main_label s) (set_tooltip summary) s)
    app.set_header summary

  unfoldable pub raise_window : Exec S (Unit {0})
  raise_window = do
    attempt (app.unminimize main_label)
    attempt (app.show main_label)
    attempt (app.set_focus main_label)
    pure tt

  unfoldable pub show_main : Exec S (Unit {0})
  show_main s = if_there (app.has_window main_label s) raise_window s

  unfoldable pub on_menu : Text → S → S
  on_menu id s =
      if equal id (lit "quit")
      then app.exit 0 s
      else if equal id (lit "show")
      then (show_main s).1
      else s

  unfoldable pub on_event : Event → S → S
  on_event second_launch s = (show_main s).1
  on_event (menu id) s = on_menu id s
  on_event (click button state) s = if is_release button state then (show_main s).1 else s
  on_event other s = s

  unfoldable pub on_events : List Event → S → S
  on_events [] s = s
  on_events (e ∷ es) s = on_events es (on_event e s)
