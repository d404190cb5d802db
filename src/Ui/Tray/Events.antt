-- ===== src/Ui/Tray/Events.antt =====
-- What the tray and the window do under any events.
use wirefinder.Prelude.{if◌then◌else◌, refl, Bool, false, List, [], ◌∷◌, ◌≡◌, inl, inr, Bool-cases}
use wirefinder.Prelude.Lists.{any}
use wirefinder.Text.{Text, lit, equal}
use wirefinder.Exec.{pure, attempt, ◌>>=◌}
use wirefinder.Exec.Keeps.{Keeps, Keeps-bind, Keeps-attempt, Keeps-pure, kept}
use wirefinder.Ui.Tray.{
  App, main_label, Event, second_launch, menu, click, other, is_release, raise_window, show_main,
  on_menu, on_event, on_events, set_tray_summary,
}

-- The event is the choice to quit.
abbrev pub is_quit : Event → Bool
is_quit (menu id) = equal id (lit "quit")
is_quit _ = false

module _ {S : Type 0} (app : App S) (running : S → Type 0) where
  -- Only an exit ends the program.
  pub record IsRunning : Type 0 where
    pub unminimize : (label : Text) → Keeps running (app.unminimize label)
    pub show : (label : Text) → Keeps running (app.show label)
    pub set_focus : (label : Text) → Keeps running (app.set_focus label)

  module _ (k : IsRunning) where
    raise_window-Keeps : Keeps running (raise_window app)
    unfolding raise_window
    raise_window-Keeps = Keeps-bind (Keeps-attempt (k.unminimize main_label)) λ _.
        Keeps-bind (Keeps-attempt (k.show main_label))
          λ _. Keeps-bind (Keeps-attempt (k.set_focus main_label)) λ _. Keeps-pure tt

    show_main_running : (s : S) → running s → running (show_main app s).1
    unfolding show_main pure
    show_main_running s h = elim (Bool-cases (app.has_window main_label s)) [
      | inl there ↦ rw there (kept raise_window-Keeps s h)
      | inr gone ↦ rw gone h
    ]

    on_menu_running :
        (id : Text) (s : S) → equal id (lit "quit") ≡ false → running s → running (on_menu app id s)
    unfolding on_menu
    on_menu_running id s stays h = elim (Bool-cases (equal id (lit "show"))) [
      | inl show ↦ rw (stays, show) (show_main_running s h)
      | inr none ↦ rw (stays, none) h
    ]

    on_event_running :
        (e : Event) (s : S) → is_quit e ≡ false → running s → running (on_event app e s)
    unfolding on_event
    on_event_running second_launch s stays h = show_main_running s h
    on_event_running (menu id) s stays h = on_menu_running id s stays h
    on_event_running (click button state) s stays h = elim (Bool-cases (is_release button state)) [
      | inl release ↦ rw release (show_main_running s h)
      | inr press ↦ rw press h
    ]
    on_event_running other s stays h = h

    -- Where only an exit ends the program: it runs on after any events none of which is the choice to
    -- quit, whatever the window does.
    pub on_events_running :
        (es : List Event) (s : S)
        → any is_quit es ≡ false
        → running s
        → running (on_events app es s)
    unfolding on_events
    on_events_running [] s stays h = h
    on_events_running (e ∷ es) s stays h = elim (Bool-cases (is_quit e)) [
      | inl quit ↦ absurd (cc (rw quit at stays))
      | inr goes_on ↦
          on_events_running es (on_event app e s) (rw goes_on at stays)
            (on_event_running e s goes_on h)
    ]

-- The summary's answer is that of the menu's header, from the state in which the tooltip, if there is
-- a tray icon, was tried: its error is dropped.
pub set_tray_summary_lem :
    {S : Type 0} (app : App S) (summary : Text) (s : S)
    → set_tray_summary app summary s
      ≡ app.set_header summary
          (if app.has_tray main_label s then (app.set_tooltip main_label summary s).1 else s)
unfolding set_tray_summary ◌>>=◌ attempt pure
set_tray_summary_lem app summary s = elim (Bool-cases (app.has_tray main_label s)) [
  | inl there ↦ rw there refl
  | inr gone ↦ rw gone refl
]
