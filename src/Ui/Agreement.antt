-- ===== src/Ui/Agreement.antt =====
-- The window's commands and the daemon agree on the kind of every response.
use wirefinder.Prelude.{◌≡◌, refl, List, none, some, ◌⊎◌, inl, inr}
use wirefinder.Text.{Text}
use wirefinder.Result.{Result, ok, err}
use wirefinder.External.{External}
use wirefinder.Proto.{Request, Response, ServerInfo, InterfaceStatus}
use wirefinder.Ui
use wirefinder.Ui.{want_servers, want_detail, want_status, want_disconnected, want_switched}
use wirefinder.Config.Store.{Codec}
use wirefinder.Config.Store.Fs.{FilePath}
use wirefinder.Wireguard.{Wireguard}
use wirefinder.Daemon.State.{Moment, Daemon}
use wirefinder.Daemon.Servers.{get_server}
use wirefinder.Daemon.Status.{read_status}
use wirefinder.Daemon.Handle.{
  handle, switch_server, disconnect, then_list, respond, reply, status_response,
}

-- A command returns a payload, or the daemon's error; it does not find the response unexpected.
abbrev pub IsUnwrapped : {A : Type 0} → (A → Type 0) → Response → Result A → Type 0
IsUnwrapped {A} P answer got =
    ((a : A) × P a × (got ≡ ok a)) ⊎ ((e : Text) × (answer ≡ Response.error e) × (got ≡ err e))

abbrev asked : (Request → Response) → Request → Result Response
asked answer req = ok (answer req)

-- The command of the window for a request, over what answers it; a switch returns the name that was
-- asked for.
abbrev pub IsExpected : (Request → Response) → Request → Type 0
IsExpected answer Request.status =
    IsUnwrapped (λ _. Unit) (answer Request.status) (Ui.status (asked answer))
IsExpected answer (Request.list_servers query) =
    IsUnwrapped (λ _. Unit) (answer (Request.list_servers query))
      (Ui.list_servers (asked answer) query)
IsExpected answer (Request.get_server name) =
    IsUnwrapped (λ _. Unit) (answer (Request.get_server name)) (Ui.get_server (asked answer) name)
IsExpected answer (Request.add_server spec) =
    IsUnwrapped (λ _. Unit) (answer (Request.add_server spec)) (Ui.add_server (asked answer) spec)
IsExpected answer (Request.edit_server spec) =
    IsUnwrapped (λ _. Unit) (answer (Request.edit_server spec)) (Ui.edit_server (asked answer) spec)
IsExpected answer (Request.import_server name conf) =
    IsUnwrapped (λ _. Unit) (answer (Request.import_server name conf))
      (Ui.import_server (asked answer) name conf)
IsExpected answer (Request.remove_server name) =
    IsUnwrapped (λ _. Unit) (answer (Request.remove_server name))
      (Ui.remove_server (asked answer) name)
IsExpected answer (Request.switch_server name) =
    IsUnwrapped (λ got. got ≡ name) (answer (Request.switch_server name))
      (Ui.switch_server (asked answer) name)
IsExpected answer Request.disconnect =
    IsUnwrapped (λ _. Unit) (answer Request.disconnect) (Ui.disconnect (asked answer))

-- What a command makes of a response.
abbrev Fine : {A : Type 0} → (A → Type 0) → (Response → Result A) → Response → Type 0
Fine P want r = IsUnwrapped P r (want r)

module _ {A : Type 0} (P : A → Type 0) (want : Response → Result A)
    (bad : (e : Text) → want (Response.error e) ≡ err e) where
  refusal : (e : Text) → Fine P want (Response.error e)
  refusal e = inr (e, refl, bad e)

  then_list-Fine :
      (x : External) {S : Type 0} (wg : Wireguard S) (m : Moment) (r : Result (Unit {0}) × Daemon S)
      → ((s : List ServerInfo) → Fine P want (Response.servers s))
      → Fine P want (then_list x wg m r).0
  then_list-Fine x wg m (ok _, d) good = good _
  then_list-Fine x wg m (err e, d) good = refusal e

  respond-Fine :
      {S B : Type 0} (f : B → Response) (r : Result B × S)
      → ((b : B) → Fine P want (f b))
      → Fine P want (respond f r).0
  respond-Fine f (ok b, d) good = good b
  respond-Fine f (err e, d) good = refusal e

  reply-Fine :
      {B : Type 0} (f : B → Response) (r : Result B)
      → ((b : B) → Fine P want (f b))
      → Fine P want (reply f r)
  reply-Fine f (ok b) good = good b
  reply-Fine f (err e) good = refusal e

servers-Fine : (s : List ServerInfo) → Fine (λ _. Unit) want_servers (Response.servers s)
unfolding want_servers
servers-Fine s = inl (s, tt, refl)

listed-Fine :
    (x : External) {S : Type 0} (wg : Wireguard S) (m : Moment) (r : Result (Unit {0}) × Daemon S)
    → Fine (λ _. Unit) want_servers (then_list x wg m r).0
unfolding want_servers
listed-Fine x wg m r = then_list-Fine (λ _. Unit) want_servers (λ e. refl) x wg m r servers-Fine

status_response-Fine :
    {S : Type 0} (r : Result InterfaceStatus × S)
    → Fine (λ _. Unit) want_status (status_response r).0
unfolding want_status
status_response-Fine (ok live, d) = inl (some live, tt, refl)
status_response-Fine (err e, d) = inl (none, tt, refl)

-- Over a daemon in any state, the window's command for a request returns a payload, or the error that
-- the daemon answered; it never finds the response unexpected, and a switch returns the name that was
-- asked for.
pub handle-IsExpected :
    (x : External) (codec : Codec) (path : FilePath) {S : Type 0} (wg : Wireguard S) (m : Moment)
    (req : Request) (d : Daemon S)
    → IsExpected (λ q. (handle x codec path wg m q d).0) req
unfolding handle Ui.status Ui.list_servers Ui.get_server Ui.add_server Ui.edit_server
    Ui.import_server Ui.remove_server Ui.switch_server Ui.disconnect want_detail want_switched
    want_disconnected
handle-IsExpected x codec path wg m Request.status d = status_response-Fine (read_status wg m d)
handle-IsExpected x codec path wg m (Request.list_servers q) d = servers-Fine _
handle-IsExpected x codec path wg m (Request.get_server name) d =
    reply-Fine (λ _. Unit) want_detail (λ e. refl) Response.server_detail (get_server name d.cfg)
      λ shown. inl (shown, tt, refl)
handle-IsExpected x codec path wg m (Request.add_server spec) d = listed-Fine x wg m _
handle-IsExpected x codec path wg m (Request.edit_server spec) d = listed-Fine x wg m _
handle-IsExpected x codec path wg m (Request.import_server name conf) d = listed-Fine x wg m _
handle-IsExpected x codec path wg m (Request.remove_server name) d = listed-Fine x wg m _
handle-IsExpected x codec path wg m (Request.switch_server name) d =
    respond-Fine (λ got. got ≡ name) want_switched (λ e. refl) (λ _. Response.switched name)
      (switch_server x codec path wg m name d) λ _. inl (name, refl, refl)
handle-IsExpected x codec path wg m Request.disconnect d =
    respond-Fine (λ _. Unit) want_disconnected (λ e. refl) (λ _. Response.disconnected)
      (disconnect wg d) λ _. inl (tt, tt, refl)
