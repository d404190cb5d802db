-- ===== src/Ui.antt =====
-- The commands of ui/src-tauri/src/lib.rs: each unwraps the daemon's response into the payload that
-- the window asks for.
pub mod Agreement
pub mod Tray
use wirefinder.Prelude.{Option, none, some, List}
use wirefinder.Text.{Text, lit}
use wirefinder.Result.{Result, ok, err, ◌>>=◌}
use wirefinder.Proto.{Request, Response, ServerSpec, ServerInfo, ServerDetail, InterfaceStatus}

abbrev pub unexpected : Text
unexpected = lit "unexpected response from daemon"

unfoldable pub want_servers : Response → Result (List ServerInfo)
want_servers (Response.servers s) = ok s
want_servers (Response.error e) = err e
want_servers _ = err unexpected

unfoldable pub want_detail : Response → Result ServerDetail
want_detail (Response.server_detail d) = ok d
want_detail (Response.error e) = err e
want_detail _ = err unexpected

unfoldable pub want_status : Response → Result (Option InterfaceStatus)
want_status (Response.status s) = ok (some s)
want_status Response.disconnected = ok none
want_status (Response.error e) = err e
want_status _ = err unexpected

unfoldable pub want_disconnected : Response → Result (Unit {0})
want_disconnected Response.disconnected = ok tt
want_disconnected (Response.error e) = err e
want_disconnected _ = err unexpected

unfoldable pub want_switched : Response → Result Text
want_switched (Response.switched name) = ok name
want_switched (Response.error e) = err e
want_switched _ = err unexpected

-- `ask` is `request`.
module _ (ask : Request → Result Response) where
  unfoldable pub add_server : ServerSpec → Result (List ServerInfo)
  add_server server = ask (Request.add_server server) >>= want_servers

  unfoldable pub edit_server : ServerSpec → Result (List ServerInfo)
  edit_server server = ask (Request.edit_server server) >>= want_servers

  unfoldable pub get_server : Text → Result ServerDetail
  get_server name = ask (Request.get_server name) >>= want_detail

  unfoldable pub import_server : Text → Text → Result (List ServerInfo)
  import_server name conf = ask (Request.import_server name conf) >>= want_servers

  unfoldable pub remove_server : Text → Result (List ServerInfo)
  remove_server name = ask (Request.remove_server name) >>= want_servers

  unfoldable pub list_servers : Option Text → Result (List ServerInfo)
  list_servers query = ask (Request.list_servers query) >>= want_servers

  unfoldable pub status : Result (Option InterfaceStatus)
  status = ask Request.status >>= want_status

  unfoldable pub disconnect : Result (Unit {0})
  disconnect = ask Request.disconnect >>= want_disconnected

  unfoldable pub switch_server : Text → Result Text
  switch_server name = ask (Request.switch_server name) >>= want_switched
