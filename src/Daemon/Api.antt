-- ===== src/Daemon/Api.antt =====
-- internal/daemon/api.go, and the methods of controller.go that its handlers call. What decoding a body
-- gives is part of the request; a session id is a number, 0 for the empty string.
use herd.Common.{
  ℕ, Bool, true, false, not, List, [], ◌++◌, Option, none, some, ◌⊎◌, inl, inr, if◌then◌else◌, ◌==◌,
}
use herd.Common.Text.{Text, codes, is_empty}
use herd.Common.Split.{has_prefix, trim_prefix}
use herd.Pool.State.{Pool, Worker}
use herd.Lifecycle.Defs.{SessionState, Reason, requested, update_heartbeat, list_sessions}
use herd.Vsock.Defs.{Conn, Peer, Dialed, dial_firecracker, close}
use herd.Daemon.Defs.{
  Controller, CreateRequest, CreateResponse, Failure, Backend, create_session, delete_session,
}

-- "api_requested"
abbrev pub api_requested : Reason
api_requested = requested 1

-- What the handlers use besides: `Pool.GetSession`, the contents of the log file of a worker if it has
-- an id and the file opens, `WarmImage` of the factory if it has one, and how a worker is reached.
pub record ApiBackend : Type 0 where
  pub calls : Backend
  pub get_session : ℕ → Pool → Option Worker
  pub log_of : Worker → Option Text
  pub warmer : Option (ℕ → Bool)
  pub vsock_path : Worker → Option Text
  pub address : Worker → Text

-- The body of a request to create a session: missing, not JSON, or decoded.
pub data CreateBody : Type 0 where
  no_body bad_json : CreateBody
  decoded : CreateRequest → CreateBody

pub data Request : Type 0 where
  health list : Request
  warm_image : Option ℕ → Request
  create : CreateBody → Request
  delete logs heartbeat : ℕ → Request

pub data Body : Type 0 where
  nothing error_text : Body
  plain : Text → Body
  created : CreateResponse → Body
  sessions : List SessionState → Body

pub record Response : Type 0 where
  pub status : ℕ
  pub body : Body

abbrev pub answer : ℕ → Body → Response
answer status body = record { status = status; body = body }

-- `http.Error`
abbrev pub http_error : ℕ → Response
http_error status = answer status error_text

module _ (b : ApiBackend) where
  -- `Controller.WarmImage`
  unfoldable pub controller_warm_image : ℕ → Bool
  controller_warm_image image = elim (b.warmer) [ none ↦ false | some warm ↦ warm image ]

  unfoldable pub handle_warm_image : Option ℕ → Response
  handle_warm_image none = http_error 400
  handle_warm_image (some image) =
      if image == 0
      then http_error 400
      else if controller_warm_image image
      then answer 200 nothing
      else http_error 500

  -- `Controller.GetLogs`
  unfoldable pub get_logs : ℕ → Controller → Option Text
  get_logs s c = elim (b.get_session s c.pool) [ none ↦ none | some w ↦ b.log_of w ]

  unfoldable pub handle_logs_session : ℕ → Controller → Response
  handle_logs_session s c =
      if s == 0
      then http_error 400
      else elim (get_logs s c) [ none ↦ http_error 404 | some text ↦ answer 200 (plain text) ]

  unfoldable pub handle_heartbeat : ℕ → ℕ → Controller → Controller × Response
  handle_heartbeat now s c =
      if s == 0
      then (c, http_error 400)
      else (record c { leases = update_heartbeat now s c.leases }, answer 200 nothing)

  abbrev pub respond : Controller × (Failure ⊎ CreateResponse) → Controller × Response
  respond (c, inl x) = (c, http_error 500)
  respond (c, inr resp) = (c, answer 200 (created resp))

  unfoldable pub handle_create_session : ℕ → CreateBody → Controller → Controller × Response
  handle_create_session now no_body c = (c, http_error 400)
  handle_create_session now bad_json c = (c, http_error 400)
  handle_create_session now (decoded req) c =
      if req.tenant.image == 0
      then (c, http_error 400)
      else respond (create_session b.calls now c req)

  unfoldable pub handle_delete_session : ℕ → Controller → Controller × Response
  handle_delete_session s c =
      if s == 0
      then (c, http_error 400)
      else let (c', e) = delete_session b.calls c s api_requested in
        elim e [ none ↦ (c', answer 200 nothing) | some x ↦ (c', http_error 500) ]

  unfoldable pub handle_list_sessions : Controller → Response
  handle_list_sessions c = answer 200 (sessions (list_sessions c.leases))

  -- The handler that `NewControlPlaneHandler` registers for each pattern but that of exec; `now` is the
  -- time.
  unfoldable pub handle : ℕ → Request → Controller → Controller × Response
  handle now health c = (c, answer 200 (plain (codes "OK")))
  handle now list c = (c, handle_list_sessions c)
  handle now (warm_image image) c = (c, handle_warm_image image)
  handle now (create body) c = handle_create_session now body c
  handle now (delete s) c = handle_delete_session s c
  handle now (logs s) c = (c, handle_logs_session s c)
  handle now (heartbeat s) c = handle_heartbeat now s c

  -- The path of the socket of a worker: its own, or the rest of an address with unix://.
  unfoldable pub socket_path : Worker → Option Text
  socket_path w = elim (b.vsock_path w) [
    | some path ↦ some path
    | none ↦
        if has_prefix (codes "unix://") (b.address w)
        then some (trim_prefix (codes "unix://") (b.address w))
        else none
  ]

-- What exec meets: whether the server can hijack and does, whether the upgrade header is written and
-- flushed, and the machine behind the socket.
pub record ExecEnv : Type 0 where
  pub can_hijack : Bool
  pub hijacked : Bool
  pub written : Bool
  pub flushed : Bool
  pub guest : Text → Peer

-- The client's connection after a hijack, and that to the guest.
pub record Upgraded : Type 0 where
  pub sent : Text
  pub is_open : Bool
  pub guest_conn : Option Conn

pub data ExecOutcome : Type 0 where
  refused : ℕ → ExecOutcome
  upgraded : Upgraded → ExecOutcome

abbrev pub upgrade_header : Text
upgrade_header =
    codes "HTTP/1.1 101 Switching Protocols\r\nConnection: Upgrade\r\nUpgrade: herd-exec\r\n\r\n"

-- The deferred `Close` of the connection.
abbrev pub close_client : Upgraded → ExecOutcome
close_client u = upgraded (record u { is_open = false })

abbrev pub close_guest : Option Conn → Option Conn
close_guest none = none
close_guest (some c) = some (close c)

-- After the dial of the guest's port 5001; the message of a failed dial is left open in its wording.
unfoldable pub after_dial : Text → Dialed → ExecOutcome
after_dial message (conn, e) =
    let u : Upgraded = record { sent = upgrade_header; is_open = true; guest_conn = conn } in
    elim e [
      | some x ↦ close_client (record u { sent = upgrade_header ++ message })
      | none ↦ close_client (record u { guest_conn = close_guest conn })
    ]

-- From the header on.
unfoldable pub exec_stream : Text → ExecEnv → Text → ExecOutcome
exec_stream message env path =
    let u : Upgraded = record { sent = []; is_open = true; guest_conn = none } in
    if not env.written
    then close_client u
    else if not env.flushed
    then close_client (record u { sent = upgrade_header })
    else after_dial message (dial_firecracker (env.guest path) 5001)

-- Once the worker is found and its socket looked for.
unfoldable pub exec_at : Text → ExecEnv → Option Text → ExecOutcome
exec_at message env none = refused 400
exec_at message env (some path) =
    if is_empty path
    then refused 400
    else if not env.can_hijack
    then refused 500
    else if not env.hijacked
    then refused 500
    else exec_stream message env path

unfoldable pub handle_exec_session : ApiBackend → Text → ExecEnv → ℕ → Controller → ExecOutcome
handle_exec_session b message env s c =
    if s == 0 then refused 400 else elim (b.get_session s c.pool) [
      | none ↦ refused 404
      | some w ↦ exec_at message env (socket_path b w)
    ]
