-- ===== src/Daemon/Handlers.antt =====
-- What the handlers of the control plane answer and leave behind.
use herd.Common.{
  ◌∙◌, ℕ, ◌≡◌, refl, inl, inr, ◌⊎◌, Bool, true, false, not, Bool-cases, Option-cases, Option, none,
  some, if◌then◌else◌, ◌==◌, ◌&&◌, leb, ltb, lookup, if_same, arith,
}
use herd.Common.Text.{Text, is_empty}
use herd.Pool.State.{Worker}
use herd.Lifecycle.Defs.{SessionState}
use herd.Vsock.Defs.{Dialed, dial_firecracker}
use herd.Vsock.Handshake.{IsClean, dial_firecracker-IsClean}
use herd.Daemon.Defs.{Controller, CreateRequest, CreateResponse, Failure, create_session, or_nil}
use herd.Daemon.Sessions.{new_lease, create_session-leases, delete_session-leases}
use herd.Daemon.Api.{
  ApiBackend, no_body, bad_json, decoded, Request, health, list, warm_image, create, delete, logs,
  heartbeat, created, Response, answer, api_requested, handle_heartbeat, respond,
  handle_create_session, handle_delete_session, handle, socket_path, ExecEnv, ExecOutcome, refused,
  upgraded, exec_stream, handle_exec_session, exec_at, after_dial,
}

abbrev pub is_client_error : Response → Bool
is_client_error r = leb 400 r.status && ltb r.status 500

module _ (b : ApiBackend) where
  respond_server_error :
      (r : Controller × (Failure ⊎ CreateResponse)) → is_client_error (respond b r).1 ≡ false
  respond_server_error (c, inl x) = refl
  respond_server_error (c, inr resp) = refl

  create-refused :
      (now : ℕ) (req : CreateRequest) (c : Controller)
      → let r = handle_create_session b now (decoded req) c in is_client_error r.1 ≡ true → r.0 ≡ c
  unfolding handle_create_session
  create-refused now req c h = elim (Bool-cases (req.tenant.image == 0)) [
    | inl e ↦ ground arith
    | inr e ↦ absurd (ground (arith, respond_server_error (create_session b.calls now c req)))
  ]

  delete-refused :
      (s : ℕ) (c : Controller)
      → let r = handle_delete_session b s c in is_client_error r.1 ≡ true → r.0 ≡ c
  unfolding handle_delete_session
  delete-refused s c h = ground arith

  heartbeat-refused :
      (now s : ℕ) (c : Controller)
      → let r = handle_heartbeat b now s c in is_client_error r.1 ≡ true → r.0 ≡ c
  unfolding handle_heartbeat
  heartbeat-refused now s c h = ground arith

  -- A request that is answered with a status of the 400s leaves the controller as it was: its pool,
  -- its leases and its counters.
  pub handle-refused :
      (now : ℕ) (r : Request) (c : Controller)
      → is_client_error (handle b now r c).1 ≡ true
      → (handle b now r c).0 ≡ c
  unfolding handle
  handle-refused now health c h = refl
  handle-refused now list c h = refl
  handle-refused now (warm_image image) c h = refl
  handle-refused now (create no_body) c h = unfold handle_create_session in refl
  handle-refused now (create bad_json) c h = unfold handle_create_session in refl
  handle-refused now (create (decoded req)) c h = create-refused now req c h
  handle-refused now (delete s) c h = delete-refused s c h
  handle-refused now (logs s) c h = refl
  handle-refused now (heartbeat s) c h = heartbeat-refused now s c h

  create-answered :
      (now : ℕ) (c : Controller) (req : CreateRequest) (resp : CreateResponse)
      → let r = handle_create_session b now (decoded req) c in
        r.1 ≡ answer 200 (created resp) → create_session b.calls now c req ≡ (r.0, inr resp)
  unfolding handle_create_session
  create-answered now c req resp h = ground arith

  created_lease :
      (now : ℕ) (c d : Controller) (req : CreateRequest) (resp : CreateResponse)
      → create_session b.calls now c req ≡ (d, inr resp)
      → (w : Worker) × (lookup resp.session d.leases
          ≡ some (new_lease b.calls now req.tenant (or_nil b.calls (b.calls.port_mappings w))))
  created_lease now c d req resp h =
      let (w, _, e, _) = create_session-leases b.calls now resp.session c d req resp h in
      (w, e ∙ if_same resp.session _ _)

  deleted_lease :
      (s : ℕ) (c : Controller)
      → let r = handle_delete_session b s c in
        is_client_error r.1 ≡ false → lookup s r.0.leases ≡ none
  unfolding handle_delete_session
  deleted_lease s c h = ground (
    arith,
    if_same {A = Option SessionState} s none (lookup s c.leases),
    (delete_session-leases b.calls s s c api_requested).0,
  )

  -- Where a request to create a session is answered with 200, the session of the answer has a lease
  -- that starts now; where one to delete a session is not refused with a status of the 400s, that
  -- session has none, even if its machine could not be killed.
  pub handle-leases :
      (now : ℕ) (c : Controller) (req : CreateRequest) (resp : CreateResponse) (s : ℕ)
      → let made = handle b now (create (decoded req)) c in
        let gone = handle b now (delete s) c in
        (made.1 ≡ answer 200 (created resp)
          → (w : Worker) × (lookup resp.session made.0.leases
              ≡ some (new_lease b.calls now req.tenant (or_nil b.calls (b.calls.port_mappings w)))))
        × (is_client_error gone.1 ≡ false → lookup s gone.0.leases ≡ none)
  unfolding handle
  handle-leases now c req resp s =
      (λ h. created_lease now c _ req resp (create-answered now c req resp h), deleted_lease s c)

-- Behind a hijack nothing is left open, neither the client's connection nor one to the guest.
abbrev pub AllClosed : ExecOutcome → Type 0
AllClosed (refused status) = leb 400 status ≡ true
AllClosed (upgraded u) =
    (u.is_open ≡ false) × (elim u.guest_conn [ none ↦ Unit | some c ↦ c.is_open ≡ false ])

dialed-AllClosed :
    (message : Text) (d : Dialed) (port : ℕ) → IsClean port d → AllClosed (after_dial message d)
unfolding after_dial
dialed-AllClosed message (none, none) port h = absurd h
dialed-AllClosed message (none, some e) port h = (refl, tt)
dialed-AllClosed message (some c, none) port h = (refl, refl)
dialed-AllClosed message (some c, some e) port h = (refl, h)

exec_stream-AllClosed :
    (message : Text) (env : ExecEnv) (path : Text) → AllClosed (exec_stream message env path)
unfolding exec_stream
exec_stream-AllClosed message env path = elim (Bool-cases env.written) [
  | inr w ↦ rw w (refl, tt)
  | inl w ↦ elim (Bool-cases env.flushed) [
    | inr f ↦ rw (w, f) (refl, tt)
    | inl f ↦
        rw (w, f)
          (dialed-AllClosed message (dial_firecracker (env.guest path) 5001) 5001
            (dial_firecracker-IsClean (env.guest path) 5001))
  ]
]

if-AllClosed :
    (e : Bool) (status : ℕ) (x : ExecOutcome)
    → leb 400 status ≡ true
    → AllClosed x
    → AllClosed (if e then refused status else x)
if-AllClosed true status x h k = h
if-AllClosed false status x h k = k

exec_at-AllClosed :
    (message : Text) (env : ExecEnv) (path : Option Text) → AllClosed (exec_at message env path)
unfolding exec_at
exec_at-AllClosed message env none = refl
exec_at-AllClosed message env (some path) = if-AllClosed (is_empty path) 400 _ refl (
    if-AllClosed (not env.can_hijack) 500 _ refl
      (if-AllClosed (not env.hijacked) 500 _ refl (exec_stream-AllClosed message env path)))

-- However the exec of a session ends, the answer is an error or both connections are closed: the
-- client's, and that to the guest if there was one.
pub handle_exec_session-AllClosed :
    (b : ApiBackend) (message : Text) (env : ExecEnv) (s : ℕ) (c : Controller)
    → AllClosed (handle_exec_session b message env s c)
unfolding handle_exec_session
handle_exec_session-AllClosed b message env s c =
    if-AllClosed (s == 0) 400 _ refl (elim (Option-cases (b.get_session s c.pool)) [
      | inl e ↦ rw e refl
      | inr (w, e) ↦ rw e (exec_at-AllClosed message env (socket_path b w))
    ])
