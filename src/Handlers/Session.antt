-- ===== src/Handlers/Session.antt =====
-- Sessions as the routes read and mint them: device-auth/sessions.ts (`deviceBoundSessionStore`),
-- middleware.ts (`readCookieSession`), providers/session-bearer.ts and routes.ts
-- (`createSessionFor`).
pub mod Bound
pub mod Rotation
use workers_auth.Prelude.{
  ℕ, ◌+◌, ◌-◌, String, Bool, true, false, ◌&&◌, ◌||◌, not, Option, none, some, leb, ltb, is_none,
  is_some, if◌then◌else◌, ◌==◌,
}
use workers_auth.Crypto.{sha256_hex, fingerprint}
use workers_auth.Csrf.{given}
use workers_auth.Devices.{DeviceRecord, find_device}
use workers_auth.Sessions.{
  Session, NewSession, AuthMeta, SubjectType, get_session, create_session, revoke_session,
  revoke_all_for_user, SessionTable,
}
use workers_auth.Web.{
  World, M, Exit, value, thrown, ◌>>=◌, ◌>>◌, pure, throw, gets, on_sessions, emit, set_cookie,
  when, choose, Event, SetCookie, User, Reply, BearerGrant, seconds_until,
}
use workers_auth.Request.{Request}
use workers_auth.Handlers.{Settings, Fresh, Transport, cookie, response}

-- `live`: the session's device is there, is the account's, and is neither revoked nor expired.
unfoldable pub device_backs : ℕ → Session → Option DeviceRecord → Bool
device_backs now session none = false
device_backs now session (some d) =
    d.account_id == session.user_id
    && (is_none d.revoked_at && (ltb now d.idle_expires_at && ltb now d.absolute_expires_at))

module _ (s : Settings) (now : ℕ) where
  abbrev hash : String → String
  hash = sha256_hex s.crypto

  unfoldable pub revoke_sid : String → M (Unit {0})
  revoke_sid sid = on_sessions (λ t. (tt, revoke_session (sha256_hex s.crypto) sid t))

  abbrev pub check_device : String → Session → Option DeviceRecord → M (Option Session)
  check_device sid session device world =
      if device_backs now session device
      then (value (some session), world)
      else (revoke_sid sid >> pure none) world

  abbrev pub bound_to : String → Option Session → M (Option Session)
  bound_to sid none = pure none
  bound_to sid (some session) = elim (session.auth.device_id) [
    | none ↦ pure (some session)
    | some id ↦ do
      device ← gets (λ world. find_device id world.store.devices)
      check_device sid session device
  ]

  -- The wrapped store's `get`.
  unfoldable pub get_bound : String → M (Option Session)
  get_bound sid = do
    session ← on_sessions (get_session (sha256_hex s.crypto) sid now)
    bound_to sid session

  -- `isBearerSession(found) === bearer` and `hasRateLimitId(found)`; the store is a bound one.
  abbrev pub usable : Bool → Option Session → Option Session
  usable bearer none = none
  usable bearer (some session) =
      if (if bearer then session.auth.bearer else not session.auth.bearer)
        && is_some session.auth.rate_limit_id
      then some session
      else none

  abbrev pub read_sid : Bool → Option String → M (Option Session)
  read_sid bearer none = pure none
  read_sid bearer (some sid) = do session ← get_bound sid; pure (usable bearer session)

  unfoldable pub read_cookie_session : Request → M (Option Session)
  unfolding get_bound
  read_cookie_session req = read_sid false req.session_cookie

  unfoldable pub read_bearer_session : Request → M (Option Session)
  unfolding get_bound
  read_bearer_session req = read_sid true req.bearer_sid

-- The `meta.__auth` of a new session; an empty address is left out.
pub record InternalAuthMeta : Type 0 where
  pub email_verified_at : Option ℕ
  pub device_id : Option String

abbrev pub auth_meta : Bool → User → InternalAuthMeta → AuthMeta
auth_meta bearer user internal = record {
  email = given user.email;
  provider = user.provider;
  rate_limit_id = some user.rate_limit_id;
  bearer = bearer;
  email_verified_at = internal.email_verified_at;
  device_id = internal.device_id;
}

module _ (s : Settings) (fresh : Fresh) (now : ℕ) where
  -- A throw of the store's `create` leaves the store as it is.
  abbrev create_of : Option (Session × SessionTable) → M Session
  create_of none world = (thrown, world)
  create_of (some (session, sessions)) world = (value session, record world { sessions = sessions })

  unfoldable pub store_create : NewSession → M Session
  store_create input world =
      create_of (create_session (sha256_hex s.crypto) fresh.sid now input world.sessions) world

  abbrev rotate : Option Session → M (Unit {0})
  rotate none = pure tt
  rotate (some previous) = revoke_sid s now previous.sid

  -- `previousSession`, where the caller gives it, or else the request's.
  abbrev previous_of : Option (Option Session) → Request → M (Option Session)
  previous_of none req = read_cookie_session s now req
  previous_of (some previous) req = pure previous

  unfoldable pub create_session_for :
      Bool
      → (idle absolute : ℕ) → (given : Option (Option Session)) → Request
      → User
      → InternalAuthMeta
      → M Session
  unfolding read_cookie_session revoke_sid store_create
  create_session_for bearer idle absolute given req user internal world =
      if user.rate_limit_id == "" || (not (ltb 0 idle) || ltb absolute idle)
      then (thrown, world)
      else (do
        previous ← choose bearer (pure none) (previous_of given req)
        rotate previous
        session ← store_create (record {
          user_id = user.id;
          subject_type = user.subject_type;
          idle_ttl_sec = idle;
          absolute_ttl_sec = absolute;
          auth = auth_meta bearer user internal;
        })
        when (not bearer) (
            set_cookie (
              SetCookie.set_session session.sid fresh.csrf_token
                (seconds_until session.absolute_expires_at now)))
        emit (Event.session_created session.user_id (fingerprint s.crypto session.sid))
        pure session)
          world

  -- `mintSession`: what the response says of the session, in `response` transport.
  unfoldable pub mint_session : Request → User → InternalAuthMeta → M (Option BearerGrant)
  unfolding create_session_for
  mint_session req user internal = elim (s.transport) [
    | cookie ↦ do
      session ←
          create_session_for false s.session_idle_ttl_sec s.session_absolute_ttl_sec none req user
            internal
      pure none
    | response ↦ do
      session ← create_session_for true s.bearer_ttl_sec s.bearer_ttl_sec none req user internal
      pure (some (record { sid = session.sid; expires_at = session.absolute_expires_at }))
  ]

module _ (s : Settings) (now : ℕ) where
  unfoldable pub clear_session_cookies : M (Unit {0})
  clear_session_cookies = elim (s.transport) [
    | cookie ↦ set_cookie SetCookie.clear_session
    | response ↦ pure tt
  ]

  -- `revokeAllSessions` of a route.
  unfoldable pub revoke_all_sessions : String → String → M (Unit {0})
  unfolding clear_session_cookies
  revoke_all_sessions user_id reason = do
    on_sessions (λ t. (tt, revoke_all_for_user user_id now t))
    emit (Event.sessions_revoked_all user_id reason)
    clear_session_cookies
