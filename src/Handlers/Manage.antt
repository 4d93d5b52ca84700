-- ===== src/Handlers/Manage.antt =====
-- The routes that list and revoke devices and end sessions, `requireFreshEmailAuth`, and the
-- functions of the `DeviceAuth` object, of device-auth/index.ts.
pub mod Ended
use workers_auth.Prelude.{ℕ, String, Bool, Option, none, some, List, not, is_some, ltb}
use workers_auth.Crypto.{sha256_hex, fingerprint}
use workers_auth.Devices.{DeviceRecord, DeviceInfo, list_devices, revoke_device, revoke_all_devices}
use workers_auth.Creds.{pin, get_active_credential}
use workers_auth.Sessions.{Session, AuthMeta, revoke_all_for_user}
use workers_auth.Web.{
  World, M, ◌>>=◌, ◌>>◌, value, pure, stop_with, gets, choose, on_devices, on_sessions, emit, when,
  Event, Reply, User,
}
use workers_auth.Request.{Request}
use workers_auth.Handlers.{Settings}
use workers_auth.Handlers.Session.{revoke_sid, clear_session_cookies, revoke_all_sessions}
use workers_auth.Handlers.Plumbing.{gate, presented_device, clear_device_cookie}
use workers_auth.Handlers.Login.{signed_in, is_fresh_email}

abbrev user_with : Session → Option String → Option User
user_with session none = none
user_with session (some id) = some (record {
  id = session.user_id;
  subject_type = session.subject_type;
  email = session.auth.email;
  rate_limit_id = id;
  provider = session.auth.provider;
})

-- `sessionToUser`
unfoldable pub session_to_user : Session → Option User
session_to_user session = user_with session session.auth.rate_limit_id

module _ (s : Settings) (req : Request) (now : ℕ) where
  unfoldable devices_route : M Reply
  unfolding gate
  devices_route = do
    current ← gate s req now
    session ← signed_in current
    devices ← gets (λ world. list_devices session.user_id now world.store.devices)
    pure (Reply.device_list devices session.auth.device_id)

  unfoldable pub revoke_all_route : M Reply
  unfolding gate revoke_all_sessions clear_device_cookie
  revoke_all_route = do
    current ← gate s req now
    session ← signed_in current
    count ← on_devices (revoke_all_devices session.user_id now none)
    emit (Event.device_revoked session.user_id none (some count) "revoke_all")
    revoke_all_sessions s now session.user_id "revoke_all"
    clear_device_cookie s req now
    pure (Reply.revoked_all count)

  unfoldable revoke_route : (device_id : String) → M Reply
  unfolding gate
  revoke_route device_id = do
    current ← gate s req now
    session ← signed_in current
    revoked ← on_devices (revoke_device session.user_id device_id now)
    when revoked (emit (Event.device_revoked session.user_id (some device_id) none "user"))
    pure (Reply.revoked_one revoked)

  abbrev forget_presented : Option DeviceRecord → M (Unit {0})
  forget_presented none = pure tt
  forget_presented (some d) = do
    revoked ← on_devices (revoke_device d.account_id d.device_id now)
    when revoked (emit (Event.device_revoked d.account_id (some d.device_id) none "forget"))

  unfoldable forget_route : M Reply
  unfolding gate presented_device clear_device_cookie
  forget_route = do
    session ← gate s req now
    presented ← gets (presented_device s req now)
    forget_presented presented
    clear_device_cookie s req now
    pure Reply.done

  abbrev end_session : Option Session → M (Unit {0})
  end_session none = pure tt
  end_session (some session) = do
    revoke_sid s now session.sid
    emit (Event.session_revoked (fingerprint s.crypto session.sid))

  unfoldable logout_route : M Reply
  unfolding gate revoke_sid clear_session_cookies
  logout_route = do
    current ← gate s req now
    end_session current
    clear_session_cookies s now
    pure Reply.done

  abbrev with_user : Option User → M User
  with_user none = stop_with Reply.unauthenticated
  with_user (some user) = pure user

  -- The gate that an application puts before its sensitive routes.
  unfoldable require_fresh_email_auth : (max_age_ms : ℕ) → M User
  unfolding gate session_to_user is_fresh_email
  require_fresh_email_auth max_age_ms = do
    current ← gate s req now
    session ← signed_in current
    when (not (is_fresh_email max_age_ms now session.auth.email_verified_at))
        (stop_with Reply.email_verification_required)
    with_user (session_to_user session)

module _ (s : Settings) (now : ℕ) where
  unfoldable revoke_device_of : (user_id device_id : String) → M Bool
  revoke_device_of user_id device_id = do
    revoked ← on_devices (revoke_device user_id device_id now)
    when revoked (emit (Event.device_revoked user_id (some device_id) none "app"))
    pure revoked

  -- No response is at hand, so no cookie is cleared.
  unfoldable revoke_all_devices_of : (user_id : String) → M ℕ
  revoke_all_devices_of user_id = do
    count ← on_devices (revoke_all_devices user_id now none)
    emit (Event.device_revoked user_id none (some count) "app")
    on_sessions (λ t. (tt, revoke_all_for_user user_id now t))
    emit (Event.sessions_revoked_all user_id "app")
    pure count

  unfoldable has_pin : (user_id : String) → M Bool
  has_pin user_id = gets (λ world. is_some (get_active_credential user_id pin world.store.creds))
