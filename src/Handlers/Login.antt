-- ===== src/Handlers/Login.antt =====
-- The routes `/pin`, `/pin/status` and `/pin/login` of device-auth/index.ts.
pub mod Proven
pub mod Failed
pub mod Enrol
use workers_auth.Prelude.{
  ℕ, ◌+◌, ◌-◌, String, Bool, true, false, ◌&&◌, ◌||◌, not, Option, none, some, leb, ltb, is_some,
  ◌==◌, if◌then◌else◌,
}
use mathlib.Core.Option
use workers_auth.Guards.{reserve_login_attempt, lock_account, reset_login_guard}
use workers_auth.Devices.{DeviceRecord, touch_device}
use workers_auth.Creds.{
  CredentialRow, CredentialMaterial, pin, pin_material, get_active_credential, mark_credential_used,
}
use workers_auth.Store.{ReplaceCredentialOptions, ReplaceCredentialResult, replace_credential}
use workers_auth.Sessions.{Session}
use workers_auth.Pin.{is_pin_format, is_weak_pin}
use workers_auth.Material.{CredentialVerifyResult, refused, accepted, undecodable, enroll, verify}
use workers_auth.Web.{
  World, M, ◌>>=◌, ◌>>◌, value, thrown, pure, throw, stop_with, gets, choose, on_devices, on_guards,
  on_creds, emit, when, Event, Reply, User,
}
use workers_auth.Request.{Request, Fields}
use workers_auth.Handlers.{Settings, Fresh, BotCheckAction}
use workers_auth.Handlers.Session.{mint_session, revoke_all_sessions}
use workers_auth.Handlers.Plumbing.{
  gate, body, ip_limited, bot_refused, presented_device, presented_device_token, set_device_cookie,
  is_user, public_device,
}
use workers_auth.Handlers.Email.{key_ring}

abbrev pin_field : Option Fields → Option String
pin_field none = none
pin_field (some fields) = fields.pin

abbrev well_formed : Option String → M String
well_formed none = stop_with Reply.invalid_pin_format
well_formed (some entered) =
    choose (is_pin_format entered) (pure entered) (stop_with Reply.invalid_pin_format)

-- A stop with 401 `unauthenticated` where there is no session.
abbrev pub signed_in : Option Session → M Session
signed_in none = stop_with Reply.unauthenticated
signed_in (some session) = pure session

-- `verifiedAt !== null && now - verifiedAt <= maxAge`, over integers
unfoldable pub is_fresh_email : ℕ → ℕ → Option ℕ → Bool
is_fresh_email max_age now none = false
is_fresh_email max_age now (some at) = leb now (at + max_age)

module _ (s : Settings) (req : Request) (fresh : Fresh) (now : ℕ) where
  unfoldable pub store_credential :
      CredentialRow → ReplaceCredentialOptions → M ReplaceCredentialResult
  store_credential r options world = elim (replace_credential r options world.store) [
    | none ↦ (thrown, world)
    | some (result, store) ↦ (value result, record world { store = store })
  ]

  unfoldable pub new_credential : Session → String → CredentialRow
  unfolding key_ring
  new_credential session entered = record {
    credential_id = fresh.credential_id;
    account_id = session.user_id;
    kind = pin;
    device_id = none;
    material = pin_material (enroll s.crypto s.pin_iterations (key_ring s) fresh.salt entered);
    created_at = now;
    updated_at = now;
    last_used_at = none;
    revoked_at = none;
  }

  abbrev replace_options : Session → ReplaceCredentialOptions
  replace_options session = record {
    reset_guard = true;
    revoke_other_devices =
        if s.revoke_others_on_change then some (session.auth.device_id) else none;
  }

  -- What follows the transaction.
  unfoldable pub after_replace : String → ReplaceCredentialResult → M Reply
  unfolding revoke_all_sessions
  after_replace user_id result = do
    emit (Event.pin_set user_id result.replaced)
    choose (result.replaced && s.revoke_others_on_change)
        (do
          when (ltb 0 result.devices_revoked)
              (emit (Event.device_revoked user_id none (some result.devices_revoked) "pin_changed"))
          revoke_all_sessions s now user_id "pin_changed"
          pure Reply.signed_out)
        (pure Reply.done)

  unfoldable pub set_pin : M Reply
  unfolding gate body store_credential new_credential after_replace is_fresh_email
  set_pin = do
    current ← gate s req now
    session ← signed_in current
    when (not (is_fresh_email s.fresh_ms now session.auth.email_verified_at))
        (stop_with Reply.email_verification_required)
    fields ← body s req now
    entered ← well_formed (pin_field fields)
    when (is_weak_pin s.reject_date_like entered || s.extra_weak entered) (stop_with Reply.weak_pin)
    result ← store_credential (new_credential session entered) (replace_options session)
    after_replace session.user_id result

  unfoldable pin_status : M Reply
  unfolding gate
  pin_status = do
    current ← gate s req now
    session ← signed_in current
    pin_set ← gets (λ world. is_some (get_active_credential session.user_id pin world.store.creds))
    pure (Reply.pin_status pin_set)

  abbrev base : DeviceRecord → Option (String × String)
  base d = some (d.account_id, d.device_id)

  abbrev require_email : {A : Type 0} → Event → M A
  require_email event = do emit event; stop_with Reply.email_verification_required

  abbrev with_device : Option DeviceRecord → M DeviceRecord
  with_device none = require_email (Event.pin_login_failed "device_invalid" none none)
  with_device (some d) = pure d

  abbrev with_credential : DeviceRecord → Option CredentialRow → M CredentialRow
  with_credential d none = require_email (Event.pin_login_failed "pin_not_set" (base d) none)
  with_credential d (some c) = pure c

  abbrev with_attempt : DeviceRecord → Option ℕ → M ℕ
  with_attempt d none = require_email (Event.pin_login_failed "locked" (base d) none)
  with_attempt d (some failed_count) = pure failed_count

  -- A wrong PIN: the last one allowed locks the account.
  unfoldable wrong_pin : {A : Type 0} → DeviceRecord → ℕ → M A
  wrong_pin d failed_count = do
    emit (Event.pin_login_failed "invalid_pin" (base d) (some failed_count))
    choose (leb s.pin_max_attempts failed_count)
        (do
          on_guards (λ guards. (tt, lock_account d.account_id s.pin_max_attempts now guards))
          emit (Event.pin_locked d.account_id d.device_id)
          stop_with Reply.email_verification_required)
        (stop_with (Reply.invalid_pin (s.pin_max_attempts - failed_count)))

  abbrev with_verdict : DeviceRecord → ℕ → CredentialVerifyResult → M (Option CredentialMaterial)
  with_verdict d failed_count refused = wrong_pin d failed_count
  with_verdict d failed_count undecodable = throw
  with_verdict d failed_count (accepted upgraded) = pure (Option.map pin_material upgraded)

  abbrev with_user : DeviceRecord → Option (Option User) → M User
  with_user d none = throw
  with_user d (some none) = require_email (Event.pin_login_failed "user_unresolved" (base d) none)
  with_user d (some (some user)) =
      choose (is_user (some user) && user.id == d.account_id) (pure user)
        (require_email (Event.pin_login_failed "user_unresolved" (base d) none))

  abbrev with_idle : DeviceRecord → Option ℕ → M ℕ
  with_idle d none = require_email (Event.pin_login_failed "device_invalid" (base d) none)
  with_idle d (some idle) = pure idle

  -- The attempt: reserved before the PIN is looked at, then the verdict.
  unfoldable pub try_pin : String → DeviceRecord → CredentialRow → M (Option CredentialMaterial)
  unfolding key_ring wrong_pin
  try_pin entered d c = do
    reserved ← on_guards (reserve_login_attempt d.account_id s.pin_max_attempts now)
    failed_count ← with_attempt d reserved
    with_verdict d failed_count
        (verify s.crypto s.pin_iterations (key_ring s) fresh.salt entered c.material)

  -- The cookie, the session and the reply of a login. The session has no `emailVerifiedAt`.
  unfoldable pub finish_login : DeviceRecord → User → ℕ → M Reply
  unfolding mint_session set_device_cookie presented_device_token
  finish_login d user idle = do
    set_device_cookie s req now (presented_device_token s req now) idle
    grant ←
        mint_session s fresh now req user
          (record { email_verified_at = none; device_id = some d.device_id })
    emit (Event.pin_login_succeeded d.account_id d.device_id)
    pure (
        Reply.logged_in user
          (public_device (record d { last_used_at = now; idle_expires_at = idle })) grant)

  -- What follows a correct PIN.
  unfoldable pub log_in : DeviceRecord → CredentialRow → Option CredentialMaterial → M Reply
  unfolding finish_login
  log_in d c upgraded = do
    before ← on_guards (reset_login_guard d.account_id now)
    on_creds (mark_credential_used c.credential_id now upgraded)
    resolved ← with_user d (s.resolve_user d.email)
    touched ← on_devices (touch_device d.device_id now (now + s.device_idle_ms))
    idle ← with_idle d touched
    finish_login d (record resolved { provider = some "device-pin" }) idle

  -- `/pin/login` after the body, the bot check and the address limit.
  unfoldable pub login_on_device : String → M Reply
  unfolding presented_device try_pin log_in
  login_on_device entered = do
    presented ← gets (presented_device s req now)
    d ← with_device presented
    active ← gets (λ world. get_active_credential d.account_id pin world.store.creds)
    c ← with_credential d active
    upgraded ← try_pin entered d c
    log_in d c upgraded

  unfoldable pin_login : M Reply
  unfolding gate body bot_refused ip_limited login_on_device
  pin_login = do
    session ← gate s req now
    fields ← body s req now
    entered ← well_formed (pin_field fields)
    bot_refused s req now BotCheckAction.pin_login
    ip_limited s req now "pin-login" s.pin_logins_per_ip "pin_login_ip"
    login_on_device entered
