-- ===== src/Handlers/Plumbing.antt =====
-- The request plumbing of `deviceAuth`: the gate, the body, the limits, the bot check and the
-- presented device.
pub mod Gate
pub mod Unseen
use Prim.Native.String.{◌++◌}
use workers_auth.Prelude.{
  ℕ, ◌+◌, ◌*◌, String, Bool, true, false, ◌&&◌, not, Option, none, some, ltb, leb, min, is_some,
  is_none, if◌then◌else◌, ◌==◌,
}
use workers_auth.Crypto.{sha256_hex, verify_secret_hash}
use workers_auth.Ip.{ip_rate_limit_key}
use workers_auth.Csrf.{given, CsrfResult, verify_csrf, ok, failed}
use workers_auth.Limits.{hit_rate_limit}
use workers_auth.Devices.{DeviceRecord, find_device, create_device}
use workers_auth.Sessions.{Session}
use workers_auth.Web.{
  World, M, Exit, value, stop, thrown, ◌>>=◌, ◌>>◌, pure, stop_with, throw, gets, on_limits, emit,
  set_cookie, when, Event, SetCookie, User, Reply, seconds_until, PublicDevice,
}
use workers_auth.Request.{
  Request, Fields, JsonBody, read, too_large, read_json, device_token, looks_like_email,
}
use workers_auth.Handlers.{Settings, Fresh, Transport, cookie, response, BotCheckAction}
use workers_auth.Handlers.Session.{read_cookie_session, read_bearer_session}

abbrev action_name : BotCheckAction → String
action_name BotCheckAction.email_start = "email_start"
action_name BotCheckAction.email_verify = "email_verify"
action_name BotCheckAction.pin_login = "pin_login"

abbrev pub public_device : DeviceRecord → PublicDevice
public_device d = record {
  device_id = d.device_id;
  idle_expires_at = d.idle_expires_at;
  absolute_expires_at = d.absolute_expires_at;
}

abbrev has_passed : Option Bool → Bool
has_passed none = false
has_passed (some b) = b

-- Whose budgets a request uses: the address's, or those of one of the address's devices.
pub record Budget : Type 0 where
  pub failures : String
  pub max_failures : ℕ
  pub send : String
  pub scope : String

module _ (s : Settings) (req : Request) (now : ℕ) where
  abbrev check_csrf : Option Session → CsrfResult → M (Option Session)
  check_csrf session ok = pure session
  check_csrf session (failed reason) = do
    emit (Event.csrf_refused reason)
    stop_with Reply.csrf_failed

  unfoldable pub gate : M (Option Session)
  gate = elim (s.transport) [
    | response ↦ read_bearer_session s now req
    | cookie ↦ do
      session ← read_cookie_session s now req
      check_csrf session
          (verify_csrf s.crypto s.parse_url s.csrf req.csrf req.csrf_cookie (is_some session) true)
  ]

  unfoldable pub body : M (Option Fields)
  body = elim (read_json req.body) [
    | too_large ↦ stop_with Reply.payload_too_large
    | read fields ↦ pure fields
  ]

  -- A refusal, with `retryAfter` the end of the window.
  abbrev pub refuse_rate : {A : Type 0} → String → (window_start window_sec : ℕ) → M A
  refuse_rate scope window_start window_sec = do
    emit (Event.limit_hit scope)
    stop_with (Reply.rate_limited (seconds_until (window_start + window_sec * 1000) now))

  unfoldable pub rate_limited :
      (bucket : String) (window_sec limit : ℕ) (scope : String) → M (Unit {0})
  rate_limited bucket window_sec limit scope = do
    hit ← on_limits (hit_rate_limit bucket (window_sec * 1000) now)
    when (ltb limit hit.count) (refuse_rate scope hit.window_start window_sec)

  abbrev limit_key : String → ℕ → String → Option String → M (Unit {0})
  limit_key action limit scope none = when s.require_client_ip (stop_with Reply.client_ip_required)
  limit_key action limit scope (some ip) =
      rate_limited (action ++ (":ip:" ++ ip_rate_limit_key ip)) 3600 limit scope

  unfoldable pub ip_limited : (action : String) (limit : ℕ) (scope : String) → M (Unit {0})
  unfolding rate_limited
  ip_limited action limit scope = limit_key action limit scope (given req.client_ip)

  -- A check that throws refuses.
  unfoldable pub bot_refused : BotCheckAction → M (Unit {0})
  bot_refused action = elim (s.bot_check) [
    | none ↦ pure tt
    | some check ↦
        when (not (has_passed (check req action)))
          (do emit (Event.bot_check_refused (action_name action)); stop_with Reply.bot_check_failed)
  ]

  unfoldable pub presented_device_token : Option String
  presented_device_token = elim (s.transport) [
    | cookie ↦ req.device_cookie
    | response ↦ req.device_header
  ]

  abbrev pub proved : String → Option DeviceRecord → Option DeviceRecord
  proved secret none = none
  proved secret (some d) =
      if verify_secret_hash s.crypto secret d.secret_hash
        && (is_none d.revoked_at && (ltb now d.idle_expires_at && ltb now d.absolute_expires_at))
      then some d
      else none

  abbrev pub device_with : Option (String × String) → World → Option DeviceRecord
  device_with none world = none
  device_with (some token) world = proved token.1 (find_device token.0 world.store.devices)

  abbrev pub token_of : Option String → Option (String × String)
  token_of none = none
  token_of (some raw) = device_token raw

  -- `readDevice`: the device whose token is presented, if it is neither revoked nor expired.
  unfoldable pub presented_device : World → Option DeviceRecord
  unfolding presented_device_token
  presented_device world = device_with (token_of presented_device_token) world

  unfoldable pub set_device_cookie : Option String → ℕ → M (Unit {0})
  set_device_cookie token expires_at = elim (s.transport) [
    | response ↦ pure tt
    | cookie ↦ elim token [
      | none ↦ pure tt
      | some t ↦ set_cookie (SetCookie.set_device t (seconds_until expires_at now))
    ]
  ]

  unfoldable pub clear_device_cookie : M (Unit {0})
  clear_device_cookie = elim (s.transport) [
    | response ↦ pure tt
    | cookie ↦ set_cookie SetCookie.clear_device
  ]

  abbrev address : Option String → Option String
  address none = none
  address (some email) = if looks_like_email email then some email else none

  unfoldable pub read_email : Option String → Option String
  read_email none = none
  read_email (some raw) = address (s.normalize_email raw)

  abbrev pub of_address : String → Option DeviceRecord → Option DeviceRecord
  of_address email none = none
  of_address email (some d) = if d.email == email then some d else none

  unfoldable pub device_of_address : String → World → Option DeviceRecord
  unfolding presented_device
  device_of_address email world = of_address email (presented_device world)

-- `checkUser`
abbrev pub is_user : Option User → Bool
is_user none = false
is_user (some user) = not (user.rate_limit_id == "")

unfoldable pub budget_for : Settings → (email_key : String) → Option DeviceRecord → Budget
budget_for s email_key none = record {
  failures = "otp-fail:" ++ email_key;
  max_failures = s.max_failures_per_email;
  send = email_key;
  scope = "email";
}
budget_for s email_key (some d) = record {
  failures = "otp-fail:device:" ++ d.device_id;
  max_failures = s.max_failures_per_device;
  send = "device:" ++ d.device_id;
  scope = "device";
}

module _ (s : Settings) (req : Request) (fresh : Fresh) (now : ℕ) where
  unfoldable new_device : User → (email : String) → Option String → DeviceRecord
  new_device user email label = record {
    device_id = fresh.device_id;
    account_id = user.id;
    email = email;
    secret_hash = sha256_hex s.crypto fresh.device_secret;
    label = label;
    created_at = now;
    last_used_at = now;
    idle_expires_at = min (now + s.device_idle_ms) (now + s.device_absolute_ms);
    absolute_expires_at = now + s.device_absolute_ms;
    revoked_at = none;
  }

  -- The store's `createDevice`; one that throws leaves the rows as they are.
  unfoldable store_device : DeviceRecord → M (Unit {0})
  store_device d world = elim (create_device d world.store.devices) [
    | none ↦ (thrown, world)
    | some devices ↦ (value tt, record world { store = record (world.store) { devices = devices } })
  ]

  abbrev new_token : String
  new_token = fresh.device_id ++ ("." ++ fresh.device_secret)

  unfoldable pub register_device :
      User → (email : String) → Option String → M (DeviceRecord × String)
  unfolding new_device store_device set_device_cookie
  register_device user email label = do
    store_device (new_device user email label)
    set_device_cookie s req now (some new_token) (new_device user email label).idle_expires_at
    emit (Event.device_registered user.id fresh.device_id)
    pure (new_device user email label, new_token)
