-- ===== src/DeviceAuth.antt =====
-- device-auth/index.ts: the checks that `deviceAuth` makes of its options, and their defaults.
pub mod Options
pub mod Checked
use workers_auth.Prelude.{
  ℕ, ◌*◌, String, Bool, true, false, ◌&&◌, ◌||◌, not, Option, none, some, List, [], ◌∷◌, ◌++◌, eqb,
  leb, ltb, if◌then◌else◌, codes, is_some,
}
use workers_auth.Crypto.{WebCrypto}
use workers_auth.Csrf.{CsrfConfig, Url}
use workers_auth.Pin.{same_list}
use workers_auth.Sessions.{SubjectType}
use workers_auth.Web.{User}
use workers_auth.Request.{Request}
use workers_auth.Ip.Text.{trim}
use workers_auth.Cookies.{
  ResolvedCookieConfig, is_token, or_default, starts_with, host_prefix, secure_prefix,
}
use workers_auth.Auth.{Given, absent, refused, given, SessionTtls}
use workers_auth.Handlers.{Settings, Transport, Breaker, BotCheckAction}
use workers_auth.DeviceAuth.Options.{
  CircuitBreaker, DeviceAuthOptions, GivenRatio, ReadStore, bad_ratio, check, no_ratio, positive,
  ratio, ◌>>=◌,
}

abbrev pub day_sec : ℕ
day_sec = 86400

unfoldable pub all_strong : (String → Bool) → List String → Bool
all_strong is_strong [] = true
all_strong is_strong (secret ∷ secrets) = is_strong secret && all_strong is_strong secrets

unfoldable pub all_bound : List ReadStore → Bool
all_bound [] = true
all_bound (none ∷ stores) = all_bound stores
all_bound (some bound ∷ stores) = bound && all_bound stores

-- A ratio in (0, 1].
abbrev pub ratio_of : GivenRatio → Option (ℕ × ℕ)
ratio_of no_ratio = some (1, 2)
ratio_of bad_ratio = none
ratio_of (ratio num den) = if ltb 0 num && leb num den then some (num, den) else none

unfoldable pub breaker_of : Option CircuitBreaker → Option (Option Breaker)
breaker_of none = some none
breaker_of (some b) = do
  min_failures ← positive b.min_failures 0
  fraction ← ratio_of b.max_failure_ratio
  window ← positive b.window_sec 600
  some (
      some (record {
        min_failures = min_failures;
        ratio_num = fraction.0;
        ratio_den = fraction.1;
        window_sec = window;
      }))

-- The checks of `pinCredential`.
abbrev pub iterations_of : Given → Option ℕ
iterations_of absent = some 100000
iterations_of refused = none
iterations_of (given n) = if leb 1000 n && leb n 100000 then some n else none

-- The prefix of the session cookie's name.
abbrev pub cookie_prefix : ResolvedCookieConfig → List ℕ
cookie_prefix c =
    if starts_with host_prefix c.session_cookie_name
    then host_prefix
    else if starts_with secure_prefix c.session_cookie_name
    then secure_prefix
    else []

abbrev base_name_of : DeviceAuthOptions → List ℕ
base_name_of o = or_default o.device_cookie_name (codes "device")

abbrev pub device_cookie : DeviceAuthOptions → List ℕ
device_cookie o = cookie_prefix o.cookie ++ base_name_of o

-- The checks on the parts of the application.
unfoldable pub parts_fit : DeviceAuthOptions → Bool
unfolding all_strong all_bound
parts_fit o =
    o.has_auth
    && (o.atomic_store
        && (o.has_send_code
            && (o.is_strong o.secret
                && (all_strong o.is_strong o.previous_secrets
                    && (o.bound_store && (o.can_revoke_all_for_user && all_bound o.read_stores))))))

-- The checks on the name of the device cookie.
unfoldable pub name_fits : DeviceAuthOptions → Bool
name_fits o =
    is_token (base_name_of o)
    && (not (same_list (device_cookie o) o.cookie.session_cookie_name)
        && not (same_list (device_cookie o) o.cookie.csrf_cookie_name))

abbrev default_user : String → Option (Option User)
default_user email = some (
    some (record {
      id = email;
      subject_type = SubjectType.user;
      email = some email;
      rate_limit_id = email;
      provider = none;
    }))

-- In milliseconds: the idle and the absolute end of a device.
unfoldable pub device_ttls : DeviceAuthOptions → Option (ℕ × ℕ)
device_ttls o = do
  idle ← positive o.device_idle_ttl_sec (90 * day_sec)
  absolute ← positive o.device_absolute_ttl_sec (365 * day_sec)
  if ltb (absolute * 1000) (idle * 1000) then none else some (idle * 1000, absolute * 1000)

pub record CodeLimits : Type 0 where
  pub ttl_ms : ℕ
  pub max_attempts : ℕ
  pub digits : ℕ
  pub per_email : ℕ
  pub per_device : ℕ
  pub window_sec : ℕ

abbrev pub digits_of : Option ℕ → Option ℕ
digits_of none = some 6
digits_of (some n) = if eqb n 6 || eqb n 8 then some n else none

-- The options of email codes.
unfoldable pub code_limits : DeviceAuthOptions → Option CodeLimits
code_limits o = do
  ttl ← positive o.code_ttl_sec 600
  attempts ← positive o.code_max_attempts 5
  digits ← digits_of o.code_digits
  per_email ← positive o.max_failures_per_email 10
  per_device ← positive o.max_failures_per_device 10
  window ← positive o.failure_window_sec day_sec
  some (record {
    ttl_ms = ttl * 1000;
    max_attempts = attempts;
    digits = digits;
    per_email = per_email;
    per_device = per_device;
    window_sec = window;
  })

-- `limits`
pub record RouteLimits : Type 0 where
  pub cooldown_sec : ℕ
  pub per_email : ℕ
  pub starts_per_ip : ℕ
  pub verifies_per_ip : ℕ
  pub pin_logins_per_ip : ℕ

unfoldable pub route_limits : DeviceAuthOptions → Option RouteLimits
route_limits o = do
  cooldown ← positive o.resend_cooldown_sec 60
  per_email ← positive o.codes_per_email_per_hour 5
  starts ← positive o.starts_per_ip_per_hour 20
  verifies ← positive o.verifies_per_ip_per_hour 60
  logins ← positive o.pin_logins_per_ip_per_hour 60
  some (record {
    cooldown_sec = cooldown;
    per_email = per_email;
    starts_per_ip = starts;
    verifies_per_ip = verifies;
    pin_logins_per_ip = logins;
  })

unfoldable pub settings_of :
    DeviceAuthOptions
    → Transport
    → ℕ × ℕ
    → (pin_attempts : ℕ) → CodeLimits
    → (fresh bearer : ℕ) → RouteLimits
    → Option Breaker
    → (iterations : ℕ) → Settings
settings_of o transport device pin_attempts code fresh bearer limits breaker iterations = record {
  crypto = o.crypto;
  parse_url = o.parse_url;
  csrf = o.csrf;
  transport = transport;
  secret = o.secret;
  previous_secrets = o.previous_secrets;
  session_idle_ttl_sec = o.session.idle_ttl_sec;
  session_absolute_ttl_sec = o.session.absolute_ttl_sec;
  device_idle_ms = device.0;
  device_absolute_ms = device.1;
  pin_iterations = iterations;
  pin_max_attempts = pin_attempts;
  reject_date_like = o.reject_date_like;
  extra_weak = or_default o.is_weak_pin (λ pin. false);
  revoke_others_on_change = o.revoke_other_devices_on_change;
  code_ttl_ms = code.ttl_ms;
  code_max_attempts = code.max_attempts;
  code_digits = code.digits;
  max_failures_per_email = code.per_email;
  max_failures_per_device = code.per_device;
  failure_window_sec = code.window_sec;
  fresh_ms = fresh * 1000;
  bearer_ttl_sec = bearer;
  cooldown_sec = limits.cooldown_sec;
  per_email = limits.per_email;
  starts_per_ip = limits.starts_per_ip;
  verifies_per_ip = limits.verifies_per_ip;
  pin_logins_per_ip = limits.pin_logins_per_ip;
  breaker = breaker;
  require_client_ip = o.require_client_ip;
  bot_check = o.bot_check;
  normalize_email = or_default o.normalize_email (λ email. some (o.to_lower_case (trim email)));
  resolve_user = or_default o.resolve_user default_user;
}

-- The settings of the routes and the name of the device cookie; none is a throw.
unfoldable pub device_auth : DeviceAuthOptions → Option (Settings × List ℕ)
unfolding parts_fit name_fits device_ttls code_limits route_limits breaker_of settings_of
device_auth o = do
  transport ← o.transport
  parts ← check (parts_fit o)
  device ← device_ttls o
  pin_attempts ← positive o.pin_max_attempts 3
  code ← code_limits o
  fresh ← positive o.fresh_email_auth_sec 600
  bearer ← positive o.bearer_session_ttl_sec 43200
  limits ← route_limits o
  breaker ← breaker_of o.circuit_breaker
  iterations ← iterations_of o.pin_iterations
  name ← check (name_fits o)
  some (
    settings_of o transport device pin_attempts code fresh bearer limits breaker iterations,
    device_cookie o,
  )
