-- ===== src/DeviceAuth/Options.antt =====
-- device-auth/index.ts: the options of `deviceAuth`, and a check of one that must be positive.
use workers_auth.Prelude.{ℕ, String, Bool, Option, none, some, List, ltb, if◌then◌else◌}
use workers_auth.Crypto.{WebCrypto}
use workers_auth.Csrf.{CsrfConfig, Url}
use workers_auth.Web.{User}
use workers_auth.Request.{Request}
use workers_auth.Cookies.{ResolvedCookieConfig}
use workers_auth.Auth.{Given, absent, refused, given, SessionTtls}
use workers_auth.Handlers.{Transport, BotCheckAction}

infixl 5 ◌>>=◌
unfoldable pub ◌>>=◌ : {A B : Type 0} → Option A → (A → Option B) → Option B
none >>= k = none
some a >>= k = k a

-- `deviceAuth: … is required` and the like: a check that throws.
abbrev pub check : Bool → Option (Unit {0})
check b = if b then some tt else none

-- `positive`; a value that is no positive number (where it must be one, no integer) is refused.
abbrev pub positive : Given → ℕ → Option ℕ
positive absent fallback = if ltb 0 fallback then some fallback else none
positive refused fallback = none
positive (given n) fallback = if ltb 0 n then some n else none

-- `maxFailureRatio`: left out, no positive number, or a fraction.
pub data GivenRatio : Type 0 where
  no_ratio bad_ratio : GivenRatio
  ratio : (num den : ℕ) → GivenRatio

pub record CircuitBreaker : Type 0 where
  pub min_failures : Given
  pub max_failure_ratio : GivenRatio
  pub window_sec : Given

-- The store that a provider reads sessions from, if it has one: is it device-bound?
abbrev pub ReadStore : Type 0
ReadStore = Option Bool

-- What `deviceAuth` is given. Of the `Auth` it reads `config`, here the fields from `cookie` to
-- `session`. `assertSecret` estimates entropy with logarithms; `is_strong` stands for it, and
-- `to_lower_case` for the platform's.
pub record DeviceAuthOptions : Type 0 where
  pub has_auth : Bool
  pub atomic_store : Bool
  pub has_send_code : Bool
  pub transport : Option Transport
  pub is_strong : String → Bool
  pub secret : String
  pub previous_secrets : List String
  pub bound_store : Bool
  pub can_revoke_all_for_user : Bool
  pub read_stores : List ReadStore
  pub cookie : ResolvedCookieConfig
  pub csrf : CsrfConfig
  pub session : SessionTtls
  pub crypto : WebCrypto
  pub parse_url : String → Option Url
  pub to_lower_case : String → String
  pub device_cookie_name : Option (List ℕ)
  pub device_idle_ttl_sec : Given
  pub device_absolute_ttl_sec : Given
  pub pin_iterations : Given
  pub pin_max_attempts : Given
  pub is_weak_pin : Option (String → Bool)
  pub reject_date_like : Bool
  pub revoke_other_devices_on_change : Bool
  pub code_ttl_sec : Given
  pub code_max_attempts : Given
  pub code_digits : Option ℕ
  pub max_failures_per_email : Given
  pub max_failures_per_device : Given
  pub failure_window_sec : Given
  pub fresh_email_auth_sec : Given
  pub bearer_session_ttl_sec : Given
  pub resend_cooldown_sec : Given
  pub codes_per_email_per_hour : Given
  pub starts_per_ip_per_hour : Given
  pub verifies_per_ip_per_hour : Given
  pub pin_logins_per_ip_per_hour : Given
  pub circuit_breaker : Option CircuitBreaker
  pub require_client_ip : Bool
  pub bot_check : Option (Request → BotCheckAction → Option Bool)
  pub normalize_email : Option (String → Option String)
  pub resolve_user : Option (String → Option (Option User))
