-- ===== src/Handlers.antt =====
-- device-auth/index.ts: `deviceAuth`. Its options after the defaults are applied, the random values
-- of one request, and the request plumbing that the routes share. A route reads the clock once.
pub mod Session
pub mod Plumbing
pub mod Email
pub mod Verify
pub mod Login
pub mod Manage
use workers_auth.Prelude.{◌≡◌, ◌⊎◌, inl, inr, refl, ℕ, String, Bool, Option, List}
use workers_auth.Crypto.{WebCrypto}
use workers_auth.Csrf.{CsrfConfig, Url}
use workers_auth.Web.{User}
use workers_auth.Request.{Request}

pub data Transport : Type 0 where
  cookie response : Transport

pub data BotCheckAction : Type 0 where
  email_start email_verify pin_login : BotCheckAction

-- The ratio as a fraction.
pub record Breaker : Type 0 where
  pub min_failures : ℕ
  pub ratio_num : ℕ
  pub ratio_den : ℕ
  pub window_sec : ℕ

-- `settings` of a `deviceAuth(options)` that did not throw, with the parts of the `Auth` that it
-- uses. A callback is a function; where it may throw, the answer is none.
pub record Settings : Type 0 where
  pub crypto : WebCrypto
  pub parse_url : String → Option Url
  pub csrf : CsrfConfig
  pub transport : Transport
  pub secret : String
  pub previous_secrets : List String
  pub session_idle_ttl_sec : ℕ
  pub session_absolute_ttl_sec : ℕ
  pub device_idle_ms : ℕ
  pub device_absolute_ms : ℕ
  pub pin_iterations : ℕ
  pub pin_max_attempts : ℕ
  pub reject_date_like : Bool
  pub extra_weak : String → Bool
  pub revoke_others_on_change : Bool
  pub code_ttl_ms : ℕ
  pub code_max_attempts : ℕ
  pub code_digits : ℕ
  pub max_failures_per_email : ℕ
  pub max_failures_per_device : ℕ
  pub failure_window_sec : ℕ
  pub fresh_ms : ℕ
  pub bearer_ttl_sec : ℕ
  pub cooldown_sec : ℕ
  pub per_email : ℕ
  pub starts_per_ip : ℕ
  pub verifies_per_ip : ℕ
  pub pin_logins_per_ip : ℕ
  pub breaker : Option Breaker
  pub require_client_ip : Bool
  pub bot_check : Option (Request → BotCheckAction → Option Bool)
  pub normalize_email : String → Option String
  -- the outer none is a throw, the inner one is `null`
  pub resolve_user : String → Option (Option User)

-- The random values that a request may draw.
pub record Fresh : Type 0 where
  pub sid : String
  pub csrf_token : String
  pub device_id : String
  pub device_secret : String
  pub credential_id : String
  pub salt : List ℕ
  -- the result of `generateEmailCode`
  pub code : String

transport_cases : (t : Transport) → (t ≡ cookie) ⊎ (t ≡ response)
transport_cases cookie = inl refl
transport_cases response = inr refl
