-- ===== src/Handlers/Verify.antt =====
-- The route `/email/verify` of device-auth/index.ts.
pub mod Matched
pub mod Charged
use Prim.Native.String.{◌++◌}
use workers_auth.Prelude.{
  ℕ, ◌+◌, ◌*◌, String, Bool, true, false, ◌&&◌, not, Option, none, some, leb, eqb, length, codes,
  max, find, is_some, is_none, ◌==◌, if◌then◌else◌,
}
use workers_auth.Crypto.{fingerprint, hmac_hex, timing_safe_equal}
use workers_auth.Keys.{DerivedKeys}
use workers_auth.Limits.{
  Hit, CircuitBreakerState, reserve_rate_limit, read_rate_limit, refund_rate_limit,
  hit_circuit_breaker, read_circuit_breaker,
}
use workers_auth.Codes.{ReservedEmailCode, reserve_email_code_attempt, consume_email_code}
use workers_auth.Guards.{GuardState, reset_login_guard}
use workers_auth.Devices.{DeviceRecord, touch_device}
use workers_auth.Creds.{pin, get_active_credential}
use workers_auth.Pin.{all_digits}
use workers_auth.Web.{
  World, M, ◌>>=◌, ◌>>◌, value, pure, throw, stop_with, gets, choose, on_limits, on_codes,
  on_devices, on_guards, emit, when, Event, Reply, User, BearerGrant, seconds_until, PublicDevice,
}
use workers_auth.Request.{Request, Fields, take_units}
use workers_auth.Handlers.{Settings, Fresh, Breaker, BotCheckAction, Transport, cookie, response}
use workers_auth.Handlers.Session.{mint_session}
use workers_auth.Handlers.Plumbing.{
  Budget, gate, body, refuse_rate, ip_limited, bot_refused, read_email, presented_device,
  presented_device_token, set_device_cookie, register_device, is_user, public_device,
}
use workers_auth.Handlers.Email.{email_field, key_ring, budget_of}

abbrev cb_bucket : String
cb_bucket = "cb:email-verify"

-- What the body says, once it is well formed.
pub record VerifyInput : Type 0 where
  pub email : String
  pub code : String
  pub trust_device : Bool
  pub label : Option String

module _ (s : Settings) where
  abbrev label_of : Option String → Option String
  label_of none = none
  label_of (some raw) = if raw == "" then none else some (take_units 100 raw)

  unfoldable is_code : String → Bool
  is_code code = eqb (length (codes code)) s.code_digits && all_digits (codes code)

  abbrev input_with : Fields → Option String → Option String → M VerifyInput
  input_with fields (some email) (some code) world =
      if is_code code
      then pure
          (record {
            email = email;
            code = code;
            trust_device = fields.trust_device;
            label = label_of fields.device_label;
          })
          world
      else stop_with Reply.invalid_request world
  input_with fields _ _ world = stop_with Reply.invalid_request world

  unfoldable verify_input : Request → ℕ → Option Fields → M VerifyInput
  unfolding read_email take_units is_code
  verify_input req now none = stop_with Reply.invalid_request
  verify_input req now (some fields) =
      input_with fields (read_email s req now fields.email) fields.code

  -- `failures >= minFailures && failures >= ratio * max(attempts, 1)`
  unfoldable is_open : Breaker → CircuitBreakerState → Bool
  is_open b cb =
      leb b.min_failures cb.failures
      && leb (b.ratio_num * max cb.attempts 1) (cb.failures * b.ratio_den)

  abbrev refuse_open : Breaker → ℕ → CircuitBreakerState → M (Unit {0})
  refuse_open b now cb = do
    emit Event.circuit_breaker_open
    stop_with
        (Reply.temporarily_unavailable (seconds_until (cb.window_start + b.window_sec * 1000) now))

  unfoldable breaker_closed : ℕ → M (Unit {0})
  unfolding is_open
  breaker_closed now = elim (s.breaker) [
    | none ↦ pure tt
    | some b ↦ do
      cb ←
          gets
            (λ world. read_circuit_breaker cb_bucket (b.window_sec * 1000) now world.store.limits)
      when (is_open b cb) (refuse_open b now cb)
  ]

  -- One checked verification for the breaker.
  unfoldable pub checked : ℕ → Bool → M (Unit {0})
  checked now failed = elim (s.breaker) [
    | none ↦ pure tt
    | some b ↦ do
      cb ← on_limits (hit_circuit_breaker cb_bucket (b.window_sec * 1000) now failed)
      pure tt
  ]

  unfoldable invalid : {A : Type 0} → ℕ → String → String → M A
  unfolding checked
  invalid now email reason = do
    emit (Event.email_code_failed (fingerprint s.crypto email) reason)
    checked now true
    stop_with Reply.invalid_code

  unfoldable pub refund : Budget → Hit → M (Unit {0})
  refund budget slot =
      on_limits (λ limits. (tt, refund_rate_limit budget.failures slot.window_start limits))

module _ (s : Settings) (req : Request) (now : ℕ) where
  abbrev with_slot : Budget → Option Hit → M Hit
  with_slot budget (some slot) = pure slot
  with_slot budget none = do
    current ← gets (λ world.
        read_rate_limit budget.failures (s.failure_window_sec * 1000) now world.store.limits)
    refuse_rate s req now (budget.scope ++ "_failures") current.window_start s.failure_window_sec

  unfoldable pub reserve_slot : Budget → M Hit
  reserve_slot budget = do
    slot ←
        on_limits
          (reserve_rate_limit budget.failures (s.failure_window_sec * 1000) now budget.max_failures)
    with_slot budget slot

  abbrev with_code : String → Budget → Hit → Option ReservedEmailCode → M ReservedEmailCode
  with_code email budget slot (some reserved) = pure reserved
  with_code email budget slot none = do
    refund s budget slot
    emit (Event.email_code_failed (fingerprint s.crypto email) "no_live_code")
    stop_with Reply.invalid_code

  unfoldable pub reserve_attempt : String → Budget → Hit → M ReservedEmailCode
  unfolding refund
  reserve_attempt email budget slot = do
    reserved ← on_codes (reserve_email_code_attempt email now s.code_max_attempts)
    with_code email budget slot reserved

  abbrev match_with : String → String → ReservedEmailCode → Option DerivedKeys → M (Unit {0})
  match_with email code reserved none = invalid s now email "unknown_key"
  match_with email code reserved (some k) =
      when
        (not (
          timing_safe_equal s.crypto (hmac_hex s.crypto k.otp_key (email ++ ("\n" ++ code)))
            reserved.code_hash))
        (invalid s now email "mismatch")

  unfoldable pub match_code : String → String → ReservedEmailCode → M (Unit {0})
  unfolding key_ring invalid
  match_code email code reserved =
      match_with email code reserved (find reserved.key_id (key_ring s).by_id)

  unfoldable pub consume : String → ReservedEmailCode → M (Unit {0})
  unfolding invalid
  consume email reserved = do
    won ← on_codes (consume_email_code email reserved.code_hash)
    when (not won) (invalid s now email "already_used")

  abbrev with_user : String → Option (Option User) → M User
  with_user email none = throw
  with_user email (some none) = invalid s now email "user_refused"
  with_user email (some (some user)) =
      choose (is_user (some user)) (pure user) (invalid s now email "user_refused")

  -- From the reserved slot to the account: the code, its single use, the user; the refund and the
  -- breaker's success.
  unfoldable pub check_code : VerifyInput → Budget → Hit → M User
  unfolding reserve_attempt match_code consume invalid refund checked
  check_code input budget slot = do
    reserved ← reserve_attempt input.email budget slot
    match_code input.email input.code reserved
    consume input.email reserved
    resolved ← with_user input.email (s.resolve_user input.email)
    refund s budget slot
    checked s now false
    pure (record resolved { provider = some "email-code" })

  abbrev was_locked : Option GuardState → Bool
  was_locked none = false
  was_locked (some g) = is_some g.locked_at

  unfoldable lift_lockout : User → M (Unit {0})
  lift_lockout user = do
    before ← on_guards (reset_login_guard user.id now)
    when (was_locked before) (emit (Event.pin_unlocked user.id))

  abbrev kept : DeviceRecord → Option ℕ → M (Option DeviceRecord)
  kept d none = pure none
  kept d (some idle) = do
    set_device_cookie s req now (presented_device_token s req now) idle
    pure (some (record d { last_used_at = now; idle_expires_at = idle }))

  abbrev extend_of : User → Option DeviceRecord → M (Option DeviceRecord)
  extend_of user none = pure none
  extend_of user (some d) =
      choose (d.account_id == user.id)
        (do idle ← on_devices (touch_device d.device_id now (now + s.device_idle_ms)); kept d idle)
        (pure none)

  -- A trusted device of the same account is extended.
  unfoldable extend_presented : User → M (Option DeviceRecord)
  unfolding presented_device set_device_cookie presented_device_token
  extend_presented user = do presented ← gets (presented_device s req now); extend_of user presented

module _ (s : Settings) (req : Request) (fresh : Fresh) (now : ℕ) where
  abbrev or_register :
      User → VerifyInput → Option DeviceRecord → M (Option DeviceRecord × Option String)
  or_register user input (some d) = pure (some d, none)
  or_register user input none = do
    registered ← register_device s req fresh now user input.email input.label
    pure (some (registered.0), some (registered.1))

  unfoldable trust : User → VerifyInput → M (Option DeviceRecord × Option String)
  unfolding extend_presented register_device
  trust user input =
      choose input.trust_device
        (do presented ← extend_presented s req now user; or_register user input presented)
        (pure (none, none))

  abbrev id_of : Option DeviceRecord → Option String
  id_of none = none
  id_of (some d) = some d.device_id

  abbrev public_of : Option DeviceRecord → Option PublicDevice
  public_of none = none
  public_of (some d) = some (public_device d)

  -- The device token is in the body in `response` transport only.
  abbrev token_field : Option String → Option String
  token_field token = elim (s.transport) [ cookie ↦ none | response ↦ token ]

  -- What follows a correct code.
  unfoldable sign_in : VerifyInput → User → M Reply
  unfolding lift_lockout trust mint_session
  sign_in input user = do
    lift_lockout s req now user
    trusted ← trust user input
    grant ←
        mint_session s fresh now req user
          (record { email_verified_at = some now; device_id = id_of (trusted.0) })
    pin_set ← gets (λ world. is_some (get_active_credential user.id pin world.store.creds))
    pure (Reply.verified user pin_set (public_of (trusted.0)) (token_field (trusted.1)) grant)

  unfoldable email_verify : M Reply
  unfolding gate body verify_input bot_refused ip_limited breaker_closed budget_of reserve_slot
      check_code sign_in
  email_verify = do
    session ← gate s req now
    fields ← body s req now
    input ← verify_input s req now fields
    bot_refused s req now BotCheckAction.email_verify
    ip_limited s req now "otp-verify" s.verifies_per_ip "email_verify_ip"
    breaker_closed s now
    budget ← gets (budget_of s req now input.email)
    slot ← reserve_slot s req now budget
    user ← check_code s req now input budget slot
    emit (Event.email_code_verified user.id (fingerprint s.crypto input.email))
    sign_in input user
