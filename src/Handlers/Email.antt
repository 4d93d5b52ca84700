-- ===== src/Handlers/Email.antt =====
-- The routes `/email/start` and `/email/verify` of device-auth/index.ts.
pub mod Unseen
use Prim.Native.String.{◌++◌}
use workers_auth.Prelude.{ℕ, ◌+◌, ◌*◌, String, Option, none, some, ◌∷◌, leb}
use workers_auth.Crypto.{sha256_hex, fingerprint, hmac_hex}
use workers_auth.Keys.{KeyRing, build_key_ring}
use workers_auth.Limits.{read_rate_limit}
use workers_auth.Codes.{put_email_code}
use workers_auth.Web.{
  World, M, ◌>>=◌, ◌>>◌, value, pure, stop_with, gets, on_codes, emit, when, Event, Reply,
}
use workers_auth.Request.{Request, Fields}
use workers_auth.Handlers.{Settings, Fresh, BotCheckAction}
use workers_auth.Handlers.Plumbing.{
  Budget, budget_for, gate, body, rate_limited, refuse_rate, ip_limited, bot_refused, read_email,
  device_of_address,
}

abbrev pub email_field : Option Fields → Option String
email_field none = none
email_field (some fields) = fields.email

module _ (s : Settings) where
  unfoldable pub key_ring : KeyRing
  key_ring = build_key_ring s.crypto s.secret s.previous_secrets

  unfoldable pub budget_of : Request → ℕ → String → World → Budget
  unfolding device_of_address
  budget_of req now email world =
      budget_for s (sha256_hex s.crypto email) (device_of_address s req now email world)

module _ (s : Settings) (req : Request) (fresh : Fresh) (now : ℕ) where
  abbrev with_email : Option String → M String
  with_email none = stop_with Reply.invalid_request
  with_email (some email) = pure email

  -- A code that the requester could not verify is not sent.
  unfoldable has_failures_left : Budget → M (Unit {0})
  has_failures_left budget = do
    failures ← gets (λ world.
        read_rate_limit budget.failures (s.failure_window_sec * 1000) now world.store.limits)
    when (leb budget.max_failures failures.count) (
        refuse_rate s req now (budget.scope ++ "_failures") failures.window_start
          s.failure_window_sec)

  abbrev send_code : String → M (Unit {0})
  send_code email world = (value tt, record world { sent = (email, fresh.code) ∷ world.sent })

  unfoldable put_code : String → M (Unit {0})
  unfolding key_ring
  put_code email = on_codes (λ codes. (
    tt,
    put_email_code
        (record {
          email = email;
          code_hash =
              hmac_hex s.crypto ((key_ring s).current.otp_key) (email ++ ("\n" ++ fresh.code));
          key_id = (key_ring s).current.key_id;
          expires_at = now + s.code_ttl_ms;
          created_at = now;
          attempts_reset_at = now + s.code_ttl_ms;
        })
        codes,
  ))

  unfoldable pub email_start : M Reply
  unfolding gate body ip_limited rate_limited bot_refused read_email budget_of has_failures_left
      put_code
  email_start = do
    session ← gate s req now
    fields ← body s req now
    email ← with_email (read_email s req now (email_field fields))
    bot_refused s req now BotCheckAction.email_start
    ip_limited s req now "otp-start" s.starts_per_ip "email_start_ip"
    budget ← gets (budget_of s req now email)
    has_failures_left budget
    rate_limited s req now ("otp-cool:" ++ budget.send) s.cooldown_sec 1
        (budget.scope ++ "_cooldown")
    rate_limited s req now ("otp-email:" ++ budget.send) 3600 s.per_email
        (budget.scope ++ "_hourly")
    put_code email
    send_code email
    emit (Event.email_code_sent (fingerprint s.crypto email))
    pure Reply.done
