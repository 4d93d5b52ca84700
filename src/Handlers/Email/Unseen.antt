-- ===== src/Handlers/Email/Unseen.antt =====
-- `/email/start` answers alike for every address: whether an account exists is not consulted.
use Prim.Native.String.{◌++◌}
use workers_auth.Prelude.{ℕ, ◌*◌, ◌≡◌, refl, ap, List, Table, String, Option, none, some, leb, ◌∷◌}
use workers_auth.Crypto.{sha256_hex, fingerprint}
use workers_auth.Limits.{read_rate_limit}
use workers_auth.Codes.{CodeRow}
use workers_auth.Creds.{CredentialRow}
use workers_auth.Guards.{GuardRow}
use workers_auth.Devices.{find_device}
use workers_auth.Web.{World, value, Event, Reply, gets}
use workers_auth.Web.Blind.{
  IsBlind, then-IsBlind, view, outcome, of_view, pure-IsBlind, bind-IsBlind, when-IsBlind,
  stop-IsBlind, gets-IsBlind, gets_same, on_codes-IsBlind, emit-IsBlind,
}
use workers_auth.Request.{Request}
use workers_auth.Handlers.{Settings, Fresh, BotCheckAction}
use workers_auth.Handlers.Plumbing.{
  device_with, token_of, of_address, proved, presented_device, presented_device_token,
  device_of_address, budget_for, read_email, Budget,
}
use workers_auth.Handlers.Email.{
  email_start, budget_of, has_failures_left, put_code, email_field, with_email, send_code,
}
use workers_auth.Handlers.Plumbing.Unseen.{
  gate-IsBlind, body-IsBlind, refuse_rate-IsBlind, rate_limited-IsBlind, ip_limited-IsBlind,
  bot_refused-IsBlind,
}

module _ (s : Settings) (req : Request) (fresh : Fresh) (now : ℕ) where
  with_email-IsBlind : (o : Option String) → IsBlind (with_email s req fresh now o)
  with_email-IsBlind none = stop-IsBlind Reply.invalid_request
  with_email-IsBlind (some email) = pure-IsBlind email

  has_failures_left-IsBlind : (b : Budget) → IsBlind (has_failures_left s req fresh now b)
  unfolding has_failures_left
  has_failures_left-IsBlind b =
      bind-IsBlind _ _
        (gets-IsBlind (λ v. read_rate_limit b.failures (s.failure_window_sec * 1000) now v.limits))
        (λ failures. when-IsBlind (leb b.max_failures failures.count) _ (
          refuse_rate-IsBlind s req now (b.scope ++ "_failures") failures.window_start
            s.failure_window_sec))

  device_with_same :
      (token : Option (String × String)) (w w' : World)
      → view w ≡ view w'
      → device_with s req now token w ≡ device_with s req now token w'
  device_with_same none w w' e = refl
  device_with_same (some t) w w' e = ap (λ v. proved s req now t.1 (find_device t.0 v.devices)) e

  budget_of-IsBlind : (email : String) → IsBlind (gets (budget_of s req now email))
  unfolding budget_of device_of_address presented_device
  budget_of-IsBlind email = gets_same (budget_of s req now email) (λ w w' e.
      ap (λ d. budget_for s (sha256_hex s.crypto email) (of_address s req now email d))
        (device_with_same (token_of s req now (presented_device_token s req now)) w w' e))

  put_code-IsBlind : (email : String) → IsBlind (put_code s req fresh now email)
  unfolding put_code
  put_code-IsBlind email = on_codes-IsBlind _ tt

  send_code-IsBlind : (email : String) → IsBlind (send_code s req fresh now email)
  send_code-IsBlind email =
      of_view _ (λ v. (value tt, record v { sent = (email, fresh.code) ∷ v.sent })) (λ w. refl)

  email_start-IsBlind : IsBlind (email_start s req fresh now)
  unfolding email_start
  email_start-IsBlind = bind-IsBlind _ _ (gate-IsBlind s req now) (λ session.
      bind-IsBlind _ _ (body-IsBlind s req now) (λ fields.
        bind-IsBlind _ _ (with_email-IsBlind (read_email s req now (email_field fields))) (λ email.
          then-IsBlind _ _ (bot_refused-IsBlind s req now BotCheckAction.email_start) (
            then-IsBlind _ _
              (ip_limited-IsBlind s req now "otp-start" s.starts_per_ip "email_start_ip")
              (bind-IsBlind _ _ (budget_of-IsBlind email) (λ budget.
                then-IsBlind _ _ (has_failures_left-IsBlind budget) (
                  then-IsBlind _ _
                    (rate_limited-IsBlind s req now ("otp-cool:" ++ budget.send) s.cooldown_sec 1
                      (budget.scope ++ "_cooldown"))
                    (then-IsBlind _ _
                      (rate_limited-IsBlind s req now ("otp-email:" ++ budget.send) 3600 s.per_email
                        (budget.scope ++ "_hourly"))
                      (then-IsBlind _ _ (put_code-IsBlind email) (
                        then-IsBlind _ _ (send_code-IsBlind email) (
                          then-IsBlind _ _
                            (emit-IsBlind (Event.email_code_sent (fingerprint s.crypto email)))
                            (pure-IsBlind Reply.done))))))))))))

  -- `/email/start` answers, and sends, logs and limits, alike on states that differ only in what
  -- accounts have: their credentials, their login guards and their live codes.
  pub email_start_blind :
      (world : World) (creds : List CredentialRow) (guards : Table GuardRow) (codes : Table CodeRow)
      → let other = record world {
        store = record (world.store) { creds = creds; guards = guards; codes = codes };
      } in
        outcome (email_start s req fresh now world) ≡ outcome (email_start s req fresh now other)
  email_start_blind world creds guards codes =
      email_start-IsBlind.alike world
        (record world {
          store = record (world.store) { creds = creds; guards = guards; codes = codes };
        })
        refl
