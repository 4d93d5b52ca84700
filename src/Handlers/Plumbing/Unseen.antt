-- ===== src/Handlers/Plumbing/Unseen.antt =====
-- The plumbing of the routes does not look at credentials, login guards and codes.
use Prim.Native.String.{◌++◌}
use workers_auth.Prelude.{
  ℕ, ◌+◌, ◌*◌, String, Bool, true, false, not, Option, none, some, ltb, is_some,
}
use workers_auth.Crypto.{sha256_hex}
use workers_auth.Ip.{ip_rate_limit_key}
use workers_auth.Csrf.{given, CsrfResult, ok, failed, verify_csrf}
use workers_auth.Limits.{hit_rate_limit}
use workers_auth.Devices.{DeviceRecord, find_device}
use workers_auth.Sessions.{Session, get_session, revoke_session}
use workers_auth.Web.{
  ◌>>=◌, ◌>>◌, seconds_until, Event, Reply, pure, stop_with, emit, gets, on_limits, on_sessions,
}
use workers_auth.Web.Blind.{
  IsBlind, then-IsBlind, if-IsBlind, option-IsBlind, pure-IsBlind, bind-IsBlind, when-IsBlind,
  stop-IsBlind, gets-IsBlind, on_limits-IsBlind, on_sessions-IsBlind, emit-IsBlind,
}
use workers_auth.Request.{Fields, Request, read_json, too_large, read, JsonBody}
use workers_auth.Handlers.{Settings, Transport, cookie, response, BotCheckAction}
use workers_auth.Handlers.Session.{
  device_backs, revoke_sid, check_device, bound_to, get_bound, usable, read_sid,
  read_cookie_session, read_bearer_session,
}
use workers_auth.Handlers.Plumbing.{
  gate, body, check_csrf, rate_limited, limit_key, ip_limited, refuse_rate, bot_refused, has_passed,
  action_name,
}

module _ (s : Settings) (now : ℕ) where
  revoke_sid-IsBlind : (sid : String) → IsBlind (revoke_sid s now sid)
  unfolding revoke_sid
  revoke_sid-IsBlind sid =
      on_sessions-IsBlind (λ t. (tt, revoke_session (sha256_hex s.crypto) sid t))

  check_device-IsBlind :
      (sid : String) (session : Session) (d : Option DeviceRecord)
      → IsBlind (check_device s now sid session d)
  check_device-IsBlind sid session d =
      if-IsBlind (device_backs now session d) (pure (some session))
        (revoke_sid s now sid >> pure none) (pure-IsBlind (some session))
        (then-IsBlind (revoke_sid s now sid) (pure none) (revoke_sid-IsBlind sid)
          (pure-IsBlind none))

  bound_to-IsBlind : (sid : String) (o : Option Session) → IsBlind (bound_to s now sid o)
  bound_to-IsBlind sid none = pure-IsBlind none
  bound_to-IsBlind sid (some session) =
      option-IsBlind session.auth.device_id (pure (some session))
        (λ id. gets (λ w. find_device id w.store.devices) >>= check_device s now sid session)
        (pure-IsBlind (some session))
        (λ id.
          bind-IsBlind (gets (λ w. find_device id w.store.devices)) (check_device s now sid session)
            (gets-IsBlind (λ v. find_device id v.devices)) (check_device-IsBlind sid session))

  get_bound-IsBlind : (sid : String) → IsBlind (get_bound s now sid)
  unfolding get_bound
  get_bound-IsBlind sid =
      bind-IsBlind (on_sessions (get_session (sha256_hex s.crypto) sid now)) (bound_to s now sid)
        (on_sessions-IsBlind (get_session (sha256_hex s.crypto) sid now)) (bound_to-IsBlind sid)

  read_sid-IsBlind : (bearer : Bool) (o : Option String) → IsBlind (read_sid s now bearer o)
  read_sid-IsBlind bearer none = pure-IsBlind none
  read_sid-IsBlind bearer (some sid) =
      bind-IsBlind (get_bound s now sid) (λ session. pure (usable s now bearer session))
        (get_bound-IsBlind sid) (λ session. pure-IsBlind (usable s now bearer session))

module _ (s : Settings) (req : Request) (now : ℕ) where
  check_csrf-IsBlind :
      (session : Option Session) (r : CsrfResult) → IsBlind (check_csrf s req now session r)
  check_csrf-IsBlind session ok = pure-IsBlind session
  check_csrf-IsBlind session (failed reason) =
      then-IsBlind (emit (Event.csrf_refused reason)) (stop_with Reply.csrf_failed)
        (emit-IsBlind (Event.csrf_refused reason)) (stop-IsBlind Reply.csrf_failed)

  pub gate-IsBlind : IsBlind (gate s req now)
  unfolding gate read_cookie_session read_bearer_session
  gate-IsBlind = by_transport s.transport
    where
      by_transport :
          (t : Transport)
          → IsBlind {A = Option Session} (elim t [
            | response ↦ read_bearer_session s now req
            | cookie ↦ read_cookie_session s now req >>= λ session. check_csrf s req now session (
                verify_csrf s.crypto s.parse_url s.csrf req.csrf req.csrf_cookie
                  (is_some session)
                  true)
          ])
      by_transport response = read_sid-IsBlind s now true req.bearer_sid
      by_transport cookie =
          bind-IsBlind (read_cookie_session s now req) _
            (read_sid-IsBlind s now false req.session_cookie)
            (λ session. check_csrf-IsBlind session (
              verify_csrf s.crypto s.parse_url s.csrf req.csrf req.csrf_cookie (is_some session)
                true))

  pub body-IsBlind : IsBlind (body s req now)
  unfolding body
  body-IsBlind = by_body (read_json req.body)
    where
      by_body :
          (b : JsonBody)
          → IsBlind {A = Option Fields}
              (elim b [ too_large ↦ stop_with Reply.payload_too_large | read fields ↦ pure fields ])
      by_body too_large = stop-IsBlind Reply.payload_too_large
      by_body (read fields) = pure-IsBlind fields

  pub refuse_rate-IsBlind :
      {A : Type 0} (scope : String) (start window_sec : ℕ)
      → IsBlind (refuse_rate s req now {A = A} scope start window_sec)
  refuse_rate-IsBlind scope start window_sec =
      let reply = Reply.rate_limited (seconds_until (start + window_sec * 1000) now) in
      then-IsBlind (emit (Event.limit_hit scope)) (stop_with reply)
        (emit-IsBlind (Event.limit_hit scope)) (stop-IsBlind reply)

  pub rate_limited-IsBlind :
      (bucket : String) (window_sec limit : ℕ) (scope : String)
      → IsBlind (rate_limited s req now bucket window_sec limit scope)
  unfolding rate_limited
  rate_limited-IsBlind bucket window_sec limit scope =
      bind-IsBlind (on_limits (hit_rate_limit bucket (window_sec * 1000) now)) _
        (on_limits-IsBlind (hit_rate_limit bucket (window_sec * 1000) now))
        (λ hit.
          when-IsBlind (ltb limit hit.count)
            (refuse_rate s req now scope hit.window_start window_sec)
            (refuse_rate-IsBlind scope hit.window_start window_sec))

  pub ip_limited-IsBlind :
      (action : String) (limit : ℕ) (scope : String)
      → IsBlind (ip_limited s req now action limit scope)
  unfolding ip_limited
  ip_limited-IsBlind action limit scope = by_key (given req.client_ip)
    where
      by_key : (key : Option String) → IsBlind (limit_key s req now action limit scope key)
      by_key none = when-IsBlind s.require_client_ip _ (stop-IsBlind Reply.client_ip_required)
      by_key (some key) =
          rate_limited-IsBlind (action ++ (":ip:" ++ ip_rate_limit_key key)) 3600 limit scope

  pub bot_refused-IsBlind : (action : BotCheckAction) → IsBlind (bot_refused s req now action)
  unfolding bot_refused
  bot_refused-IsBlind action = option-IsBlind s.bot_check (pure tt) _ (pure-IsBlind tt) (λ check.
      when-IsBlind (not (has_passed (check req action))) _ (
        then-IsBlind _ _ (emit-IsBlind (Event.bot_check_refused (action_name action)))
          (stop-IsBlind Reply.bot_check_failed)))
