-- ===== src/Routes.antt =====
-- middleware.ts and routes.ts: the providers, the authentication of a request, the middleware, the
-- session routes, and the redirect target of the callback. The store is the device-bound one.
pub mod Providers
pub mod Redirect
pub mod Entry
use workers_auth.Prelude.{
  ℕ, ◌+◌, ◌*◌, String, Bool, true, false, ◌&&◌, ◌||◌, not, Option, none, some, List, [], ◌∷◌, eqb,
  leb, if◌then◌else◌, codes, is_some, ◌==◌,
}
use workers_auth.Crypto.{fingerprint}
use workers_auth.Csrf.{CsrfResult, ok, failed, verify_csrf}
use workers_auth.Pin.{contains}
use workers_auth.Sessions.{Session, touch_session}
use workers_auth.Crypto.{sha256_hex}
use workers_auth.Web.{
  M, ◌>>=◌, ◌>>◌, pure, stop_with, choose, emit, when, set_cookie, on_sessions, Event, Reply,
  SetCookie, User, PublicSession,
}
use workers_auth.Request.{Request}
use workers_auth.Handlers.{Settings, Fresh}
use workers_auth.Handlers.Session.{
  InternalAuthMeta, read_cookie_session, create_session_for, revoke_sid,
}
use workers_auth.Handlers.Manage.{session_to_user}

-- What `provider.verify` comes to: an error with its name, null, or a user.
pub data Answer : Type 0 where
  broken : (error : String) → Answer
  nobody : Answer
  somebody : User → Answer

pub record Provider : Type 0 where
  pub name : String
  pub verify : Request → Answer

-- The resolved configuration of `createAuth`, beside the settings of the session store.
pub record AuthConfig : Type 0 where
  pub settings : Settings
  pub providers : List Provider
  pub callback_providers : List Provider
  pub callback_redirect : String
  pub touch_interval_sec : ℕ

abbrev or_next : Provider → Answer → M (Option User) → M (Option User)
or_next p (broken error) rest = do emit (Event.auth_failed error (some p.name)); rest
or_next p nobody rest = rest
or_next p (somebody user) rest =
    choose (user.rate_limit_id == "")
      (do emit (Event.auth_failed "missing_rate_limit_id" (some p.name)); rest) (pure (some user))

-- The first success; a provider that throws, or forgets `rateLimitId`, is reported and passed over.
unfoldable pub verify_providers : Request → List Provider → M (Option User)
verify_providers req [] = pure none
verify_providers req (p ∷ providers) =
    let rest = verify_providers req providers in or_next p (p.verify req) rest

abbrev cs_slash : ℕ
cs_slash = b'/'

abbrev cs_backslash : ℕ
cs_backslash = 92

-- After the first slash: no second one, in either direction.
abbrev begins_local : List ℕ → Bool
begins_local [] = true
begins_local (c ∷ cs) = not (eqb c cs_slash || eqb c cs_backslash)

abbrev is_local : List ℕ → Bool
is_local [] = false
is_local (c ∷ cs) =
    eqb c cs_slash
    && (begins_local cs
        && not (contains (c ∷ cs) cs_backslash || (contains (c ∷ cs) 10 || contains (c ∷ cs) 13)))

unfoldable pub safe_redirect_path : Option String → String → String
safe_redirect_path none fallback = fallback
safe_redirect_path (some candidate) fallback =
    if is_local (codes candidate) then candidate else fallback

-- The answer of the middleware that lets a request pass.
pub record Passed : Type 0 where
  pub user : Option User
  pub session : Option Session

module _ (a : AuthConfig) (req : Request) (now : ℕ) where
  abbrev or_providers : Option Session → Option User → M Passed
  or_providers (some session) (some user) =
      pure (record { user = some user; session = some session })
  or_providers _ _ = do
    user ← verify_providers req a.providers
    pure (record { user = user; session = none })

  abbrev user_of : Option Session → Option User
  user_of none = none
  user_of (some session) = session_to_user session

  -- Cookie session first, then the providers.
  unfoldable pub resolve_request_auth : M Passed
  unfolding read_cookie_session verify_providers session_to_user
  resolve_request_auth = do
    session ← read_cookie_session a.settings now req
    or_providers session (user_of session)

  abbrev csrf_of : Bool → Bool → CsrfResult
  csrf_of authenticated require_origin =
      verify_csrf a.settings.crypto a.settings.parse_url a.settings.csrf req.csrf req.csrf_cookie
        authenticated require_origin

  abbrev stop_unless : CsrfResult → M (Unit {0})
  stop_unless ok = pure tt
  stop_unless (failed reason) = do emit (Event.csrf_refused reason); stop_with Reply.csrf_failed

  abbrev no_credentials : Option User → Bool → M (Unit {0})
  no_credentials (some user) optional = pure tt
  no_credentials none true = pure tt
  no_credentials none false = do
    emit (Event.auth_failed "no_credentials" none)
    stop_with Reply.unauthenticated

  -- The sliding window of a cookie session.
  abbrev slide : Option Session → M (Unit {0})
  slide none = pure tt
  slide (some session) = when (leb (session.last_seen_at + a.touch_interval_sec * 1000) now) (
      on_sessions (λ t. (
        tt,
        touch_session (sha256_hex a.settings.crypto) session.sid now
            (now + a.settings.session_idle_ttl_sec * 1000) t,
      )))

  unfoldable pub auth_middleware : (optional : Bool) → M Passed
  unfolding resolve_request_auth
  auth_middleware optional = do
    passed ← resolve_request_auth
    stop_unless (csrf_of (is_some passed.session) false)
    no_credentials passed.user optional
    slide passed.session
    pure passed

abbrev public_session : Session → PublicSession
public_session session = record {
  user_id = session.user_id;
  subject_type = session.subject_type;
  created_at = session.created_at;
  idle_expires_at = session.idle_expires_at;
  absolute_expires_at = session.absolute_expires_at;
}

module _ (a : AuthConfig) (req : Request) (fresh : Fresh) (now : ℕ) where
  abbrev plain : InternalAuthMeta
  plain = record { email_verified_at = none; device_id = none }

  abbrev mint : Option (Option Session) → User → M Session
  mint given user =
      create_session_for a.settings fresh now false a.settings.session_idle_ttl_sec
        a.settings.session_absolute_ttl_sec given req user plain

  abbrev require_user : String → Option User → M User
  require_user reason none = do
    emit (Event.auth_failed reason none)
    stop_with Reply.unauthenticated
  require_user reason (some user) = pure user

  -- `POST /session`
  unfoldable post_session : M Reply
  unfolding read_cookie_session verify_providers create_session_for
  post_session = do
    current ← read_cookie_session a.settings now req
    stop_unless a req now (csrf_of a req now (is_some current) true)
    verified ← verify_providers req a.providers
    user ← require_user "no_credentials" verified
    session ← mint (some current) user
    pure (Reply.session_reply user (public_session session))

  abbrev report : Option Session → Option User → M Reply
  report (some session) (some user) = pure (Reply.session_reply user (public_session session))
  report _ _ = stop_with Reply.unauthenticated

  -- `GET /session`
  unfoldable get_session_route : M Reply
  unfolding read_cookie_session session_to_user
  get_session_route = do
    session ← read_cookie_session a.settings now req
    report session (user_of a req now session)

  abbrev end_current : Option Session → M (Unit {0})
  end_current none = pure tt
  end_current (some session) = do
    revoke_sid a.settings now session.sid
    emit (Event.session_revoked (fingerprint a.settings.crypto session.sid))

  -- `POST /logout`; the cookies are cleared even where there is no session.
  unfoldable post_logout : M Reply
  unfolding read_cookie_session revoke_sid
  post_logout = do
    current ← read_cookie_session a.settings now req
    stop_unless a req now (csrf_of a req now (is_some current) true)
    end_current current
    set_cookie SetCookie.clear_session
    pure Reply.done

  -- `GET /callback`, which is mounted where there are callback providers.
  unfoldable get_callback : (redirect_to : Option String) → M Reply
  unfolding verify_providers create_session_for safe_redirect_path
  get_callback redirect_to = do
    verified ← verify_providers req a.callback_providers
    user ← require_user "callback_rejected" verified
    session ← mint none user
    pure (Reply.redirect (safe_redirect_path redirect_to a.callback_redirect))
