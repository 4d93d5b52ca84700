-- ===== src/Auth/Operations.antt =====
-- index.ts: `destroySession` and `verify` of the `Auth`, and what `destroySession` leaves.
use workers_auth.Prelude.{ℕ, ◌≡◌, Option, none, some, List, arith, find, find-erase_self}
use workers_auth.Crypto.{sha256_hex}
use workers_auth.Sessions.{Session, revoke_session}
use workers_auth.Web.{M, ◌>>=◌, ◌>>◌, pure, set_cookie, SetCookie, User, World, value}
use workers_auth.Request.{Request}
use workers_auth.Handlers.{Settings}
use workers_auth.Handlers.Session.{read_cookie_session, revoke_sid}
use workers_auth.Routes.{Provider, verify_providers}

module _ (s : Settings) (req : Request) (now : ℕ) where
  abbrev revoke_current : Option Session → M (Unit {0})
  revoke_current none = pure tt
  revoke_current (some session) = revoke_sid s now session.sid

  -- `destroySession`
  unfoldable pub destroy_session : M (Unit {0})
  unfolding read_cookie_session revoke_sid
  destroy_session = do
    session ← read_cookie_session s now req
    revoke_current session
    set_cookie SetCookie.clear_session

  -- `verify`
  unfoldable verify : List Provider → M (Option User)
  unfolding verify_providers
  verify providers = verify_providers req providers

  -- `destroySession` of a request whose cookie has a session deletes that session's row, and clears
  -- the cookies.
  pub destroy_session-ends :
      (session : Session) (world : World)
      → (read_cookie_session s now req world).0 ≡ value (some session)
      → let out = destroy_session world in
        (out.0 ≡ value tt) × (find (sha256_hex s.crypto session.sid) out.1.sessions.rows ≡ none)
  unfolding destroy_session revoke_sid revoke_session
  destroy_session-ends session world h = ground (
    arith,
    h,
    find-erase_self (sha256_hex s.crypto session.sid)
        (read_cookie_session s now req world).1.sessions.rows,
  )
