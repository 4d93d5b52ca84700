-- ===== src/Bearer.antt =====
-- providers/session-bearer.ts: the header that carries a bearer session, and the provider.
pub mod Accepted
pub mod Minted
use Prim.Native.String
use workers_auth.Prelude.{
  ℕ, String, Bool, true, false, ◌&&◌, not, Option, none, some, leb, ltb, length, if◌then◌else◌,
  codes, ◌==◌,
}
use workers_auth.Csrf.{given}
use workers_auth.Sessions.{Session}
use workers_auth.Request.{all_of, is_url_char, Request, utf16_length}
use workers_auth.ApiKeys.Text.{after, bearer_key, bearer_of}
use workers_auth.Web.{M, ◌>>=◌, ◌>>◌, pure, User}
use workers_auth.Handlers.{Settings}
use workers_auth.Handlers.Manage.{session_to_user}
use workers_auth.Handlers.Session.{read_bearer_session, revoke_sid}

abbrev bearer_session_prefix : String
bearer_session_prefix = "wsb_"

abbrev max_token_length : ℕ
max_token_length = 128

-- `bearerSessionToken`
abbrev pub bearer_session_token : String → String
bearer_session_token sid = String.◌++◌ bearer_session_prefix sid

abbrev after_next : ℕ → Option String → Option String
after_next sep none = none
after_next sep (some rest) = after sep rest

-- `startsWith` and `slice`
abbrev without_prefix : String → Option String
without_prefix token = after_next b'_' (after_next b'b' (after_next b's' (after b'w' token)))

abbrev is_sid : String → Bool
is_sid sid = leb 20 (length (codes sid)) && all_of is_url_char (codes sid)

abbrev checked_sid : Option String → Option String
checked_sid none = none
checked_sid (some sid) = if is_sid sid then some sid else none

abbrev sid_of : Option String → Option String
sid_of none = none
sid_of (some token) =
    if ltb max_token_length (utf16_length (codes token))
    then none
    else checked_sid (without_prefix token)

-- `readBearerSessionId`, of the header `authorization`
unfoldable pub read_bearer_session_id : Option String → Option String
unfolding bearer_key after all_of utf16_length
read_bearer_session_id header = sid_of (bearer_of (given header))

module _ (s : Settings) (now : ℕ) where
  abbrev revoke_read : Option Session → M Bool
  revoke_read none = pure false
  revoke_read (some session) = revoke_sid s now session.sid >> pure true

  -- `revokeBearerSession`, of a device-bound store
  unfoldable pub revoke_bearer_session : Request → M Bool
  unfolding read_bearer_session revoke_sid
  revoke_bearer_session req = do session ← read_bearer_session s now req; revoke_read session

  abbrev user_read : Option Session → M (Option User)
  user_read none = pure none
  user_read (some session) = pure (session_to_user session)

  -- `sessionBearer`: its `verify`, whose session has a rate-limit id.
  unfoldable pub verify_bearer : Request → M (Option User)
  unfolding read_bearer_session session_to_user
  verify_bearer req = do session ← read_bearer_session s now req; user_read session
