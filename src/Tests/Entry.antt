-- ===== src/Tests/Entry.antt =====
-- The theorems about sessions in D1, providers, the middleware and redirects at concrete inputs.
use workers_auth.Prelude.{
  codes, ◌≡◌, ◌⊎◌, refl, String, false, none, some, List, [], ◌∷◌, arith, find, put, erase,
}
use workers_auth.Crypto.{sha256_hex, to_hex}
use workers_auth.Sessions.{
  Session, SessionTable, NewSession, user, create_session, revoke_session, get_session, session_of,
  first_row,
}
use workers_auth.Sessions.Lifecycle.{SessionCall, run_sessions, absolute_end}
use workers_auth.Web.{value}
use workers_auth.Web.Blind.{outcome}
use workers_auth.Handlers.Email.{email_start}
use workers_auth.Handlers.Email.Unseen.{email_start_blind}
use workers_auth.Handlers.Session.{
  create_session_for, store_create, InternalAuthMeta, read_cookie_session, get_bound, device_backs,
}
use workers_auth.Handlers.Session.Rotation.{new_row, create_session_for-rotates}
use workers_auth.Handlers.Manage.{session_to_user}
use workers_auth.Devices.{find_device}
use workers_auth.Csrf.{
  verify_csrf, is_state_changing, check_origin, canonical_origin, check_double_submit,
}
use workers_auth.Crypto.{secret_equals, timing_safe_equal_bytes, diff_bytes}
use workers_auth.Routes.{
  Provider, broken, nobody, somebody, safe_redirect_path, AuthConfig, Passed, auth_middleware,
  resolve_request_auth,
}
use workers_auth.Pin.{same_list, contains}
use workers_auth.Routes.Redirect.{IsSameSite, url_text, safe_redirect_path-IsSameSite}
use workers_auth.Routes.Entry.{IsEntered, auth_middleware-IsEntered}
use workers_auth.Tests.Routes.{settings, req, fresh, world, session, ann, row}
use workers_auth.Tests.Sessions.{platform}

abbrev key : String → String
key sid = sid

abbrev input : NewSession
input = record {
  user_id = "ann";
  subject_type = user;
  idle_ttl_sec = 1;
  absolute_ttl_sec = 2;
  auth = row.auth;
}

abbrev empty : SessionTable
empty = record { rows = []; revocations = none }

abbrev begun : SessionTable
begun = record { rows = ("s", first_row 100 input) ∷ []; revocations = none }

begun_ok :
    create_session key "s" 100 input empty ≡ some (session_of "s" (first_row 100 input), begun)
unfolding create_session find put
begun_ok = refl

abbrev calls : List SessionCall
calls =
    SessionCall.touch "s" 900 1900
    ∷ SessionCall.create "other" 1000 input
    ∷ SessionCall.touch "s" 1800 9000
    ∷ SessionCall.cleanup 1900
    ∷ []

absolute_end_example : (get_session key "s" 2100 (run_sessions key calls begun)).0 ≡ none
absolute_end_example =
    absolute_end key "s" 100 2100 input calls empty begun (session_of "s" (first_row 100 input))
      begun_ok (omega arith) (refl, tt)

abbrev providers : List Provider
providers =
    record { name = "down"; verify = λ r. broken "Error" }
    ∷ record { name = "none"; verify = λ r. nobody }
    ∷ record { name = "ann"; verify = λ r. somebody ann }
    ∷ []

abbrev elsewhere : String
elsewhere = "//evil.example/"

safe_redirect_path-IsSameSite_example :
    (safe_redirect_path (some elsewhere) "/home" ≡ "/home")
    ⊎ ((safe_redirect_path (some elsewhere) "/home" ≡ elsewhere) × IsSameSite (codes elsewhere))
safe_redirect_path-IsSameSite_example =
    safe_redirect_path-IsSameSite elsewhere "/home" (search arith)

-- A tab between two slashes passes, and URL parsing drops it.
tab_passes :
    (safe_redirect_path (some "/\t/evil.example") "/" ≡ "/\t/evil.example")
    × (url_text (codes "/\t/evil.example") ≡ codes "//evil.example")
unfolding safe_redirect_path contains
tab_passes = (refl, refl)

abbrev auth : AuthConfig
auth = record {
  settings = settings;
  providers = providers;
  callback_providers = [];
  callback_redirect = "/";
  touch_interval_sec = 60;
}

abbrev entered : Passed
entered = record { user = session_to_user session; session = some session }

middleware_ok : (auth_middleware auth req 100 false world).0 ≡ value entered
unfolding auth_middleware resolve_request_auth read_cookie_session get_bound get_session find
    sha256_hex to_hex find_device device_backs session_to_user verify_csrf same_list
    is_state_changing check_origin canonical_origin check_double_submit secret_equals
    timing_safe_equal_bytes diff_bytes
middleware_ok = refl

auth_middleware-IsEntered_example : IsEntered auth req 100 world entered
auth_middleware-IsEntered_example =
    auth_middleware-IsEntered auth req 100 world entered middleware_ok

abbrev plain : InternalAuthMeta
plain = record { email_verified_at = none; device_id = none }

abbrev second : Session
second = session_of "s2" (new_row settings fresh 100 1 2 ann plain)

rotated_ok :
    (create_session_for settings fresh 100 false 1 2 (some (some session)) req ann plain world).0
    ≡ value second
unfolding create_session_for store_create create_session revoke_session erase find sha256_hex
rotated_ok = refl

create_session_for-rotates_example :
    let out =
      create_session_for settings fresh 100 false 1 2 (some (some session)) req ann plain world in
    let rows = out.1.sessions.rows in
    (second.sid ≡ "s2")
    × (second.user_id ≡ "ann")
    × (find (sha256_hex platform "s") rows ≡ none)
    × (find (sha256_hex platform "s2") rows ≡ some (new_row settings fresh 100 1 2 ann plain))
unfolding sha256_hex to_hex
create_session_for-rotates_example =
    create_session_for-rotates settings fresh 100 1 2 session req ann plain world second rotated_ok
      refl

email_start_blind_example :
    let other = record world {
      store = record (world.store) { creds = []; guards = []; codes = [] };
    } in
    outcome (email_start settings req fresh 100 world)
    ≡ outcome (email_start settings req fresh 100 other)
email_start_blind_example = email_start_blind settings req fresh 100 world [] [] []
