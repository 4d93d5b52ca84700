-- ===== src/Tests/Client.antt =====
-- The theorems about the browser client and bearer sessions at concrete inputs.
use workers_auth.Prelude.{
  ℕ, zero, suc, ◌≡◌, refl, String, Bool, true, Option, none, some, List, [], ◌∷◌, arith, codes,
  find, put,
}
use workers_auth.Cookies.Parse.{Cookies, get_cookie, is_inherited, lookup}
use workers_auth.Cookies.Parsed.{cookie_header}
use workers_auth.Crypto.{sha256_hex}
use workers_auth.Sessions.{create_session}
use workers_auth.Web.{value, BearerGrant}
use workers_auth.Request.{Request, all_of}
use workers_auth.Handlers.{Settings, Fresh, response}
use workers_auth.Handlers.Session.{InternalAuthMeta, mint_session, create_session_for, store_create}
use workers_auth.Pin.{same_list, contains}
use workers_auth.Client.{
  fetch_init, csrf_name, header_name, logout_init, settle, session, logout, request, sent_of,
  arrived,
}
use workers_auth.Client.State.{ClientResponse, AuthClientOptions, new_client, answered}
use workers_auth.Client.Wire.{
  ClientEvent, read_session, log_out, settled, IsWired, run, run-IsWired,
}
use workers_auth.Client.Answered.{Settlements, events_of, is_settled, IsAnswered, settle-IsAnswered}
use workers_auth.Client.Shared.{reads, all_rejected, session-shared}
use workers_auth.Client.Echoed.{shown, not_empty, logout-echoes}
use workers_auth.Bearer.{bearer_session_token, read_bearer_session_id, verify_bearer}
use workers_auth.Bearer.Accepted.{bearer_header}
use workers_auth.Bearer.Minted.{stored, verify-mint_session}
use workers_auth.Tests.Routes.{ann, settings, req, fresh, world}

abbrev options : AuthClientOptions
options = record { base_url = none; csrf_cookie_name = none; csrf_header_name = none }

-- The values of `json()` are texts, none of which is an error.
abbrev no_error : String → Option String
no_error body = none

abbrev jar : Option (List ℕ)
jar = some (codes "__Host-csrf=t")

-- A response of the platform, whose body is read once.
abbrev first_only : ℕ → Option String
first_only zero = some "ann"
first_only (suc n) = none

abbrev success : ClientResponse String
success = record { ok = true; status = 200; json = first_only }

-- Two reads and a logout, of which the logout settles.
abbrev events : List (ClientEvent String)
events = read_session ∷ log_out jar ∷ read_session ∷ settled 1 (some success) ∷ []

run-IsWired_example : IsWired (run options no_error events new_client)
run-IsWired_example = run-IsWired options no_error events

abbrev settlements : Settlements String
settlements = (0, none) ∷ []

settle-IsAnswered_example :
    IsAnswered options no_error
      (run options no_error events new_client)
      (run options no_error (events_of settlements) (run options no_error events new_client))
unfolding run session logout request settle sent_of arrived is_settled find put
settle-IsAnswered_example =
    settle-IsAnswered options no_error events settlements (λ id e. ground arith)

session-shared_example :
    let s = run options no_error (log_out jar ∷ []) new_client in
    let after = run options no_error (reads 2) s in
    (after.fetches ≡ 2)
    × ((settle options no_error 1 (some success) after).answers
        ≡ (1, answered "ann") ∷ all_rejected 2 1)
unfolding find run logout request
session-shared_example =
    session-shared options no_error (log_out jar ∷ []) 1 success refl refl refl (λ n. refl)

abbrev cookies : Cookies
cookies = (codes "__Host-session", codes "s") ∷ (codes "__Host-csrf", codes "t;1") ∷ []

abbrev is_session : List ℕ → Bool
is_session name = same_list name (codes "__Host-session")

logout-echoes_example :
    find
      (header_name options no_error)
      (fetch_init options no_error
        (logout_init options no_error (some (cookie_header (shown is_session cookies))))).headers
    ≡ not_empty (get_cookie (some (cookie_header cookies)) (csrf_name options no_error))
unfolding all_of contains is_inherited same_list lookup
logout-echoes_example =
    logout-echoes options no_error is_session cookies
      (
        record { token = refl; own = refl; scalars = search arith },
        (record { token = refl; own = refl; scalars = search arith }, tt),
      )
      (refl, (refl, tt)) refl refl

abbrev sid : String
sid = "abcdefghijklmnopqrstuvwxyz"

abbrev bearer_settings : Settings
bearer_settings = record settings { transport = response }

abbrev bearer_fresh : Fresh
bearer_fresh = record fresh { sid = sid }

abbrev on_no_device : InternalAuthMeta
on_no_device = record { email_verified_at = some 100; device_id = none }

abbrev grant : BearerGrant
grant = record { sid = sid; expires_at = 3100 }

abbrev next : Request
next = record req {
  bearer_sid = read_bearer_session_id (some (bearer_header (bearer_session_token sid)));
}

verify-mint_session_example :
    (verify_bearer bearer_settings 3000 next
      (mint_session bearer_settings bearer_fresh 100 req ann on_no_device world).1).0
    ≡ value (some (stored ann))
unfolding all_of mint_session create_session_for store_create create_session find sha256_hex
verify-mint_session_example =
    verify-mint_session bearer_settings bearer_fresh 100 3000 req next ann on_no_device world grant
      refl (record { chars = refl; longer = omega arith; shorter = omega arith }) refl refl refl
      (omega arith) refl
