-- ===== src/Tests/Providers.antt =====
-- The theorems about magic links and API keys at concrete inputs.
use workers_auth.Prelude.{
  ℕ, ◌+◌, ◌≤◌, ◌≡◌, ◌≢◌, refl, true, false, none, some, List, [], ◌∷◌, arith, String, find, put,
  Table, eq_iff,
}
use workers_auth.Web.{User}
use workers_auth.Sessions.{SubjectType}
use workers_auth.Routes.{nobody, somebody}
use workers_auth.Request.{looks_like_email, all_of}
use workers_auth.Ip.Text.{trim}
use workers_auth.Tests.Sessions.{platform}
use workers_auth.Crypto.{sha256_hex, to_hex}
use workers_auth.Base64.{base64url_encode}
use workers_auth.MagicLink.{
  LinkRequest, LinkWorld, MagicLinkOptions, tokenless, get_token, start, normalize_email, user_of,
  verify_link,
}
use workers_auth.MagicLink.SingleUse.{LinkCall, log_ins, issues, held, log_ins-le-issues, run_links}
use workers_auth.MagicLink.Issued.{verify-start}
use workers_auth.ApiKeys.{
  ApiKeyRecord, IssueApiKeyInput, IssuedApiKey, ApiKeyOptions, issue_api_key, verify_api_key,
}
use workers_auth.ApiKeys.Text.{ParsedApiKey, parse_api_key}
use workers_auth.ApiKeys.Stores.{d1, put_d1, revoke_d1}
use workers_auth.ApiKeys.Fresh.{IsToken}
use workers_auth.ApiKeys.Accepted.{d1_laws, verify-issue}
use workers_auth.ApiKeys.Proven.{KeyProof, verify_api_key-KeyProof}
use workers_auth.ApiKeys.Revoked.{KeyCall, run_d1, verify-revoke_d1}

abbrev link_options : MagicLinkOptions
link_options = record {
  hash = λ token. token;
  to_lower_case = λ email. email;
  ttl_sec = 900;
  allow_token_in_query = false;
  sends = λ email token. true;
  resolve_user = none;
  name = "magic-link";
}

abbrev presenting : String → LinkRequest
presenting token = record {
  query_token = none;
  header_token = some token;
  is_json = false;
  body = tokenless;
}

abbrev no_links : LinkWorld
no_links = record { links = []; sent = []; send_errors = 0 }

abbrev link_calls : List LinkCall
link_calls =
    LinkCall.begin "ann@example.org" "one" 1000
    ∷ LinkCall.begin "bob@example.org" "two" 1000
    ∷ LinkCall.present (presenting "one") 2000
    ∷ LinkCall.present (presenting "one") 2000
    ∷ LinkCall.clean 3000
    ∷ []

log_ins-le-issues_example :
    log_ins link_options "one" link_calls no_links
    ≤ held (find "one" no_links.links) + issues link_options "one" link_calls no_links
log_ins-le-issues_example = log_ins-le-issues link_options "one" link_calls no_links

abbrev stored_link : LinkWorld
stored_link = record {
  links = ("one", record { email = "ann@example.org"; expires_at = 901000 }) ∷ [];
  sent = ("ann@example.org", "one") ∷ [];
  send_errors = 0;
}

abbrev other_calls : List LinkCall
other_calls =
    LinkCall.begin "bob@example.org" "two" 1000
    ∷ LinkCall.present (presenting "two") 1500
    ∷ LinkCall.clean 3000
    ∷ []

two-no_one : (t : String) → some "two" ≡ some t → t ≢ "one"
two-no_one t e f = ground (arith, eq_iff "two" "one")

verify-start_example :
    let links = (run_links link_options other_calls stored_link).links in
    ((verify_link link_options (presenting "one") 900999 links).0
      ≡ user_of link_options link_options.resolve_user
          (normalize_email link_options "ann@example.org"))
    × ((verify_link link_options
          (presenting "one")
          900999
          (verify_link link_options (presenting "one") 900999 links).1).0
        ≡ nobody)
unfolding get_token start find looks_like_email trim all_of put
verify-start_example =
    verify-start link_options "ann@example.org" "one" 1000 no_links stored_link other_calls
      (presenting "one") 900999 900999 refl refl (tt, (two-no_one, (omega arith, tt))) refl
      (omega arith)

abbrev key_options : ApiKeyOptions
key_options = record {
  crypto = platform;
  env = some "live";
  track_last_used = true;
  name = "api-key";
}

abbrev id_bytes : List ℕ
id_bytes = 0 ∷ 1 ∷ 2 ∷ 3 ∷ 4 ∷ 5 ∷ 6 ∷ 7 ∷ 8 ∷ 9 ∷ 171 ∷ 255 ∷ []

abbrev secret : String
secret = "AAAAAAAAAAAAAAAAAAAAAAAAAAAAAAAAAAAAAAAAAAA"

abbrev zeros : List ℕ
zeros =
    0 ∷ 0 ∷ 0 ∷ 0 ∷ 0 ∷ 0 ∷ 0 ∷ 0 ∷ 0 ∷ 0 ∷ 0 ∷ 0 ∷ 0 ∷ 0 ∷ 0 ∷ 0 ∷ 0 ∷ 0 ∷ 0 ∷ 0 ∷ 0 ∷ 0 ∷ 0 ∷ 0
    ∷ 0 ∷ 0 ∷ 0 ∷ 0 ∷ 0 ∷ 0 ∷ 0 ∷ 0 ∷ []

secret-IsToken : IsToken secret
unfolding base64url_encode
secret-IsToken = record { bytes = zeros; size = refl; in_range = search arith; encoded = refl }

abbrev input : IssueApiKeyInput
input = record { env = "live"; subject_id = "service-1"; label = none; ttl_sec = some 60 }

abbrev issued_entry : ApiKeyRecord
issued_entry = record {
  key_id = to_hex id_bytes;
  env = "live";
  secret_hash = sha256_hex platform secret;
  subject_id = "service-1";
  label = none;
  created_at = 1000;
  expires_at = some 61000;
  last_used_at = none;
  revoked_at = none;
}

abbrev issued : IssuedApiKey
issued = record {
  key = "tk_live_00010203040506070809abff.AAAAAAAAAAAAAAAAAAAAAAAAAAAAAAAAAAAAAAAAAAA";
  key_id = to_hex id_bytes;
  entry = issued_entry;
}

abbrev held_keys : Table ApiKeyRecord
held_keys = (to_hex id_bytes, issued_entry) ∷ []

verify-issue_example :
    (verify_api_key d1 key_options (some issued.key) 60999 held_keys).0
    ≡ somebody (record {
      id = "service-1";
      subject_type = SubjectType.service;
      email = none;
      rate_limit_id = to_hex id_bytes;
      provider = some "api-key";
    })
unfolding issue_api_key find put_d1 put
verify-issue_example =
    verify-issue d1 d1_laws key_options id_bytes secret 1000 60999 input [] held_keys issued
      (refl, search arith) secret-IsToken refl refl refl refl

abbrev service : User
service = record {
  id = "service-1";
  subject_type = SubjectType.service;
  email = none;
  rate_limit_id = to_hex id_bytes;
  provider = some "api-key";
}

verify_api_key-KeyProof_example : KeyProof d1 key_options issued.key 60999 held_keys service
unfolding issue_api_key find put_d1 put
verify_api_key-KeyProof_example =
    verify_api_key-KeyProof d1 key_options issued.key 60999 held_keys service (
      verify-issue d1 d1_laws key_options id_bytes secret 1000 60999 input [] held_keys issued
        (refl, search arith) secret-IsToken refl refl refl refl)

abbrev parsed_key : ParsedApiKey
parsed_key = record { env = "live"; key_id = to_hex id_bytes; secret = secret }

abbrev key_calls : List KeyCall
key_calls = KeyCall.touch_call (to_hex id_bytes) 3000 ∷ KeyCall.revoke_call "other" 4000 ∷ []

never_zero : (r : ApiKeyRecord) → find (to_hex id_bytes) held_keys ≡ some r → r.revoked_at ≢ some 0
unfolding find to_hex
never_zero r e f = ground arith

verify-revoke_d1_example :
    (verify_api_key d1 key_options
      (some issued.key)
      5000
      (run_d1 key_calls (revoke_d1 (to_hex id_bytes) 2000 held_keys))).0
    ≡ nobody
unfolding parse_api_key to_hex
verify-revoke_d1_example =
    verify-revoke_d1 key_options issued.key parsed_key 2000 5000 key_calls held_keys refl
      (omega arith) never_zero (tt, (tt, tt))
