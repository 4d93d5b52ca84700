-- ===== src/Tests/Routes.antt =====
-- The theorems about the routes at concrete requests.
use Prim.Native.String.{◌++◌}
use workers_auth.Prelude.{
  erase, ltb, ℕ, ◌+◌, ◌-◌, ◌≡◌, ◌<◌, refl, true, false, Option, none, some, List, [], ◌∷◌, arith,
  String, All, find, put, leb, if◌then◌else◌,
}
use workers_auth.Crypto.{
  secret_equals, verify_secret_hash, timing_safe_equal, timing_safe_equal_bytes, diff_bytes, to_hex,
  fingerprint, sha256_hex, hmac_hex,
}
use workers_auth.Limits.{Hit}
use workers_auth.Guards.{read_login_guard, reserve_login_attempt, reset_login_guard, GuardRow}
use workers_auth.Devices.{touch_device, DeviceRecord, find_device, revoke_all_devices}
use workers_auth.Creds.{
  revoke_active, insert_credential, get_active_credential, mark_credential_used, CredentialRow, pin,
  pin_material,
}
use workers_auth.Store.{replace_credential}
use workers_auth.Base64.{
  base64url_encode, btoa, to_url, strip_padding, base64_char, base64url_decode, from_url, pad, atob,
  drop_blanks, drop_padding, decode_groups, char_value, equals_signs,
}
use workers_auth.Material.{verify, derive, is_stale_material, enroll}
use workers_auth.Sessions.{
  revoke_all_for_user, revoke_session, create_session, Session, SessionRow, user, session_of,
  get_session,
}
use workers_auth.Pin.{
  is_pin_format, all_digits, is_weak_pin, is_shape, is_run, same_list, repeat, on_keypad, distinct,
  contains, has,
}
use workers_auth.Csrf.{
  verify_csrf, check_origin, canonical_origin, check_double_submit, is_state_changing,
}
use workers_auth.Web.{World, value, stop, Reply, User, PublicDevice}
use workers_auth.Request.{
  read_json, fits_within, device_token, all_of, take_text, drop_text, Request, RawBody,
}
use workers_auth.Handlers.{Settings, Fresh, cookie}
use workers_auth.Handlers.Session.{
  revoke_all_sessions, clear_session_cookies, mint_session, create_session_for, read_cookie_session,
  revoke_sid, store_create, get_bound, device_backs,
}
use workers_auth.Handlers.Session.Bound.{get_bound-backed}
use workers_auth.Handlers.Plumbing.{
  body, Budget, presented_device_token, set_device_cookie, gate, presented_device,
}
use workers_auth.Handlers.Plumbing.Gate.{gate-IsTrusted, IsTrusted}
use workers_auth.Handlers.Email.{key_ring}
use workers_auth.Keys.{build_key_ring, derive_keys, add_all}
use workers_auth.Handlers.Login.{
  is_fresh_email, new_credential, store_credential, after_replace, log_in, finish_login,
  login_on_device, try_pin, set_pin,
}
use workers_auth.Handlers.Login.Proven.{PinProof, login_on_device-PinProof}
use workers_auth.Handlers.Login.Failed.{failures, try_pin-counts}
use workers_auth.Handlers.Login.Enrol.{MaySet, set_pin-MaySet}
use workers_auth.Handlers.Manage.{revoke_all_route}
use workers_auth.Handlers.Manage.Ended.{IsOthers, IsEnded, revoke_all_route-ends}
use workers_auth.Handlers.Verify.{
  reserve_attempt, match_code, consume, refund, checked, VerifyInput, check_code,
}
use workers_auth.Handlers.Verify.Matched.{CodeProof, check_code-CodeProof}
use workers_auth.Codes.{consume_email_code, CodeRow, reserve_email_code_attempt}
use workers_auth.Tests.Sessions.{platform, parse, config}

abbrev pub ann : User
ann = record {
  id = "ann";
  subject_type = user;
  email = some "ann@a.b";
  rate_limit_id = "ann";
  provider = none;
}

abbrev pub settings : Settings
settings = record {
  crypto = platform;
  parse_url = parse;
  csrf = config;
  transport = cookie;
  secret = "new secret";
  previous_secrets = [];
  session_idle_ttl_sec = 1;
  session_absolute_ttl_sec = 2;
  device_idle_ms = 5000;
  device_absolute_ms = 9000;
  pin_iterations = 1000;
  pin_max_attempts = 3;
  reject_date_like = false;
  extra_weak = λ entered. false;
  revoke_others_on_change = true;
  code_ttl_ms = 600;
  code_max_attempts = 5;
  code_digits = 6;
  max_failures_per_email = 10;
  max_failures_per_device = 10;
  failure_window_sec = 1;
  fresh_ms = 600;
  bearer_ttl_sec = 3;
  cooldown_sec = 1;
  per_email = 5;
  starts_per_ip = 20;
  verifies_per_ip = 60;
  pin_logins_per_ip = 60;
  breaker = none;
  require_client_ip = false;
  bot_check = none;
  normalize_email = λ raw. some raw;
  resolve_user = λ email. some (some ann);
}

abbrev device_id : String
device_id = "0123456789abcdef0123456789abcdef"

abbrev device_secret : String
device_secret = "abcdefghijklmnopqrstuvwxyzABCDEFGHIJKLMNO-_"

abbrev device : DeviceRecord
device = record {
  device_id = device_id;
  account_id = "ann";
  email = "ann@a.b";
  secret_hash = sha256_hex platform device_secret;
  label = none;
  created_at = 0;
  last_used_at = 0;
  idle_expires_at = 5000;
  absolute_expires_at = 9000;
  revoked_at = none;
}

abbrev entered : String
entered = "482915"

abbrev salt : List ℕ
salt = 1 ∷ 2 ∷ []

abbrev credential : CredentialRow
credential = record {
  credential_id = "c1";
  account_id = "ann";
  kind = pin;
  device_id = none;
  material = pin_material (enroll platform 1000 (key_ring settings) salt entered);
  created_at = 20;
  updated_at = 20;
  last_used_at = none;
  revoked_at = none;
}

abbrev pub row : SessionRow
row = record {
  user_id = "ann";
  subject_type = user;
  created_at = 50;
  last_seen_at = 50;
  idle_expires_at = 1050;
  absolute_expires_at = 2050;
  auth = record {
    email = some "ann@a.b";
    provider = none;
    rate_limit_id = some "ann";
    bearer = false;
    email_verified_at = some 50;
    device_id = some device_id;
  };
}

abbrev pub world : World
world = record {
  store = record {
    limits = [];
    codes = [];
    devices = device ∷ [];
    creds = credential ∷ [];
    guards = [];
  };
  sessions = record { rows = (sha256_hex platform "s", row) ∷ []; revocations = none };
  events = [];
  cookies = [];
  sent = [];
}

abbrev body_of : Option String → RawBody
body_of entered = record {
  declared = none;
  chunks = 20 ∷ [];
  parsed = some (record {
    email = none;
    code = none;
    trust_device = true;
    device_label = none;
    pin = entered;
  });
}

abbrev pub req : Request
req = record {
  csrf = record {
    method = "POST";
    url = "https://a";
    origin = some "https://a";
    csrf_header = some "token";
  };
  session_cookie = some "s";
  csrf_cookie = some "token";
  bearer_sid = none;
  device_cookie = some (device_id ++ ("." ++ device_secret));
  device_header = none;
  client_ip = none;
  body = body_of (some "482915");
}

abbrev pub fresh : Fresh
fresh = record {
  sid = "s2";
  csrf_token = "t2";
  device_id = "d2";
  device_secret = "x";
  credential_id = "c2";
  salt = salt;
  code = "123456";
}

abbrev logged_in_user : User
logged_in_user = record ann { provider = some "device-pin" }

abbrev extended : PublicDevice
extended = record { device_id = device_id; idle_expires_at = 5100; absolute_expires_at = 9000 }

login_ok :
    (login_on_device settings req fresh 100 entered world).0
    ≡ value (Reply.logged_in logged_in_user extended none)
unfolding login_on_device presented_device presented_device_token device_token all_of take_text
    drop_text find_device verify_secret_hash timing_safe_equal timing_safe_equal_bytes diff_bytes
    sha256_hex to_hex get_active_credential try_pin verify derive enroll is_stale_material key_ring
    build_key_ring derive_keys add_all reserve_login_attempt log_in reset_login_guard
    mark_credential_used touch_device finish_login set_device_cookie mint_session create_session_for
    read_cookie_session get_bound get_session revoke_sid revoke_session store_create create_session
    find put erase fingerprint device_backs base64url_encode btoa to_url strip_padding base64_char
    base64url_decode from_url pad atob drop_blanks drop_padding decode_groups char_value
    equals_signs
login_ok = refl

login_on_device-PinProof_example : PinProof settings req fresh 100 entered world logged_in_user
login_on_device-PinProof_example =
    login_on_device-PinProof settings req fresh 100 entered world logged_in_user extended none
      login_ok

abbrev failed_twice : GuardRow
failed_twice = record { failed_count = 2; locked_at = none; updated_at = 90 }

abbrev locked : GuardRow
locked = record { failed_count = 3; locked_at = some 90; updated_at = 90 }

abbrev with_guard : GuardRow → World
with_guard guard = record world { store = record (world.store) { guards = ("ann", guard) ∷ [] } }

try_pin-counts_example :
    let out = try_pin settings req fresh 100 "000000" device credential (with_guard failed_twice) in
    let before = read_login_guard "ann" (with_guard failed_twice).store.guards in
    let failed = failures before in
    let count = failed + 1 in
    let is_last = leb settings.pin_max_attempts count in
    (out.0
      ≡ stop (
          if is_last
          then Reply.email_verification_required
          else Reply.invalid_pin (settings.pin_max_attempts - count)))
    × (read_login_guard "ann" out.1.store.guards ≡ (
        if ltb failed settings.pin_max_attempts
        then some (record { failed_count = count; locked_at = if is_last then some 100 else none })
        else before))
unfolding base64url_encode btoa to_url strip_padding base64_char base64url_decode from_url pad atob
    drop_blanks drop_padding decode_groups char_value equals_signs verify derive enroll
    timing_safe_equal_bytes diff_bytes key_ring build_key_ring derive_keys add_all find put to_hex
    read_login_guard
try_pin-counts_example =
    try_pin-counts settings req fresh 100 "000000" device credential (with_guard failed_twice)
      (omega arith) refl refl

abbrev pub session : Session
session = session_of "s" row

bound_ok : (get_bound settings 100 "s" world).0 ≡ value (some session)
unfolding get_bound get_session find sha256_hex to_hex find_device device_backs
bound_ok = refl

get_bound-backed_example :
    (d : DeviceRecord) × (find_device device_id world.store.devices ≡ some d)
    × (d.account_id ≡ session.user_id)
    × (d.revoked_at ≡ none)
    × (100 < d.idle_expires_at)
    × (100 < d.absolute_expires_at)
get_bound-backed_example = get_bound-backed settings 100 "s" device_id session world bound_ok refl

abbrev no_devices : World
no_devices = record world { store = record (world.store) { devices = [] } }

gate_ok : (gate settings req 100 world).0 ≡ value (some session)
unfolding gate read_cookie_session get_bound get_session find sha256_hex to_hex find_device
    device_backs verify_csrf is_state_changing check_origin canonical_origin check_double_submit
    secret_equals timing_safe_equal_bytes same_list
gate_ok = refl

gate-IsTrusted_example : IsTrusted settings req 100 (some session)
unfolding is_state_changing same_list
gate-IsTrusted_example = gate-IsTrusted settings req 100 world (some session) refl refl refl gate_ok

set_pin_ok : (set_pin settings req fresh 100 world).0 ≡ value Reply.signed_out
unfolding set_pin gate read_cookie_session get_bound get_session find sha256_hex to_hex find_device
    device_backs verify_csrf is_state_changing check_origin canonical_origin check_double_submit
    secret_equals timing_safe_equal_bytes body read_json fits_within is_fresh_email is_pin_format
    all_digits is_weak_pin is_shape is_run same_list repeat on_keypad distinct contains has
    new_credential store_credential replace_credential revoke_active insert_credential
    reset_login_guard revoke_all_devices after_replace revoke_all_sessions revoke_all_for_user
    clear_session_cookies enroll derive key_ring build_key_ring derive_keys add_all put
set_pin_ok = refl

set_pin-MaySet_example : MaySet settings req fresh 100 world
set_pin-MaySet_example = set_pin-MaySet settings req fresh 100 world Reply.signed_out set_pin_ok

revoke_all_route-ends_example :
    let out = revoke_all_route settings req 100 world in
    let revoked = revoke_all_devices "ann" 100 none (gate settings req 100 world).1.store.devices in
    (out.0 ≡ value (Reply.revoked_all (revoked.0)))
    × (out.1.store.devices ≡ revoked.1)
    × All (IsEnded "ann") out.1.store.devices
    × All (IsOthers "ann") out.1.sessions.rows
revoke_all_route-ends_example = revoke_all_route-ends settings req 100 world session gate_ok

abbrev input : VerifyInput
input = record { email = "ann@a.b"; code = "123456"; trust_device = true; label = none }

abbrev budget : Budget
budget = record { failures = "otp-fail:x"; max_failures = 10; send = "x"; scope = "email" }

abbrev slot : Hit
slot = record { count = 1; window_start = 100 }

abbrev code_row : CodeRow
code_row = record {
  code_hash =
      hmac_hex platform ((key_ring settings).current.otp_key) ("ann@a.b" ++ ("\n" ++ "123456"));
  key_id = (key_ring settings).current.key_id;
  attempts = 4;
  attempts_reset_at = 600;
  expires_at = 600;
  created_at = 0;
}

abbrev with_code : World
with_code = record world { store = record (world.store) { codes = ("ann@a.b", code_row) ∷ [] } }

check_code_ok :
    (check_code settings req 100 input budget slot with_code).0
    ≡ value (record ann { provider = some "email-code" })
unfolding check_code reserve_attempt match_code consume refund checked reserve_email_code_attempt
    find key_ring build_key_ring add_all put derive_keys to_hex timing_safe_equal
    timing_safe_equal_bytes diff_bytes hmac_hex consume_email_code
check_code_ok = refl

check_code-CodeProof_example : CodeProof settings 100 input with_code
check_code-CodeProof_example =
    check_code-CodeProof settings req 100 input budget slot with_code
      (record ann { provider = some "email-code" }) check_code_ok
