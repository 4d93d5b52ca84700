-- ===== src/Tests/Options.antt =====
-- The theorems about options and drawn codes at concrete inputs.
use workers_auth.Prelude.{
  ℕ, ◌/◌, ◌%◌, ◌≡◌, refl, true, false, none, some, List, [], ◌∷◌, ◌++◌, arith, codes,
}
use workers_auth.Pin.{same_list, contains}
use workers_auth.Request.{all_of}
use workers_auth.Handlers.{Settings, cookie}
use workers_auth.Tests.Sessions.{platform, parse, config}
use workers_auth.Cookies.{
  CookieConfig, ResolvedCookieConfig, lax, after_prefix, resolve_cookie_config,
  session_cookie_headers,
}
use workers_auth.Auth.{
  SessionTtls, absent, given, CreateAuthOptions, ResolvedAuthConfig, create_auth,
}
use workers_auth.Auth.Checked.{IsSound, create_auth-IsSound}
use workers_auth.DeviceAuth.{device_auth, settings_of}
use workers_auth.DeviceAuth.Options.{DeviceAuthOptions, no_ratio, ◌>>=◌}
use workers_auth.DeviceAuth.Checked as Device
use workers_auth.EmailCode.{six, eight, space, code_text, generate_email_code}
use workers_auth.EmailCode.Returned.{IsCode, generate_email_code-IsCode}
use workers_auth.EmailCode.Uniform.{is_text, count_below, count_below-generate}

generate_email_code-IsCode_example :
    (text : List ℕ) × (generate_email_code six
        ((4294000000 ∷ 4294967295 ∷ []) ++ (4293000042 ∷ 7 ∷ []))
      ≡ some text)
    × IsCode six (4293000042 % space six) text
generate_email_code-IsCode_example =
    generate_email_code-IsCode six (4294000000 ∷ 4294967295 ∷ []) 4293000042 (7 ∷ [])
      (omega arith, (omega arith, tt)) (omega arith)

count_below-generate_example :
    count_below (λ v. is_text (code_text eight 42) (generate_email_code eight (v ∷ []))) 4294967296
    ≡ 4294967296 / space eight
count_below-generate_example = count_below-generate eight 42 (omega arith)

abbrev cookie_config : CookieConfig
cookie_config = record {
  name = some (codes "sid");
  csrf_name = none;
  prefix = none;
  same_site = none;
  dangerously_allow_insecure_cookies = false;
}

abbrev cookies : ResolvedCookieConfig
cookies = record {
  session_cookie_name = codes "__Host-sid";
  csrf_cookie_name = codes "__Host-csrf";
  secure = true;
  same_site = lax;
}

abbrev auth_options : CreateAuthOptions
auth_options = record {
  providers = [];
  callback_providers = none;
  has_store = true;
  cookie = cookie_config;
  session = some (record {
    idle_ttl_sec = given 3600;
    absolute_ttl_sec = given 86400;
    touch_interval_sec = absent;
  });
  csrf = config;
  store_user_claims = false;
  callback_redirect = some "/home";
  base_path = some "/auth";
}

abbrev ttls : SessionTtls
ttls = record { idle_ttl_sec = 3600; absolute_ttl_sec = 86400; touch_interval_sec = 60 }

abbrev auth_config : ResolvedAuthConfig
auth_config = record {
  providers = [];
  callback_providers = [];
  cookie = cookies;
  session = ttls;
  csrf = config;
  store_user_claims = false;
  callback_redirect = "/home";
  base_path = some "/auth";
}

create_auth-IsSound_example : IsSound auth_options auth_config
unfolding create_auth all_of same_list
create_auth-IsSound_example = create_auth-IsSound auth_options auth_config refl

-- A name with a prefix of its own is accepted with the danger flag, and can then never be set.
abbrev insecure : CookieConfig
insecure = record {
  name = some (codes "__Host-sid");
  csrf_name = none;
  prefix = none;
  same_site = none;
  dangerously_allow_insecure_cookies = true;
}

abbrev insecure_cookies : ResolvedCookieConfig
insecure_cookies = record {
  session_cookie_name = codes "__Host-sid";
  csrf_cookie_name = codes "csrf";
  secure = false;
  same_site = lax;
}

insecure_accepted : resolve_cookie_config insecure ≡ some insecure_cookies
unfolding resolve_cookie_config all_of contains same_list
insecure_accepted = refl

insecure_refused :
    session_cookie_headers insecure_cookies (λ n. []) (codes "sid") (codes "token") 60 ≡ none
unfolding session_cookie_headers all_of contains same_list
insecure_refused = refl

abbrev device_options : DeviceAuthOptions
device_options = record {
  has_auth = true;
  atomic_store = true;
  has_send_code = true;
  transport = some cookie;
  is_strong = λ secret. true;
  secret = "a secret";
  previous_secrets = "an older secret" ∷ [];
  bound_store = true;
  can_revoke_all_for_user = true;
  read_stores = none ∷ some true ∷ [];
  cookie = cookies;
  csrf = config;
  session = ttls;
  crypto = platform;
  parse_url = parse;
  to_lower_case = λ text. text;
  device_cookie_name = none;
  device_idle_ttl_sec = absent;
  device_absolute_ttl_sec = absent;
  pin_iterations = given 50000;
  pin_max_attempts = absent;
  is_weak_pin = none;
  reject_date_like = false;
  revoke_other_devices_on_change = false;
  code_ttl_sec = absent;
  code_max_attempts = given 4;
  code_digits = some 8;
  max_failures_per_email = absent;
  max_failures_per_device = absent;
  failure_window_sec = absent;
  fresh_email_auth_sec = absent;
  bearer_session_ttl_sec = absent;
  resend_cooldown_sec = absent;
  codes_per_email_per_hour = absent;
  starts_per_ip_per_hour = absent;
  verifies_per_ip_per_hour = absent;
  pin_logins_per_ip_per_hour = absent;
  circuit_breaker =
      some (record { min_failures = given 20; max_failure_ratio = no_ratio; window_sec = absent });
  require_client_ip = false;
  bot_check = none;
  normalize_email = none;
  resolve_user = none;
}

abbrev device_settings : Settings
device_settings =
    settings_of device_options cookie (7776000000, 31536000000) 3
      (record {
        ttl_ms = 600000;
        max_attempts = 4;
        digits = 8;
        per_email = 10;
        per_device = 10;
        window_sec = 86400;
      })
      600 43200
      (record {
        cooldown_sec = 60;
        per_email = 5;
        starts_per_ip = 20;
        verifies_per_ip = 60;
        pin_logins_per_ip = 60;
      })
      (some (record { min_failures = 20; ratio_num = 1; ratio_den = 2; window_sec = 600 })) 50000

device_auth-IsSound_example : Device.IsSound device_options device_settings (codes "__Host-device")
unfolding device_auth all_of same_list ◌>>=◌ after_prefix
device_auth-IsSound_example =
    Device.device_auth-IsSound device_options device_settings (codes "__Host-device") refl
