-- ===== src/Tests/Stored.antt =====
-- The theorems about the Postgres stores, cookies and base64url at concrete inputs.
use workers_auth.Prelude.{
  ◌++◌, ℕ, ◌+◌, ◌*◌, ◌/◌, ◌≡◌, refl, true, none, some, List, [], ◌∷◌, arith, String, codes, length,
  decimal,
}
use workers_auth.Pin.{contains, same_list}
use workers_auth.Request.{all_of, is_url_char}
use workers_auth.Base64.{base64url_encode, base64url_decode}
use workers_auth.Base64.RoundTrip.{decode-encode}
use workers_auth.Tests.Stores.{store, new_pin, change, device}
use workers_auth.Pg.Contract.{StoreCall, call_pg, call_d1, run_calls}
use workers_auth.Pg.Contract.Same.{run_calls-pg_d1}
use workers_auth.Pg.Executor.{retry_once}
use workers_auth.Pg.Executor.Once.{Attempt, run_attempt, Settled, retry_once-Settled}
use workers_auth.Cookies.{CookieAttributes, parts, serialize_cookie, starts_with, host_prefix, lax}
use workers_auth.Cookies.Parse.{Cookies, parse_cookies, split_semicolons, is_inherited, lookup}
use workers_auth.Cookies.Uri.{encode_uri}
use workers_auth.Cookies.Parsed.{cookie_header, parse-cookie_header}
use workers_auth.Cookies.Carried.{Carries, read_back}
use workers_auth.Cookies.Attributes.{IsHost, is_free, split-serialize_cookie}

abbrev bytes : List ℕ
bytes = 255 ∷ 0 ∷ 251 ∷ 7 ∷ []

decode-encode_example :
    (base64url_decode (base64url_encode bytes) ≡ some bytes)
    × (all_of is_url_char (base64url_encode bytes) ≡ true)
    × (length (base64url_encode bytes) ≡ (4 * length bytes + 2) / 3)
decode-encode_example = decode-encode bytes (search arith)

abbrev counting : ℕ → String × ℕ
counting n = ("done", n + 1)

retry_once-Settled_example : Settled counting 3 (
    retry_once
      (run_attempt counting (Attempt.rolled_back (some "40001")))
      (run_attempt counting (Attempt.lost (some "08006")))
      3)
retry_once-Settled_example =
    retry_once-Settled counting (Attempt.rolled_back (some "40001")) (Attempt.lost (some "08006")) 3
      tt

abbrev cookie_list : Cookies
cookie_list = (codes "__Host-session", codes "a b;é") ∷ (codes "__Host-csrf", codes "=token=") ∷ []

abbrev attributes : CookieAttributes
attributes = record {
  path = some (codes "/");
  domain = none;
  max_age = some 3600;
  http_only = some true;
  secure = some true;
  same_site = some lax;
}

abbrev date_text : ℕ → List ℕ
date_text n = codes "Thu, 01 Jan 2026 00:00:00 GMT"

date_text-free : (n : ℕ) → all_of is_free (date_text n) ≡ true
unfolding all_of
date_text-free n = refl

abbrev store_calls : List StoreCall
store_calls =
    StoreCall.reserve "a" 50 120 3
    ∷ StoreCall.reserve_login "ann" 5 120
    ∷ StoreCall.create device
    ∷ StoreCall.replace new_pin change
    ∷ StoreCall.replace new_pin change
    ∷ StoreCall.clean 500 1000
    ∷ []

run_calls-pg_d1_example : run_calls call_pg store_calls store ≡ run_calls call_d1 store_calls store
run_calls-pg_d1_example = run_calls-pg_d1 store_calls store

parse-cookie_header_example : parse_cookies (some (cookie_header cookie_list)) ≡ cookie_list
unfolding all_of contains is_inherited same_list lookup
parse-cookie_header_example =
    parse-cookie_header cookie_list
      (
        record { token = refl; own = refl; scalars = search arith },
        (record { token = refl; own = refl; scalars = search arith }, tt),
      )
      (refl, (refl, tt))

abbrev session_header : List ℕ
session_header =
    codes
      "__Host-session=a%3Bb; Path=/; Max-Age=3600; Expires=Thu, 01 Jan 2026 00:00:00 GMT; HttpOnly; Secure; SameSite=Lax"

split-serialize_cookie_example :
    (split_semicolons session_header
      ≡ read_back (parts date_text (codes "__Host-session") (codes "a;b") attributes))
    × ((split_semicolons session_header).0
        ≡ codes "__Host-session" ++ (b'=' ∷ encode_uri (codes "a;b")))
    × Carries date_text attributes (split_semicolons session_header).1
    × (starts_with host_prefix (codes "__Host-session") ≡ true → IsHost attributes)
unfolding serialize_cookie all_of same_list encode_uri decimal
split-serialize_cookie_example =
    split-serialize_cookie date_text (codes "__Host-session") (codes "a;b") attributes
      session_header (search arith) date_text-free refl
