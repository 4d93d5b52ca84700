-- ===== src/Tests/Sessions.antt =====
-- The theorems about sessions, CSRF, keys and PINs at concrete inputs.
use workers_auth.Prelude.{
  ℕ, ◌≡◌, ◌↔◌, refl, true, false, Option, none, some, List, [], ◌∷◌, ◌++◌, arith, String, codes,
  take,
}
use workers_auth.Crypto.{WebCrypto}
use workers_auth.Keys.{build_key_ring, derive_keys}
use workers_auth.Creds.{pin_material, other_material}
use workers_auth.Material.{accepted, derive, enroll, verify}
use workers_auth.Material.Rotation.{Verdict, verify-enroll}
use workers_auth.Revocation.{Revocations}
use workers_auth.Sessions.{user}
use workers_auth.KvSessions.{KvStore, StoredSession, SeenMarker, get_kv, revoke_kv}
use workers_auth.KvSessions.Kept.{KvCall, run_kv}
use workers_auth.KvSessions.Revoked.{get-revoke_kv}
use workers_auth.Pin.{same_list}
use workers_auth.Csrf.{Url, CsrfRequest, CsrfConfig, ok, is_state_changing, verify_csrf}
use workers_auth.Csrf.Forgery.{IsAllowed, Echoes, verify_csrf-ambient_iff}

abbrev pub platform : WebCrypto
platform = record {
  encode = codes;
  sha256 = λ bytes. bytes;
  hmac_sha256 = λ key message. key ++ message;
  hkdf = λ secret salt info bytes. take bytes (secret ++ info);
  pbkdf2 = λ password salt iterations. password ++ salt;
}

abbrev previous : List String
previous = "old secret" ∷ "older secret" ∷ []

abbrev sid_hash : String → String
sid_hash sid = sid

abbrev stored : StoredSession
stored = record {
  user_id = "u";
  subject_type = user;
  created_at = 100;
  absolute_expires_at = 900;
  idle_ttl_sec = 1;
  auth = record {
    email = none;
    provider = none;
    rate_limit_id = some "u";
    bearer = false;
    email_verified_at = none;
    device_id = none;
  };
}

abbrev empty_list : Revocations
empty_list = record { tombstones = []; markers = [] }

abbrev kv : KvStore
kv = record {
  records = ("s", stored) ∷ [];
  markers = [];
  revocations = some empty_list;
  touch_guard = [];
}

abbrev marker : Option SeenMarker
marker = some (record { e = 800; s = 300 })

abbrev calls : List KvCall
calls =
    KvCall.touch "s" 300 800 10
    ∷ KvCall.get "s" 305 (some stored) none
    ∷ KvCall.revoke_all "other" 310
    ∷ KvCall.cleanup 390
    ∷ []

get-revoke_kv_example :
    (get_kv sid_hash "s" 400
      (some stored)
      marker
      (run_kv sid_hash 1000 calls (revoke_kv sid_hash "s" 200 50 (some stored) kv))).0
    ≡ none
get-revoke_kv_example =
    get-revoke_kv sid_hash 1000 "s" 200 50 400 (some stored) calls kv empty_list stored marker refl
      (omega arith) (omega arith, tt)

abbrev touches : List (String × ℕ × ℕ)
touches = ("s", 300, 800) ∷ []

abbrev pub parse : String → Option Url
parse text = some (record { protocol = "https:"; host = "a"; origin = text })

abbrev request : CsrfRequest
request = record {
  method = "POST";
  url = "https://a";
  origin = some "https://a";
  csrf_header = some "token";
}

abbrev pub config : CsrfConfig
config = record { trusted_origins = []; dangerously_disable = false }

verify_csrf-ambient_iff_example :
    (verify_csrf platform parse config request (some "token") true false ≡ ok)
    ↔ (IsAllowed parse request [] × Echoes platform request (some "token"))
unfolding is_state_changing same_list
verify_csrf-ambient_iff_example =
    verify_csrf-ambient_iff platform parse config request (some "token") true false refl refl refl

abbrev new_salt : List ℕ
new_salt = 1 ∷ []

abbrev old_salt : List ℕ
old_salt = 2 ∷ []

verify-enroll_example :
    let keys = build_key_ring platform "new secret" previous in
    (verify platform 1000 keys old_salt "482915"
        (pin_material (enroll platform 1000 keys new_salt "482915"))
      ≡ accepted none)
    × Verdict platform 1000 keys new_salt old_salt "482915" other_material
unfolding derive build_key_ring derive_keys
verify-enroll_example =
    verify-enroll platform "new secret" previous 1000 new_salt old_salt "482915" other_material
      (omega arith, tt) (search arith)
