-- ===== src/Tests/Tokens.antt =====
-- The theorem about JWTs at a concrete token.
use workers_auth.Prelude.{ℕ, ◌≡◌, refl, true, false, none, some, List, [], ◌∷◌, codes, find}
use workers_auth.Web.{User}
use workers_auth.Sessions.{SubjectType}
use workers_auth.Neon.{
  rs256, es256, Jwk, JwtHeader, JwtPayload, JwtPlatform, missing, number, NeonOptions,
}
use workers_auth.Neon.Keys.{CacheEntry, Answers, resolve_key}
use workers_auth.Neon.Origin.{IsFor, IsTraced, IsServed, none-IsTraced, resolve_key-IsRight}
use workers_auth.Neon.Verify.{verify_neon}
use workers_auth.Neon.Proven.{NeonProof, verify_neon-NeonProof}

abbrev header : JwtHeader
header = record { alg = some "RS256"; kid = some "k1" }

abbrev payload : JwtPayload
payload = record {
  iss = some "https://issuer.example";
  aud = "other" ∷ "app" ∷ [];
  exp = number 100;
  nbf = missing;
  sub = some "ann";
  email = none;
}

abbrev jwt_platform : JwtPlatform ℕ
jwt_platform = record {
  header_of = λ bytes. some header;
  payload_of = λ bytes. some payload;
  encode = λ text. text;
  import_key = λ alg jwk. some 7;
  import_node_ed25519 = λ jwk. none;
  verify = λ alg key signature signed_data. some true;
}

abbrev neon_options : NeonOptions
neon_options = record {
  issuer = "https://issuer.example";
  audiences = "app" ∷ [];
  algorithms = es256 ∷ rs256 ∷ [];
  clock_tolerance_sec = 30;
  jwks_cache_ttl_sec = 600;
  min_refetch_interval_sec = 60;
  max_jwks_bytes = 1000;
  max_jwks_keys = 32;
  has_cache = false;
  name = "neon";
}

abbrev jwk : Jwk
jwk = record {
  kty = "RSA";
  kid = some "k1";
  alg = none;
  use_ = some "sig";
  crv = none;
  n = some "modulus";
  e = some "AQAB";
  x = none;
  y = none;
}

abbrev entry : CacheEntry ℕ
entry = record { keys = []; fetched_at = 0; last_attempt_at = 0; imported = []; stored = none }

abbrev answers : Answers
answers = record {
  kv_read = none;
  first_fetch = some (record {
    ok = true;
    is_json = true;
    declared_length = 0;
    text_length = 300;
    keys = some (jwk ∷ []);
  });
  second_fetch = none;
}

abbrev token : List ℕ
token = codes "AA.AQ.Ag"

abbrev ann : User
ann = record {
  id = "ann";
  subject_type = SubjectType.user;
  email = none;
  rate_limit_id = "ann";
  provider = some "neon";
}

verify_neon-NeonProof_example : NeonProof jwt_platform neon_options 129000 answers token entry ann
unfolding verify_neon find
verify_neon-NeonProof_example =
    verify_neon-NeonProof jwt_platform neon_options 129000 answers token entry ann
      (none-IsTraced jwt_platform entry refl) refl

resolve_key-IsRight_example :
    let out = resolve_key jwt_platform neon_options 129000 (some "k1") rs256 answers entry in
    ((key : ℕ) → out.0 ≡ some key → IsFor jwt_platform out.1.keys "k1" rs256 key)
    × IsTraced jwt_platform out.1
    × IsServed jwt_platform neon_options 129000 answers entry out.1.keys
resolve_key-IsRight_example =
    resolve_key-IsRight jwt_platform neon_options 129000 answers entry (some "k1") rs256
      (none-IsTraced jwt_platform entry refl)
