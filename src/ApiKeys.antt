-- ===== src/ApiKeys.antt =====
-- providers/api-key.ts: the format of a key, its issue and the provider's `verify`. A store is an
-- interface, of which `d1` and `kv` of Stores are the two implementations.
pub mod Text
pub mod Stores
pub mod Format
pub mod Fresh
pub mod Accepted
pub mod Proven
pub mod Revoked
use Prim.Native.String
use Prim.Native.Char.{code}
use workers_auth.Prelude.{
  ℕ, ◌+◌, ◌*◌, String, Bool, true, false, ◌&&◌, ◌||◌, not, Option, none, some, List, [], ◌∷◌, eqb,
  leb, ltb, if◌then◌else◌, Table, find, put, length, codes, is_none, ◌==◌,
}
use workers_auth.Crypto.{WebCrypto, sha256_hex, timing_safe_equal, to_hex}
use workers_auth.Pin.{is_digit}
use workers_auth.Sessions.{SubjectType}
use workers_auth.Web.{User}
use workers_auth.Request.{is_hex, is_url_char, is_space}
use workers_auth.Ip.Text.{trim}
use workers_auth.Routes.{Answer, nobody, somebody}
use workers_auth.ApiKeys.Text.{
  ParsedApiKey, after, after_letters, bearer_key, bearer_of, between, default_get_key, first_of,
  is_dark, is_env_char, is_letter, parse_api_key, span, ◌>>=◌,
}

-- `claims` are opaque to the library and left out.
pub record ApiKeyRecord : Type 0 where
  pub key_id : String
  pub env : String
  pub secret_hash : String
  pub subject_id : String
  pub label : Option String
  pub created_at : ℕ
  pub expires_at : Option ℕ
  pub last_used_at : Option ℕ
  pub revoked_at : Option ℕ

-- `ApiKeyStore`, of states `S`. A `touch` may be absent, and may throw.
pub record ApiKeyStore (S : Type 0) : Type 0 where
  pub find_by_id : String → S → Option ApiKeyRecord
  pub put_key : ApiKeyRecord → S → S
  pub revoke : String → ℕ → S → S
  pub touch : Option (String → ℕ → S → Option S)

abbrev pub all_chars : (ℕ → Bool) → String → Bool
all_chars p s = (span p s).1 == ""

pub record IssueApiKeyInput : Type 0 where
  pub env : String
  pub subject_id : String
  pub label : Option String
  pub ttl_sec : Option ℕ

pub record IssuedApiKey : Type 0 where
  pub key : String
  pub key_id : String
  pub entry : ApiKeyRecord

abbrev pub print_api_key : ParsedApiKey → String
print_api_key k =
    String.◌++◌ "tk_"
      (String.◌++◌ k.env (String.◌++◌ "_" (String.◌++◌ k.key_id (String.◌++◌ "." k.secret))))

-- `ttlSec ? at + ttlSec * 1000 : null`
abbrev pub expiry : ℕ → Option ℕ → Option ℕ
expiry now none = none
expiry now (some ttl) = if ltb 0 ttl then some (now + ttl * 1000) else none

-- `label ? { label } : {}`
abbrev non_empty : Option String → Option String
non_empty none = none
non_empty (some s) = if s == "" then none else some s

-- A time or null that is tested as a condition: 0 is null.
abbrev truthy : Option ℕ → Bool
truthy none = false
truthy (some n) = ltb 0 n

abbrev ended : ℕ → Option ℕ → Bool
ended now none = false
ended now (some at) = ltb 0 at && leb at now

abbrev is_env : Option String → String → Bool
is_env none env = true
is_env (some wanted) env = env == wanted

abbrev pub dummy_hash : String
dummy_hash = "0000000000000000000000000000000000000000000000000000000000000000"

abbrev hash_of : Option ApiKeyRecord → String
hash_of none = dummy_hash
hash_of (some r) = r.secret_hash

-- The options of `apiKey`; `env` is the optional filter.
pub record ApiKeyOptions : Type 0 where
  pub crypto : WebCrypto
  pub env : Option String
  pub track_last_used : Bool
  pub name : String

abbrev pub user_of : ApiKeyOptions → ApiKeyRecord → User
user_of o r = record {
  id = r.subject_id;
  subject_type = SubjectType.service;
  email = none;
  rate_limit_id = r.key_id;
  provider = some o.name;
}

-- The checks on the record that was found, in their order; the record that passes.
unfoldable pub check_key :
    ApiKeyOptions → ℕ → ParsedApiKey → Option ApiKeyRecord → Option ApiKeyRecord
unfolding sha256_hex timing_safe_equal
check_key o now parsed found =
    let matches = timing_safe_equal o.crypto (sha256_hex o.crypto parsed.secret) (hash_of found) in
    elim found [
      | none ↦ none
      | some r ↦
          if not matches
          then none
          else if truthy r.revoked_at
          then none
          else if ended now r.expires_at
          then none
          else if not (r.env == parsed.env)
          then none
          else if not (is_env o.env r.env)
          then none
          else some r
    ]

module _ {S : Type 0} (store : ApiKeyStore S) where
  -- `issueApiKey`; none is a throw. The 12 bytes of the id and the secret are fresh random values.
  unfoldable pub issue_api_key :
      WebCrypto
      → (key_id_bytes : List ℕ) → (secret : String) → ℕ
      → IssueApiKeyInput
      → S
      → Option (IssuedApiKey × S)
  unfolding sha256_hex to_hex span
  issue_api_key w key_id_bytes secret now input s =
      let key_id = to_hex key_id_bytes in
      let r : ApiKeyRecord = record {
        key_id = key_id;
        env = input.env;
        secret_hash = sha256_hex w secret;
        subject_id = input.subject_id;
        label = non_empty input.label;
        created_at = now;
        expires_at = expiry now input.ttl_sec;
        last_used_at = none;
        revoked_at = none;
      } in
      if between 1 16 input.env && (all_chars is_env_char input.env && not (input.subject_id == ""))
      then some (
        record {
          key = print_api_key (record { env = input.env; key_id = key_id; secret = secret });
          key_id = key_id;
          entry = r;
        },
        store.put_key r s,
      )
      else none

  -- A `touch` that throws is swallowed.
  abbrev tried : S → Option S → S
  tried s none = s
  tried s (some after) = after

  abbrev track : Option (String → ℕ → S → Option S) → Bool → String → ℕ → S → S
  track none wanted key_id now s = s
  track (some touch) wanted key_id now s = if wanted then tried s (touch key_id now s) else s

  abbrev answered : ApiKeyOptions → ℕ → Option ApiKeyRecord → S → Answer × S
  answered o now none s = (nobody, s)
  answered o now (some r) s =
      (somebody (user_of o r), track store.touch o.track_last_used r.key_id now s)

  abbrev verify_parsed : ApiKeyOptions → ℕ → Option ParsedApiKey → S → Answer × S
  verify_parsed o now none s = (nobody, s)
  verify_parsed o now (some parsed) s =
      answered o now (check_key o now parsed (store.find_by_id parsed.key_id s)) s

  -- `verify`, of what `getKey` returned; an empty text is no key either way.
  unfoldable pub verify_api_key : ApiKeyOptions → Option String → ℕ → S → Answer × S
  unfolding parse_api_key check_key
  verify_api_key o none now s = (nobody, s)
  verify_api_key o (some raw) now s = verify_parsed o now (parse_api_key raw) s
