-- ===== src/ApiKeys/Accepted.antt =====
-- An issued key is accepted. What the proof needs of the store is an interface of laws, which the
-- two implementations fill.
use workers_auth.Prelude.{
  ℕ, ◌≡◌, ◌∙◌, refl, ap, String, true, false, none, some, List, arith, eq_refl, Table, find,
  find-put_self,
}
use workers_auth.Crypto.{WebCrypto, sha256_hex, timing_safe_equal, to_hex}
use workers_auth.Crypto.Compare.{timing_safe_equal_bytes_iff}
use workers_auth.Sessions.{SubjectType}
use workers_auth.Routes.{somebody}
use workers_auth.ApiKeys.{
  ApiKeyRecord, ApiKeyStore, IssueApiKeyInput, IssuedApiKey, ApiKeyOptions, all_chars,
  print_api_key, expiry, ended, is_env, user_of, check_key, issue_api_key, verify_api_key,
}
use workers_auth.ApiKeys.Text.{ParsedApiKey, is_env_char, between, parse_api_key}
use workers_auth.ApiKeys.Stores.{put_d1, find_d1, KvKeys, put_kv, find_kv, d1, kv}
use workers_auth.ApiKeys.Fresh.{hex_chars, IsToken, token_chars, IsKeyId}
use workers_auth.ApiKeys.Format.{IsWellFormed, parse-print, all_chars-all_of}

-- What a store promises: a record that is put under an unused id is found under it.
pub record KeyLaws {S : Type 0} (store : ApiKeyStore S) : Type 1 where
  pub IsUnused : String → S → Type 0
  pub find-put :
      (r : ApiKeyRecord) (s : S)
      → IsUnused r.key_id s
      → store.find_by_id r.key_id (store.put_key r s) ≡ some r

pub d1_find-put :
    (r : ApiKeyRecord) (s : Table ApiKeyRecord)
    → find r.key_id s ≡ none
    → d1.find_by_id r.key_id (d1.put_key r s) ≡ some r
unfolding find_d1 put_d1
d1_find-put r s e = rw e (find-put_self r.key_id r s)

abbrev pub d1_laws : KeyLaws d1
d1_laws = record { IsUnused = λ key_id s. find key_id s ≡ none; find-put = d1_find-put }

pub kv_find-put :
    (r : ApiKeyRecord) (s : KvKeys)
    → find r.key_id s.revoked ≡ none
    → kv.find_by_id r.key_id (kv.put_key r s) ≡ some r
unfolding find_kv put_kv
kv_find-put r s e = rw (e, find-put_self r.key_id r s.records)

abbrev pub kv_laws : KeyLaws kv
kv_laws = record { IsUnused = λ key_id s. find key_id s.revoked ≡ none; find-put = kv_find-put }

same_hash :
    (w : WebCrypto) (secret : String)
    → timing_safe_equal w (sha256_hex w secret) (sha256_hex w secret) ≡ true
unfolding timing_safe_equal
same_hash w secret = (timing_safe_equal_bytes_iff _ _).1 refl

-- The record of an issued key passes every check until it expires.
check_issued :
    (o : ApiKeyOptions) (at : ℕ) (k : ParsedApiKey) (r : ApiKeyRecord)
    → r.secret_hash ≡ sha256_hex o.crypto k.secret
    → r.env ≡ k.env
    → r.revoked_at ≡ none
    → ended at r.expires_at ≡ false
    → is_env o.env k.env ≡ true
    → check_key o at k (some r) ≡ some r
unfolding check_key
check_issued o at k r hash env alive young filter =
    rw (hash, same_hash o.crypto k.secret, alive, young, env, eq_refl k.env, filter)

-- What `issueApiKey` did, where it did not throw.
record Issuance {S : Type 0} (store : ApiKeyStore S) (w : WebCrypto) (key_id_bytes : List ℕ)
    (secret : String) (now : ℕ) (input : IssueApiKeyInput) (s s' : S) (issued : IssuedApiKey)
    : Type 0 where
  env_length : between 1 16 input.env ≡ true
  env_chars : all_chars is_env_char input.env ≡ true
  printed :
      issued.key
      ≡ print_api_key (record { env = input.env; key_id = to_hex key_id_bytes; secret = secret })
  stored : s' ≡ store.put_key issued.entry s
  key_id : issued.entry.key_id ≡ to_hex key_id_bytes
  hash : issued.entry.secret_hash ≡ sha256_hex w secret
  env : issued.entry.env ≡ input.env
  subject : issued.entry.subject_id ≡ input.subject_id
  alive : issued.entry.revoked_at ≡ none
  expires : issued.entry.expires_at ≡ expiry now input.ttl_sec

module _ {S : Type 0} (store : ApiKeyStore S) where
  issue-Issuance :
      (w : WebCrypto) (key_id_bytes : List ℕ) (secret : String) (now : ℕ) (input : IssueApiKeyInput)
      (s s' : S) (issued : IssuedApiKey)
      → issue_api_key store w key_id_bytes secret now input s ≡ some (issued, s')
      → Issuance store w key_id_bytes secret now input s s' issued
  unfolding issue_api_key
  issue-Issuance w key_id_bytes secret now input s s' issued e = ground arith

  verify_found :
      (o : ApiKeyOptions) (raw : String) (at : ℕ) (k : ParsedApiKey) (r : ApiKeyRecord) (s : S)
      → parse_api_key raw ≡ some k
      → store.find_by_id k.key_id s ≡ some r
      → check_key o at k (some r) ≡ some r
      → (verify_api_key store o (some raw) at s).0 ≡ somebody (user_of o r)
  unfolding verify_api_key
  verify_found o raw at k r s parsed found passed = rw (parsed, found, passed)

  -- A key that `issueApiKey` returned, with a fresh id and a fresh secret, is accepted until it
  -- expires, by a provider with no filter on the environment or with that of the key. The user is
  -- the key's subject, and its rate-limit id the id of the key.
  pub verify-issue :
      (laws : KeyLaws store) (o : ApiKeyOptions) (key_id_bytes : List ℕ) (secret : String)
      (now at : ℕ) (input : IssueApiKeyInput) (s s' : S) (issued : IssuedApiKey)
      → IsKeyId key_id_bytes
      → IsToken secret
      → laws.IsUnused (to_hex key_id_bytes) s
      → issue_api_key store o.crypto key_id_bytes secret now input s ≡ some (issued, s')
      → is_env o.env input.env ≡ true
      → ended at (expiry now input.ttl_sec) ≡ false
      → (verify_api_key store o (some issued.key) at s').0
        ≡ somebody (record {
          id = input.subject_id;
          subject_type = SubjectType.service;
          email = none;
          rate_limit_id = to_hex key_id_bytes;
          provider = some o.name;
        })
  verify-issue laws o key_id_bytes secret now at input s s' issued (size, bytes) fresh unused e
        filter young =
      let i = issue-Issuance o.crypto key_id_bytes secret now input s s' issued e in
      let k : ParsedApiKey = record {
        env = input.env;
        key_id = to_hex key_id_bytes;
        secret = secret;
      } in
      let shape : IsWellFormed k = record {
        env_chars = all_chars-all_of is_env_char input.env i.env_chars;
        env_length = i.env_length;
        key_id_chars = (hex_chars key_id_bytes bytes).0;
        key_id_length = ground (arith, (hex_chars key_id_bytes bytes).1, size);
        secret_chars = (token_chars secret fresh).0;
        secret_length = ground (arith, (token_chars secret fresh).1);
      } in
      let parsed : parse_api_key issued.key ≡ some k = rw i.printed (parse-print k shape) in
      let found : store.find_by_id (to_hex key_id_bytes) s' ≡ some issued.entry =
        rw (i.stored, ← i.key_id) (laws.find-put issued.entry s (rw i.key_id unused)) in
      let passed =
        check_issued o at k issued.entry i.hash i.env i.alive (rw i.expires young) filter in
      verify_found o issued.key at k issued.entry s' parsed found passed
      ∙ ap somebody (rw (i.subject, i.key_id))
