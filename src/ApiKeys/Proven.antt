-- ===== src/ApiKeys/Proven.antt =====
-- Who is let in by a key.
use workers_auth.Prelude.{
  ℕ, ◌≡◌, refl, String, true, false, none, some, arith, eq_iff, Option-cases, inl, inr,
}
use workers_auth.Crypto.{sha256_hex, timing_safe_equal}
use workers_auth.Crypto.Compare.{timing_safe_equal_bytes_iff}
use workers_auth.Web.{User}
use workers_auth.Routes.{somebody}
use workers_auth.ApiKeys.{
  ApiKeyRecord, ApiKeyStore, ApiKeyOptions, ended, truthy, is_env, user_of, check_key,
  verify_api_key,
}
use workers_auth.ApiKeys.Text.{ParsedApiKey, parse_api_key}

-- What stands behind a key that is accepted: the record of its id, whose hash is that of the secret,
-- which is neither revoked nor past its end, and whose environment is that of the key.
pub record KeyProof {S : Type 0} (store : ApiKeyStore S) (o : ApiKeyOptions) (raw : String) (at : ℕ)
    (s : S) (u : User) : Type 0 where
  pub key : ParsedApiKey
  pub entry : ApiKeyRecord
  pub parsed : parse_api_key raw ≡ some key
  pub found : store.find_by_id key.key_id s ≡ some entry
  pub secret : o.crypto.encode (sha256_hex o.crypto key.secret) ≡ o.crypto.encode entry.secret_hash
  pub alive : truthy entry.revoked_at ≡ false
  pub young : ended at entry.expires_at ≡ false
  pub env : entry.env ≡ key.env
  pub filter : is_env o.env entry.env ≡ true
  pub acts_as : u ≡ user_of o entry

passed :
    (o : ApiKeyOptions) (at : ℕ) (k : ParsedApiKey) (r q : ApiKeyRecord)
    → check_key o at k (some r) ≡ some q
    → (q ≡ r)
      × (timing_safe_equal o.crypto (sha256_hex o.crypto k.secret) r.secret_hash ≡ true)
      × (truthy r.revoked_at ≡ false)
      × (ended at r.expires_at ≡ false)
      × (r.env ≡ k.env)
      × (is_env o.env r.env ≡ true)
unfolding check_key
passed o at k r q h = ground (arith, eq_iff r.env k.env)

none_passes : (o : ApiKeyOptions) (at : ℕ) (k : ParsedApiKey) → check_key o at k none ≡ none
unfolding check_key
none_passes o at k = refl

-- Whoever `verify` lets in presented a key of the format whose id has a record with the hash of
-- its secret, neither revoked nor expired and of its environment, and acts as that record's subject.
pub verify_api_key-KeyProof :
    {S : Type 0} (store : ApiKeyStore S) (o : ApiKeyOptions) (raw : String) (at : ℕ) (s : S)
    (u : User)
    → (verify_api_key store o (some raw) at s).0 ≡ somebody u
    → KeyProof store o raw at s u
unfolding verify_api_key
verify_api_key-KeyProof store o raw at s u h = elim (Option-cases (parse_api_key raw)) [
  | inl e ↦ ground arith
  | inr (k, e) ↦ elim (Option-cases (store.find_by_id k.key_id s)) [
    | inl f ↦ ground (arith, none_passes o at k)
    | inr (r, f) ↦ elim (Option-cases (check_key o at k (some r))) [
      | inl g ↦ ground arith
      | inr (q, g) ↦
          let (same, matches, alive, young, env, filter) = passed o at k r q g in
          record {
            key = k;
            entry = r;
            parsed = e;
            found = f;
            secret = (timing_safe_equal_bytes_iff _ _).0 matches;
            alive = alive;
            young = young;
            env = env;
            filter = filter;
            acts_as = ground arith;
          }
    ]
  ]
]
