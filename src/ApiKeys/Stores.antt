-- ===== src/ApiKeys/Stores.antt =====
-- providers/api-key.ts: `d1ApiKeyStore` and `kvApiKeyStore`.
use workers_auth.Prelude.{ℕ, String, Option, none, some, if◌then◌else◌, Table, find, put, is_none}
use workers_auth.ApiKeys.{ApiKeyRecord, ApiKeyStore}

-- `auth_api_keys`, by `key_id`.
unfoldable pub find_d1 : String → Table ApiKeyRecord → Option ApiKeyRecord
find_d1 key_id keys = find key_id keys

-- `ON CONFLICT DO UPDATE`: `env`, `created_at` and `last_used_at` stay.
abbrev pub upserted : ApiKeyRecord → Option ApiKeyRecord → ApiKeyRecord
upserted r none = r
upserted r (some old) = record r {
  env = old.env;
  created_at = old.created_at;
  last_used_at = old.last_used_at;
}

unfoldable pub put_d1 : ApiKeyRecord → Table ApiKeyRecord → Table ApiKeyRecord
put_d1 r keys = put r.key_id (upserted r (find r.key_id keys)) keys

abbrev if_found :
    String
    → (ApiKeyRecord → ApiKeyRecord)
    → Option ApiKeyRecord
    → Table ApiKeyRecord
    → Table ApiKeyRecord
if_found key_id f none keys = keys
if_found key_id f (some r) keys = put key_id (f r) keys

-- `WHERE revoked_at IS NULL`
abbrev pub ended_at : ℕ → ApiKeyRecord → ApiKeyRecord
ended_at now r = if is_none r.revoked_at then record r { revoked_at = some now } else r

unfoldable pub revoke_d1 : String → ℕ → Table ApiKeyRecord → Table ApiKeyRecord
revoke_d1 key_id now keys = if_found key_id (ended_at now) (find key_id keys) keys

unfoldable pub touch_d1 : String → ℕ → Table ApiKeyRecord → Table ApiKeyRecord
touch_d1 key_id at keys =
    if_found key_id (λ r. record r { last_used_at = some at }) (find key_id keys) keys

abbrev pub d1 : ApiKeyStore (Table ApiKeyRecord)
d1 = record {
  find_by_id = find_d1;
  put_key = put_d1;
  revoke = revoke_d1;
  touch = some (λ key_id at keys. some (touch_d1 key_id at keys));
}

-- The two families of keys in KV.
pub record KvKeys : Type 0 where
  pub records : Table ApiKeyRecord
  pub revoked : Table ℕ

abbrev pub merged : Option ApiKeyRecord → Option ℕ → Option ApiKeyRecord
merged none marker = none
merged (some r) none = some r
merged (some r) (some at) = some (record r { revoked_at = some at })

-- KV is eventually consistent: the reads that `findById` and `touch` make return an argument.
unfoldable pub find_kv : Option ApiKeyRecord → Option ℕ → Option ApiKeyRecord
find_kv record_read marker_read = merged record_read marker_read

unfoldable pub put_kv : ApiKeyRecord → KvKeys → KvKeys
put_kv r kv = record kv { records = put r.key_id r kv.records }

-- A blind write of the marker.
unfoldable pub revoke_kv : String → ℕ → KvKeys → KvKeys
revoke_kv key_id now kv = record kv { revoked = put key_id now kv.revoked }

abbrev touched : String → ℕ → Option ApiKeyRecord → KvKeys → KvKeys
touched key_id at none kv = kv
touched key_id at (some r) kv = record kv {
  records = put key_id (record r { last_used_at = some at }) kv.records;
}

unfoldable pub touch_kv : String → ℕ → Option ApiKeyRecord → KvKeys → KvKeys
touch_kv key_id at existing kv = touched key_id at existing kv

-- The KV store whose reads are up to date.
abbrev pub kv : ApiKeyStore KvKeys
kv = record {
  find_by_id = λ key_id s. find_kv (find key_id s.records) (find key_id s.revoked);
  put_key = put_kv;
  revoke = revoke_kv;
  touch = some (λ key_id at s. some (touch_kv key_id at (find key_id s.records) s));
}
