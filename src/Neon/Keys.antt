-- ===== src/Neon/Keys.antt =====
-- providers/neon.ts: the cached key set, its fetch, and the key of a token.
use Prim.Native.String
use workers_auth.Prelude.{
  ℕ, ◌+◌, ◌*◌, String, Bool, false, ◌&&◌, Option, none, some, List, [], ◌∷◌, leb, ltb,
  if◌then◌else◌, length, Table, find, put, ◌==◌,
}
use workers_auth.Neon.{
  JwsAlgorithm, ed_dsa, alg_name, kty_of, Jwk, filled, sanitize_jwk, JwtPlatform, NeonOptions,
}

-- What KV holds of the key set.
pub record CachedJwks : Type 0 where
  pub keys : List Jwk
  pub fetched_at : ℕ

-- `CacheEntry`, and the last value that was put in KV.
pub record CacheEntry (K : Type 0) : Type 0 where
  pub keys : List Jwk
  pub fetched_at : ℕ
  pub last_attempt_at : ℕ
  pub imported : Table K
  pub stored : Option CachedJwks

-- A response of the endpoint: `content-length` is 0 where it is not declared, and the keys are none
-- where the text is no JSON.
pub record JwksResponse : Type 0 where
  pub ok : Bool
  pub is_json : Bool
  pub declared_length : ℕ
  pub text_length : ℕ
  pub keys : Option (List Jwk)

-- What the network and KV answer to one request: a fetch that fails or times out is none. The
-- second fetch is that after an unknown key id.
pub record Answers : Type 0 where
  pub kv_read : Option CachedJwks
  pub first_fetch : Option JwksResponse
  pub second_fetch : Option JwksResponse

abbrev pub has_kid : String → Jwk → Bool
has_kid kid jwk = elim jwk.kid [ none ↦ false | some k ↦ k == kid ]

unfoldable pub find_kid : String → List Jwk → Option Jwk
find_kid kid [] = none
find_kid kid (jwk ∷ keys) =
    let rest = find_kid kid keys in if has_kid kid jwk then some jwk else rest

unfoldable pub find_kty : String → List Jwk → Option Jwk
find_kty kty [] = none
find_kty kty (jwk ∷ keys) =
    let rest = find_kty kty keys in if jwk.kty == kty then some jwk else rest

abbrev pub pick : Option String → JwsAlgorithm → List Jwk → Option Jwk
pick kid alg keys = elim (filled kid) [
  | none ↦ find_kty (kty_of alg) keys
  | some k ↦ find_kid k keys
]

abbrev pub text_of : Option String → String
text_of none = ""
text_of (some s) = s

abbrev pub cache_key : Option String → JwsAlgorithm → String
cache_key kid alg = String.◌++◌ (text_of kid) (String.◌++◌ "|" (alg_name alg))

module _ {K : Type 0} (p : JwtPlatform K) where
  abbrev or_node : JwsAlgorithm → Jwk → Option K
  or_node ed_dsa jwk = p.import_node_ed25519 jwk
  or_node _ jwk = none

  -- `importJwk`; the name before the standard one is tried for Ed25519.
  abbrev pub import_jwk : JwsAlgorithm → Option Jwk → Option K
  import_jwk alg none = none
  import_jwk alg (some jwk) = elim (p.import_key alg jwk) [
    | none ↦ or_node alg jwk
    | some key ↦ some key
  ]

module _ {K : Type 0} (p : JwtPlatform K) (o : NeonOptions) (now : ℕ) where
  -- The keys of a response that passes every check.
  abbrev pub accepted_keys : Option JwksResponse → Option (List Jwk)
  accepted_keys none = none
  accepted_keys (some res) =
      if res.ok
        && (res.is_json
            && (leb res.declared_length o.max_jwks_bytes && leb res.text_length o.max_jwks_bytes))
      then (elim res.keys [
        | none ↦ none
        | some keys ↦ if leb (length keys) o.max_jwks_keys then some keys else none
      ])
      else none

  abbrev pub fetched : Option (List Jwk) → CacheEntry K → Option (List Jwk) × CacheEntry K
  fetched none entry = (none, entry)
  fetched (some keys) entry = (
    some keys,
    record entry {
      keys = keys;
      fetched_at = now;
      imported = [];
      stored =
          (if o.has_cache then some (record { keys = keys; fetched_at = now }) else entry.stored);
    },
  )

  -- `fetchJwks`; none is a throw.
  unfoldable pub fetch_jwks : Option JwksResponse → CacheEntry K → Option (List Jwk) × CacheEntry K
  fetch_jwks response entry =
      fetched (accepted_keys response) (record entry { last_attempt_at = now })

  abbrev pub is_fresh : ℕ → Bool
  is_fresh fetched_at = ltb now (fetched_at + o.jwks_cache_ttl_sec * 1000)

  abbrev pub from_kv :
      Option CachedJwks → Option JwksResponse → CacheEntry K → Option (List Jwk) × CacheEntry K
  from_kv none response entry = fetch_jwks response entry
  from_kv (some cached) response entry =
      if is_fresh cached.fetched_at
      then (
        some cached.keys,
        record entry { keys = cached.keys; fetched_at = cached.fetched_at; imported = [] },
      )
      else fetch_jwks response entry

  -- `loadKeys`
  unfoldable pub load_keys : Answers → CacheEntry K → Option (List Jwk) × CacheEntry K
  unfolding fetch_jwks
  load_keys answers entry =
      if ltb 0 (length entry.keys) && is_fresh entry.fetched_at
      then (some entry.keys, entry)
      else from_kv (if o.has_cache then answers.kv_read else none) answers.first_fetch entry

  abbrev pub remember : String → Option K → CacheEntry K → Option K × CacheEntry K
  remember key none entry = (none, entry)
  remember key (some k) entry = (some k, record entry { imported = put key k entry.imported })

  abbrev pub use_jwk :
      Option String → JwsAlgorithm → Option Jwk → CacheEntry K → Option K × CacheEntry K
  use_jwk kid alg none entry = (none, entry)
  use_jwk kid alg (some jwk) entry =
      remember (cache_key kid alg) (import_jwk p alg (sanitize_jwk alg jwk)) entry

  abbrev pub refetched :
      Option String → JwsAlgorithm → Option (List Jwk) × CacheEntry K → Option K × CacheEntry K
  refetched kid alg (none, entry) = (none, entry)
  refetched kid alg (some keys, entry) = use_jwk kid alg (pick kid alg keys) entry

  -- The issuer may have rotated its keys: one more fetch, unless the last was just now.
  abbrev pub picked :
      Option String
      → JwsAlgorithm
      → Option JwksResponse
      → Option Jwk
      → CacheEntry K
      → Option K × CacheEntry K
  picked kid alg response (some jwk) entry = use_jwk kid alg (some jwk) entry
  picked kid alg response none entry =
      if ltb now (entry.last_attempt_at + o.min_refetch_interval_sec * 1000)
      then (none, entry)
      else refetched kid alg (fetch_jwks response entry)

  abbrev pub loaded :
      Option String
      → JwsAlgorithm
      → Option JwksResponse
      → Option (List Jwk) × CacheEntry K
      → Option K × CacheEntry K
  loaded kid alg response (none, entry) = (none, entry)
  loaded kid alg response (some keys, entry) = picked kid alg response (pick kid alg keys) entry

  abbrev pub or_load :
      Option K → Option String → JwsAlgorithm → Answers → CacheEntry K → Option K × CacheEntry K
  or_load (some key) kid alg answers entry = (some key, entry)
  or_load none kid alg answers entry = loaded kid alg answers.second_fetch (load_keys answers entry)

  -- `resolveKey`; a throw and null are both none, since `verify` catches the throw.
  unfoldable pub resolve_key :
      Option String → JwsAlgorithm → Answers → CacheEntry K → Option K × CacheEntry K
  unfolding load_keys fetch_jwks sanitize_jwk find_kid find_kty
  resolve_key kid alg answers entry =
      or_load (find (cache_key kid alg) entry.imported) kid alg answers entry
