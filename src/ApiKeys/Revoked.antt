-- ===== src/ApiKeys/Revoked.antt =====
-- A revoked key is never let in, in either store.
use workers_auth.Prelude.{
  ℕ, ◌<◌, ◌≡◌, ◌≢◌, refl, String, Bool, true, Option, none, some, List, [], ◌∷◌, arith, eq_iff,
  Option-cases, inl, inr, All, Table, find, find-put, find-put_self,
}
use workers_auth.Routes.{nobody}
use workers_auth.ApiKeys.{ApiKeyRecord, ApiKeyOptions, truthy, check_key, verify_api_key}
use workers_auth.ApiKeys.Text.{ParsedApiKey, parse_api_key}
use workers_auth.ApiKeys.Stores.{
  find_d1, put_d1, revoke_d1, touch_d1, upserted, ended_at, d1, KvKeys, find_kv, put_kv, revoke_kv,
  touch_kv,
}

-- What requests do to the D1 store.
pub data KeyCall : Type 0 where
  put_call : (r : ApiKeyRecord) → KeyCall
  revoke_call : (key_id : String) (now : ℕ) → KeyCall
  touch_call : (key_id : String) (at : ℕ) → KeyCall

abbrev step_d1 : KeyCall → Table ApiKeyRecord → Table ApiKeyRecord
step_d1 (put_call r) keys = put_d1 r keys
step_d1 (revoke_call key_id now) keys = revoke_d1 key_id now keys
step_d1 (touch_call key_id at) keys = touch_d1 key_id at keys

unfoldable pub run_d1 : List KeyCall → Table ApiKeyRecord → Table ApiKeyRecord
run_d1 [] keys = keys
run_d1 (call ∷ calls) keys = run_d1 calls (step_d1 call keys)

-- No record, or a revoked one.
abbrev is_dead : Option ApiKeyRecord → Bool
is_dead none = true
is_dead (some r) = truthy r.revoked_at

-- The call stores no record under this id.
abbrev pub Leaves : String → KeyCall → Type 0
Leaves id (put_call r) = r.key_id ≢ id
Leaves id (revoke_call key_id now) = Unit
Leaves id (touch_call key_id at) = Unit

module _ (id : String) where
  put-dead :
      (r : ApiKeyRecord) (keys : Table ApiKeyRecord)
      → is_dead (find id keys) ≡ true
      → r.key_id ≢ id
      → is_dead (find id (put_d1 r keys)) ≡ true
  unfolding put_d1
  put-dead r keys h other =
      ground
        (arith, find-put r.key_id id (upserted r (find r.key_id keys)) keys, eq_iff r.key_id id)

  revoke-dead :
      (key_id : String) (now : ℕ) (keys : Table ApiKeyRecord)
      → is_dead (find id keys) ≡ true
      → is_dead (find id (revoke_d1 key_id now keys)) ≡ true
  unfolding revoke_d1
  revoke-dead key_id now keys h = elim (Option-cases (find key_id keys)) [
    | inl e ↦ rw (e, revoke_d1) h
    | inr (r, e) ↦
        rw (e, revoke_d1)
          (ground (arith, find-put key_id id (ended_at now r) keys, eq_iff key_id id))
  ]

  touch-dead :
      (key_id : String) (at : ℕ) (keys : Table ApiKeyRecord)
      → is_dead (find id keys) ≡ true
      → is_dead (find id (touch_d1 key_id at keys)) ≡ true
  unfolding touch_d1
  touch-dead key_id at keys h = elim (Option-cases (find key_id keys)) [
    | inl e ↦ rw (e, touch_d1) h
    | inr (r, e) ↦
        rw (e, touch_d1)
          (ground (
            arith,
            find-put key_id id (record r { last_used_at = some at }) keys,
            eq_iff key_id id,
          ))
  ]

  run-dead :
      (calls : List KeyCall) (keys : Table ApiKeyRecord)
      → is_dead (find id keys) ≡ true
      → All (Leaves id) calls
      → is_dead (find id (run_d1 calls keys)) ≡ true
  unfolding run_d1
  run-dead [] keys h hs = h
  run-dead (put_call r ∷ calls) keys h (other, hs) =
      run-dead calls (put_d1 r keys) (put-dead r keys h other) hs
  run-dead (revoke_call key_id now ∷ calls) keys h (_, hs) =
      run-dead calls (revoke_d1 key_id now keys) (revoke-dead key_id now keys h) hs
  run-dead (touch_call key_id at ∷ calls) keys h (_, hs) =
      run-dead calls (touch_d1 key_id at keys) (touch-dead key_id at keys h) hs

  revoke_starts :
      (now : ℕ) (keys : Table ApiKeyRecord)
      → 0 < now
      → ((r : ApiKeyRecord) → find id keys ≡ some r → r.revoked_at ≢ some 0)
      → is_dead (find id (revoke_d1 id now keys)) ≡ true
  unfolding revoke_d1
  revoke_starts now keys lt proper = elim (Option-cases (find id keys)) [
    | inl e ↦ rw (e, revoke_d1, e)
    | inr (r, e) ↦
        rw (e, revoke_d1) (ground (arith, find-put_self id (ended_at now r) keys, proper r e))
  ]

dead_refused :
    (o : ApiKeyOptions) (at : ℕ) (k : ParsedApiKey) (found : Option ApiKeyRecord)
    → is_dead found ≡ true
    → check_key o at k found ≡ none
unfolding check_key
dead_refused o at k none h = refl
dead_refused o at k (some r) h = ground arith

dead-nobody :
    (o : ApiKeyOptions) (raw : String) (at : ℕ) (k : ParsedApiKey) (keys : Table ApiKeyRecord)
    → parse_api_key raw ≡ some k
    → is_dead (find k.key_id keys) ≡ true
    → (verify_api_key d1 o (some raw) at keys).0 ≡ nobody
unfolding verify_api_key find_d1
dead-nobody o raw at k keys e h = rw (e, dead_refused o at k (find k.key_id keys) h)

-- In D1 a revoked key is refused at every later time, whatever touches, revocations and insertions
-- of other keys come between; times are positive, since the code takes a revocation at 0 for none.
pub verify-revoke_d1 :
    (o : ApiKeyOptions) (raw : String) (k : ParsedApiKey) (now at : ℕ) (calls : List KeyCall)
    (keys : Table ApiKeyRecord)
    → parse_api_key raw ≡ some k
    → 0 < now
    → ((r : ApiKeyRecord) → find k.key_id keys ≡ some r → r.revoked_at ≢ some 0)
    → All (Leaves k.key_id) calls
    → (verify_api_key d1 o (some raw) at (run_d1 calls (revoke_d1 k.key_id now keys))).0 ≡ nobody
verify-revoke_d1 o raw k now at calls keys e lt proper hs =
    dead-nobody o raw at k (run_d1 calls (revoke_d1 k.key_id now keys)) e (
      run-dead k.key_id calls (revoke_d1 k.key_id now keys)
        (revoke_starts k.key_id now keys lt proper) hs)

-- What requests do to KV; the read of a touch returns what it returns.
pub data KvKeyCall : Type 0 where
  kv_put : (r : ApiKeyRecord) → KvKeyCall
  kv_revoke : (key_id : String) (now : ℕ) → 0 < now → KvKeyCall
  kv_touch : (key_id : String) (at : ℕ) (existing : Option ApiKeyRecord) → KvKeyCall

abbrev step_kv : KvKeyCall → KvKeys → KvKeys
step_kv (kv_put r) keys = put_kv r keys
step_kv (kv_revoke key_id now lt) keys = revoke_kv key_id now keys
step_kv (kv_touch key_id at existing) keys = touch_kv key_id at existing keys

unfoldable pub run_kv : List KvKeyCall → KvKeys → KvKeys
run_kv [] keys = keys
run_kv (call ∷ calls) keys = run_kv calls (step_kv call keys)

touch-revoked :
    (key_id : String) (at : ℕ) (existing : Option ApiKeyRecord) (keys : KvKeys)
    → (touch_kv key_id at existing keys).revoked ≡ keys.revoked
unfolding touch_kv
touch-revoked key_id at none keys = refl
touch-revoked key_id at (some r) keys = refl

run_kv-truthy :
    (id : String) (calls : List KvKeyCall) (keys : KvKeys)
    → truthy (find id keys.revoked) ≡ true
    → truthy (find id (run_kv calls keys).revoked) ≡ true
unfolding run_kv put_kv revoke_kv
run_kv-truthy id [] keys h = h
run_kv-truthy id (kv_put r ∷ calls) keys h = run_kv-truthy id calls (put_kv r keys) h
run_kv-truthy id (kv_revoke key_id now lt ∷ calls) keys h =
    run_kv-truthy id calls (revoke_kv key_id now keys)
      (ground (arith, find-put key_id id now keys.revoked))
run_kv-truthy id (kv_touch key_id at existing ∷ calls) keys h =
    run_kv-truthy id calls (touch_kv key_id at existing keys)
      (rw (touch-revoked key_id at existing keys) h)

marked_refused :
    (o : ApiKeyOptions) (at : ℕ) (k : ParsedApiKey) (seen : Option ApiKeyRecord) (marker : Option ℕ)
    → truthy marker ≡ true
    → check_key o at k (find_kv seen marker) ≡ none
unfolding find_kv
marked_refused o at k none marker h = dead_refused o at k none refl
marked_refused o at k (some r) none h = ground arith
marked_refused o at k (some r) (some n) h =
    dead_refused o at k (some (record r { revoked_at = some n })) h

-- In KV no record that a read returns, stale or rewritten by a racing touch or even inserted anew,
-- makes a revoked key pass, once the read of the revocation's own key is up to date.
pub check_key-revoke_kv :
    (o : ApiKeyOptions) (k : ParsedApiKey) (now at : ℕ) (calls : List KvKeyCall) (keys : KvKeys)
    (seen : Option ApiKeyRecord)
    → 0 < now
    → check_key o at k
        (find_kv seen (find k.key_id (run_kv calls (revoke_kv k.key_id now keys)).revoked))
      ≡ none
unfolding revoke_kv
check_key-revoke_kv o k now at calls keys seen lt =
    marked_refused o at k seen (find k.key_id (run_kv calls (revoke_kv k.key_id now keys)).revoked)
      (run_kv-truthy k.key_id calls (revoke_kv k.key_id now keys)
        (ground (arith, find-put_self k.key_id now keys.revoked)))
