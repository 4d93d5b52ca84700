-- ===== src/KvSessions.antt =====
-- store/kv.ts: sessions in Workers KV. A session's record is written once; its idle marker has a
-- key of its own. KV is eventually consistent, so `get_session` takes the record and the marker
-- that the reads returned, which may be stale, as arguments.
pub mod Kept
pub mod Revoked
use workers_auth.Prelude.{
  ℕ, ◌+◌, ◌-◌, ◌*◌, String, Bool, true, false, ◌||◌, ◌&&◌, not, Option, none, some, List, leb, ltb,
  min, length, if◌then◌else◌, Table, find, put, erase, ◌==◌, [],
}
use workers_auth.Revocation.{Revocations, is_revoked, revoke, revoke_user}
use workers_auth.Sessions.{SubjectType, AuthMeta, Session, NewSession}

-- `StoredSession` of the current version; another version reads as absent.
pub record StoredSession : Type 0 where
  pub user_id : String
  pub subject_type : SubjectType
  pub created_at : ℕ
  pub absolute_expires_at : ℕ
  pub idle_ttl_sec : ℕ
  pub auth : AuthMeta

-- `e` is the idle expiry, `s` the last use.
pub record SeenMarker : Type 0 where
  pub e : ℕ
  pub s : ℕ

-- The two families of keys, the revocation list, and the isolate's record of marker writes.
pub record KvStore : Type 0 where
  pub records : Table StoredSession
  pub markers : Table SeenMarker
  pub revocations : Option Revocations
  pub touch_guard : Table ℕ

abbrev touch_guard_max : ℕ
touch_guard_max = 4096

abbrev idle_end : StoredSession → Option SeenMarker → ℕ
idle_end r none = min (r.created_at + r.idle_ttl_sec * 1000) r.absolute_expires_at
idle_end r (some m) = min m.e r.absolute_expires_at

abbrev last_seen : StoredSession → Option SeenMarker → ℕ
last_seen r none = r.created_at
last_seen r (some m) = m.s

abbrev kv_session : String → StoredSession → Option SeenMarker → Session
kv_session sid r seen = record {
  sid = sid;
  user_id = r.user_id;
  subject_type = r.subject_type;
  created_at = r.created_at;
  last_seen_at = last_seen r seen;
  idle_expires_at = idle_end r seen;
  absolute_expires_at = r.absolute_expires_at;
  auth = r.auth;
}

abbrev listed : String → ℕ → StoredSession → Option Revocations → Bool
listed sid_hash now r none = false
listed sid_hash now r (some list) =
    is_revoked (record { sid_hash = sid_hash; user_id = r.user_id; created_at = r.created_at }) now
      list

module _ (hash : String → String) where
  abbrev first_record : ℕ → NewSession → StoredSession
  first_record now input = record {
    user_id = input.user_id;
    subject_type = input.subject_type;
    created_at = now;
    absolute_expires_at = now + input.absolute_ttl_sec * 1000;
    idle_ttl_sec = input.idle_ttl_sec;
    auth = input.auth;
  }

  -- A ttl of 0 throws. `kv.put` replaces what the key held.
  unfoldable pub create_kv : String → ℕ → NewSession → KvStore → Option (Session × KvStore)
  create_kv sid now input kv =
      if ltb 0 input.idle_ttl_sec && ltb 0 input.absolute_ttl_sec
      then some (
        kv_session sid (first_record now input) none,
        record kv { records = put (hash sid) (first_record now input) kv.records },
      )
      else none

  forget : String → KvStore → KvStore
  forget sid_hash kv = record kv {
    records = erase sid_hash kv.records;
    markers = erase sid_hash kv.markers;
  }

  -- What the two reads returned decides; an expired session's keys are deleted.
  unfoldable pub get_kv :
      String → ℕ → Option StoredSession → Option SeenMarker → KvStore → Option Session × KvStore
  unfolding forget
  get_kv sid now none seen kv = (none, kv)
  get_kv sid now (some r) seen kv =
      if leb r.absolute_expires_at now
      then (none, forget (hash sid) kv)
      else if leb (idle_end r seen) now
      then (none, forget (hash sid) kv)
      else if listed (hash sid) now r kv.revocations
      then (none, kv)
      else (some (kv_session sid r seen), kv)

  -- The last write of the marker is within the throttle.
  abbrev throttled : ℕ → ℕ → Option ℕ → Bool
  throttled now throttle none = false
  throttled now throttle (some last) = ltb now (last + throttle)

  -- A single blind write of the marker.
  unfoldable pub touch_kv : String → ℕ → ℕ → ℕ → KvStore → KvStore
  touch_kv sid now idle throttle kv =
      let key = hash sid in
      let guard = if leb touch_guard_max (length kv.touch_guard) then [] else kv.touch_guard in
      if leb idle now || throttled now throttle (find key kv.touch_guard) then kv else record kv {
        markers = put key (record { e = idle; s = now }) kv.markers;
        touch_guard = put key now guard;
      }

  -- The tombstone's time: the record's, if the read saw it, else the fallback.
  abbrev tomb_end : ℕ → ℕ → Option StoredSession → ℕ
  tomb_end now fallback none = now + fallback
  tomb_end now fallback (some r) = r.absolute_expires_at

  abbrev entomb : String → ℕ → Option Revocations → Option Revocations
  entomb sid_hash at none = none
  entomb sid_hash at (some list) = some (revoke sid_hash at list)

  unfoldable pub revoke_kv : String → ℕ → ℕ → Option StoredSession → KvStore → KvStore
  unfolding forget
  revoke_kv sid now fallback seen kv =
      forget (hash sid)
        (record kv { revocations = entomb (hash sid) (tomb_end now fallback seen) kv.revocations })

abbrev mark_user : String → ℕ → Option Revocations → Option Revocations
mark_user user_id now none = none
mark_user user_id now (some list) = some (revoke_user user_id (now + 1) list)

-- A no-op without a revocation list.
unfoldable pub revoke_user_kv : String → ℕ → KvStore → KvStore
revoke_user_kv user_id now kv = record kv { revocations = mark_user user_id now kv.revocations }
