-- ===== src/Sessions.antt =====
-- types.ts and store/d1.ts: sessions, and their store in D1, keyed by `sha256(sid)`. Of `meta` the
-- model keeps what the library itself writes under `__auth`; the application's own metadata and
-- `scope` are stored and returned unread.
pub mod Lifecycle
use workers_auth.Prelude.{
  ℕ, ◌+◌, ◌*◌, String, Bool, false, ◌||◌, ◌&&◌, not, Option, none, some, leb, ltb, min,
  if◌then◌else◌, Table, find, put, erase, select_where, count_where, ◌==◌,
}
use workers_auth.Revocation.{Revocations, is_revoked, revoke, revoke_user}

pub data SubjectType : Type 0 where
  user service : SubjectType

pub record AuthMeta : Type 0 where
  pub email : Option String
  pub provider : Option String
  -- a value that is no non-empty text counts as absent
  pub rate_limit_id : Option String
  -- `transport: 'bearer'`
  pub bearer : Bool
  pub email_verified_at : Option ℕ
  pub device_id : Option String

pub record Session : Type 0 where
  pub sid : String
  pub user_id : String
  pub subject_type : SubjectType
  pub created_at : ℕ
  pub last_seen_at : ℕ
  pub idle_expires_at : ℕ
  pub absolute_expires_at : ℕ
  pub auth : AuthMeta

pub record NewSession : Type 0 where
  pub user_id : String
  pub subject_type : SubjectType
  pub idle_ttl_sec : ℕ
  pub absolute_ttl_sec : ℕ
  pub auth : AuthMeta

-- A row of `auth_sessions`.
pub record SessionRow : Type 0 where
  pub user_id : String
  pub subject_type : SubjectType
  pub created_at : ℕ
  pub last_seen_at : ℕ
  pub idle_expires_at : ℕ
  pub absolute_expires_at : ℕ
  pub auth : AuthMeta

-- The store with its optional revocation list.
pub record SessionTable : Type 0 where
  pub rows : Table SessionRow
  pub revocations : Option Revocations

abbrev pub session_of : String → SessionRow → Session
session_of sid r = record {
  sid = sid;
  user_id = r.user_id;
  subject_type = r.subject_type;
  created_at = r.created_at;
  last_seen_at = r.last_seen_at;
  idle_expires_at = r.idle_expires_at;
  absolute_expires_at = r.absolute_expires_at;
  auth = r.auth;
}

abbrev pub first_row : ℕ → NewSession → SessionRow
first_row now input = record {
  user_id = input.user_id;
  subject_type = input.subject_type;
  created_at = now;
  last_seen_at = now;
  idle_expires_at = min (now + input.idle_ttl_sec * 1000) (now + input.absolute_ttl_sec * 1000);
  absolute_expires_at = now + input.absolute_ttl_sec * 1000;
  auth = input.auth;
}

module _ (hash : String → String) where
  -- `sid` is the fresh random token. A ttl of 0 throws, and so does a primary key that is taken.
  unfoldable pub create_session :
      String → ℕ → NewSession → SessionTable → Option (Session × SessionTable)
  create_session sid now input t =
      if ltb 0 input.idle_ttl_sec && ltb 0 input.absolute_ttl_sec
      then elim (find (hash sid) t.rows) [
        | some _ ↦ none
        | none ↦ some (
          session_of sid (first_row now input),
          record t { rows = put (hash sid) (first_row now input) t.rows },
        )
      ]
      else none

  abbrev pub row_revoked : String → ℕ → SessionRow → Option Revocations → Bool
  row_revoked sid_hash now r none = false
  row_revoked sid_hash now r (some list) =
      is_revoked (record { sid_hash = sid_hash; user_id = r.user_id; created_at = r.created_at })
        now list

  abbrev is_over : ℕ → SessionRow → Bool
  is_over now r = leb r.idle_expires_at now || leb r.absolute_expires_at now

  abbrev get_found : String → ℕ → SessionTable → Option SessionRow → Option Session × SessionTable
  get_found sid now t none = (none, t)
  get_found sid now t (some r) =
      if row_revoked (hash sid) now r t.revocations
      then (none, t)
      else if is_over now r
      then (none, record t { rows = erase (hash sid) t.rows })
      else (some (session_of sid r), t)

  -- An expired row is deleted, whether the deletion is awaited or deferred.
  unfoldable pub get_session : String → ℕ → SessionTable → Option Session × SessionTable
  get_session sid now t = get_found sid now t (find (hash sid) t.rows)

  abbrev touch_row : ℕ → ℕ → SessionRow → SessionRow
  touch_row now idle r =
      if ltb now r.idle_expires_at && ltb now r.absolute_expires_at
      then record r { last_seen_at = now; idle_expires_at = min idle r.absolute_expires_at }
      else r

  abbrev touch_found : String → ℕ → ℕ → SessionTable → Option SessionRow → SessionTable
  touch_found sid now idle t none = t
  touch_found sid now idle t (some r) = record t {
    rows = put (hash sid) (touch_row now idle r) t.rows;
  }

  unfoldable pub touch_session : String → ℕ → ℕ → SessionTable → SessionTable
  touch_session sid now idle t = touch_found sid now idle t (find (hash sid) t.rows)

  -- A tombstone is written only where there is a list and the row is still there.
  abbrev entombed : String → Option SessionRow → Option Revocations → Option Revocations
  entombed sid_hash none list = list
  entombed sid_hash (some r) none = none
  entombed sid_hash (some r) (some list) = some (revoke sid_hash r.absolute_expires_at list)

  unfoldable pub revoke_session : String → SessionTable → SessionTable
  revoke_session sid t = record {
    rows = erase (hash sid) t.rows;
    revocations = entombed (hash sid) (find (hash sid) t.rows) t.revocations;
  }

-- The user's marker is one past `now`.
abbrev mark_user : String → ℕ → Option Revocations → Option Revocations
mark_user user_id now none = none
mark_user user_id now (some list) = some (revoke_user user_id (now + 1) list)

unfoldable pub revoke_all_for_user : String → ℕ → SessionTable → SessionTable
revoke_all_for_user user_id now t = record {
  rows = select_where (λ r. not (r.1.user_id == user_id)) t.rows;
  revocations = mark_user user_id now t.revocations;
}

-- Two deletes, each counting what it removes.
unfoldable pub cleanup_sessions : ℕ → SessionTable → ℕ × SessionTable
cleanup_sessions now t =
    let past_absolute = λ (r : String × SessionRow). leb r.1.absolute_expires_at now in
    let past_idle = λ (r : String × SessionRow). leb r.1.idle_expires_at now in
    let kept = select_where (λ r. not (past_absolute r)) t.rows in
    (
      count_where past_absolute t.rows + count_where past_idle kept,
      record t { rows = select_where (λ r. not (past_idle r)) kept },
    )
