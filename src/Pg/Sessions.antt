-- ===== src/Pg/Sessions.antt =====
-- store/pg/session.ts, `pgSessionStore`: the rows of `auth_sessions`, with no revocation list.
pub mod Same
use workers_auth.Prelude.{
  ℕ, ◌+◌, ◌*◌, String, Bool, true, false, ◌||◌, ◌&&◌, not, Option, none, some, leb, ltb, min,
  if◌then◌else◌, Table, find, put, erase, select_where, count_where, ◌==◌,
}
use workers_auth.Sessions.{Session, NewSession, SessionRow, session_of}
use workers_auth.Pg.{select, update, delete}

abbrev any : SessionRow → Bool
any _ = true

module _ (hash : String → String) where
  -- A ttl of 0 throws, and so does an insert under a key that is taken.
  unfoldable pub create_session_pg :
      String → ℕ → NewSession → Table SessionRow → Option (Session × Table SessionRow)
  create_session_pg sid now input rows =
      let absolute = now + input.absolute_ttl_sec * 1000 in
      let row : SessionRow = record {
        user_id = input.user_id;
        subject_type = input.subject_type;
        created_at = now;
        last_seen_at = now;
        idle_expires_at = min (now + input.idle_ttl_sec * 1000) absolute;
        absolute_expires_at = absolute;
        auth = input.auth;
      } in
      if not (ltb 0 input.idle_ttl_sec)
      then none
      else if not (ltb 0 input.absolute_ttl_sec)
      then none
      else elim (find (hash sid) rows) [
        | none ↦ some (
          record {
            sid = sid;
            user_id = input.user_id;
            subject_type = input.subject_type;
            created_at = now;
            last_seen_at = now;
            idle_expires_at = row.idle_expires_at;
            absolute_expires_at = absolute;
            auth = input.auth;
          },
          put (hash sid) row rows,
        )
        | some _ ↦ none
      ]

  abbrev got : String → ℕ → Table SessionRow → Option SessionRow → Option Session × Table SessionRow
  got sid now rows none = (none, rows)
  got sid now rows (some r) =
      if leb r.idle_expires_at now || leb r.absolute_expires_at now
      then (none, (delete (hash sid) any rows).1)
      else (some (session_of sid r), rows)

  -- An expired row is deleted, whether the deletion is awaited or deferred.
  unfoldable pub get_session_pg : String → ℕ → Table SessionRow → Option Session × Table SessionRow
  get_session_pg sid now rows = got sid now rows (select (hash sid) any rows)

  unfoldable pub touch_session_pg : String → ℕ → ℕ → Table SessionRow → Table SessionRow
  touch_session_pg sid now idle rows =
      (update (hash sid) (λ r. ltb now r.idle_expires_at && ltb now r.absolute_expires_at)
        (λ r. record r { last_seen_at = now; idle_expires_at = min idle r.absolute_expires_at })
        rows).1

  unfoldable pub revoke_session_pg : String → Table SessionRow → Table SessionRow
  revoke_session_pg sid rows = (delete (hash sid) any rows).1

unfoldable pub revoke_all_for_user_pg : String → Table SessionRow → Table SessionRow
revoke_all_for_user_pg user_id rows = select_where (λ r. not (r.1.user_id == user_id)) rows

-- Two deletes; the sum of what they affected.
unfoldable pub cleanup_sessions_pg : ℕ → Table SessionRow → ℕ × Table SessionRow
cleanup_sessions_pg now rows =
    let by_absolute = λ (r : String × SessionRow). leb r.1.absolute_expires_at now in
    let by_idle = λ (r : String × SessionRow). leb r.1.idle_expires_at now in
    let rest = select_where (λ r. not (by_absolute r)) rows in
    (
      count_where by_absolute rows + count_where by_idle rest,
      select_where (λ r. not (by_idle r)) rest,
    )
