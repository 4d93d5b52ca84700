-- ===== src/Revocation.antt =====
-- store/revocation.ts: tombstones of single sessions (`auth_revocations`) and markers of users
-- (`auth_user_revocations`). `revoked_at` is written and never read, so it is left out.
use workers_auth.Prelude.{
  ℕ, ◌+◌, String, Bool, false, ◌||◌, not, Option, none, some, List, [], ◌∷◌, leb, ltb, max, Table,
  find, put, select_where, count_where,
}

pub record Revocations : Type 0 where
  -- `expires_at` by `sid_hash`
  pub tombstones : Table ℕ
  -- `revoked_before` by `user_id`
  pub markers : Table ℕ

pub record RevocationQuery : Type 0 where
  pub sid_hash : String
  pub user_id : String
  pub created_at : ℕ

-- `SELECT … WHERE key = ?1 AND value > ?2` has a row.
abbrev pub later_than : ℕ → Option ℕ → Bool
later_than now none = false
later_than now (some at) = ltb now at

unfoldable pub is_revoked : RevocationQuery → ℕ → Revocations → Bool
is_revoked query now r =
    later_than now (find query.sid_hash r.tombstones)
    || later_than query.created_at (find query.user_id r.markers)

-- `ON CONFLICT … DO UPDATE SET value = MAX(value, excluded.value)`
abbrev pub raised : ℕ → Option ℕ → ℕ
raised at none = at
raised at (some old) = max old at

unfoldable pub revoke : String → ℕ → Revocations → Revocations
revoke sid_hash expires_at r = record r {
  tombstones = put sid_hash (raised expires_at (find sid_hash r.tombstones)) r.tombstones;
}

unfoldable revoke_many : List (String × ℕ) → Revocations → Revocations
unfolding revoke
revoke_many [] r = r
revoke_many ((sid_hash, expires_at) ∷ entries) r =
    revoke_many entries (revoke sid_hash expires_at r)

unfoldable pub revoke_user : String → ℕ → Revocations → Revocations
revoke_user user_id before r = record r {
  markers = put user_id (raised before (find user_id r.markers)) r.markers;
}

-- `cleanup` drops tombstones past their time, and markers older than the longest session.
unfoldable pub cleanup_revocations : ℕ → ℕ → Revocations → ℕ × Revocations
cleanup_revocations now longest r =
    let old = λ (t : String × ℕ). leb t.1 now in
    let stale = λ (m : String × ℕ). leb (m.1 + longest) now in
    (
      count_where old r.tombstones + count_where stale r.markers,
      record {
        tombstones = select_where (λ t. not (old t)) r.tombstones;
        markers = select_where (λ m. not (stale m)) r.markers;
      },
    )
