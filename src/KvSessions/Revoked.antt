-- ===== src/KvSessions/Revoked.antt =====
-- What the KV store promises whatever stale record or marker its reads return.
use workers_auth.Prelude.{
  ℕ, ◌+◌, ◌≤◌, ◌<◌, String, ◌≡◌, true, Option, none, some, List, arith, leb, find-put_self, find,
  inl, inr, Bool-cases,
}
use workers_auth.Revocation.{Revocations, is_revoked, revoke, revoke_user, raised}
use workers_auth.KvSessions.Kept.{
  KvCall, run_kv, CleanedBy, Holds, run-Holds, Entombed, Marked, Entombed-IsKept, Marked-IsKept,
}
use workers_auth.KvSessions.{
  StoredSession, SeenMarker, KvStore, get_kv, revoke_kv, revoke_user_kv, tomb_end,
}

module _ (hash : String → String) (sid : String) (at : ℕ) (r : StoredSession)
    (marker : Option SeenMarker) where
  get-Entombed :
      (kv : KvStore)
      → Holds (Entombed (hash sid) at) kv
      → (get_kv hash sid at (some r) marker kv).0 ≡ none
  unfolding get_kv is_revoked
  get-Entombed kv (list, e, h) = ground arith

  get-Marked :
      (kv : KvStore)
      → Holds (Marked r.user_id r.created_at) kv
      → (get_kv hash sid at (some r) marker kv).0 ≡ none
  unfolding get_kv is_revoked
  get-Marked kv (list, e, h) = ground arith

  get_expired :
      (kv : KvStore)
      → leb r.absolute_expires_at at ≡ true
      → (get_kv hash sid at (some r) marker kv).0 ≡ none
  unfolding get_kv
  get_expired kv h = ground arith

-- A tombstone that is set lasts at least to the time it was set for.
revoke_starts :
    (hash : String → String) (sid : String) (at now fallback : ℕ) (seen : Option StoredSession)
    (kv : KvStore) (list : Revocations)
    → kv.revocations ≡ some list
    → at < tomb_end hash now fallback seen
    → Holds (Entombed (hash sid) at) (revoke_kv hash sid now fallback seen kv)
unfolding revoke_kv revoke
revoke_starts hash sid at now fallback seen kv list e lt =
    let end = raised (tomb_end hash now fallback seen) (find (hash sid) list.tombstones) in
    (
      revoke (hash sid) (tomb_end hash now fallback seen) list,
      rw e,
      ground (arith, find-put_self (hash sid) end list.tombstones),
    )

revoke_all_starts :
    (user_id : String) (created now : ℕ) (kv : KvStore) (list : Revocations)
    → kv.revocations ≡ some list
    → created ≤ now
    → Holds (Marked user_id created) (revoke_user_kv user_id now kv)
unfolding revoke_user_kv revoke_user
revoke_all_starts user_id created now kv list e le =
    let before = raised (now + 1) (find user_id list.markers) in
    (
      revoke_user user_id (now + 1) list,
      rw e,
      ground (arith, find-put_self user_id before list.markers),
    )

-- A session that was logged out is refused at `at`, whatever logins, reads, touches, logouts and
-- cleanups of the revocation list up to `at` come between and whatever record and marker KV still
-- returns for it, as long as the store has a revocation list and the tombstone was set from that
-- record, or its fallback reaches the record's absolute expiry.
pub get-revoke_kv :
    (hash : String → String) (longest : ℕ) (sid : String) (now fallback at : ℕ)
    (seen : Option StoredSession) (calls : List KvCall) (kv : KvStore) (list : Revocations)
    (stale : StoredSession) (marker : Option SeenMarker)
    → kv.revocations ≡ some list
    → stale.absolute_expires_at ≤ tomb_end hash now fallback seen
    → CleanedBy at calls
    → (get_kv hash sid at
        (some stale)
        marker
        (run_kv hash longest calls (revoke_kv hash sid now fallback seen kv))).0
      ≡ none
get-revoke_kv hash longest sid now fallback at seen calls kv list stale marker e le by =
    let before = revoke_kv hash sid now fallback seen kv in
    let after = run_kv hash longest calls before in
    elim (Bool-cases (leb stale.absolute_expires_at at)) [
      | inl over ↦ get_expired hash sid at stale marker after over
      | inr running ↦ get-Entombed hash sid at stale marker after (
          run-Holds hash at longest (Entombed (hash sid) at) (Entombed-IsKept (hash sid) at longest)
            calls before by (revoke_starts hash sid at now fallback seen kv list e (ground arith)))
    ]

-- "Log out everywhere" refuses, at `at`, every session of the user that was created up to then, in
-- the same way, as long as no session lives longer than the list's `maxSessionLifetimeMs`.
pub get-revoke_user_kv :
    (hash : String → String) (longest : ℕ) (sid : String) (now at : ℕ) (calls : List KvCall)
    (kv : KvStore) (list : Revocations) (stale : StoredSession) (marker : Option SeenMarker)
    → kv.revocations ≡ some list
    → stale.created_at ≤ now
    → stale.absolute_expires_at ≤ stale.created_at + longest
    → CleanedBy at calls
    → (get_kv hash sid at
        (some stale)
        marker
        (run_kv hash longest calls (revoke_user_kv stale.user_id now kv))).0
      ≡ none
get-revoke_user_kv hash longest sid now at calls kv list stale marker e le short by =
    let before = revoke_user_kv stale.user_id now kv in
    let after = run_kv hash longest calls before in
    let user = stale.user_id in
    elim (Bool-cases (leb stale.absolute_expires_at at)) [
      | inl over ↦ get_expired hash sid at stale marker after over
      | inr running ↦ get-Marked hash sid at stale marker after (
          run-Holds hash at longest (Marked user stale.created_at)
            (Marked-IsKept user stale.created_at at longest (ground arith)) calls before by
            (revoke_all_starts user stale.created_at now kv list e le))
    ]
