-- ===== src/KvSessions/Kept.antt =====
-- Calls of the KV store and of its revocation list, and what the list keeps under them.
use workers_auth.Prelude.{
  ℕ, ◌+◌, ◌≤◌, ◌<◌, String, ◌≡◌, Bool, true, false, not, Option, none, some, List, [], ◌∷◌, arith,
  leb, find, find-put, eq_iff, inl, inr, Bool-cases, Option-cases, Table, select_where, ◌==◌,
}
use workers_auth.Revocation.{
  Revocations, revoke, revoke_user, raised, later_than, cleanup_revocations,
}
use workers_auth.Sessions.{Session, NewSession}
use workers_auth.KvSessions.{
  StoredSession, SeenMarker, KvStore, create_kv, get_kv, touch_kv, revoke_kv, revoke_user_kv,
  tomb_end,
}

-- What requests and the cleanup do to the store; the reads of a call return what they return.
pub data KvCall : Type 0 where
  create : (sid : String) (now : ℕ) (input : NewSession) → KvCall
  get : (sid : String) (now : ℕ) (seen : Option StoredSession) (marker : Option SeenMarker) → KvCall
  touch : (sid : String) (now idle throttle : ℕ) → KvCall
  revoke_sid : (sid : String) (now fallback : ℕ) (seen : Option StoredSession) → KvCall
  revoke_all : (user_id : String) (now : ℕ) → KvCall
  cleanup : (now : ℕ) → KvCall

-- A create that throws leaves the store as it is.
abbrev after_create : KvStore → Option (Session × KvStore) → KvStore
after_create kv none = kv
after_create kv (some (session, after)) = after

-- The list's own cleanup; a store with no list has nothing to clean.
abbrev cleaned : (now longest : ℕ) → Option Revocations → Option Revocations
cleaned now longest none = none
cleaned now longest (some list) = some (cleanup_revocations now longest list).1

-- No cleanup runs at a later time than `at`.
abbrev pub CleanedBy : ℕ → List KvCall → Type 0
CleanedBy at [] = Unit
CleanedBy at (cleanup now ∷ calls) = (now ≤ at) × CleanedBy at calls
CleanedBy at (create _ _ _ ∷ calls) = CleanedBy at calls
CleanedBy at (get _ _ _ _ ∷ calls) = CleanedBy at calls
CleanedBy at (touch _ _ _ _ ∷ calls) = CleanedBy at calls
CleanedBy at (revoke_sid _ _ _ _ ∷ calls) = CleanedBy at calls
CleanedBy at (revoke_all _ _ ∷ calls) = CleanedBy at calls

-- `longest` is the list's `maxSessionLifetimeMs`.
module _ (hash : String → String) (longest : ℕ) where
  step_kv : KvCall → KvStore → KvStore
  step_kv (create sid now input) kv = after_create kv (create_kv hash sid now input kv)
  step_kv (get sid now seen marker) kv = (get_kv hash sid now seen marker kv).1
  step_kv (touch sid now idle throttle) kv = touch_kv hash sid now idle throttle kv
  step_kv (revoke_sid sid now fallback seen) kv = revoke_kv hash sid now fallback seen kv
  step_kv (revoke_all user_id now) kv = revoke_user_kv user_id now kv
  step_kv (cleanup now) kv = record kv { revocations = cleaned now longest kv.revocations }

  pub run_kv : List KvCall → KvStore → KvStore
  run_kv [] kv = kv
  run_kv (call ∷ calls) kv = run_kv calls (step_kv call kv)

-- A row that the filter keeps is still found.
find-select :
    (k : String) (old : ℕ → Bool) (m : Table ℕ) (v : ℕ)
    → find k m ≡ some v
    → old v ≡ false
    → find k (select_where (λ r. not (old r.1)) m) ≡ some v
unfolding find
find-select k old [] v h keep = ground arith
find-select k old ((i, w) ∷ m) v h keep = elim (Bool-cases (i == k)) [
  | inl e ↦ ground arith
  | inr e ↦ ground (arith, find-select k old m v (ground arith) keep)
]

-- A time that is still found after a filter that drops none later than `bound`.
later-select :
    (k : String) (bound : ℕ) (old : ℕ → Bool) (m : Table ℕ)
    → ((v : ℕ) → bound < v → old v ≡ false)
    → later_than bound (find k m) ≡ true
    → later_than bound (find k (select_where (λ r. not (old r.1)) m)) ≡ true
later-select k bound old m keep h = elim (Option-cases (find k m)) [
  | inl e ↦ ground arith
  | inr (v, e) ↦
      let late : bound < v = ground arith in
      rw (find-select k old m v e (keep v late)) (ground arith)
]

-- A property of the revocation list that every change of it keeps, cleanups up to `at` included.
pub record IsKept (at longest : ℕ) (P : Revocations → Type 0) : Type 0 where
  on_revoke :
      (sid_hash : String) (expires_at : ℕ) (list : Revocations)
      → P list
      → P (revoke sid_hash expires_at list)
  on_revoke_user :
      (user_id : String) (before : ℕ) (list : Revocations)
      → P list
      → P (revoke_user user_id before list)
  on_cleanup :
      (now : ℕ) (list : Revocations)
      → now ≤ at
      → P list
      → P (cleanup_revocations now longest list).1

abbrev pub Holds : (Revocations → Type 0) → KvStore → Type 0
Holds P kv = (list : Revocations) × (kv.revocations ≡ some list) × P list

module _ (hash : String → String) (at longest : ℕ) (P : Revocations → Type 0)
    (kept : IsKept at longest P) where
  step-Holds :
      (call : KvCall) (kv : KvStore)
      → CleanedBy at (call ∷ [])
      → Holds P kv
      → Holds P (step_kv hash longest call kv)
  unfolding step_kv create_kv get_kv touch_kv revoke_kv revoke_user_kv
  step-Holds (create sid now input) kv by (list, e, h) = (list, ground arith, h)
  step-Holds (get sid now none marker) kv by (list, e, h) = (list, e, h)
  step-Holds (get sid now (some r) marker) kv by (list, e, h) = (list, ground arith, h)
  step-Holds (touch sid now idle throttle) kv by (list, e, h) = (list, ground arith, h)
  step-Holds (revoke_sid sid now fallback seen) kv by (list, e, h) = (
    revoke (hash sid) (tomb_end hash now fallback seen) list,
    rw e,
    kept.on_revoke (hash sid) (tomb_end hash now fallback seen) list h,
  )
  step-Holds (revoke_all user_id now) kv by (list, e, h) =
      (revoke_user user_id (now + 1) list, rw e, kept.on_revoke_user user_id (now + 1) list h)
  step-Holds (cleanup now) kv (by, _) (list, e, h) =
      ((cleanup_revocations now longest list).1, rw e, kept.on_cleanup now list by h)

  head_by :
      (call : KvCall) (calls : List KvCall)
      → CleanedBy at (call ∷ calls)
      → CleanedBy at (call ∷ []) × CleanedBy at calls
  head_by (create _ _ _) calls by = (tt, by)
  head_by (get _ _ _ _) calls by = (tt, by)
  head_by (touch _ _ _ _) calls by = (tt, by)
  head_by (revoke_sid _ _ _ _) calls by = (tt, by)
  head_by (revoke_all _ _) calls by = (tt, by)
  head_by (cleanup _) calls (by, rest) = ((by, tt), rest)

  pub run-Holds :
      (calls : List KvCall) (kv : KvStore)
      → CleanedBy at calls
      → Holds P kv
      → Holds P (run_kv hash longest calls kv)
  unfolding run_kv
  run-Holds [] kv by h = h
  run-Holds (call ∷ calls) kv by h =
      let (first, rest) = head_by call calls by in
      run-Holds calls (step_kv hash longest call kv) rest (step-Holds call kv first h)

-- The session's tombstone lasts past `at`.
abbrev pub Entombed : String → ℕ → Revocations → Type 0
Entombed sid_hash at list = later_than at (find sid_hash list.tombstones) ≡ true

pub Entombed-IsKept :
    (sid_hash : String) (at longest : ℕ) → IsKept at longest (Entombed sid_hash at)
unfolding revoke revoke_user cleanup_revocations
Entombed-IsKept sid_hash at longest = record {
  on_revoke = λ other expires_at list h. ground (
    arith,
    find-put other sid_hash (raised expires_at (find other list.tombstones)) list.tombstones,
    eq_iff other sid_hash,
  );
  on_revoke_user = λ user_id before list h. h;
  on_cleanup = λ now list by h.
      later-select sid_hash at (λ v. leb v now) list.tombstones (λ v late. ground arith) h;
}

-- The user's marker refuses what was created by `created`.
abbrev pub Marked : String → ℕ → Revocations → Type 0
Marked user_id created list = later_than created (find user_id list.markers) ≡ true

pub Marked-IsKept :
    (user_id : String) (created at longest : ℕ)
    → at < created + longest
    → IsKept at longest (Marked user_id created)
unfolding revoke revoke_user cleanup_revocations
Marked-IsKept user_id created at longest room = record {
  on_revoke = λ other expires_at list h. h;
  on_revoke_user = λ other before list h. ground (
    arith,
    find-put other user_id (raised before (find other list.markers)) list.markers,
    eq_iff other user_id,
  );
  on_cleanup = λ now list by h.
      later-select user_id created (λ v. leb (v + longest) now) list.markers
        (λ v late. ground arith) h;
}
