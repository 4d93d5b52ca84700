-- ===== src/Guards.antt =====
-- The login guards of src/device-auth/store.ts (`auth_login_guards`), one row to an account.
pub mod Lockout
use workers_auth.Prelude.{
  ℕ, ◌+◌, String, Bool, true, ◌&&◌, Option, none, some, leb, ltb, is_none, if◌then◌else◌, Table,
  find, put,
}

pub record GuardRow : Type 0 where
  pub failed_count : ℕ
  pub locked_at : Option ℕ
  pub updated_at : ℕ

pub record GuardState : Type 0 where
  pub failed_count : ℕ
  pub locked_at : Option ℕ

abbrev reserve_row : ℕ → Option GuardRow → GuardRow
reserve_row now none = record { failed_count = 1; locked_at = none; updated_at = now }
reserve_row now (some r) = record r { failed_count = r.failed_count + 1; updated_at = now }

-- `WHERE failed_count < ?3 AND locked_at IS NULL` of the update; an insert has no condition
abbrev pub may_attempt : ℕ → Option GuardRow → Bool
may_attempt max_attempts none = true
may_attempt max_attempts (some r) = ltb r.failed_count max_attempts && is_none r.locked_at

unfoldable pub reserve_login_attempt : String → ℕ → ℕ → Table GuardRow → Option ℕ × Table GuardRow
reserve_login_attempt account max_attempts now guards =
    let row = reserve_row now (find account guards) in
    if may_attempt max_attempts (find account guards)
    then (some row.failed_count, put account row guards)
    else (none, guards)

-- `COALESCE(locked_at, now)`
abbrev pub coalesce : Option ℕ → ℕ → Option ℕ
coalesce none now = some now
coalesce (some at) now = some at

abbrev pub lock_row : ℕ → ℕ → GuardRow → GuardRow
lock_row max_attempts now r =
    if leb max_attempts r.failed_count
    then record r { locked_at = coalesce r.locked_at now; updated_at = now }
    else r

abbrev lock_found : String → ℕ → ℕ → Table GuardRow → Option GuardRow → Table GuardRow
lock_found account max_attempts now guards none = guards
lock_found account max_attempts now guards (some r) =
    put account (lock_row max_attempts now r) guards

unfoldable pub lock_account : String → ℕ → ℕ → Table GuardRow → Table GuardRow
lock_account account max_attempts now guards =
    lock_found account max_attempts now guards (find account guards)

abbrev reset_row : ℕ → GuardRow → GuardRow
reset_row now r = record r { failed_count = 0; locked_at = none; updated_at = now }

abbrev pub guard_state : GuardRow → GuardState
guard_state r = record { failed_count = r.failed_count; locked_at = r.locked_at }

abbrev reset_found :
    String → ℕ → Table GuardRow → Option GuardRow → Option GuardState × Table GuardRow
reset_found account now guards none = (none, guards)
reset_found account now guards (some r) =
    (some (guard_state r), put account (reset_row now r) guards)

unfoldable pub reset_login_guard : String → ℕ → Table GuardRow → Option GuardState × Table GuardRow
reset_login_guard account now guards = reset_found account now guards (find account guards)

abbrev state_found : Option GuardRow → Option GuardState
state_found none = none
state_found (some r) = some (guard_state r)

unfoldable pub read_login_guard : String → Table GuardRow → Option GuardState
read_login_guard account guards = state_found (find account guards)
