-- ===== src/Guards/Lockout.antt =====
-- The PIN lockout: an account's failures are counted before a PIN is checked, so that concurrent
-- logins cannot check more PINs than the limit, and a lock holds until it is reset.
use workers_auth.Prelude.{
  ℕ, suc, ◌+◌, ◌≤◌, String, ◌≡◌, refl, Bool, true, false, Option, none, some, List, [], ◌∷◌, arith,
  is_some, if◌then◌else◌, Table, find, put, find-put_self, inl, inr, Option-cases,
}
use workers_auth.Guards.{
  GuardRow, reserve_login_attempt, reserve_row, may_attempt, lock_account, lock_row, reset_row,
  reset_login_guard, read_login_guard,
}

-- The steps of requests on one account's guard, other than a reset.
pub data GuardCall : Type 0 where
  attempt : (now : ℕ) → GuardCall
  lock : (now : ℕ) → GuardCall

-- The PIN checks granted by a sequence of calls, and the table after it.
pub run_attempts : String → ℕ → List GuardCall → Table GuardRow → ℕ × Table GuardRow
run_attempts account most [] guards = (0, guards)
run_attempts account most (attempt now ∷ calls) guards =
    let (slot, guards') = reserve_login_attempt account most now guards in
    let (granted, after) = run_attempts account most calls guards' in
    ((if is_some slot then suc granted else granted), after)
run_attempts account most (lock now ∷ calls) guards =
    run_attempts account most calls (lock_account account most now guards)

abbrev pub failures : Option GuardRow → ℕ
failures none = 0
failures (some r) = r.failed_count

attempt_row :
    (account : String) (most now : ℕ) (guards : Table GuardRow)
    → reserve_login_attempt account most now guards ≡ (
        if may_attempt most (find account guards)
        then (
          some (reserve_row now (find account guards)).failed_count,
          put account (reserve_row now (find account guards)) guards,
        )
        else (none, guards))
unfolding reserve_login_attempt
attempt_row account most now guards = refl

lock_live :
    (account : String) (most now : ℕ) (guards : Table GuardRow) (r : GuardRow)
    → find account guards ≡ some r
    → lock_account account most now guards ≡ put account (lock_row most now r) guards
unfolding lock_account
lock_live account most now guards r e = rw e

lock_absent :
    (account : String) (most now : ℕ) (guards : Table GuardRow)
    → find account guards ≡ none
    → lock_account account most now guards ≡ guards
unfolding lock_account
lock_absent account most now guards e = rw e

-- Without a reset, the PIN checks granted and the failures counted before never exceed the limit.
pub run_attempts_bound :
    (account : String) (most : ℕ) (calls : List GuardCall) (guards : Table GuardRow)
    → 1 ≤ most
    → failures (find account guards) ≤ most
    → (run_attempts account most calls guards).0 + failures (find account guards) ≤ most
unfolding run_attempts
run_attempts_bound account most [] guards pos le = omega arith
run_attempts_bound account most (attempt now ∷ calls) guards pos le = ground (
  arith,
  attempt_row account most now guards,
  find-put_self account (reserve_row now (find account guards)) guards,
  run_attempts_bound account most calls
      (put account (reserve_row now (find account guards)) guards),
  run_attempts_bound account most calls guards,
)
run_attempts_bound account most (lock now ∷ calls) guards pos le =
    elim (Option-cases (find account guards)) [
      | inl absent ↦ ground (
        arith,
        lock_absent account most now guards absent,
        run_attempts_bound account most calls guards,
      )
      | inr (r, e) ↦ ground (
        arith,
        lock_live account most now guards r e,
        find-put_self account (lock_row most now r) guards,
        run_attempts_bound account most calls (put account (lock_row most now r) guards),
      )
    ]

-- The account is locked, or at its limit.
abbrev pub is_barred : ℕ → Option GuardRow → Bool
is_barred most row = if may_attempt most row then false else true

-- A barred account is granted nothing and stays barred, whatever other requests do short of a
-- reset.
pub run_attempts_barred :
    (account : String) (most : ℕ) (calls : List GuardCall) (guards : Table GuardRow)
    → is_barred most (find account guards) ≡ true
    → ((run_attempts account most calls guards).0 ≡ 0)
      × (is_barred most (find account (run_attempts account most calls guards).1) ≡ true)
unfolding run_attempts
run_attempts_barred account most [] guards h = (refl, h)
run_attempts_barred account most (attempt now ∷ calls) guards h =
    ground
      (arith, attempt_row account most now guards, run_attempts_barred account most calls guards)
run_attempts_barred account most (lock now ∷ calls) guards h =
    elim (Option-cases (find account guards)) [
      | inl absent ↦ ground arith
      | inr (r, e) ↦ ground (
        arith,
        lock_live account most now guards r e,
        find-put_self account (lock_row most now r) guards,
        run_attempts_barred account most calls (put account (lock_row most now r) guards),
      )
    ]

-- A reset lifts the bar: it reports what it cleared, and the next login is granted as the first.
pub reset_lifts :
    (account : String) (most now later : ℕ) (guards : Table GuardRow)
    → 1 ≤ most
    → let (before, cleared) = reset_login_guard account now guards in
      (before ≡ read_login_guard account guards)
      × ((reserve_login_attempt account most later cleared).0 ≡ some 1)
unfolding reset_login_guard read_login_guard reserve_login_attempt
reset_lifts account most now later guards pos = elim (Option-cases (find account guards)) [
  | inl absent ↦ ground arith
  | inr (r, e) ↦ ground (arith, find-put_self account (reset_row now r) guards)
]
