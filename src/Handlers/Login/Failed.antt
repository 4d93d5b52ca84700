-- ===== src/Handlers/Login/Failed.antt =====
-- What a PIN login that fails leaves behind.
use workers_auth.Prelude.{
  ℕ, ◌+◌, ◌-◌, ◌<◌, String, ◌≡◌, true, Bool, is_none, ltb, Option, Option-cases, none, some, inl,
  inr, arith, Bool-cases, leb, if◌then◌else◌, find, put, find-put_self,
}
use workers_auth.Guards.{
  may_attempt, lock_row, GuardRow, GuardState, reserve_login_attempt, lock_account,
  read_login_guard,
}
use workers_auth.Devices.{DeviceRecord}
use workers_auth.Creds.{CredentialRow}
use workers_auth.Material.{refused, verify}
use workers_auth.Web.{World, stop, Reply}
use workers_auth.Request.{Request}
use workers_auth.Handlers.{Settings, Fresh}
use workers_auth.Handlers.Email.{key_ring}
use workers_auth.Handlers.Login.{try_pin, wrong_pin}

-- The failures that a guard has counted; no row counts none.
abbrev pub failures : Option GuardState → ℕ
failures none = 0
failures (some state) = state.failed_count

abbrev pub is_unlocked : Option GuardState → Bool
is_unlocked none = true
is_unlocked (some state) = is_none state.locked_at

module _ (s : Settings) (req : Request) (fresh : Fresh) (now : ℕ) where
  -- With at least one attempt allowed, a wrong PIN on an account that is not locked (it has no guard
  -- row, or one without a lock) is counted while fewer than the most have failed: the last one allowed locks the account and asks
  -- for an email verification, and each other one tells the attempts that remain. Where as many as
  -- the most have failed already, an email verification is asked for and the guard is left alone.
  pub try_pin-counts :
      (entered : String) (d : DeviceRecord) (c : CredentialRow) (world : World)
      → 0 < s.pin_max_attempts
      → is_unlocked (read_login_guard d.account_id world.store.guards) ≡ true
      → verify s.crypto s.pin_iterations (key_ring s) fresh.salt entered c.material ≡ refused
      → let out = try_pin s req fresh now entered d c world in
        let before = read_login_guard d.account_id world.store.guards in
        let failed = failures before in
        let count = failed + 1 in
        let is_last = leb s.pin_max_attempts count in
        (out.0
          ≡ stop (
              if is_last
              then Reply.email_verification_required
              else Reply.invalid_pin (s.pin_max_attempts - count)))
        × (read_login_guard d.account_id out.1.store.guards ≡ (
            if ltb failed s.pin_max_attempts
            then some
                (record { failed_count = count; locked_at = if is_last then some now else none })
            else before))
  unfolding try_pin wrong_pin reserve_login_attempt lock_account read_login_guard
  try_pin-counts entered d c world most unlocked v =
      elim (Option-cases (find d.account_id world.store.guards)) [
        | inl e ↦
            let counted : GuardRow = record {
              failed_count = 1;
              locked_at = none;
              updated_at = now;
            } in
            let put_once = find-put_self d.account_id counted world.store.guards in
            let put_twice =
              find-put_self d.account_id (lock_row s.pin_max_attempts now counted)
                (put d.account_id counted world.store.guards) in
            elim (Bool-cases (leb s.pin_max_attempts 1)) [
              | inl last ↦ ground (arith, put_twice)
              | inr more ↦ ground (arith, put_once)
            ]
        | inr (row, e) ↦
            let counted = record row { failed_count = row.failed_count + 1; updated_at = now } in
            let put_once = find-put_self d.account_id counted world.store.guards in
            let put_twice =
              find-put_self d.account_id (lock_row s.pin_max_attempts now counted)
                (put d.account_id counted world.store.guards) in
            elim (Option-cases row.locked_at) [
              | inr (at, l) ↦ ground arith
              | inl l ↦ elim (Bool-cases (ltb row.failed_count s.pin_max_attempts)) [
                | inr full ↦ ground arith
                | inl room ↦ elim (Bool-cases (leb s.pin_max_attempts (row.failed_count + 1))) [
                  | inl last ↦ ground (arith, put_twice)
                  | inr more ↦ ground (arith, put_once)
                ]
              ]
            ]
      ]

  -- While no attempt is granted, the answer is the same for every PIN, and no table changes.
  pub try_pin-locked :
      (entered other : String) (d : DeviceRecord) (c : CredentialRow) (world : World)
      → (reserve_login_attempt d.account_id s.pin_max_attempts now world.store.guards).0 ≡ none
      → let out = try_pin s req fresh now entered d c world in
        (out ≡ try_pin s req fresh now other d c world)
        × (out.0 ≡ stop Reply.email_verification_required)
        × (out.1.store ≡ world.store)
  unfolding try_pin reserve_login_attempt
  try_pin-locked entered other d c world e =
      elim (Bool-cases (may_attempt s.pin_max_attempts (find d.account_id world.store.guards))) [
        | inl t ↦ ground arith
        | inr t ↦ (rw (t, try_pin), rw (t, try_pin), rw (t, try_pin))
      ]
