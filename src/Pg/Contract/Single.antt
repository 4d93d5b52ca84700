-- ===== src/Pg/Contract/Single.antt =====
-- Each operation of the Postgres store on one table is that of the D1 store.
use workers_auth.Prelude.{
  ℕ, ◌≡◌, refl, String, Bool, ◌&&◌, Option, none, some, List, arith, inl, inr, Option-cases, Table,
  find, first_where,
}
use workers_auth.Limits.{
  Window, hit_rate_limit, reserve_rate_limit, read_rate_limit, refund_rate_limit,
  hit_circuit_breaker, read_circuit_breaker,
}
use workers_auth.Codes.{
  EmailCodeRecord, CodeRow, put_email_code, reserve_email_code_attempt, consume_email_code,
}
use workers_auth.Guards.{
  GuardRow, reserve_login_attempt, lock_account, reset_login_guard, read_login_guard,
}
use workers_auth.Devices.{
  DeviceRecord, create_device, find_device, touch_device, list_devices, revoke_device,
  revoke_all_devices, has_id,
}
use workers_auth.Creds.{
  CredentialType, CredentialMaterial, CredentialRow, get_active_credential, mark_credential_used,
}
use workers_auth.Pg.{upsert, update, delete, select}
use workers_auth.Pg.DeviceAuth.{
  hit_rate_limit_pg, reserve_rate_limit_pg, read_rate_limit_pg, refund_rate_limit_pg,
  hit_circuit_breaker_pg, read_circuit_breaker_pg, put_email_code_pg, reserve_email_code_attempt_pg,
  consume_email_code_pg, create_device_pg, find_device_pg, touch_device_pg, list_devices_pg,
  revoke_device_pg, revoke_all_devices_pg, get_active_credential_pg, mark_credential_used_pg,
  reserve_login_attempt_pg, lock_account_pg, reset_login_guard_pg, read_login_guard_pg, is_usable,
}
use workers_auth.Pg.Contract.Rows.{
  put_found, update_rows-after, length-update_rows, head-update_rows,
}

module _ (bucket : String) (window now : ℕ) (limits : Table Window) where
  pub hit-same :
      hit_rate_limit_pg bucket window now limits ≡ hit_rate_limit bucket window now limits
  unfolding hit_rate_limit_pg hit_rate_limit upsert
  hit-same = elim (Option-cases (find bucket limits)) [ inl e ↦ rw e | inr (r, e) ↦ rw e ]

  pub reserve-same :
      (most : ℕ)
      → reserve_rate_limit_pg bucket window now most limits
        ≡ reserve_rate_limit bucket window now most limits
  unfolding reserve_rate_limit_pg reserve_rate_limit upsert
  reserve-same most = elim (Option-cases (find bucket limits)) [
    | inl e ↦ rw e
    | inr (r, e) ↦ rw e (ground arith)
  ]

  pub read-same :
      read_rate_limit_pg bucket window now limits ≡ read_rate_limit bucket window now limits
  unfolding read_rate_limit_pg read_rate_limit select
  read-same = elim (Option-cases (find bucket limits)) [
    | inl e ↦ rw e
    | inr (r, e) ↦ rw e (ground arith)
  ]

  pub hit_breaker-same :
      (failed : Bool)
      → hit_circuit_breaker_pg bucket window now failed limits
        ≡ hit_circuit_breaker bucket window now failed limits
  unfolding hit_circuit_breaker_pg hit_circuit_breaker upsert
  hit_breaker-same failed = elim (Option-cases (find bucket limits)) [
    | inl e ↦ rw e
    | inr (r, e) ↦ rw e
  ]

  pub read_breaker-same :
      read_circuit_breaker_pg bucket window now limits
      ≡ read_circuit_breaker bucket window now limits
  unfolding read_circuit_breaker_pg read_circuit_breaker select
  read_breaker-same = elim (Option-cases (find bucket limits)) [
    | inl e ↦ rw e
    | inr (r, e) ↦ rw e (ground arith)
  ]

pub refund-same :
    (bucket : String) (start : ℕ) (limits : Table Window)
    → refund_rate_limit_pg bucket start limits ≡ refund_rate_limit bucket start limits
unfolding refund_rate_limit_pg refund_rate_limit update
refund-same bucket start limits = elim (Option-cases (find bucket limits)) [
  | inl e ↦ rw (e, refund_rate_limit_pg)
  | inr (r, e) ↦ rw e (ground (arith, put_found bucket r limits))
]

pub put_code-same :
    (r : EmailCodeRecord) (codes : Table CodeRow)
    → put_email_code_pg r codes ≡ put_email_code r codes
unfolding put_email_code_pg put_email_code upsert
put_code-same r codes = elim (Option-cases (find r.email codes)) [
  | inl e ↦ rw (e, put_email_code_pg)
  | inr (c, e) ↦ rw (e, put_email_code_pg)
]

pub reserve_code-same :
    (email : String) (now max_attempts : ℕ) (codes : Table CodeRow)
    → reserve_email_code_attempt_pg email now max_attempts codes
      ≡ reserve_email_code_attempt email now max_attempts codes
unfolding reserve_email_code_attempt_pg reserve_email_code_attempt update
reserve_code-same email now max_attempts codes = elim (Option-cases (find email codes)) [
  | inl e ↦ rw e
  | inr (c, e) ↦ rw e (ground arith)
]

pub consume-same :
    (email code_hash : String) (codes : Table CodeRow)
    → consume_email_code_pg email code_hash codes ≡ consume_email_code email code_hash codes
unfolding consume_email_code_pg consume_email_code delete
consume-same email code_hash codes = elim (Option-cases (find email codes)) [
  | inl e ↦ rw e
  | inr (c, e) ↦ rw e (ground arith)
]

pub create-same :
    (r : DeviceRecord) (devices : List DeviceRecord)
    → create_device_pg r devices ≡ create_device r devices
unfolding create_device_pg create_device
create-same r devices = elim (Option-cases (first_where (has_id r.device_id) devices)) [
  | inl e ↦ rw (e, create_device_pg)
  | inr (d, e) ↦ rw (e, create_device_pg)
]

pub find-same :
    (id : String) (devices : List DeviceRecord) → find_device_pg id devices ≡ find_device id devices
unfolding find_device_pg find_device
find-same id devices = refl

pub touch-same :
    (id : String) (now idle : ℕ) (devices : List DeviceRecord)
    → touch_device_pg id now idle devices ≡ touch_device id now idle devices
unfolding touch_device_pg touch_device
touch-same id now idle devices =
    rw (head-update_rows, update_rows-after)
      (elim (Option-cases (first_where (λ d. has_id id d && is_usable now d) devices)) [
        | inl e ↦ rw e
        | inr (d, e) ↦ rw e
      ])

pub list-same :
    (account : String) (now : ℕ) (devices : List DeviceRecord)
    → list_devices_pg account now devices ≡ list_devices account now devices
unfolding list_devices_pg list_devices
list-same account now devices = refl

pub revoke-same :
    (account id : String) (now : ℕ) (devices : List DeviceRecord)
    → revoke_device_pg account id now devices ≡ revoke_device account id now devices
unfolding revoke_device_pg revoke_device
revoke-same account id now devices = rw (length-update_rows, update_rows-after)

pub revoke_all-same :
    (account : String) (now : ℕ) (except : Option String) (devices : List DeviceRecord)
    → revoke_all_devices_pg account now except devices
      ≡ revoke_all_devices account now except devices
unfolding revoke_all_devices_pg revoke_all_devices
revoke_all-same account now none devices = rw (length-update_rows, update_rows-after)
revoke_all-same account now (some other) devices = rw (length-update_rows, update_rows-after)

pub get_active-same :
    (account : String) (kind : CredentialType) (creds : List CredentialRow)
    → get_active_credential_pg account kind creds ≡ get_active_credential account kind creds
unfolding get_active_credential_pg get_active_credential
get_active-same account kind creds = refl

pub mark_used-same :
    (id : String) (now : ℕ) (material : Option CredentialMaterial) (creds : List CredentialRow)
    → mark_credential_used_pg id now material creds ≡ mark_credential_used id now material creds
unfolding mark_credential_used_pg mark_credential_used
mark_used-same id now none creds = update_rows-after _ _ creds
mark_used-same id now (some m) creds = update_rows-after _ _ creds

module _ (account : String) (max_attempts now : ℕ) (guards : Table GuardRow) where
  pub reserve_login-same :
      reserve_login_attempt_pg account max_attempts now guards
      ≡ reserve_login_attempt account max_attempts now guards
  unfolding reserve_login_attempt_pg reserve_login_attempt upsert
  reserve_login-same = elim (Option-cases (find account guards)) [
    | inl e ↦ rw e
    | inr (g, e) ↦ rw e (ground arith)
  ]

  pub lock-same :
      lock_account_pg account max_attempts now guards ≡ lock_account account max_attempts now guards
  unfolding lock_account_pg lock_account update
  lock-same = elim (Option-cases (find account guards)) [
    | inl e ↦ rw (e, lock_account_pg)
    | inr (g, e) ↦ rw e (ground (arith, put_found account g guards))
  ]

module _ (account : String) (guards : Table GuardRow) where
  pub reset-same :
      (now : ℕ) → reset_login_guard_pg account now guards ≡ reset_login_guard account now guards
  unfolding reset_login_guard_pg reset_login_guard select update
  reset-same now = elim (Option-cases (find account guards)) [ inl e ↦ rw e | inr (g, e) ↦ rw e ]

  pub read_guard-same : read_login_guard_pg account guards ≡ read_login_guard account guards
  unfolding read_login_guard_pg read_login_guard select
  read_guard-same = elim (Option-cases (find account guards)) [ inl e ↦ rw e | inr (g, e) ↦ rw e ]
