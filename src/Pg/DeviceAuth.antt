-- ===== src/Pg/DeviceAuth.antt =====
-- store/pg/device-auth.ts, `pgDeviceAuthStore`: one function for each operation.
pub mod Replace
use workers_auth.Prelude.{
  ℕ, ◌+◌, ◌-◌, String, Bool, true, false, ◌&&◌, ◌||◌, not, Option, none, some, List, [], ◌∷◌, ◌++◌,
  map, min, eqb, leb, ltb, is_none, is_some, if◌then◌else◌, Table, ◌==◌, length, select_where,
  first_where, count_where,
}
use mathlib.Core.Option
use workers_auth.Limits.{Window, Hit, CircuitBreakerState, hit_of, breaker_of}
use workers_auth.Codes.{EmailCodeRecord, CodeRow, ReservedEmailCode, reserved_of}
use workers_auth.Guards.{GuardRow, GuardState, guard_state, coalesce}
use workers_auth.Devices.{DeviceRecord, DeviceInfo, has_id, order_by_age, info_of}
use workers_auth.Creds.{CredentialType, CredentialMaterial, CredentialRow, same_type, newest}
use workers_auth.Pg.{upsert, update, delete, select, update_rows}

-- `window_start <= now - windowMs`
abbrev is_past : ℕ → ℕ → Window → Bool
is_past window now r = leb (r.window_start + window) now

abbrev pub always : {V : Type 0} → V → Bool
always _ = true

abbrev counted : ℕ → ℕ → Window → Window
counted window now r = record r {
  count = if is_past window now r then 1 else r.count + 1;
  window_start = if is_past window now r then now else r.window_start;
}

abbrev first_hit : ℕ → Window
first_hit now = record { window_start = now; count = 1; failures = 0 }

-- `row ? … : { count: 1, windowStart: now }`
abbrev hit_or_first : ℕ → Option Window → Hit
hit_or_first now none = record { count = 1; window_start = now }
hit_or_first now (some r) = hit_of r

unfoldable pub hit_rate_limit_pg : String → ℕ → ℕ → Table Window → Hit × Table Window
hit_rate_limit_pg bucket window now limits =
    let (row, after) = upsert bucket (first_hit now) always (counted window now) limits in
    (hit_or_first now row, after)

unfoldable pub reserve_rate_limit_pg : String → ℕ → ℕ → ℕ → Table Window → Option Hit × Table Window
reserve_rate_limit_pg bucket window now cap limits =
    let (row, after) =
      upsert bucket (first_hit now) (λ r. is_past window now r || ltb r.count cap)
        (counted window now) limits in
    (Option.map hit_of row, after)

abbrev hit_or_empty : ℕ → Option Window → Hit
hit_or_empty now none = record { count = 0; window_start = now }
hit_or_empty now (some r) = hit_of r

-- `window_start > now - windowMs`
unfoldable pub read_rate_limit_pg : String → ℕ → ℕ → Table Window → Hit
read_rate_limit_pg bucket window now limits =
    hit_or_empty now (select bucket (λ r. ltb now (r.window_start + window)) limits)

unfoldable pub refund_rate_limit_pg : String → ℕ → Table Window → Table Window
refund_rate_limit_pg bucket start limits =
    (update bucket (λ r. eqb r.window_start start && ltb 0 r.count)
      (λ r. record r { count = r.count - 1 }) limits).1

abbrev state_or_first : ℕ → ℕ → Option Window → CircuitBreakerState
state_or_first now failure none = record { attempts = 1; failures = failure; window_start = now }
state_or_first now failure (some r) = breaker_of r

unfoldable pub hit_circuit_breaker_pg :
    String → ℕ → ℕ → Bool → Table Window → CircuitBreakerState × Table Window
hit_circuit_breaker_pg bucket window now failed limits =
    let failure : ℕ = if failed then 1 else 0 in
    let (row, after) =
      upsert bucket (record { window_start = now; count = 1; failures = failure }) always
        (λ r. record {
          count = if is_past window now r then 1 else r.count + 1;
          failures = if is_past window now r then failure else r.failures + failure;
          window_start = if is_past window now r then now else r.window_start;
        })
        limits in
    (state_or_first now failure row, after)

abbrev state_or_empty : ℕ → Option Window → CircuitBreakerState
state_or_empty now none = record { attempts = 0; failures = 0; window_start = now }
state_or_empty now (some r) = breaker_of r

unfoldable pub read_circuit_breaker_pg : String → ℕ → ℕ → Table Window → CircuitBreakerState
read_circuit_breaker_pg bucket window now limits =
    state_or_empty now (select bucket (λ r. ltb now (r.window_start + window)) limits)

unfoldable pub put_email_code_pg : EmailCodeRecord → Table CodeRow → Table CodeRow
put_email_code_pg r codes =
    (upsert r.email
      (record {
        code_hash = r.code_hash;
        key_id = r.key_id;
        attempts = 0;
        attempts_reset_at = r.attempts_reset_at;
        expires_at = r.expires_at;
        created_at = r.created_at;
      })
      always
      (λ c. record {
        code_hash = r.code_hash;
        key_id = r.key_id;
        attempts = if ltb r.created_at c.attempts_reset_at then c.attempts else 0;
        attempts_reset_at =
            if ltb r.created_at c.attempts_reset_at
            then c.attempts_reset_at
            else r.attempts_reset_at;
        expires_at = r.expires_at;
        created_at = r.created_at;
      })
      codes).1

unfoldable pub reserve_email_code_attempt_pg :
    String → ℕ → ℕ → Table CodeRow → Option ReservedEmailCode × Table CodeRow
reserve_email_code_attempt_pg email now max_attempts codes =
    let (row, after) =
      update email (λ c. ltb c.attempts max_attempts && ltb now c.expires_at)
        (λ c. record c { attempts = c.attempts + 1 }) codes in
    (Option.map reserved_of row, after)

unfoldable pub consume_email_code_pg : String → String → Table CodeRow → Bool × Table CodeRow
consume_email_code_pg email code_hash codes =
    let (row, after) = delete email (λ c. c.code_hash == code_hash) codes in (is_some row, after)

-- The insert throws where the primary key is taken.
unfoldable pub create_device_pg : DeviceRecord → List DeviceRecord → Option (List DeviceRecord)
create_device_pg r devices = elim (first_where (has_id r.device_id) devices) [
  | none ↦ some (record r { revoked_at = none } ∷ devices)
  | some _ ↦ none
]

unfoldable pub find_device_pg : String → List DeviceRecord → Option DeviceRecord
find_device_pg id devices = first_where (has_id id) devices

abbrev pub head : {A : Type 0} → List A → Option A
head [] = none
head (r ∷ rs) = some r

abbrev pub is_usable : ℕ → DeviceRecord → Bool
is_usable now d =
    is_none d.revoked_at && (ltb now d.idle_expires_at && ltb now d.absolute_expires_at)

unfoldable pub touch_device_pg : String → ℕ → ℕ → List DeviceRecord → Option ℕ × List DeviceRecord
touch_device_pg id now idle devices =
    let (rows, after) =
      update_rows (λ d. has_id id d && is_usable now d)
        (λ d. record d { last_used_at = now; idle_expires_at = min idle d.absolute_expires_at })
        devices in
    (Option.map (λ d. d.idle_expires_at) (head rows), after)

unfoldable pub list_devices_pg : String → ℕ → List DeviceRecord → List DeviceInfo
unfolding order_by_age
list_devices_pg account now devices =
    map info_of
      (order_by_age (select_where (λ d. d.account_id == account && is_usable now d) devices))

abbrev pub revoked_at_ : ℕ → DeviceRecord → DeviceRecord
revoked_at_ now d = record d { revoked_at = some now }

-- `rows.length > 0`
unfoldable pub revoke_device_pg : String → String → ℕ → List DeviceRecord → Bool × List DeviceRecord
revoke_device_pg account id now devices =
    let (rows, after) =
      update_rows (λ d. has_id id d && (d.account_id == account && is_none d.revoked_at))
        (revoked_at_ now) devices in
    (ltb 0 (length rows), after)

-- `device_id IS DISTINCT FROM $3`
abbrev pub is_distinct : Option String → String → Bool
is_distinct none id = true
is_distinct (some other) id = not (id == other)

unfoldable pub revoke_all_devices_pg :
    String → ℕ → Option String → List DeviceRecord → ℕ × List DeviceRecord
revoke_all_devices_pg account now except devices =
    let (rows, after) =
      update_rows
        (λ d. d.account_id == account && (is_none d.revoked_at && is_distinct except d.device_id))
        (revoked_at_ now) devices in
    (length rows, after)

abbrev pub is_current : String → CredentialType → CredentialRow → Bool
is_current account kind c =
    c.account_id == account && (same_type c.kind kind && is_none c.revoked_at)

unfoldable pub get_active_credential_pg :
    String → CredentialType → List CredentialRow → Option CredentialRow
unfolding newest
get_active_credential_pg account kind creds = newest (select_where (is_current account kind) creds)

-- Two statements, by whether there is new material.
unfoldable pub mark_credential_used_pg :
    String → ℕ → Option CredentialMaterial → List CredentialRow → List CredentialRow
mark_credential_used_pg id now (some material) creds =
    (update_rows (λ c. c.credential_id == id && is_none c.revoked_at)
      (λ c. record c { last_used_at = some now; updated_at = now; material = material }) creds).1
mark_credential_used_pg id now none creds =
    (update_rows (λ c. c.credential_id == id && is_none c.revoked_at)
      (λ c. record c { last_used_at = some now }) creds).1

unfoldable pub reserve_login_attempt_pg :
    String → ℕ → ℕ → Table GuardRow → Option ℕ × Table GuardRow
reserve_login_attempt_pg account max_attempts now guards =
    let (row, after) =
      upsert account (record { failed_count = 1; locked_at = none; updated_at = now })
        (λ g. ltb g.failed_count max_attempts && is_none g.locked_at)
        (λ g. record g { failed_count = g.failed_count + 1; updated_at = now }) guards in
    (Option.map (λ g. g.failed_count) row, after)

unfoldable pub lock_account_pg : String → ℕ → ℕ → Table GuardRow → Table GuardRow
lock_account_pg account max_attempts now guards =
    (update account (λ g. leb max_attempts g.failed_count)
      (λ g. record g { locked_at = coalesce g.locked_at now; updated_at = now }) guards).1

-- The row is locked and read, and the update returns what was read.
unfoldable pub reset_login_guard_pg :
    String → ℕ → Table GuardRow → Option GuardState × Table GuardRow
reset_login_guard_pg account now guards =
    let before = select account always guards in
    let (_, after) =
      update account always (λ g. record { failed_count = 0; locked_at = none; updated_at = now })
        guards in
    (Option.map guard_state before, after)

unfoldable pub read_login_guard_pg : String → Table GuardRow → Option GuardState
read_login_guard_pg account guards = Option.map guard_state (select account always guards)
