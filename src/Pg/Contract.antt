-- ===== src/Pg/Contract.antt =====
-- `DeviceAuthStore`: the calls of the contract and what they answer, in D1 and in Postgres.
pub mod Rows
pub mod Single
pub mod Batch
pub mod Same
use workers_auth.Prelude.{ℕ, String, Bool, Option, none, some, List, [], ◌∷◌}
use workers_auth.Limits.{
  Hit, CircuitBreakerState, hit_rate_limit, reserve_rate_limit, read_rate_limit, refund_rate_limit,
  hit_circuit_breaker, read_circuit_breaker,
}
use workers_auth.Codes.{
  EmailCodeRecord, ReservedEmailCode, put_email_code, reserve_email_code_attempt,
  consume_email_code,
}
use workers_auth.Guards.{
  GuardState, reserve_login_attempt, lock_account, reset_login_guard, read_login_guard,
}
use workers_auth.Devices.{
  DeviceRecord, DeviceInfo, create_device, find_device, touch_device, list_devices, revoke_device,
  revoke_all_devices,
}
use workers_auth.Creds.{
  CredentialType, CredentialMaterial, CredentialRow, get_active_credential, mark_credential_used,
}
use workers_auth.Store.{
  Store, ReplaceCredentialOptions, ReplaceCredentialResult, replace_credential, cleanup,
}
use workers_auth.Pg.DeviceAuth.{
  hit_rate_limit_pg, reserve_rate_limit_pg, read_rate_limit_pg, refund_rate_limit_pg,
  hit_circuit_breaker_pg, read_circuit_breaker_pg, put_email_code_pg, reserve_email_code_attempt_pg,
  consume_email_code_pg, create_device_pg, find_device_pg, touch_device_pg, list_devices_pg,
  revoke_device_pg, revoke_all_devices_pg, get_active_credential_pg, mark_credential_used_pg,
  reserve_login_attempt_pg, lock_account_pg, reset_login_guard_pg, read_login_guard_pg,
}
use workers_auth.Pg.DeviceAuth.Replace.{replace_credential_pg, cleanup_pg}

pub data StoreCall : Type 0 where
  hit : (bucket : String) (window now : ℕ) → StoreCall
  reserve : (bucket : String) (window now most : ℕ) → StoreCall
  read_limit : (bucket : String) (window now : ℕ) → StoreCall
  refund : (bucket : String) (start : ℕ) → StoreCall
  hit_breaker : (bucket : String) (window now : ℕ) (failed : Bool) → StoreCall
  read_breaker : (bucket : String) (window now : ℕ) → StoreCall
  put_code : (r : EmailCodeRecord) → StoreCall
  reserve_code : (email : String) (now max_attempts : ℕ) → StoreCall
  consume_code : (email code_hash : String) → StoreCall
  create : (r : DeviceRecord) → StoreCall
  find_one : (id : String) → StoreCall
  touch : (id : String) (now idle : ℕ) → StoreCall
  list_all : (account : String) (now : ℕ) → StoreCall
  revoke_one : (account id : String) (now : ℕ) → StoreCall
  revoke_all : (account : String) (now : ℕ) (except : Option String) → StoreCall
  get_active : (account : String) (kind : CredentialType) → StoreCall
  replace : (r : CredentialRow) (options : ReplaceCredentialOptions) → StoreCall
  mark_used : (id : String) (now : ℕ) (material : Option CredentialMaterial) → StoreCall
  reserve_login : (account : String) (max_attempts now : ℕ) → StoreCall
  lock : (account : String) (max_attempts now : ℕ) → StoreCall
  reset : (account : String) (now : ℕ) → StoreCall
  read_guard : (account : String) → StoreCall
  clean : (now horizon : ℕ) → StoreCall

pub data StoreReply : Type 0 where
  thrown done : StoreReply
  hits : Hit → StoreReply
  slot : Option Hit → StoreReply
  breaker : CircuitBreakerState → StoreReply
  code : Option ReservedEmailCode → StoreReply
  answer : Bool → StoreReply
  device : Option DeviceRecord → StoreReply
  expiry : Option ℕ → StoreReply
  listed : List DeviceInfo → StoreReply
  number : ℕ → StoreReply
  credential : Option CredentialRow → StoreReply
  replaced : ReplaceCredentialResult → StoreReply
  attempt : Option ℕ → StoreReply
  guard_state : Option GuardState → StoreReply

abbrev created : Option (List DeviceRecord) → Store → StoreReply × Store
created none s = (thrown, s)
created (some devices) s = (done, record s { devices = devices })

abbrev swapped : Option (ReplaceCredentialResult × Store) → Store → StoreReply × Store
swapped none s = (thrown, s)
swapped (some (result, s')) s = (replaced result, s')

-- The call, as the D1 store runs it.
unfoldable pub call_d1 : StoreCall → Store → StoreReply × Store
call_d1 (hit bucket window now) s =
    let (result, after) = hit_rate_limit bucket window now s.limits in
    (hits result, record s { limits = after })
call_d1 (reserve bucket window now most) s =
    let (result, after) = reserve_rate_limit bucket window now most s.limits in
    (slot result, record s { limits = after })
call_d1 (read_limit bucket window now) s = (hits (read_rate_limit bucket window now s.limits), s)
call_d1 (refund bucket start) s =
    (done, record s { limits = refund_rate_limit bucket start s.limits })
call_d1 (hit_breaker bucket window now failed) s =
    let (result, after) = hit_circuit_breaker bucket window now failed s.limits in
    (breaker result, record s { limits = after })
call_d1 (read_breaker bucket window now) s =
    (breaker (read_circuit_breaker bucket window now s.limits), s)
call_d1 (put_code r) s = (done, record s { codes = put_email_code r s.codes })
call_d1 (reserve_code email now max_attempts) s =
    let (result, after) = reserve_email_code_attempt email now max_attempts s.codes in
    (code result, record s { codes = after })
call_d1 (consume_code email code_hash) s =
    let (result, after) = consume_email_code email code_hash s.codes in
    (answer result, record s { codes = after })
call_d1 (create r) s = created (create_device r s.devices) s
call_d1 (find_one id) s = (device (find_device id s.devices), s)
call_d1 (touch id now idle) s =
    let (result, after) = touch_device id now idle s.devices in
    (expiry result, record s { devices = after })
call_d1 (list_all account now) s = (listed (list_devices account now s.devices), s)
call_d1 (revoke_one account id now) s =
    let (result, after) = revoke_device account id now s.devices in
    (answer result, record s { devices = after })
call_d1 (revoke_all account now except) s =
    let (result, after) = revoke_all_devices account now except s.devices in
    (number result, record s { devices = after })
call_d1 (get_active account kind) s = (credential (get_active_credential account kind s.creds), s)
call_d1 (replace r options) s = swapped (replace_credential r options s) s
call_d1 (mark_used id now material) s =
    (done, record s { creds = mark_credential_used id now material s.creds })
call_d1 (reserve_login account max_attempts now) s =
    let (result, after) = reserve_login_attempt account max_attempts now s.guards in
    (attempt result, record s { guards = after })
call_d1 (lock account max_attempts now) s =
    (done, record s { guards = lock_account account max_attempts now s.guards })
call_d1 (reset account now) s =
    let (result, after) = reset_login_guard account now s.guards in
    (guard_state result, record s { guards = after })
call_d1 (read_guard account) s = (guard_state (read_login_guard account s.guards), s)
call_d1 (clean now horizon) s = let (n, s') = cleanup now horizon s in (number n, s')

-- The call, as the Postgres store runs it.
unfoldable pub call_pg : StoreCall → Store → StoreReply × Store
call_pg (hit bucket window now) s =
    let (result, after) = hit_rate_limit_pg bucket window now s.limits in
    (hits result, record s { limits = after })
call_pg (reserve bucket window now most) s =
    let (result, after) = reserve_rate_limit_pg bucket window now most s.limits in
    (slot result, record s { limits = after })
call_pg (read_limit bucket window now) s = (hits (read_rate_limit_pg bucket window now s.limits), s)
call_pg (refund bucket start) s =
    (done, record s { limits = refund_rate_limit_pg bucket start s.limits })
call_pg (hit_breaker bucket window now failed) s =
    let (result, after) = hit_circuit_breaker_pg bucket window now failed s.limits in
    (breaker result, record s { limits = after })
call_pg (read_breaker bucket window now) s =
    (breaker (read_circuit_breaker_pg bucket window now s.limits), s)
call_pg (put_code r) s = (done, record s { codes = put_email_code_pg r s.codes })
call_pg (reserve_code email now max_attempts) s =
    let (result, after) = reserve_email_code_attempt_pg email now max_attempts s.codes in
    (code result, record s { codes = after })
call_pg (consume_code email code_hash) s =
    let (result, after) = consume_email_code_pg email code_hash s.codes in
    (answer result, record s { codes = after })
call_pg (create r) s = created (create_device_pg r s.devices) s
call_pg (find_one id) s = (device (find_device_pg id s.devices), s)
call_pg (touch id now idle) s =
    let (result, after) = touch_device_pg id now idle s.devices in
    (expiry result, record s { devices = after })
call_pg (list_all account now) s = (listed (list_devices_pg account now s.devices), s)
call_pg (revoke_one account id now) s =
    let (result, after) = revoke_device_pg account id now s.devices in
    (answer result, record s { devices = after })
call_pg (revoke_all account now except) s =
    let (result, after) = revoke_all_devices_pg account now except s.devices in
    (number result, record s { devices = after })
call_pg (get_active account kind) s =
    (credential (get_active_credential_pg account kind s.creds), s)
call_pg (replace r options) s = swapped (replace_credential_pg r options s) s
call_pg (mark_used id now material) s =
    (done, record s { creds = mark_credential_used_pg id now material s.creds })
call_pg (reserve_login account max_attempts now) s =
    let (result, after) = reserve_login_attempt_pg account max_attempts now s.guards in
    (attempt result, record s { guards = after })
call_pg (lock account max_attempts now) s =
    (done, record s { guards = lock_account_pg account max_attempts now s.guards })
call_pg (reset account now) s =
    let (result, after) = reset_login_guard_pg account now s.guards in
    (guard_state result, record s { guards = after })
call_pg (read_guard account) s = (guard_state (read_login_guard_pg account s.guards), s)
call_pg (clean now horizon) s = let (n, s') = cleanup_pg now horizon s in (number n, s')

-- The replies to a sequence of calls, and the store after them.
unfoldable pub run_calls :
    (StoreCall → Store → StoreReply × Store) → List StoreCall → Store → List StoreReply × Store
run_calls call [] s = ([], s)
run_calls call (c ∷ calls) s =
    let (reply, after) = call c s in
    let (replies, last) = run_calls call calls after in (reply ∷ replies, last)
