-- ===== src/Store.antt =====
-- `d1DeviceAuthStore` of src/device-auth/store.ts: the five tables together, and the operations
-- that work on more than one of them. A batch is one transaction.
pub mod Replace
use workers_auth.Prelude.{
  ℕ, ◌+◌, String, Bool, true, false, ◌&&◌, Option, none, some, List, ltb, if◌then◌else◌, Table,
  find, put,
}
use workers_auth.Limits.{Window, cleanup_limits}
use workers_auth.Codes.{CodeRow, cleanup_codes}
use workers_auth.Guards.{GuardRow, reset_login_guard}
use workers_auth.Devices.{DeviceRecord, revoke_all_devices, cleanup_devices}
use workers_auth.Creds.{CredentialRow, revoke_active, insert_credential, cleanup_creds}

pub record Store : Type 0 where
  pub limits : Table Window
  pub codes : Table CodeRow
  pub devices : List DeviceRecord
  pub creds : List CredentialRow
  pub guards : Table GuardRow

-- `revoke_other_devices` is present with the device to spare, which may be null.
pub record ReplaceCredentialOptions : Type 0 where
  pub reset_guard : Bool
  pub revoke_other_devices : Option (Option String)

pub record ReplaceCredentialResult : Type 0 where
  pub replaced : Bool
  pub devices_revoked : ℕ

-- The first statement: it revokes only while a live credential of the type exists.
abbrev pub revoke_others : Option (Option String) → CredentialRow → Store → ℕ × List DeviceRecord
revoke_others none r s = (0, s.devices)
revoke_others (some except) r s =
    if ltb 0 (revoke_active r.account_id r.kind r.updated_at s.creds).0
    then revoke_all_devices r.account_id r.updated_at except s.devices
    else (0, s.devices)

abbrev pub reset_if : Bool → CredentialRow → Table GuardRow → Table GuardRow
reset_if reset r guards =
    if reset then (reset_login_guard r.account_id r.updated_at guards).1 else guards

-- `none`: the insert throws, and the transaction leaves every table as it was.
unfoldable pub replace_credential :
    CredentialRow → ReplaceCredentialOptions → Store → Option (ReplaceCredentialResult × Store)
replace_credential r options s =
    let (others, devices) = revoke_others options.revoke_other_devices r s in
    let (retired, creds) = revoke_active r.account_id r.kind r.updated_at s.creds in
    elim (insert_credential r creds) [
      | none ↦ none
      | some creds' ↦ some (
        record { replaced = ltb 0 retired; devices_revoked = others },
        record s {
          devices = devices;
          creds = creds';
          guards = reset_if options.reset_guard r s.guards;
        },
      )
    ]

-- The number of rows removed, table by table.
unfoldable pub cleanup : ℕ → ℕ → Store → ℕ × Store
cleanup now horizon s =
    let (old_codes, codes) = cleanup_codes now s.codes in
    let (old_devices, devices) = cleanup_devices now s.devices in
    let (old_creds, creds) = cleanup_creds s.creds in
    let (old_limits, limits) = cleanup_limits horizon now s.limits in
    (
      old_codes + old_devices + old_creds + old_limits,
      record s { codes = codes; devices = devices; creds = creds; limits = limits },
    )
