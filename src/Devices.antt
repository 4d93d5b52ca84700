-- ===== src/Devices.antt =====
-- The trusted devices of src/device-auth/store.ts (`auth_trusted_devices`) as a list of rows.
-- `device_id` is the primary key. An insert that would break a constraint throws: `none`.
pub mod Lifetime
use workers_auth.Prelude.{
  ℕ, ◌+◌, String, Bool, true, false, ◌&&◌, not, Option, none, some, List, [], ◌∷◌, map, min, leb,
  ltb, is_none, is_some, if◌then◌else◌, ◌==◌, update_where, select_where, delete_where, count_where,
  first_where,
}
use mathlib.Core.Option

pub record DeviceRecord : Type 0 where
  pub device_id : String
  pub account_id : String
  pub email : String
  pub secret_hash : String
  pub label : Option String
  pub created_at : ℕ
  pub last_used_at : ℕ
  pub idle_expires_at : ℕ
  pub absolute_expires_at : ℕ
  pub revoked_at : Option ℕ

-- What listing exposes.
pub record DeviceInfo : Type 0 where
  pub device_id : String
  pub account_id : String
  pub label : Option String
  pub created_at : ℕ
  pub last_used_at : ℕ
  pub idle_expires_at : ℕ
  pub absolute_expires_at : ℕ

abbrev pub has_id : String → DeviceRecord → Bool
has_id id d = d.device_id == id

-- `revoked_at IS NULL AND idle_expires_at > now AND absolute_expires_at > now`
abbrev pub is_live : ℕ → DeviceRecord → Bool
is_live now d = is_none d.revoked_at && (ltb now d.idle_expires_at && ltb now d.absolute_expires_at)

unfoldable pub find_device : String → List DeviceRecord → Option DeviceRecord
find_device id devices = first_where (has_id id) devices

-- The insert writes NULL for `revoked_at`.
unfoldable pub create_device : DeviceRecord → List DeviceRecord → Option (List DeviceRecord)
create_device r devices =
    if is_some (first_where (has_id r.device_id) devices)
    then none
    else some (record r { revoked_at = none } ∷ devices)

abbrev touched : ℕ → ℕ → DeviceRecord → DeviceRecord
touched now idle d = record d {
  last_used_at = now;
  idle_expires_at = min idle d.absolute_expires_at;
}

abbrev may_touch : String → ℕ → DeviceRecord → Bool
may_touch id now d = has_id id d && is_live now d

unfoldable pub touch_device : String → ℕ → ℕ → List DeviceRecord → Option ℕ × List DeviceRecord
touch_device id now idle devices = (
  Option.map (λ d. (touched now idle d).idle_expires_at) (first_where (may_touch id now) devices),
  update_where (may_touch id now) (touched now idle) devices,
)

abbrev pub info_of : DeviceRecord → DeviceInfo
info_of d = record {
  device_id = d.device_id;
  account_id = d.account_id;
  label = d.label;
  created_at = d.created_at;
  last_used_at = d.last_used_at;
  idle_expires_at = d.idle_expires_at;
  absolute_expires_at = d.absolute_expires_at;
}

-- `ORDER BY created_at`; rows of one time keep the table's order, which SQL leaves open.
unfoldable pub insert_by_age : DeviceRecord → List DeviceRecord → List DeviceRecord
insert_by_age d [] = d ∷ []
insert_by_age d (e ∷ ds) =
    if leb d.created_at e.created_at then d ∷ e ∷ ds else e ∷ insert_by_age d ds

unfoldable pub order_by_age : List DeviceRecord → List DeviceRecord
unfolding insert_by_age
order_by_age [] = []
order_by_age (d ∷ ds) = insert_by_age d (order_by_age ds)

abbrev is_listed : String → ℕ → DeviceRecord → Bool
is_listed account now d = d.account_id == account && is_live now d

unfoldable pub list_devices : String → ℕ → List DeviceRecord → List DeviceInfo
unfolding order_by_age
list_devices account now devices =
    map info_of (order_by_age (select_where (is_listed account now) devices))

abbrev revoked : ℕ → DeviceRecord → DeviceRecord
revoked now d = record d { revoked_at = some now }

abbrev may_revoke : String → String → DeviceRecord → Bool
may_revoke account id d = has_id id d && (d.account_id == account && is_none d.revoked_at)

unfoldable pub revoke_device : String → String → ℕ → List DeviceRecord → Bool × List DeviceRecord
revoke_device account id now devices = (
  ltb 0 (count_where (may_revoke account id) devices),
  update_where (may_revoke account id) (revoked now) devices,
)

-- `device_id IS NOT ?3`, where NULL is no device's id
abbrev is_not : Option String → String → Bool
is_not none id = true
is_not (some other) id = not (id == other)

abbrev pub may_revoke_all : String → Option String → DeviceRecord → Bool
may_revoke_all account except d =
    d.account_id == account && (is_none d.revoked_at && is_not except d.device_id)

unfoldable pub revoke_all_devices :
    String → ℕ → Option String → List DeviceRecord → ℕ × List DeviceRecord
revoke_all_devices account now except devices = (
  count_where (may_revoke_all account except) devices,
  update_where (may_revoke_all account except) (revoked now) devices,
)

-- The cleanup's three deletes, in order; each counts the rows that it removes.
unfoldable pub cleanup_devices : ℕ → List DeviceRecord → ℕ × List DeviceRecord
cleanup_devices now devices =
    let past_absolute = λ (d : DeviceRecord). leb d.absolute_expires_at now in
    let past_idle = λ (d : DeviceRecord). leb d.idle_expires_at now in
    let is_revoked = λ (d : DeviceRecord). is_some d.revoked_at in
    let kept = delete_where past_absolute devices in
    let kept' = delete_where past_idle kept in
    (
      count_where past_absolute devices + count_where past_idle kept + count_where is_revoked kept',
      delete_where is_revoked kept',
    )
