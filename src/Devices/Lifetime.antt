-- ===== src/Devices/Lifetime.antt =====
-- The lifetime of a trusted device: its idle window slides, but never past its absolute end, and
-- a revoked or expired device never comes back.
use workers_auth.Prelude.{
  ℕ, ◌≤◌, String, ◌≡◌, refl, Bool, true, false, Option, none, some, List, [], ◌∷◌, arith,
  if◌then◌else◌, eq_iff, min, All, update_where, first_where, Option-cases, inl, inr,
  All-update_where, count_where, ◌∙◌,
}
use mathlib.Core.Path.{subst}
use workers_auth.Devices.{
  DeviceRecord, has_id, is_live, find_device, create_device, touched, may_touch, touch_device,
  revoked, may_revoke, revoke_device, may_revoke_all, revoke_all_devices,
}

-- The idle window ends no later than the absolute one.
abbrev IsBounded : DeviceRecord → Type 0
IsBounded d = d.idle_expires_at ≤ d.absolute_expires_at

-- Every operation keeps the idle window of every device inside its absolute one.
touch_device-IsBounded :
    (id : String) (now idle : ℕ) (devices : List DeviceRecord)
    → All IsBounded devices
    → All IsBounded (touch_device id now idle devices).1
unfolding touch_device
touch_device-IsBounded id now idle devices h =
    All-update_where IsBounded (may_touch id now) (touched now idle) (λ d _ _. omega arith) devices
      h

-- An update that keeps the id column.
find-update :
    (id : String) (p : DeviceRecord → Bool) (f : DeviceRecord → DeviceRecord)
    → ((d : DeviceRecord) → (f d).device_id ≡ d.device_id)
    → (devices : List DeviceRecord) (d : DeviceRecord) → find_device id devices ≡ some d
    → find_device id (update_where p f devices) ≡ some (if p d then f d else d)
unfolding find_device
find-update id p f same [] d e = cc
find-update id p f same (r ∷ devices) d e =
    ground (arith, same r, find-update id p f same devices d)

-- What other requests do to the devices, each call at its own time.
pub data DeviceCall : Type 0 where
  touch : (id : String) (now idle : ℕ) → DeviceCall
  revoke : (account id : String) (now : ℕ) → DeviceCall
  revoke_all : (account : String) (now : ℕ) (except : Option String) → DeviceCall

abbrev call_time : DeviceCall → ℕ
call_time (touch id now idle) = now
call_time (revoke account id now) = now
call_time (revoke_all account now except) = now

run_call : DeviceCall → List DeviceRecord → List DeviceRecord
run_call (touch id now idle) devices = (touch_device id now idle devices).1
run_call (revoke account id now) devices = (revoke_device account id now devices).1
run_call (revoke_all account now except) devices = (revoke_all_devices account now except devices).1

pub run_calls : List DeviceCall → List DeviceRecord → List DeviceRecord
run_calls [] devices = devices
run_calls (c ∷ calls) devices = run_calls calls (run_call c devices)

-- The device's row after one call.
after_call : DeviceCall → DeviceRecord → DeviceRecord
after_call (touch id now idle) d = if may_touch id now d then touched now idle d else d
after_call (revoke account id now) d = if may_revoke account id d then revoked now d else d
after_call (revoke_all account now except) d =
    if may_revoke_all account except d then revoked now d else d

find-run_call :
    (id : String) (c : DeviceCall) (devices : List DeviceRecord) (d : DeviceRecord)
    → find_device id devices ≡ some d
    → find_device id (run_call c devices) ≡ some (after_call c d)
unfolding run_call after_call touch_device revoke_device revoke_all_devices
find-run_call id (touch other now idle) devices d e =
    find-update id (may_touch other now) (touched now idle) (λ _. refl) devices d e
find-run_call id (revoke account other now) devices d e =
    find-update id (may_revoke account other) (revoked now) (λ _. refl) devices d e
find-run_call id (revoke_all account now except) devices d e =
    find-update id (may_revoke_all account except) (revoked now) (λ _. refl) devices d e

-- One call leaves the absolute end alone, and a device that is dead stays so.
after_call-absolute :
    (c : DeviceCall) (d : DeviceRecord)
    → (after_call c d).absolute_expires_at ≡ d.absolute_expires_at
unfolding after_call
after_call-absolute (touch id now idle) d = ground arith
after_call-absolute (revoke account id now) d = ground arith
after_call-absolute (revoke_all account now except) d = ground arith

after_call-dead :
    (c : DeviceCall) (d : DeviceRecord) (start : ℕ)
    → start ≤ call_time c
    → is_live start d ≡ false
    → is_live start (after_call c d) ≡ false
unfolding after_call
after_call-dead (touch id now idle) d start le dead = ground arith
after_call-dead (revoke account id now) d start le dead = ground arith
after_call-dead (revoke_all account now except) d start le dead = ground arith

-- A device that is revoked or expired at `start` is found dead at every later time, whatever
-- calls are made from then on, and its absolute end has not moved.
pub dead_for_good :
    (id : String) (start later : ℕ) (calls : List DeviceCall) (devices : List DeviceRecord)
    (d : DeviceRecord)
    → find_device id devices ≡ some d
    → is_live start d ≡ false
    → All (λ c. start ≤ call_time c) calls
    → start ≤ later
    → (e : DeviceRecord) × (find_device id (run_calls calls devices) ≡ some e)
      × (is_live later e ≡ false)
      × (e.absolute_expires_at ≡ d.absolute_expires_at)
unfolding run_calls
dead_for_good id start later [] devices d found dead h le = (d, found, ground arith, refl)
dead_for_good id start later (c ∷ calls) devices d found dead (h, hs) le =
    let (e, found', dead', same) =
      dead_for_good id start later calls (run_call c devices) (after_call c d)
        (find-run_call id c devices d found) (after_call-dead c d start h dead) hs le in
    (e, found', dead', same ∙ after_call-absolute c d)

pub count-update_revoked :
    (account : String) (now : ℕ) (except : Option String) (devices : List DeviceRecord)
    → count_where
        (may_revoke_all account except)
        (update_where (may_revoke_all account except) (revoked now) devices)
      ≡ 0
count-update_revoked account now except [] = refl
count-update_revoked account now except (d ∷ devices) =
    ground (arith, count-update_revoked account now except devices)

count-found :
    (id : String) (p : DeviceRecord → Bool) (devices : List DeviceRecord) (d : DeviceRecord)
    → find_device id devices ≡ some d
    → (if p d then 1 else 0) ≤ count_where p devices
unfolding find_device
count-found id p [] d e = cc
count-found id p (r ∷ devices) d e = ground (arith, count-found id p devices d)

-- "Revoke all" revokes a device that is found exactly if it is a live one of the account and not
-- the excepted one, leaves any other as it was, and counts it; a second call finds none to revoke.
pub revoke_all_lem :
    (account : String) (now : ℕ) (except : Option String) (id : String)
    (devices : List DeviceRecord) (d : DeviceRecord)
    → find_device id devices ≡ some d
    → let (changed, after) = revoke_all_devices account now except devices in
      (find_device id after
        ≡ some (if may_revoke_all account except d then record d { revoked_at = some now } else d))
      × ((revoke_all_devices account now except after).0 ≡ 0)
      × ((if may_revoke_all account except d then 1 else 0) ≤ changed)
unfolding revoke_all_devices
revoke_all_lem account now except id devices d found = (
  find-update id (may_revoke_all account except) (revoked now) (λ _. refl) devices d found,
  count-update_revoked account now except devices,
  count-found id (may_revoke_all account except) devices d found,
)

-- No two rows share a primary key.
abbrev pub IsKeyed : List DeviceRecord → Type 0
IsKeyed [] = Unit
IsKeyed (d ∷ devices) = (find_device d.device_id devices ≡ none) × IsKeyed devices

not-may_touch :
    (id : String) (now : ℕ) (devices : List DeviceRecord)
    → find_device id devices ≡ none
    → first_where (may_touch id now) devices ≡ none
unfolding find_device
not-may_touch id now [] e = refl
not-may_touch id now (r ∷ devices) e = ground (arith, not-may_touch id now devices)

first-may_touch :
    (id : String) (now : ℕ) (devices : List DeviceRecord) (d : DeviceRecord)
    → IsKeyed devices
    → find_device id devices ≡ some d
    → first_where (may_touch id now) devices ≡ (if is_live now d then some d else none)
unfolding find_device
first-may_touch id now [] d k e = cc
first-may_touch id now (r ∷ devices) d (k, ks) e = ground (
  arith,
  eq_iff r.device_id id,
  not-may_touch id now devices,
  first-may_touch id now devices d ks,
)

find_device-has_id :
    (id : String) (devices : List DeviceRecord) (d : DeviceRecord)
    → find_device id devices ≡ some d
    → has_id id d ≡ true
unfolding find_device
find_device-has_id id [] d e = cc
find_device-has_id id (r ∷ devices) d e = ground (arith, find_device-has_id id devices d)

-- A touch is granted exactly to a live device; it slides the idle window, but never past the
-- absolute end, and leaves a dead device as it was.
pub touch_device_lem :
    (id : String) (now idle : ℕ) (devices : List DeviceRecord) (d : DeviceRecord)
    → IsKeyed devices
    → find_device id devices ≡ some d
    → let (granted, after) = touch_device id now idle devices in
      (granted ≡ (if is_live now d then some (min idle d.absolute_expires_at) else none))
      × (find_device id after
          ≡ some (
              if is_live now d
              then record d { last_used_at = now; idle_expires_at = min idle d.absolute_expires_at }
              else d))
unfolding touch_device
touch_device_lem id now idle devices d keyed found = (
  ground (arith, first-may_touch id now devices d keyed found),
  find-update id (may_touch id now) (touched now idle) (λ _. refl) devices d found
      ∙ ground (arith, find_device-has_id id devices d found),
)

-- A device that is created is found under its id, and ids stay unique.
pub create_device-IsKeyed :
    (r : DeviceRecord) (devices after : List DeviceRecord)
    → IsKeyed devices
    → create_device r devices ≡ some after
    → IsKeyed after × (find_device r.device_id after ≡ some (record r { revoked_at = none }))
unfolding create_device find_device
create_device-IsKeyed r devices after keyed h =
    elim (Option-cases (find_device r.device_id devices)) [
      | inl fresh ↦
          let e : record r { revoked_at = none } ∷ devices ≡ after = ground arith in
          subst
            (λ a. IsKeyed a × (find_device r.device_id a ≡ some (record r { revoked_at = none }))) e
            ((fresh, keyed), ground (arith, eq_iff r.device_id r.device_id))
      | inr (d, taken) ↦ ground arith
    ]
