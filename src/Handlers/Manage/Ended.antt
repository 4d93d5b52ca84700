-- ===== src/Handlers/Manage/Ended.antt =====
-- What revoking everything ends.
use mathlib.Core.Path.{subst}
use workers_auth.Prelude.{
  ℕ, String, false, ◌≡◌, Table, [], ◌∷◌, Bool-cases, not, none, some, Option-cases, inl, inr, arith,
  All, ◌==◌, select_where, List, true, is_some, eq_iff,
}
use workers_auth.Sessions.{Session, SessionRow, revoke_all_for_user}
use workers_auth.Web.{World, value, Reply}
use workers_auth.Request.{Request}
use workers_auth.Devices.{DeviceRecord, revoke_all_devices}
use workers_auth.Handlers.{Settings, transport_cases}
use workers_auth.Handlers.Session.{revoke_all_sessions, clear_session_cookies}
use workers_auth.Handlers.Plumbing.{gate, clear_device_cookie}
use workers_auth.Handlers.Manage.{revoke_all_route}

-- Every session of the account but those that are its owner's no longer.
abbrev pub IsOthers : String → String × SessionRow → Type 0
IsOthers user_id (_, row) = (row.user_id == user_id) ≡ false

others_lem :
    (user_id : String) (rows : Table SessionRow)
    → All (IsOthers user_id) (select_where (λ r. not (r.1.user_id == user_id)) rows)
others_lem user_id [] = tt
others_lem user_id (r ∷ rows) = elim (Bool-cases (r.1.user_id == user_id)) [
  | inl e ↦ rw e (others_lem user_id rows)
  | inr e ↦ rw e (e, others_lem user_id rows)
]

-- A device of the account is revoked.
abbrev pub IsEnded : String → DeviceRecord → Type 0
IsEnded user_id d = d.account_id ≡ user_id → is_some d.revoked_at ≡ true

ended_lem :
    (user_id : String) (now : ℕ) (devices : List DeviceRecord)
    → All (IsEnded user_id) (revoke_all_devices user_id now none devices).1
unfolding revoke_all_devices
ended_lem user_id now [] = tt
ended_lem user_id now (d ∷ devices) = (
  λ own. ground (arith, eq_iff d.account_id user_id, Option-cases d.revoked_at),
  ended_lem user_id now devices,
)

module _ (s : Settings) (req : Request) (now : ℕ) where
  -- "Revoke all" answers a signed-in request with the number of devices revoked; afterwards no
  -- session row is the account's, and every device of the account is revoked.
  pub revoke_all_route-ends :
      (world : World) (session : Session)
      → (gate s req now world).0 ≡ value (some session)
      → let out = revoke_all_route s req now world in
        let revoked =
          revoke_all_devices session.user_id now none (gate s req now world).1.store.devices in
        (out.0 ≡ value (Reply.revoked_all (revoked.0)))
        × (out.1.store.devices ≡ revoked.1)
        × All (IsEnded session.user_id) out.1.store.devices
        × All (IsOthers session.user_id) out.1.sessions.rows
  unfolding revoke_all_route revoke_all_sessions clear_session_cookies clear_device_cookie
      revoke_all_for_user revoke_all_devices
  revoke_all_route-ends world session h = elim (transport_cases s.transport) [
    | inl t ↦
        let w = (gate s req now world).1 in
        (
          ground arith,
          ground arith,
          subst (All (IsEnded session.user_id)) (ground arith)
              (ended_lem session.user_id now w.store.devices),
          subst (All (IsOthers session.user_id)) (ground arith)
              (others_lem session.user_id w.sessions.rows),
        )
    | inr t ↦
        let w = (gate s req now world).1 in
        (
          ground arith,
          ground arith,
          subst (All (IsEnded session.user_id)) (ground arith)
              (ended_lem session.user_id now w.store.devices),
          subst (All (IsOthers session.user_id)) (ground arith)
              (others_lem session.user_id w.sessions.rows),
        )
  ]
