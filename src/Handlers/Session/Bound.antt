-- ===== src/Handlers/Session/Bound.antt =====
-- The promise of `deviceBoundSessionStore`.
use workers_auth.Prelude.{
  ℕ, ◌<◌, String, false, ◌≡◌, eq_iff, none, some, inl, inr, arith, Option-cases, Bool-cases, find,
  find-erase_self,
}
use workers_auth.Crypto.{sha256_hex}
use workers_auth.Devices.{DeviceRecord, find_device}
use workers_auth.Sessions.{Session, get_session, revoke_session}
use workers_auth.Web.{World, value}
use workers_auth.Handlers.{Settings}
use workers_auth.Handlers.Session.{get_bound, revoke_sid, device_backs}

module _ (s : Settings) (now : ℕ) where
  -- A session minted on a device is returned only while its device is there, belongs to the
  -- session's account, and is neither revoked nor expired.
  pub get_bound-backed :
      (sid id : String) (session : Session) (world : World)
      → (get_bound s now sid world).0 ≡ value (some session)
      → session.auth.device_id ≡ some id
      → (d : DeviceRecord) × (find_device id world.store.devices ≡ some d)
        × (d.account_id ≡ session.user_id)
        × (d.revoked_at ≡ none)
        × (now < d.idle_expires_at)
        × (now < d.absolute_expires_at)
  unfolding get_bound revoke_sid device_backs
  get_bound-backed sid id session world h e =
      elim (Option-cases (get_session (sha256_hex s.crypto) sid now world.sessions).0) [
        | inl f ↦ ground arith
        | inr (t, f) ↦ elim (Option-cases t.auth.device_id) [
          | inl g ↦ ground arith
          | inr (bound, g) ↦
              elim (Bool-cases (device_backs now t (find_device bound world.store.devices))) [
                | inr b ↦ ground arith
                | inl b ↦ elim (Option-cases (find_device bound world.store.devices)) [
                  | inl m ↦ ground arith
                  | inr (d, m) ↦ elim (Option-cases d.revoked_at) [
                    | inr (at, r) ↦ ground arith
                    | inl r ↦
                        let is_own = eq_iff d.account_id t.user_id in
                        (d, ground arith, ground (arith, is_own), r, ground arith, ground arith)
                  ]
                ]
              ]
        ]
      ]

  -- A session whose device does not back it is refused, and its row is deleted.
  pub get_bound-ends :
      (sid id : String) (session : Session) (world : World)
      → (get_session (sha256_hex s.crypto) sid now world.sessions).0 ≡ some session
      → session.auth.device_id ≡ some id
      → device_backs now session (find_device id world.store.devices) ≡ false
      → let out = get_bound s now sid world in
        (out.0 ≡ value none) × (find (sha256_hex s.crypto sid) out.1.sessions.rows ≡ none)
  unfolding get_bound revoke_sid revoke_session
  get_bound-ends sid id session world h e f = ground (
    arith,
    find-erase_self (sha256_hex s.crypto sid)
        (get_session (sha256_hex s.crypto) sid now world.sessions).1.rows,
  )
