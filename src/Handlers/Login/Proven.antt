-- ===== src/Handlers/Login/Proven.antt =====
-- What a PIN login that succeeds has shown.
use workers_auth.Prelude.{
  ℕ, ◌+◌, String, true, ◌≡◌, ◌⊎◌, ◌&&◌, refl, Option, none, some, inl, inr, arith, Option-cases,
  Bool-cases, ◌∙◌, eq_iff, ◌==◌,
}
use workers_auth.Guards.{reserve_login_attempt}
use workers_auth.Devices.{DeviceRecord, touch_device}
use workers_auth.Creds.{PinMaterial, CredentialRow, CredentialMaterial, pin, get_active_credential}
use workers_auth.Material.{CredentialVerifyResult, refused, accepted, undecodable, verify}
use workers_auth.Web.{PublicDevice, BearerGrant, World, value, Reply, User}
use workers_auth.Web.Steps.{exit_cases}
use workers_auth.Request.{Request}
use workers_auth.Handlers.{transport_cases, Settings, Fresh}
use workers_auth.Handlers.Session.{InternalAuthMeta, mint_session}
use workers_auth.Handlers.Plumbing.{
  presented_device, presented_device_token, set_device_cookie, is_user,
}
use workers_auth.Handlers.Email.{key_ring}
use workers_auth.Handlers.Login.{login_on_device, try_pin, log_in, finish_login, wrong_pin}

-- That the PIN entered on a presented device is the one of the account, under the limits in force.
pub record PinProof (s : Settings) (req : Request) (fresh : Fresh) (now : ℕ) (entered : String)
    (world : World) (user : User) : Type 0 where
  pub device : DeviceRecord
  pub credential : CredentialRow
  pub failed_count : ℕ
  pub upgraded : Option PinMaterial
  pub presented : presented_device s req now world ≡ some device
  pub active : get_active_credential device.account_id pin world.store.creds ≡ some credential
  pub granted :
      (reserve_login_attempt device.account_id s.pin_max_attempts now world.store.guards).0
      ≡ some failed_count
  pub verified :
      verify s.crypto s.pin_iterations (key_ring s) fresh.salt entered credential.material
      ≡ accepted upgraded
  pub account : user.id ≡ device.account_id

verdict_cases :
    (v : CredentialVerifyResult)
    → ((v ≡ refused) ⊎ (v ≡ undecodable))
      ⊎ ((upgraded : Option PinMaterial) × (v ≡ accepted upgraded))
verdict_cases refused = inl (inl refl)
verdict_cases undecodable = inl (inr refl)
verdict_cases (accepted upgraded) = inr (upgraded, refl)

user_cases :
    (o : Option (Option User)) → (o ≡ none) ⊎ ((o ≡ some none) ⊎ ((u : User) × (o ≡ some (some u))))
user_cases none = inl refl
user_cases (some none) = inr (inl refl)
user_cases (some (some u)) = inr (inr (u, refl))

account_of :
    (u : User) (d : DeviceRecord)
    → (is_user (some u) && u.id == d.account_id) ≡ true
    → u.id ≡ d.account_id
account_of u d h = ground (arith, eq_iff u.id d.account_id)

module _ (s : Settings) (req : Request) (fresh : Fresh) (now : ℕ) where
  try_pin_inv :
      (entered : String) (d : DeviceRecord) (c : CredentialRow) (world : World)
      (m : Option CredentialMaterial)
      → (try_pin s req fresh now entered d c world).0 ≡ value m
      → (n : ℕ) × (upgraded : Option PinMaterial) × ((reserve_login_attempt d.account_id
            s.pin_max_attempts now world.store.guards).0
          ≡ some n)
        × (verify s.crypto s.pin_iterations (key_ring s) fresh.salt entered c.material
            ≡ accepted upgraded)
  unfolding try_pin wrong_pin
  try_pin_inv entered d c world m h =
      elim (Option-cases
        (reserve_login_attempt d.account_id s.pin_max_attempts now world.store.guards).0) [
          | inl e ↦ ground arith
          | inr (n, e) ↦
              elim (verdict_cases
                (verify s.crypto s.pin_iterations (key_ring s) fresh.salt entered c.material)) [
                  | inl (inl r) ↦ ground arith
                  | inl (inr r) ↦ ground arith
                  | inr (upgraded, r) ↦ (n, upgraded, e, r)
                ]
        ]

  cookie_value :
      (token : Option String) (at : ℕ) (world : World)
      → (set_device_cookie s req now token at world).0 ≡ value tt
  unfolding set_device_cookie
  cookie_value token at world = elim (transport_cases s.transport) [
    | inl e ↦ elim (Option-cases token) [ inl f ↦ rw (e, f) | inr (t, f) ↦ rw (e, f) ]
    | inr e ↦ rw e
  ]

  finish_login_inv :
      (d : DeviceRecord) (u : User) (idle : ℕ) (world : World) (user : User) (device : PublicDevice)
      (grant : Option BearerGrant)
      → (finish_login s req fresh now d u idle world).0 ≡ value (Reply.logged_in user device grant)
      → user.id ≡ u.id
  unfolding finish_login
  finish_login_inv d u idle world user device grant h =
      let token = presented_device_token s req now in
      let meta : InternalAuthMeta = record {
        email_verified_at = none;
        device_id = some d.device_id;
      } in
      let c = cookie_value token idle world in
      elim (exit_cases
        (mint_session s fresh now req u meta (set_device_cookie s req now token idle world).1).0) [
          | inl (g, e) ↦ ground arith
          | inr (inl (reply, e)) ↦ ground arith
          | inr (inr e) ↦ ground arith
        ]

  -- The part of a login that follows the PIN ends with the account's own user.
  log_in_inv :
      (d : DeviceRecord) (c : CredentialRow) (m : Option CredentialMaterial) (world : World)
      (user : User) (device : PublicDevice) (grant : Option BearerGrant)
      → (log_in s req fresh now d c m world).0 ≡ value (Reply.logged_in user device grant)
      → user.id ≡ d.account_id
  unfolding log_in set_device_cookie
  log_in_inv d c m world user device grant h = elim (user_cases (s.resolve_user d.email)) [
    | inl e ↦ ground arith
    | inr (inl e) ↦ ground arith
    | inr (inr (u, e)) ↦ elim (Bool-cases (is_user (some u) && u.id == d.account_id)) [
      | inl t ↦
          elim (Option-cases
            (touch_device d.device_id now (now + s.device_idle_ms) world.store.devices).0) [
              | inl w ↦ ground arith
              | inr (idle, w) ↦
                  finish_login_inv d (record u { provider = some "device-pin" }) idle _ user device
                    grant (rw (e, t, w) at h)
                  ∙ account_of u d t
            ]
      | inr f ↦ ground arith
    ]
  ]

  -- A PIN login answers with a session only if the request presented a device that is registered,
  -- neither revoked nor expired; its account has a PIN; the account was not locked and had an
  -- attempt left, which is reserved before the PIN is looked at; the PIN entered verifies against
  -- the stored material; and the user is the device's account.
  pub login_on_device-PinProof :
      (entered : String) (world : World) (user : User) (device : PublicDevice)
      (grant : Option BearerGrant)
      → (login_on_device s req fresh now entered world).0
        ≡ value (Reply.logged_in user device grant)
      → PinProof s req fresh now entered world user
  unfolding login_on_device
  login_on_device-PinProof entered world user device grant h =
      elim (Option-cases (presented_device s req now world)) [
        | inl e ↦ ground arith
        | inr (d, e) ↦
            elim (Option-cases (get_active_credential d.account_id pin world.store.creds)) [
              | inl f ↦ ground arith
              | inr (c, f) ↦ elim (exit_cases (try_pin s req fresh now entered d c world).0) [
                | inl (m, g) ↦
                    let after = (try_pin s req fresh now entered d c world).1 in
                    let h' : (log_in s req fresh now d c m after).0
                        ≡ value (Reply.logged_in user device grant) =
                      ground arith in
                    let (n, upgraded, granted, verified) = try_pin_inv entered d c world m g in
                    record {
                      device = d;
                      credential = c;
                      failed_count = n;
                      upgraded = upgraded;
                      presented = e;
                      active = f;
                      granted = granted;
                      verified = verified;
                      account = log_in_inv d c m after user device grant h';
                    }
                | inr (inl (reply, g)) ↦ ground arith
                | inr (inr g) ↦ ground arith
              ]
            ]
      ]
