-- ===== src/Web.antt =====
-- What a request reads and what a response says, the state that handlers share, and the monad of
-- a handler: it may stop early with a reply, or throw, and what was written stays written.
pub mod Steps
pub mod Blind
use Prim.Native.String
use workers_auth.Prelude.{
  ℕ, ◌+◌, ◌-◌, ◌*◌, ◌/◌, String, Bool, true, false, Option, none, some, List, [], ◌∷◌, max,
  if◌then◌else◌, Table,
}
use workers_auth.Limits.{Window}
use workers_auth.Codes.{CodeRow}
use workers_auth.Guards.{GuardRow}
use workers_auth.Devices.{DeviceRecord, DeviceInfo}
use workers_auth.Creds.{CredentialRow}
use workers_auth.Store.{Store}
use workers_auth.Csrf.{CsrfFailure}
use workers_auth.Sessions.{SubjectType, SessionTable}

pub record User : Type 0 where
  pub id : String
  pub subject_type : SubjectType
  pub email : Option String
  pub rate_limit_id : String
  -- `claims.provider`
  pub provider : Option String

pub record PublicDevice : Type 0 where
  pub device_id : String
  pub idle_expires_at : ℕ
  pub absolute_expires_at : ℕ

-- The bearer session of a response: its sid, and its end.
pub record BearerGrant : Type 0 where
  pub sid : String
  pub expires_at : ℕ

-- `publicSession`: a session without its sid.
pub record PublicSession : Type 0 where
  pub user_id : String
  pub subject_type : SubjectType
  pub created_at : ℕ
  pub idle_expires_at : ℕ
  pub absolute_expires_at : ℕ

pub data Reply : Type 0 where
  csrf_failed payload_too_large invalid_request client_ip_required bot_check_failed : Reply
  rate_limited temporarily_unavailable : (retry_after_sec : ℕ) → Reply
  invalid_code email_verification_required unauthenticated invalid_pin_format weak_pin : Reply
  invalid_pin : (attempts_remaining : ℕ) → Reply
  done signed_out : Reply
  verified :
      User
      → (pin_set : Bool) → Option PublicDevice
      → (device_token : Option String) → Option BearerGrant
      → Reply
  logged_in : User → PublicDevice → Option BearerGrant → Reply
  pin_status : Bool → Reply
  device_list : List DeviceInfo → (current : Option String) → Reply
  revoked_all : ℕ → Reply
  revoked_one : Bool → Reply
  session_reply : User → PublicSession → Reply
  redirect : (target : String) → Reply

abbrev status : Reply → ℕ
status csrf_failed = 403
status payload_too_large = 413
status invalid_request = 400
status client_ip_required = 400
status bot_check_failed = 403
status (rate_limited _) = 429
status (temporarily_unavailable _) = 503
status invalid_code = 401
status email_verification_required = 401
status unauthenticated = 401
status invalid_pin_format = 400
status weak_pin = 400
status (invalid_pin _) = 401
status (redirect _) = 302
status _ = 200

-- `AuthEvent`, as far as these routes emit it. A text stands for the `reason` or `scope`.
pub data Event : Type 0 where
  session_created : (user_id sid_fingerprint : String) → Event
  session_revoked : (sid_fingerprint : String) → Event
  csrf_refused : CsrfFailure → Event
  email_code_sent : (email_fingerprint : String) → Event
  email_code_failed : (email_fingerprint reason : String) → Event
  email_code_verified : (user_id email_fingerprint : String) → Event
  limit_hit : (scope : String) → Event
  device_registered : (user_id device_id : String) → Event
  device_revoked :
      (user_id : String)
      → (device_id : Option String) → (count : Option ℕ) → (reason : String) → Event
  pin_set : (user_id : String) → (replaced : Bool) → Event
  pin_login_succeeded : (user_id device_id : String) → Event
  -- with the account and the device, and the failures so far, where they are known
  pin_login_failed :
      (reason : String) → Option (String × String) → (failed_count : Option ℕ) → Event
  pin_locked : (user_id device_id : String) → Event
  pin_unlocked : (user_id : String) → Event
  sessions_revoked_all : (user_id reason : String) → Event
  bot_check_refused : (action : String) → Event
  circuit_breaker_open : Event
  auth_failed : (reason : String) → (provider : Option String) → Event

pub data SetCookie : Type 0 where
  set_session : (sid csrf_token : String) (max_age_sec : ℕ) → SetCookie
  clear_session : SetCookie
  set_device : (token : String) (max_age_sec : ℕ) → SetCookie
  clear_device : SetCookie

-- The newest event, cookie and message stand first.
pub record World : Type 0 where
  pub store : Store
  pub sessions : SessionTable
  pub events : List Event
  pub cookies : List SetCookie
  -- the codes handed to `sendCode`, with their addresses
  pub sent : List (String × String)

pub data Exit (A : Type 0) : Type 0 where
  value : A → Exit A
  stop : Reply → Exit A
  thrown : Exit A

abbrev pub M : Type 0 → Type 0
M A = World → Exit A × World

-- What follows a step: its continuation, or its early end.
abbrev next : {A B : Type 0} → (A → M B) → Exit A × World → Exit B × World
next f (value a, world) = f a world
next f (stop reply, world) = (stop reply, world)
next f (thrown, world) = (thrown, world)

infixl 5 ◌>>=◌ ◌>>◌
abbrev pub ◌>>=◌ : {A B : Type 0} → M A → (A → M B) → M B
◌>>=◌ m f world = next f (m world)

abbrev pub ◌>>◌ : {B : Type 0} → M (Unit {0}) → M B → M B
m >> k = m >>= λ _. k

module _ {A : Type 0} where
  abbrev pub pure : A → M A
  pure a world = (value a, world)

  abbrev pub stop_with : Reply → M A
  stop_with reply world = (stop reply, world)

  abbrev pub throw : M A
  throw world = (thrown, world)

  abbrev pub gets : (World → A) → M A
  gets f world = (value (f world), world)

  -- A store operation: it returns a result and the table after it.
  abbrev pub on_limits : (Table Window → A × Table Window) → M A
  on_limits op world =
      let (a, limits) = op world.store.limits in
      (value a, record world { store = record (world.store) { limits = limits } })

  abbrev pub on_codes : (Table CodeRow → A × Table CodeRow) → M A
  on_codes op world =
      let (a, codes) = op world.store.codes in
      (value a, record world { store = record (world.store) { codes = codes } })

  abbrev pub on_devices : (List DeviceRecord → A × List DeviceRecord) → M A
  on_devices op world =
      let (a, devices) = op world.store.devices in
      (value a, record world { store = record (world.store) { devices = devices } })

  abbrev pub on_guards : (Table GuardRow → A × Table GuardRow) → M A
  on_guards op world =
      let (a, guards) = op world.store.guards in
      (value a, record world { store = record (world.store) { guards = guards } })

  abbrev pub on_sessions : (SessionTable → A × SessionTable) → M A
  on_sessions op world =
      let (a, sessions) = op world.sessions in (value a, record world { sessions = sessions })

abbrev pub on_creds : (List CredentialRow → List CredentialRow) → M (Unit {0})
on_creds op world =
    (value tt, record world { store = record (world.store) { creds = op world.store.creds } })

abbrev pub emit : Event → M (Unit {0})
emit event world = (value tt, record world { events = event ∷ world.events })

abbrev pub set_cookie : SetCookie → M (Unit {0})
set_cookie cookie world = (value tt, record world { cookies = cookie ∷ world.cookies })

abbrev pub when : Bool → M (Unit {0}) → M (Unit {0})
when b m world = if b then m world else (value tt, world)

abbrev pub choose : {A : Type 0} → Bool → M A → M A → M A
choose b m n world = if b then m world else n world

-- `Math.ceil(ms / 1000)`, at least 1; a negative difference is 0 here.
abbrev pub seconds_until : ℕ → ℕ → ℕ
seconds_until deadline now = max 1 ((deadline - now + 999) / 1000)
