-- ===== src/Handlers/Login/Enrol.antt =====
-- What setting a PIN requires.
use workers_auth.Prelude.{
  ℕ, String, true, false, ◌≡◌, ◌⊎◌, refl, Option, none, some, inl, inr, arith, Option-cases,
  Bool-cases,
}
use workers_auth.Sessions.{Session}
use workers_auth.Pin.{is_pin_format, is_weak_pin}
use workers_auth.Web.{World, value, Reply}
use workers_auth.Web.Steps.{exit_cases}
use workers_auth.Request.{Request, Fields, JsonBody, read, too_large, read_json}
use workers_auth.Handlers.{Settings, Fresh}
use workers_auth.Handlers.Plumbing.{gate, body}
use workers_auth.Handlers.Login.{set_pin, is_fresh_email}

pub record MaySet (s : Settings) (req : Request) (fresh : Fresh) (now : ℕ) (world : World)
    : Type 0 where
  pub session : Session
  pub entered : String
  pub fields : Fields
  pub passed : (gate s req now world).0 ≡ value (some session)
  pub is_recent : is_fresh_email s.fresh_ms now session.auth.email_verified_at ≡ true
  -- the PIN is the `pin` field of the request's JSON body
  pub body_read : read_json req.body ≡ read (some fields)
  pub sent : fields.pin ≡ some entered
  pub format : is_pin_format entered ≡ true
  pub strong : is_weak_pin s.reject_date_like entered ≡ false
  pub allowed : s.extra_weak entered ≡ false

json_cases : (b : JsonBody) → (b ≡ too_large) ⊎ ((fields : Option Fields) × (b ≡ read fields))
json_cases too_large = inl refl
json_cases (read fields) = inr (fields, refl)

module _ (s : Settings) (req : Request) (fresh : Fresh) (now : ℕ) where
  -- A PIN is set only through the gate, in a session whose email was verified within the freshness
  -- window, and the PIN that the request's body carries is well formed, not weak, and not refused
  -- by the caller's own check.
  pub set_pin-MaySet :
      (world : World) (reply : Reply)
      → (set_pin s req fresh now world).0 ≡ value reply
      → MaySet s req fresh now world
  unfolding set_pin body
  set_pin-MaySet world reply h = elim (exit_cases (gate s req now world).0) [
    | inr (inl (r, e)) ↦ ground arith
    | inr (inr e) ↦ ground arith
    | inl (none, e) ↦ ground arith
    | inl (some session, e) ↦
        elim (Bool-cases (is_fresh_email s.fresh_ms now session.auth.email_verified_at)) [
          | inr t ↦ ground arith
          | inl t ↦ elim (json_cases (read_json req.body)) [
            | inl f ↦ ground arith
            | inr (none, f) ↦ ground arith
            | inr (some fields, f) ↦ elim (Option-cases fields.pin) [
              | inl g ↦ ground arith
              | inr (entered, g) ↦ elim (Bool-cases (is_pin_format entered)) [
                | inr k ↦ ground arith
                | inl k ↦ elim (Bool-cases (is_weak_pin s.reject_date_like entered)) [
                  | inl l ↦ ground arith
                  | inr l ↦ elim (Bool-cases (s.extra_weak entered)) [
                    | inl m ↦ ground arith
                    | inr m ↦ record {
                      session = session;
                      entered = entered;
                      fields = fields;
                      body_read = f;
                      sent = g;
                      allowed = m;
                      passed = e;
                      is_recent = t;
                      format = k;
                      strong = l;
                    }
                  ]
                ]
              ]
            ]
          ]
        ]
  ]
