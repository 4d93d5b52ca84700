-- ===== src/DeviceAuth/Checked.antt =====
-- What the options that `deviceAuth` accepts are good for.
use workers_auth.Prelude.{
  ℕ, ◌*◌, ◌≤◌, ◌<◌, ◌≡◌, ◌⊎◌, refl, Bool, true, false, Option, none, some, List, arith, inl, inr,
  Option-cases,
}
use workers_auth.Pin.{same_list}
use workers_auth.Auth.{Given, absent, refused, given}
use workers_auth.Handlers.{Settings, Breaker, Transport}
use workers_auth.DeviceAuth.{
  day_sec, all_bound, breaker_of, iterations_of, device_cookie, device_ttls, CodeLimits, digits_of,
  code_limits, RouteLimits, route_limits, device_auth, parts_fit, name_fits, settings_of,
}
use workers_auth.DeviceAuth.Options.{◌>>=◌, check, positive, CircuitBreaker, DeviceAuthOptions}

positive_lem : (value : Given) (fallback n : ℕ) → positive value fallback ≡ some n → 0 < n
positive_lem absent fallback n h = ground arith
positive_lem refused fallback n h = ground arith
positive_lem (given m) fallback n h = ground arith

iterations_lem : (value : Given) (n : ℕ) → iterations_of value ≡ some n → (1000 ≤ n) × (n ≤ 100000)
iterations_lem absent n h = (ground (arith, h), ground (arith, h))
iterations_lem refused n h = absurd (ground (arith, h))
iterations_lem (given m) n h = (ground (arith, h), ground (arith, h))

device_ttls_lem :
    (o : DeviceAuthOptions) (idle absolute : ℕ)
    → device_ttls o ≡ some (idle, absolute)
    → (0 < idle) × (idle ≤ absolute)
unfolding device_ttls ◌>>=◌
device_ttls_lem o idle absolute h =
    elim (Option-cases (positive o.device_idle_ttl_sec (90 * day_sec))) [
      | inl e ↦ absurd (ground (arith, h, e))
      | inr (i, e) ↦ elim (Option-cases (positive o.device_absolute_ttl_sec (365 * day_sec))) [
        | inl f ↦ absurd (ground (arith, h, e, f))
        | inr (a, f) ↦
            ground (arith, h, e, f, positive_lem o.device_idle_ttl_sec (90 * day_sec) i e)
      ]
    ]

-- The options of email codes: every limit is positive, and the codes have 6 or 8 digits.
pub record IsCodeLimits (c : CodeLimits) : Type 0 where
  ttl : 0 < c.ttl_ms
  attempts : 0 < c.max_attempts
  digits : (c.digits ≡ 6) ⊎ (c.digits ≡ 8)
  per_email : 0 < c.per_email
  per_device : 0 < c.per_device
  window : 0 < c.window_sec

digits_of_lem : (given n : Option ℕ) (d : ℕ) → digits_of given ≡ some d → (d ≡ 6) ⊎ (d ≡ 8)
digits_of_lem none n d h = inl (ground arith)
digits_of_lem (some g) n d h = ground arith

code_limits_lem : (o : DeviceAuthOptions) (c : CodeLimits) → code_limits o ≡ some c → IsCodeLimits c
unfolding code_limits ◌>>=◌
code_limits_lem o c h = record {
  ttl = ground (arith, h);
  attempts = ground (arith, h);
  digits = ground (arith, h);
  per_email = ground (arith, h);
  per_device = ground (arith, h);
  window = ground (arith, h);
}

-- `limits`: every one is positive.
record IsRouteLimits (l : RouteLimits) : Type 0 where
  cooldown : 0 < l.cooldown_sec
  per_email : 0 < l.per_email
  starts : 0 < l.starts_per_ip
  verifies : 0 < l.verifies_per_ip
  logins : 0 < l.pin_logins_per_ip

route_limits_lem :
    (o : DeviceAuthOptions) (l : RouteLimits) → route_limits o ≡ some l → IsRouteLimits l
unfolding route_limits ◌>>=◌
route_limits_lem o l h = record {
  cooldown = ground (arith, h);
  per_email = ground (arith, h);
  starts = ground (arith, h);
  verifies = ground (arith, h);
  logins = ground (arith, h);
}

-- A breaker needs a failure to open, and its ratio is in (0, 1].
abbrev pub IsBreaker : Option Breaker → Type 0
IsBreaker none = Unit
IsBreaker (some b) =
    (0 < b.min_failures) × (0 < b.ratio_num) × (b.ratio_num ≤ b.ratio_den) × (0 < b.window_sec)

breaker_of_lem :
    (given : Option CircuitBreaker) (b : Option Breaker) → breaker_of given ≡ some b → IsBreaker b
unfolding breaker_of ◌>>=◌
breaker_of_lem none none h = tt
breaker_of_lem none (some b) h = absurd (ground (arith, h))
breaker_of_lem (some g) none h = tt
breaker_of_lem (some g) (some b) h =
    (ground (arith, h), ground (arith, h), ground (arith, h), ground (arith, h))

-- What `deviceAuth` computed before it returned.
record IsBuilt (o : DeviceAuthOptions) (s : Settings) (cookie : List ℕ) : Type 0 where
  transport : Transport
  device : ℕ × ℕ
  pin_attempts : ℕ
  code : CodeLimits
  fresh : ℕ
  bearer : ℕ
  limits : RouteLimits
  breaker : Option Breaker
  iterations : ℕ
  fresh_eq : positive o.fresh_email_auth_sec 600 ≡ some fresh
  bearer_eq : positive o.bearer_session_ttl_sec 43200 ≡ some bearer
  parts : parts_fit o ≡ true
  device_eq : device_ttls o ≡ some device
  pin_eq : positive o.pin_max_attempts 3 ≡ some pin_attempts
  code_eq : code_limits o ≡ some code
  limits_eq : route_limits o ≡ some limits
  breaker_eq : breaker_of o.circuit_breaker ≡ some breaker
  iterations_eq : iterations_of o.pin_iterations ≡ some iterations
  name : name_fits o ≡ true
  settings :
      s ≡ settings_of o transport device pin_attempts code fresh bearer limits breaker iterations
  named : cookie ≡ device_cookie o

-- Settings with which every limit of the routes limits, and the device cookie is one of its own.
pub record IsSound (o : DeviceAuthOptions) (s : Settings) (cookie : List ℕ) : Type 0 where
  pub bound : o.bound_store ≡ true
  pub revokes : o.can_revoke_all_for_user ≡ true
  pub readers : all_bound o.read_stores ≡ true
  pub strong : o.is_strong s.secret ≡ true
  pub idle : 0 < s.device_idle_ms
  pub absolute : s.device_idle_ms ≤ s.device_absolute_ms
  pub pin_attempts : 0 < s.pin_max_attempts
  pub iterations : (1000 ≤ s.pin_iterations) × (s.pin_iterations ≤ 100000)
  pub code_ttl : 0 < s.code_ttl_ms
  pub code_attempts : 0 < s.code_max_attempts
  pub digits : (s.code_digits ≡ 6) ⊎ (s.code_digits ≡ 8)
  pub failures :
      (0 < s.max_failures_per_email) × (0 < s.max_failures_per_device) × (0 < s.failure_window_sec)
  pub per_ip : (0 < s.starts_per_ip) × (0 < s.verifies_per_ip) × (0 < s.pin_logins_per_ip)
  pub per_address : (0 < s.cooldown_sec) × (0 < s.per_email)
  pub recent : 0 < s.fresh_ms
  pub bearer : 0 < s.bearer_ttl_sec
  pub breaker : IsBreaker s.breaker
  pub differs :
      (same_list cookie o.cookie.session_cookie_name ≡ false)
      × (same_list cookie o.cookie.csrf_cookie_name ≡ false)

bind_some :
    {A B : Type 0} {m : Option A} {f : A → Option B} {b : B}
    → (m >>= f) ≡ some b
    → (a : A) × (m ≡ some a) × (f a ≡ some b)
unfolding ◌>>=◌
bind_some {m = none} h = absurd (ground (arith, h))
bind_some {m = some a} h = (a, refl, h)

checked : (b : Bool) (u : Unit {0}) → check b ≡ some u → b ≡ true
checked true u h = refl
checked false u h = ground (arith, h)

built :
    (o : DeviceAuthOptions) (s : Settings) (cookie : List ℕ)
    → device_auth o ≡ some (s, cookie)
    → IsBuilt o s cookie
unfolding device_auth
built o s cookie h =
    let (transport, e0, h0) = bind_some h in
    let (fit, e1, h1) = bind_some h0 in
    let (device, e2, h2) = bind_some h1 in
    let (pin_attempts, e3, h3) = bind_some h2 in
    let (code, e4, h4) = bind_some h3 in
    let (fresh, e5, h5) = bind_some h4 in
    let (bearer, e6, h6) = bind_some h5 in
    let (limits, e7, h7) = bind_some h6 in
    let (breaker, e8, h8) = bind_some h7 in
    let (iterations, e9, h9) = bind_some h8 in
    let (named, e10, h10) = bind_some h9 in
    record {
      transport = transport;
      device = device;
      pin_attempts = pin_attempts;
      code = code;
      fresh = fresh;
      bearer = bearer;
      limits = limits;
      breaker = breaker;
      iterations = iterations;
      parts = checked (parts_fit o) fit e1;
      fresh_eq = e5;
      bearer_eq = e6;
      device_eq = e2;
      pin_eq = e3;
      code_eq = e4;
      limits_eq = e7;
      breaker_eq = e8;
      iterations_eq = e9;
      name = checked (name_fits o) named e10;
      settings = ground (arith, h10);
      named = ground (arith, h10);
    }

-- The settings of accepted options: the session store, and every store a provider reads, is
-- device-bound; the limits on attempts, codes, addresses and requests, the resend cooldown, and the
-- lifetimes of codes, of bearer sessions and of a fresh email are positive; a device idles out no later than it ends; a code has 6 or 8
-- digits; the breaker's ratio is in (0, 1]; and the device cookie has a name of its own.
pub device_auth-IsSound :
    (o : DeviceAuthOptions) (s : Settings) (cookie : List ℕ)
    → device_auth o ≡ some (s, cookie)
    → IsSound o s cookie
unfolding settings_of parts_fit name_fits
device_auth-IsSound o s cookie h =
    let p = built o s cookie h in
    let ttls = device_ttls_lem o p.device.0 p.device.1 p.device_eq in
    let code = code_limits_lem o p.code p.code_eq in
    let limits = route_limits_lem o p.limits p.limits_eq in
    rw (p.settings, p.named)
      (record {
        bound = ground (arith, p.parts);
        revokes = ground (arith, p.parts);
        readers = ground (arith, p.parts);
        strong = ground (arith, p.parts);
        idle = ttls.0;
        absolute = ttls.1;
        pin_attempts = positive_lem o.pin_max_attempts 3 p.pin_attempts p.pin_eq;
        iterations = iterations_lem o.pin_iterations p.iterations p.iterations_eq;
        code_ttl = code.ttl;
        code_attempts = code.attempts;
        digits = code.digits;
        failures = (code.per_email, code.per_device, code.window);
        per_ip = (limits.starts, limits.verifies, limits.logins);
        per_address = (limits.cooldown, limits.per_email);
        recent = ground (arith, positive_lem o.fresh_email_auth_sec 600 p.fresh p.fresh_eq);
        bearer = positive_lem o.bearer_session_ttl_sec 43200 p.bearer p.bearer_eq;
        breaker = breaker_of_lem o.circuit_breaker p.breaker p.breaker_eq;
        differs = (ground (arith, p.name), ground (arith, p.name));
      })
