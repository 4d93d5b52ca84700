-- ===== src/Handlers/Plumbing/Gate.antt =====
-- What a request has shown that passes the gate.
use mathlib.Core.Path.{subst}
use workers_auth.Prelude.{
  ℕ, true, false, ◌≡◌, ◌||◌, refl, Option, inl, inr, arith, is_some, Bool-cases, if◌then◌else◌, ◌⊎◌,
}
use workers_auth.Csrf.{
  CsrfFailure, CsrfResult, ok, failed, verify_csrf, check_origin, check_double_submit,
  is_state_changing,
}
use workers_auth.Sessions.{Session}
use workers_auth.Web.{World, value}
use workers_auth.Web.Steps.{exit_cases}
use workers_auth.Request.{Request}
use workers_auth.Handlers.{Settings, cookie}
use workers_auth.Handlers.Session.{read_cookie_session}
use workers_auth.Handlers.Plumbing.{gate}

pub csrf_cases : (r : CsrfResult) → (r ≡ ok) ⊎ ((reason : CsrfFailure) × (r ≡ failed reason))
csrf_cases ok = inl refl
csrf_cases (failed reason) = inr (reason, refl)

module _ (s : Settings) (req : Request) (now : ℕ) where
  -- The two checks, for a request with that session.
  abbrev pub IsTrusted : Option Session → Type 0
  IsTrusted session =
      (check_origin s.parse_url req.csrf s.csrf.trusted_origins ≡ ok)
      × ((if is_some session || is_some req.csrf_cookie
            then check_double_submit s.crypto req.csrf req.csrf_cookie
            else ok)
          ≡ ok)

  verified :
      (session : Option Session)
      → s.csrf.dangerously_disable ≡ false
      → is_state_changing req.csrf.method ≡ true
      → verify_csrf s.crypto s.parse_url s.csrf req.csrf req.csrf_cookie (is_some session) true ≡ ok
      → IsTrusted session
  unfolding verify_csrf
  verified session e m g =
      elim (csrf_cases (check_origin s.parse_url req.csrf s.csrf.trusted_origins)) [
        | inr (reason, o) ↦ elim (Bool-cases (is_some session || is_some req.csrf_cookie)) [
          | inl a ↦ let g' = rw (e, m, a, o) at g in ground arith
          | inr a ↦ let g' = rw (e, m, a, o) at g in ground arith
        ]
        | inl o ↦ elim (Bool-cases (is_some session || is_some req.csrf_cookie)) [
          | inl a ↦ (o, rw a (rw (e, m, a, o) at g))
          | inr a ↦ (o, rw a)
        ]
      ]

  -- In cookie transport, unless the check is switched off, a state-changing request passes the gate
  -- only with a trusted Origin, and if it has a session or a CSRF cookie, only with the matching
  -- header as well.
  pub gate-IsTrusted :
      (world : World) (session : Option Session)
      → s.transport ≡ cookie
      → s.csrf.dangerously_disable ≡ false
      → is_state_changing req.csrf.method ≡ true
      → (gate s req now world).0 ≡ value session
      → IsTrusted session
  unfolding gate
  gate-IsTrusted world session t e m h = elim (exit_cases (read_cookie_session s now req world).0) [
    | inr (inl (r, f)) ↦ ground arith
    | inr (inr f) ↦ ground arith
    | inl (found, f) ↦
        elim (csrf_cases
          (verify_csrf s.crypto s.parse_url s.csrf req.csrf req.csrf_cookie (is_some found) true)) [
            | inr (reason, g) ↦ ground arith
            | inl g ↦
                let same : found ≡ session = ground arith in
                subst IsTrusted same (verified found e m g)
          ]
  ]
