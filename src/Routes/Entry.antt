-- ===== src/Routes/Entry.antt =====
-- Who passes the middleware.
use mathlib.Core.Path.{subst}
use workers_auth.Prelude.{
  ℕ, ◌+◌, ◌*◌, leb, ◌≡◌, true, false, inl, inr, arith, is_some, Bool-cases, Option-cases,
}
use workers_auth.Csrf.{ok}
use workers_auth.Web.{World, value}
use workers_auth.Web.Steps.{exit_cases}
use workers_auth.Request.{Request}
use workers_auth.Handlers.Plumbing.Gate.{csrf_cases}
use workers_auth.Routes.{AuthConfig, Passed, auth_middleware, resolve_request_auth, csrf_of}

module _ (a : AuthConfig) (req : Request) (now : ℕ) where
  -- What has been shown of a request that passes.
  abbrev pub IsEntered : World → Passed → Type 0
  IsEntered world passed =
      (is_some passed.user ≡ true)
      × (csrf_of a req now (is_some passed.session) false ≡ ok)
      × ((resolve_request_auth a req now world).0 ≡ value passed)

  -- The mandatory middleware passes a request only with a user, only if the CSRF check accepts it,
  -- and with what `resolveRequestAuth` found.
  pub auth_middleware-IsEntered :
      (world : World) (passed : Passed)
      → (auth_middleware a req now false world).0 ≡ value passed
      → IsEntered world passed
  unfolding auth_middleware
  auth_middleware-IsEntered world passed h =
      elim (exit_cases (resolve_request_auth a req now world).0) [
        | inr (inl (r, e)) ↦ ground arith
        | inr (inr e) ↦ ground arith
        | inl (p, e) ↦ elim (csrf_cases (csrf_of a req now (is_some p.session) false)) [
          | inr (reason, f) ↦ ground arith
          | inl f ↦ elim (Option-cases p.user) [
            | inl g ↦ ground arith
            | inr (u, g) ↦ elim (Option-cases p.session) [
              | inl n ↦
                  let same : p ≡ passed = ground arith in subst (IsEntered world) same (rw g, f, e)
              | inr (session, n) ↦
                  elim (Bool-cases (leb (session.last_seen_at + a.touch_interval_sec * 1000) now)) [
                    | inl b ↦
                        let same : p ≡ passed = ground arith in
                        subst (IsEntered world) same (rw g, f, e)
                    | inr b ↦
                        let same : p ≡ passed = ground arith in
                        subst (IsEntered world) same (rw g, f, e)
                  ]
            ]
          ]
        ]
      ]
