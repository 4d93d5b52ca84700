-- ===== src/Auth/Checked.antt =====
-- What the options that `createAuth` accepts are good for.
use workers_auth.Prelude.{
  ◌≤◌, ◌<◌, ◌≡◌, true, false, Option, none, some, List, [], ◌∷◌, arith, codes, All, inl, inr,
  Option-cases,
}
use workers_auth.Cookies.{resolve_cookie_config}
use workers_auth.Cookies.Config.{IsUsable, resolve_cookie_config-IsUsable}
use workers_auth.Auth.{
  SessionArgs, SessionTtls, resolve_session_config, ListedProvider, CreateAuthOptions,
  ResolvedAuthConfig, none_misplaced, plain_providers, is_relative, create_auth,
}

-- Sessions idle out no later than they end, and both happen.
abbrev pub IsOrdered : SessionTtls → Type 0
IsOrdered t = (0 < t.idle_ttl_sec) × (t.idle_ttl_sec ≤ t.absolute_ttl_sec)

resolve_session_config-IsOrdered :
    (config : Option SessionArgs) (t : SessionTtls)
    → resolve_session_config config ≡ some t
    → IsOrdered t
unfolding resolve_session_config
resolve_session_config-IsOrdered none t h = ground arith
resolve_session_config-IsOrdered (some config) t h = ground arith

-- A configuration that `createAuth` accepts.
pub record IsSound (o : CreateAuthOptions) (r : ResolvedAuthConfig) : Type 0 where
  pub providers : r.providers ≡ plain_providers o.providers
  pub placed : All (λ p. p.callback_only ≡ false) o.providers
  pub ordered : IsOrdered r.session
  pub relative : is_relative (codes r.callback_redirect) ≡ true
  pub cookies : o.cookie.dangerously_allow_insecure_cookies ≡ false → IsUsable r.cookie

placed :
    (providers : List ListedProvider)
    → none_misplaced providers ≡ true
    → All (λ p. p.callback_only ≡ false) providers
unfolding none_misplaced
placed [] h = tt
placed (p ∷ providers) h = (ground arith, placed providers (ground arith))

-- No provider in the list that `createAuth` accepts declares itself `callbackOnly`; the sessions have a positive idle time that is at most the absolute one; the callback's default target
-- begins with one slash; and without the danger flag the session cookies can be set, cleared and read back.
pub create_auth-IsSound :
    (o : CreateAuthOptions) (r : ResolvedAuthConfig) → create_auth o ≡ some r → IsSound o r
unfolding create_auth
create_auth-IsSound o r h = elim (Option-cases (resolve_cookie_config o.cookie)) [
  | inl e ↦ absurd (ground (arith, h, e))
  | inr (c, e) ↦ elim (Option-cases (resolve_session_config o.session)) [
    | inl f ↦ absurd (ground (arith, h, e, f))
    | inr (t, f) ↦ record {
      providers = ground (arith, h, e, f);
      placed = placed o.providers (ground (arith, h, e, f));
      ordered = resolve_session_config-IsOrdered o.session r.session (ground (arith, h, e, f));
      relative = ground (arith, h, e, f);
      cookies = λ safe.
          (resolve_cookie_config-IsUsable o.cookie r.cookie safe (ground (arith, h, e, f))).0;
    }
  ]
]
