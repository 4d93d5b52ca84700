-- ===== src/Auth.antt =====
-- index.ts: `createAuth`, the checks and defaults of its options, and the operations of the `Auth`
-- that are no routes.
pub mod Checked
pub mod Operations
use workers_auth.Prelude.{
  ℕ, ◌*◌, String, Bool, true, false, ◌&&◌, not, Option, none, some, List, [], ◌∷◌, eqb, leb, ltb,
  if◌then◌else◌, codes,
}
use workers_auth.Csrf.{CsrfConfig}
use workers_auth.Cookies.{
  CookieConfig, ResolvedCookieConfig, resolve_cookie_config, or_default, is_empty,
}
use workers_auth.Routes.{Provider}

infixl 5 ◌>>=◌
abbrev ◌>>=◌ : {A B : Type 0} → Option A → (A → Option B) → Option B
none >>= k = none
some a >>= k = k a

-- A number as an option may give it: left out, no finite number or a negative one, or a
-- natural number. Fractions are not modelled.
pub data Given : Type 0 where
  absent refused : Given
  given : ℕ → Given

pub record SessionArgs : Type 0 where
  pub idle_ttl_sec : Given
  pub absolute_ttl_sec : Given
  pub touch_interval_sec : Given

pub record SessionTtls : Type 0 where
  pub idle_ttl_sec : ℕ
  pub absolute_ttl_sec : ℕ
  pub touch_interval_sec : ℕ

abbrev positive : Given → Option ℕ
positive absent = none
positive refused = none
positive (given n) = if ltb 0 n then some n else none

abbrev not_negative : Given → Option ℕ
not_negative absent = some 60
not_negative refused = none
not_negative (given n) = some n

-- None is a throw.
unfoldable pub resolve_session_config : Option SessionArgs → Option SessionTtls
resolve_session_config none = some (record {
  idle_ttl_sec = 60 * 60 * 24 * 7;
  absolute_ttl_sec = 60 * 60 * 24 * 30;
  touch_interval_sec = 60;
})
resolve_session_config (some config) = do
  idle ← positive config.idle_ttl_sec
  absolute ← positive config.absolute_ttl_sec
  ordered ← (if ltb absolute idle then none else some tt)
  touch ← not_negative config.touch_interval_sec
  some (record { idle_ttl_sec = idle; absolute_ttl_sec = absolute; touch_interval_sec = touch })

-- A provider, with its `callbackOnly`.
pub record ListedProvider : Type 0 where
  pub provider : Provider
  pub callback_only : Bool

-- `CreateAuthOptions`, but for the clock and the hook for events. Whether the store has a `get`
-- stands for the store.
pub record CreateAuthOptions : Type 0 where
  pub providers : List ListedProvider
  pub callback_providers : Option (List ListedProvider)
  pub has_store : Bool
  pub cookie : CookieConfig
  pub session : Option SessionArgs
  pub csrf : CsrfConfig
  pub store_user_claims : Bool
  pub callback_redirect : Option String
  pub base_path : Option String

pub record ResolvedAuthConfig : Type 0 where
  pub providers : List Provider
  pub callback_providers : List Provider
  pub cookie : ResolvedCookieConfig
  pub session : SessionTtls
  pub csrf : CsrfConfig
  pub store_user_claims : Bool
  pub callback_redirect : String
  pub base_path : Option String

unfoldable pub none_misplaced : List ListedProvider → Bool
none_misplaced [] = true
none_misplaced (p ∷ providers) = not p.callback_only && none_misplaced providers

unfoldable pub plain_providers : List ListedProvider → List Provider
plain_providers [] = []
plain_providers (p ∷ providers) = p.provider ∷ plain_providers providers

abbrev begins_with_slash : List ℕ → Bool
begins_with_slash [] = false
begins_with_slash (c ∷ cs) = eqb c b'/'

-- `startsWith('/')`, and not `startsWith('//')`
abbrev pub is_relative : List ℕ → Bool
is_relative [] = false
is_relative (c ∷ cs) = eqb c b'/' && not (begins_with_slash cs)

unfoldable pub ends_with_slash : List ℕ → Bool
ends_with_slash [] = false
ends_with_slash (c ∷ cs) = let rest = ends_with_slash cs in if is_empty cs then eqb c b'/' else rest

abbrev is_base_path : Option String → Bool
is_base_path none = true
is_base_path (some path) = is_relative (codes path) && not (ends_with_slash (codes path))

abbrev pub redirect_of : CreateAuthOptions → String
redirect_of options = or_default options.callback_redirect "/"

abbrev resolved_config : CreateAuthOptions → Option ResolvedAuthConfig
resolved_config options = do
  cookie ← resolve_cookie_config options.cookie
  session ← resolve_session_config options.session
  some (record {
    providers = plain_providers options.providers;
    callback_providers = plain_providers (or_default options.callback_providers []);
    cookie = cookie;
    session = session;
    csrf = options.csrf;
    store_user_claims = options.store_user_claims;
    callback_redirect = redirect_of options;
    base_path = options.base_path;
  })

-- None is a throw.
unfoldable pub create_auth : CreateAuthOptions → Option ResolvedAuthConfig
unfolding none_misplaced plain_providers ends_with_slash resolve_cookie_config
    resolve_session_config
create_auth options =
    if not (none_misplaced options.providers)
    then none
    else if not options.has_store
    then none
    else if not (is_relative (codes (redirect_of options)))
    then none
    else if not (is_base_path options.base_path)
    then none
    else resolved_config options
