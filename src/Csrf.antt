-- ===== src/Csrf.antt =====
-- csrf.ts: the Origin check and the double-submit token.
pub mod Forgery
use workers_auth.Pin.{same_list}
use workers_auth.Prelude.{
  ℕ, ◌-◌, leb, eqb, codes, map, String, Bool, true, false, ◌&&◌, ◌||◌, not, Option, none, some,
  List, [], ◌∷◌, is_some, if◌then◌else◌, ◌==◌,
}
use workers_auth.Crypto.{WebCrypto, secret_equals}

-- The parts of `new URL(value)` that are read; parsing is the platform's.
pub record Url : Type 0 where
  pub protocol : String
  pub host : String
  pub origin : String

-- Of a request: its method, its URL, and the headers that csrf.ts reads.
pub record CsrfRequest : Type 0 where
  pub method : String
  pub url : String
  pub origin : Option String
  pub csrf_header : Option String

pub record CsrfConfig : Type 0 where
  pub trusted_origins : List String
  pub dangerously_disable : Bool

pub data CsrfFailure : Type 0 where
  origin_missing origin_mismatch token_missing token_mismatch : CsrfFailure

pub data CsrfResult : Type 0 where
  ok : CsrfResult
  failed : CsrfFailure → CsrfResult

-- `toUpperCase`: of the characters outside ASCII, these two alone have a capital inside it.
abbrev pub upper_case : ℕ → ℕ
upper_case c =
    if leb b'a' c && leb c b'z'
    then c - 32
    else if eqb c 305
    then b'I'
    else if eqb c 383
    then b'S'
    else c

abbrev is_method : List ℕ → String → Bool
is_method method name = same_list method (codes name)

-- `!SAFE_METHODS.has(method.toUpperCase())`
unfoldable pub is_state_changing : String → Bool
is_state_changing method =
    let upper = map upper_case (codes method) in
    not (is_method upper "GET" || (is_method upper "HEAD" || is_method upper "OPTIONS"))

-- The empty text is falsy.
abbrev pub given : Option String → Option String
given none = none
given (some s) = if s == "" then none else some s

module _ (parse_url : String → Option Url) where
  abbrev origin_of : Option Url → Option String
  origin_of none = none
  origin_of (some u) = if u.protocol == "" || u.host == "" then none else some u.origin

  unfoldable pub canonical_origin : String → Option String
  canonical_origin value = origin_of (parse_url value)

  abbrev matches : String → Option String → Bool
  matches origin none = false
  matches origin (some other) = other == origin

  unfoldable pub is_trusted : String → List String → Bool
  is_trusted origin [] = false
  is_trusted origin (t ∷ trusted) = matches origin (canonical_origin t) || is_trusted origin trusted

  abbrev check_canonical : CsrfRequest → List String → Option String → CsrfResult
  check_canonical req trusted none = failed origin_mismatch
  check_canonical req trusted (some origin) =
      if matches origin (canonical_origin req.url)
      then ok
      else if is_trusted origin trusted
      then ok
      else failed origin_mismatch

  abbrev check_given : CsrfRequest → List String → Option String → CsrfResult
  check_given req trusted none = failed origin_missing
  check_given req trusted (some raw) =
      if raw == "null"
      then failed origin_missing
      else check_canonical req trusted (canonical_origin raw)

  unfoldable pub check_origin : CsrfRequest → List String → CsrfResult
  check_origin req trusted = check_given req trusted (given req.origin)

module _ (w : WebCrypto) where
  abbrev check_tokens : Option String → Option String → CsrfResult
  check_tokens none header = failed token_missing
  check_tokens (some cookie) none = failed token_missing
  check_tokens (some cookie) (some header) =
      if secret_equals w cookie header then ok else failed token_mismatch

  unfoldable pub check_double_submit : CsrfRequest → Option String → CsrfResult
  check_double_submit req cookie_token = check_tokens (given cookie_token) (given req.csrf_header)

abbrev and_then : CsrfResult → CsrfResult → CsrfResult
and_then ok next = next
and_then (failed reason) next = failed reason

-- An ambient request carries a session cookie that the store accepted, or a CSRF cookie.
unfoldable pub verify_csrf :
    WebCrypto
    → (String → Option Url)
    → CsrfConfig
    → CsrfRequest
    → (cookie_token : Option String) (cookie_authenticated require_origin : Bool) → CsrfResult
verify_csrf w parse_url config req cookie_token cookie_authenticated require_origin =
    let ambient = cookie_authenticated || is_some cookie_token in
    if config.dangerously_disable
    then ok
    else if not (is_state_changing req.method)
    then ok
    else if not ambient && not require_origin
    then ok
    else and_then (check_origin parse_url req config.trusted_origins)
        (if ambient then check_double_submit w req cookie_token else ok)
