-- ===== src/Neon.antt =====
-- providers/neon.ts: the verification of a JWT against a key set that is fetched and cached. Texts
-- that are taken apart are lists of code points. One request runs at a time, so that the shared
-- promise of a fetch under way is not modelled; it reads the clock once.
pub mod Keys
pub mod Picked
pub mod Filed
pub mod Origin
pub mod Verify
pub mod Proven
use Prim.Native.String
use workers_auth.Prelude.{
  ℕ, ◌+◌, ◌*◌, String, Bool, true, false, ◌&&◌, ◌||◌, not, Option, none, some, List, [], ◌∷◌, ◌++◌,
  eqb, leb, ltb, if◌then◌else◌, codes, length, Table, find, put, ◌==◌,
}
use workers_auth.Base64.{base64url_decode}
use workers_auth.Pin.{contains}
use workers_auth.Sessions.{SubjectType}
use workers_auth.Web.{User}
use workers_auth.Request.{all_of, is_space}
use workers_auth.Cookies.{after_prefix, is_alphanumeric, is_empty}
use workers_auth.Cookies.Parse.{trim}

pub data JwsAlgorithm : Type 0 where
  rs256 rs384 rs512 es256 es384 ed_dsa : JwsAlgorithm

abbrev pub alg_name : JwsAlgorithm → String
alg_name rs256 = "RS256"
alg_name rs384 = "RS384"
alg_name rs512 = "RS512"
alg_name es256 = "ES256"
alg_name es384 = "ES384"
alg_name ed_dsa = "EdDSA"

-- `kty` and `crv` of `ALG_SPECS`.
abbrev pub kty_of : JwsAlgorithm → String
kty_of rs256 = "RSA"
kty_of rs384 = "RSA"
kty_of rs512 = "RSA"
kty_of es256 = "EC"
kty_of es384 = "EC"
kty_of ed_dsa = "OKP"

abbrev pub crv_of : JwsAlgorithm → Option String
crv_of es256 = some "P-256"
crv_of es384 = some "P-384"
crv_of ed_dsa = some "Ed25519"
crv_of _ = none

pub record Jwk : Type 0 where
  pub kty : String
  pub kid : Option String
  pub alg : Option String
  pub use_ : Option String
  pub crv : Option String
  pub n : Option String
  pub e : Option String
  pub x : Option String
  pub y : Option String

-- A text that is tested as a condition: the empty one is none.
abbrev pub filled : Option String → Option String
filled none = none
filled (some s) = if s == "" then none else some s

-- `field && field !== wanted` is false.
abbrev pub agrees : Option String → String → Bool
agrees none wanted = true
agrees (some s) wanted = s == "" || s == wanted

-- `spec.crv && jwk.crv !== spec.crv` is false.
abbrev pub on_curve : Option String → Option String → Bool
on_curve none crv = true
on_curve (some wanted) none = false
on_curve (some wanted) (some crv) = crv == wanted

abbrev bare_jwk : String → Jwk
bare_jwk kty = record {
  kty = kty;
  kid = none;
  alg = none;
  use_ = none;
  crv = none;
  n = none;
  e = none;
  x = none;
  y = none;
}

abbrev rsa : Option String → Option String → Option Jwk
rsa (some n) (some e) = some (record (bare_jwk "RSA") { n = some n; e = some e })
rsa _ _ = none

abbrev ec : Option String → Option String → Option String → Option Jwk
ec (some crv) (some x) (some y) =
    some (record (bare_jwk "EC") { crv = some crv; x = some x; y = some y })
ec _ _ _ = none

abbrev okp : Option String → Option String → Option Jwk
okp (some crv) (some x) = some (record (bare_jwk "OKP") { crv = some crv; x = some x })
okp _ _ = none

abbrev stripped : JwsAlgorithm → Jwk → Option Jwk
stripped es256 jwk = ec (filled jwk.crv) (filled jwk.x) (filled jwk.y)
stripped es384 jwk = ec (filled jwk.crv) (filled jwk.x) (filled jwk.y)
stripped ed_dsa jwk = okp (filled jwk.crv) (filled jwk.x)
stripped _ jwk = rsa (filled jwk.n) (filled jwk.e)

-- `sanitizeJwk`
unfoldable pub sanitize_jwk : JwsAlgorithm → Jwk → Option Jwk
sanitize_jwk alg jwk =
    if (jwk.kty == kty_of alg)
      && (agrees jwk.alg (alg_name alg) && (agrees jwk.use_ "sig" && on_curve (crv_of alg) jwk.crv))
    then stripped alg jwk
    else none

pub record JwtHeader : Type 0 where
  pub alg : Option String
  pub kid : Option String

-- A claim that is looked at as a number of seconds.
pub data NumericClaim : Type 0 where
  missing not_number : NumericClaim
  number : ℕ → NumericClaim

-- `asAudienceList`, applied to `aud`, is its list of texts. A text is none where the claim is not one.
pub record JwtPayload : Type 0 where
  pub iss : Option String
  pub aud : List String
  pub exp : NumericClaim
  pub nbf : NumericClaim
  pub sub : Option String
  pub email : Option String

-- WebCrypto, and `TextDecoder` with `JSON.parse`; none is a throw, or no object. Keys are of type K.
pub record JwtPlatform (K : Type 0) : Type 0 where
  pub header_of : List ℕ → Option JwtHeader
  pub payload_of : List ℕ → Option JwtPayload
  pub encode : List ℕ → List ℕ
  pub import_key : JwsAlgorithm → Jwk → Option K
  pub import_node_ed25519 : Jwk → Option K
  pub verify : JwsAlgorithm → K → (signature signed_data : List ℕ) → Option Bool

-- `split('.')`
unfoldable pub split_dots : List ℕ → List ℕ × List (List ℕ)
split_dots [] = ([], [])
split_dots (c ∷ text) =
    let (piece, pieces) = split_dots text in
    if eqb c b'.' then ([], piece ∷ pieces) else (c ∷ piece, pieces)

unfoldable leading_spaces : List ℕ → Bool × List ℕ
leading_spaces [] = (false, [])
leading_spaces (c ∷ text) =
    let (some_, rest) = leading_spaces text in
    if is_space c then (true, rest) else (false, c ∷ text)

abbrev is_bearer_char : ℕ → Bool
is_bearer_char c = is_alphanumeric c || contains (codes "._~+/=-") c

abbrev bearer_token : Option (List ℕ) → Option (List ℕ)
bearer_token none = none
bearer_token (some rest) =
    let (spaced, token) = leading_spaces rest in
    if spaced && (not (is_empty token) && all_of is_bearer_char token) then some token else none

-- `defaultGetToken`, of the header `authorization`
unfoldable pub default_get_token : Option (List ℕ) → Option (List ℕ)
unfolding trim after_prefix leading_spaces
default_get_token none = none
default_get_token (some header) = bearer_token (after_prefix (codes "Bearer") (trim header))

pub record DecodedJwt : Type 0 where
  pub header : JwtHeader
  pub payload : JwtPayload
  pub signature : List ℕ
  pub signed_data : List ℕ

pub record NeonOptions : Type 0 where
  pub issuer : String
  pub audiences : List String
  pub algorithms : List JwsAlgorithm
  pub clock_tolerance_sec : ℕ
  pub jwks_cache_ttl_sec : ℕ
  pub min_refetch_interval_sec : ℕ
  pub max_jwks_bytes : ℕ
  pub max_jwks_keys : ℕ
  pub has_cache : Bool
  pub name : String

-- The options that `neonAuth` refuses: an empty `jwksUrl`, `issuer` or `audience`, no algorithm.
unfoldable pub neon_auth :
    (jwks_url : String) → (has_audience : Bool) → NeonOptions → Option NeonOptions
neon_auth jwks_url has_audience o =
    if (jwks_url == "") || ((o.issuer == "") || not has_audience)
    then none
    else elim o.algorithms [ [] ↦ none | alg ∷ algorithms ↦ some o ]

unfoldable pub is_allowed : String → List JwsAlgorithm → Option JwsAlgorithm
is_allowed name [] = none
is_allowed name (alg ∷ algorithms) =
    let rest = is_allowed name algorithms in if alg_name alg == name then some alg else rest

unfoldable pub has_text : List String → String → Bool
has_text [] s = false
has_text (t ∷ texts) s = t == s || has_text texts s

unfoldable pub shares : List String → List String → Bool
unfolding has_text
shares [] wanted = false
shares (a ∷ aud) wanted = has_text wanted a || shares aud wanted
