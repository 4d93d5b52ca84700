-- ===== src/Cookies.antt =====
-- cookie.ts: the cookie configuration and the serialisation of cookies, and the cookies of a session
-- that middleware.ts sets; Parse reads cookies. Texts are lists of code points.
pub mod Parse
pub mod Uri
pub mod Parsed
pub mod Carried
pub mod Attributes
pub mod Config
use workers_auth.Prelude.{
  ℕ, zero, suc, ◌+◌, ◌-◌, ◌*◌, String, Bool, true, false, ◌&&◌, ◌||◌, not, Option, none, some, List,
  [], ◌∷◌, ◌++◌, eqb, leb, ltb, if◌then◌else◌, codes, is_some, length, decimal,
}
use workers_auth.Pin.{is_digit, contains, same_list}
use workers_auth.Request.{all_of, is_space}
use workers_auth.Cookies.Uri.{encode_uri, decode_uri}

abbrev pub is_alphanumeric : ℕ → Bool
is_alphanumeric c = is_digit c || ((leb b'A' c && leb c b'Z') || (leb b'a' c && leb c b'z'))

-- The class of `TOKEN_RE`.
abbrev pub is_token_char : ℕ → Bool
is_token_char c = is_alphanumeric c || contains (codes "!#$%&'*+-.^_`|~") c

abbrev pub is_token : List ℕ → Bool
is_token [] = false
is_token (c ∷ cs) = all_of is_token_char (c ∷ cs)

pub data SameSite : Type 0 where
  lax strict none_ : SameSite

abbrev is_none_ : SameSite → Bool
is_none_ none_ = true
is_none_ _ = false

abbrev pub host_prefix : List ℕ
host_prefix = codes "__Host-"

abbrev pub secure_prefix : List ℕ
secure_prefix = codes "__Secure-"

-- `__Host-`, `__Secure-` and the empty text
pub data Prefix : Type 0 where
  host secured bare : Prefix

abbrev pub prefix_text : Prefix → List ℕ
prefix_text host = host_prefix
prefix_text secured = secure_prefix
prefix_text bare = []

-- `CookieConfig`, where none is an option left out.
pub record CookieConfig : Type 0 where
  pub name : Option (List ℕ)
  pub csrf_name : Option (List ℕ)
  pub prefix : Option Prefix
  pub same_site : Option SameSite
  pub dangerously_allow_insecure_cookies : Bool

pub record ResolvedCookieConfig : Type 0 where
  pub session_cookie_name : List ℕ
  pub csrf_cookie_name : List ℕ
  pub secure : Bool
  pub same_site : SameSite

abbrev pub or_default {ℓ} : {A : Type ℓ} → Option A → A → A
or_default none d = d
or_default (some a) d = a

abbrev pub is_empty : List ℕ → Bool
is_empty [] = true
is_empty (c ∷ cs) = false

-- None is a throw.
unfoldable pub resolve_cookie_config : CookieConfig → Option ResolvedCookieConfig
resolve_cookie_config config =
    let insecure = config.dangerously_allow_insecure_cookies in
    let prefix = prefix_text (or_default config.prefix (if insecure then bare else host)) in
    let name = or_default config.name (codes "session") in
    let csrf_name = or_default config.csrf_name (codes "csrf") in
    let same_site = or_default config.same_site lax in
    let secure = not insecure in
    if not (is_token name) || not (is_token csrf_name)
    then none
    else if same_list name csrf_name
    then none
    else if not secure && not (is_empty prefix)
    then none
    else if is_empty prefix && secure
    then none
    else if is_none_ same_site && not secure
    then none
    else some (record {
      session_cookie_name = prefix ++ name;
      csrf_cookie_name = prefix ++ csrf_name;
      secure = secure;
      same_site = same_site;
    })

pub record CookieAttributes : Type 0 where
  pub path : Option (List ℕ)
  pub domain : Option (List ℕ)
  pub max_age : Option ℕ
  pub http_only : Option Bool
  pub secure : Option Bool
  pub same_site : Option SameSite

-- `/^[^\x00-\x1f\x7f;]*$/`
abbrev pub is_safe_char : ℕ → Bool
is_safe_char c = ltb 31 c && (not (eqb c 127) && not (eqb c b';'))

-- The rest of a text after this prefix.
unfoldable pub after_prefix : List ℕ → List ℕ → Option (List ℕ)
after_prefix [] text = some text
after_prefix (p ∷ prefix) [] = none
after_prefix (p ∷ prefix) (c ∷ text) = if eqb p c then after_prefix prefix text else none

-- `name.replace(/^__(Host|Secure)-/, '')`
abbrev pub base_name : List ℕ → List ℕ
base_name name =
    or_default (after_prefix host_prefix name) (or_default (after_prefix secure_prefix name) name)

abbrev pub starts_with : List ℕ → List ℕ → Bool
starts_with prefix text = is_some (after_prefix prefix text)

abbrev pub same_site_text : SameSite → List ℕ
same_site_text lax = codes "Lax"
same_site_text strict = codes "Strict"
same_site_text none_ = codes "None"

abbrev pub domain_of : CookieAttributes → List ℕ
domain_of attrs = or_default attrs.domain []

abbrev pub path_of : CookieAttributes → List ℕ
path_of attrs = or_default attrs.path (codes "/")

-- The current time as `Date` prints it after so many seconds: `new Date(Date.now() + …).toUTCString()`.
abbrev pub DateText : Type 0
DateText = ℕ → List ℕ

abbrev pub age_parts : DateText → Option ℕ → List (List ℕ)
age_parts expires none = []
age_parts expires (some age) =
    (codes "Max-Age=" ++ decimal age) ∷ (codes "Expires=" ++ expires age) ∷ []

abbrev pub if_part : Bool → List ℕ → List (List ℕ)
if_part b part = if b then part ∷ [] else []

-- The parts of the header, which `serializeCookie` joins.
abbrev pub parts : DateText → List ℕ → List ℕ → CookieAttributes → List (List ℕ)
parts expires name value attrs =
    (name ++ (b'=' ∷ encode_uri value))
    ∷ (codes "Path=" ++ path_of attrs)
    ∷ (age_parts expires attrs.max_age
        ++ (if_part (not (is_empty (domain_of attrs))) (codes "Domain=" ++ domain_of attrs)
            ++ (if_part (or_default attrs.http_only true) (codes "HttpOnly")
                ++ (if_part (or_default attrs.secure true) (codes "Secure")
                    ++ ((codes "SameSite=" ++ same_site_text (or_default attrs.same_site lax))
                        ∷ [])))))

-- `join('; ')`
unfoldable pub join : List (List ℕ) → List ℕ
join [] = []
join (part ∷ []) = part
join (part ∷ next ∷ rest) = part ++ (b';' ∷ b' ' ∷ join (next ∷ rest))

-- None is a throw.
unfoldable pub serialize_cookie : DateText → List ℕ → List ℕ → CookieAttributes → Option (List ℕ)
unfolding after_prefix join
serialize_cookie expires name value attrs =
    if not (is_token (base_name name))
    then none
    else if not (all_of is_safe_char (path_of attrs))
    then none
    else if not (all_of is_safe_char (domain_of attrs))
    then none
    else if starts_with host_prefix name
        && (not (same_list (path_of attrs) (codes "/"))
            || (not (is_empty (domain_of attrs)) || not (or_default attrs.secure true)))
    then none
    else if starts_with secure_prefix name && not (or_default attrs.secure true)
    then none
    else some (join (parts expires name value attrs))

unfoldable pub serialize_cookie_deletion : DateText → List ℕ → CookieAttributes → Option (List ℕ)
unfolding serialize_cookie
serialize_cookie_deletion expires name attrs =
    serialize_cookie expires name [] (record attrs { max_age = some 0 })

abbrev pub cookie_attributes : ResolvedCookieConfig → Bool → Option ℕ → CookieAttributes
cookie_attributes r http_only max_age = record {
  path = some (codes "/");
  domain = none;
  max_age = max_age;
  http_only = some http_only;
  secure = some r.secure;
  same_site = some r.same_site;
}

abbrev pub both : Option (List ℕ) → Option (List ℕ) → Option (List ℕ × List ℕ)
both (some a) (some b) = some (a, b)
both _ _ = none

-- `setSessionCookies` of middleware.ts: the two headers.
unfoldable pub session_cookie_headers :
    ResolvedCookieConfig
    → DateText
    → (sid csrf_token : List ℕ) → (max_age_sec : ℕ) → Option (List ℕ × List ℕ)
unfolding serialize_cookie
session_cookie_headers r expires sid csrf_token max_age_sec =
    both
      (serialize_cookie expires r.session_cookie_name sid
        (cookie_attributes r true (some max_age_sec)))
      (serialize_cookie expires r.csrf_cookie_name csrf_token
        (cookie_attributes r false (some max_age_sec)))

-- `clearSessionCookies` of middleware.ts.
unfoldable pub cleared_cookie_headers : ResolvedCookieConfig → DateText → Option (List ℕ × List ℕ)
unfolding serialize_cookie_deletion
cleared_cookie_headers r expires =
    both (serialize_cookie_deletion expires r.session_cookie_name (cookie_attributes r true none))
      (serialize_cookie_deletion expires r.csrf_cookie_name (cookie_attributes r false none))
