-- ===== src/Request.antt =====
-- What a request presents to the routes of device-auth/index.ts: its body (`readJson`), its
-- address, and its device token.
use Prim.Native.Char.{code}
use workers_auth.Prelude.{
  ◌-◌, ℕ, zero, suc, ◌+◌, String, Bool, true, false, ◌&&◌, ◌||◌, not, Option, none, some, List, [],
  ◌∷◌, eqb, ltb, leb, if◌then◌else◌, length, take, drop, codes, get_or,
}
use workers_auth.Csrf.{CsrfRequest}
use workers_auth.Pin.{is_digit}

abbrev max_body_bytes : ℕ
max_body_bytes = 4096

-- The fields of a JSON object that the routes read; a field that is no text is absent.
pub record Fields : Type 0 where
  pub email : Option String
  pub code : Option String
  -- `trustDevice !== false`
  pub trust_device : Bool
  pub device_label : Option String
  pub pin : Option String

-- `Content-Length` where it is a number, the sizes of the stream's chunks, and what `JSON.parse`
-- makes of the bytes: none where they are no JSON object.
pub record RawBody : Type 0 where
  pub declared : Option ℕ
  pub chunks : List ℕ
  pub parsed : Option Fields

pub data JsonBody : Type 0 where
  too_large : JsonBody
  read : Option Fields → JsonBody

abbrev declared_too_large : Option ℕ → Bool
declared_too_large none = false
declared_too_large (some n) = ltb max_body_bytes n

-- The loop over the chunks, which stops at the first that passes the limit.
unfoldable pub fits_within : ℕ → List ℕ → Bool
fits_within total [] = true
fits_within total (size ∷ chunks) =
    let rest = fits_within (total + size) chunks in
    if ltb max_body_bytes (total + size) then false else rest

unfoldable pub read_json : RawBody → JsonBody
read_json raw =
    if declared_too_large raw.declared
    then too_large
    else if fits_within 0 raw.chunks
    then read raw.parsed
    else too_large

-- What the handlers read of a request; an empty session cookie counts as absent.
pub record Request : Type 0 where
  pub csrf : CsrfRequest
  pub session_cookie : Option String
  pub csrf_cookie : Option String
  -- `readBearerSessionId`
  pub bearer_sid : Option String
  pub device_cookie : Option String
  -- the header `x-device-token`
  pub device_header : Option String
  -- `getClientIp(req)`
  pub client_ip : Option String
  pub body : RawBody

abbrev pub is_hex : ℕ → Bool
is_hex c = is_digit c || (leb b'a' c && leb c b'f')

abbrev pub is_url_char : ℕ → Bool
is_url_char c =
    (is_digit c || (leb b'a' c && leb c b'z'))
    || ((leb b'A' c && leb c b'Z') || (eqb c b'_' || eqb c b'-'))

unfoldable pub all_of : (ℕ → Bool) → List ℕ → Bool
all_of p [] = true
all_of p (c ∷ cs) = p c && all_of p cs

unfoldable pub take_text : ℕ → String → String
take_text zero s = ""
take_text (suc n) String.[] = ""
take_text (suc n) (String.◌∷◌ c s) = String.◌∷◌ c (take_text n s)

-- `slice(0, n)`, which counts UTF-16 units; a surrogate pair that it would cut is left out.
unfoldable pub take_units : ℕ → String → String
take_units n String.[] = ""
take_units n (String.◌∷◌ c s) =
    let units = if ltb (code c) 65536 then 1 else 2 in
    let rest = take_units (n - units) s in if leb units n then String.◌∷◌ c rest else ""

unfoldable pub drop_text : ℕ → String → String
drop_text zero s = s
drop_text (suc n) String.[] = ""
drop_text (suc n) (String.◌∷◌ c s) = drop_text n s

-- `DEVICE_TOKEN_RE`: the device id and the secret.
unfoldable pub device_token : String → Option (String × String)
unfolding all_of take_text drop_text
device_token token =
    let cs = codes token in
    if eqb (length cs) 76
      && (all_of is_hex (take 32 cs)
          && (eqb (get_or cs 32 0) b'.' && all_of is_url_char (drop 33 cs)))
    then some (take_text 32 token, drop_text 33 token)
    else none

-- JavaScript's `\s`
abbrev pub is_space : ℕ → Bool
is_space c =
    (leb 9 c && leb c 13)
    || (eqb c 32
        || (eqb c 160
            || (eqb c 5760
                || ((leb 8192 c && leb c 8202)
                    || (eqb c 8232
                        || (eqb c 8233
                            || (eqb c 8239 || (eqb c 8287 || (eqb c 12288 || eqb c 65279)))))))))

abbrev is_mail_char : ℕ → Bool
is_mail_char c = not (is_space c || eqb c b'@')

-- `[^\s@]+$`
abbrev is_rest : List ℕ → Bool
is_rest [] = false
is_rest (c ∷ cs) = all_of is_mail_char (c ∷ cs)

-- `[^\s@.]+\.[^\s@]+$`, of which `seen` says whether a character has been read
unfoldable is_domain : Bool → List ℕ → Bool
is_domain seen [] = false
is_domain seen (c ∷ cs) =
    let rest = is_domain true cs in
    if eqb c b'.' then seen && is_rest cs else is_mail_char c && rest

-- `[^\s@]+@` and the domain
unfoldable is_address : Bool → List ℕ → Bool
unfolding is_domain
is_address seen [] = false
is_address seen (c ∷ cs) =
    let rest = is_address true cs in
    if eqb c b'@' then seen && is_domain false cs else is_mail_char c && rest

-- The length counts UTF-16 units.
unfoldable pub utf16_length : List ℕ → ℕ
utf16_length [] = 0
utf16_length (c ∷ cs) = (if ltb c 65536 then 1 else 2) + utf16_length cs

unfoldable pub looks_like_email : String → Bool
unfolding is_address utf16_length
looks_like_email email =
    let n = utf16_length (codes email) in ltb 2 n && (leb n 320 && is_address false (codes email))
