-- ===== src/Cookies/Parsed.antt =====
-- What parsing makes of the cookies that a browser sends back.
use workers_auth.Prelude.{
  ℕ, ◌≡◌, ◌∙◌, refl, sym, ap, Bool, true, false, not, ◌&&◌, none, some, List, [], ◌∷◌, ◌++◌, arith,
  eqb, All,
}
use mathlib.Core.List.{append_assoc, append-nil}
use workers_auth.Pin.{contains}
use workers_auth.Request.{all_of, is_space}
use workers_auth.Cookies.Uri.{encode_uri}
use workers_auth.Cookies.Uri.RoundTrip.{IsScalar, is_encoded, decode-encode_uri, encode_uri-encoded}
use workers_auth.Cookies.{is_token, is_token_char, is_empty}
use workers_auth.Cookies.Parse.{
  Cookies, is_inherited, lookup, split_semicolons, split_equals, trim, trim_end, add_pair,
  add_pairs, parse_cookies,
}

-- `name=value`, as `serializeCookie` writes it.
abbrev pub pair : List ℕ × List ℕ → List ℕ
pair (name, value) = name ++ (b'=' ∷ encode_uri value)

-- The header that a browser sends: the pairs, separated by a semicolon and a space.
abbrev pub with_space : Cookies → List ℕ
with_space [] = []
with_space (cookie ∷ cookies) = b';' ∷ b' ' ∷ (pair cookie ++ with_space cookies)

abbrev pub cookie_header : Cookies → List ℕ
cookie_header [] = []
cookie_header (cookie ∷ cookies) = pair cookie ++ with_space cookies

abbrev is_bare : ℕ → Bool
is_bare c = not (is_space c) && not (eqb c b';')

-- A character of a name separates nothing, and neither does one of an encoded value.
token_chars : (c : ℕ) → is_token_char c ≡ true → (is_bare c ≡ true) × (eqb c b'=' ≡ false)
unfolding contains
token_chars c h = ground arith

encoded_chars : (c : ℕ) → is_encoded c ≡ true → is_bare c ≡ true
encoded_chars c h = ground arith

pub all_of_mono :
    (p q : ℕ → Bool) (text : List ℕ)
    → ((c : ℕ) → p c ≡ true → q c ≡ true)
    → all_of p text ≡ true
    → all_of q text ≡ true
unfolding all_of
all_of_mono p q [] f h = refl
all_of_mono p q (c ∷ text) f h = ground (arith, f c, all_of_mono p q text f)

pub all_of-append :
    (p : ℕ → Bool) (a b : List ℕ) → all_of p a ≡ true → all_of p b ≡ true → all_of p (a ++ b) ≡ true
unfolding all_of
all_of-append p [] b h k = k
all_of-append p (c ∷ a) b h k = ground (arith, all_of-append p a b)

split-append :
    (text rest : List ℕ)
    → all_of is_bare text ≡ true
    → split_semicolons (text ++ (b';' ∷ rest))
      ≡ (text, (split_semicolons rest).0 ∷ (split_semicolons rest).1)
unfolding all_of split_semicolons
split-append [] rest h = refl
split-append (c ∷ text) rest h = ground (arith, split-append text rest)

split-bare :
    (text : List ℕ) → all_of is_bare text ≡ true → split_semicolons (text ++ []) ≡ (text, [])
unfolding all_of split_semicolons
split-bare [] h = refl
split-bare (c ∷ text) h = ground (arith, split-bare text)

pub split_equals-append :
    (name raw : List ℕ)
    → all_of is_token_char name ≡ true
    → split_equals (name ++ (b'=' ∷ raw)) ≡ some (name, raw)
unfolding all_of split_equals
split_equals-append [] raw h = refl
split_equals-append (c ∷ name) raw h =
    ground (arith, (token_chars c (ground arith)).1, split_equals-append name raw)

trim_end-bare : (text : List ℕ) → all_of is_bare text ≡ true → trim_end text ≡ text
unfolding all_of trim_end
trim_end-bare [] h = refl
trim_end-bare (c ∷ text) h = ground (arith, trim_end-bare text)

pub trim-bare : (text : List ℕ) → all_of is_bare text ≡ true → trim text ≡ text
unfolding all_of trim
trim-bare [] h = refl
trim-bare (c ∷ text) h = ground (arith, trim_end-bare (c ∷ text))

-- A cookie that parsing keeps: a name of token characters that no object inherits, and a value.
pub record IsCookie (cookie : List ℕ × List ℕ) : Type 0 where
  pub token : is_token cookie.0 ≡ true
  pub own : is_inherited cookie.0 ≡ false
  pub scalars : All IsScalar cookie.1

pub name_chars : (name : List ℕ) → is_token name ≡ true → all_of is_token_char name ≡ true
name_chars [] h = ground arith
name_chars (c ∷ name) h = h

pub name-bare : (name : List ℕ) → is_token name ≡ true → all_of is_bare name ≡ true
name-bare name h =
    all_of_mono is_token_char is_bare name (λ c k. (token_chars c k).0) (name_chars name h)

pub value-bare : (value : List ℕ) → All IsScalar value → all_of is_bare (encode_uri value) ≡ true
value-bare value h =
    all_of_mono is_encoded is_bare (encode_uri value) encoded_chars (encode_uri-encoded value h)

pair-bare : (cookie : List ℕ × List ℕ) → IsCookie cookie → all_of is_bare (pair cookie) ≡ true
unfolding all_of
pair-bare (name, value) h =
    all_of-append is_bare name (b'=' ∷ encode_uri value) (name-bare name h.token)
      (value-bare value h.scalars)

not_empty : (name : List ℕ) → is_token name ≡ true → is_empty name ≡ false
not_empty [] h = ground arith
not_empty (c ∷ name) h = refl

-- One pair, as it stands or behind a space, adds its cookie.
add-one :
    (cookie : List ℕ × List ℕ) (out : Cookies)
    → IsCookie cookie
    → lookup cookie.0 out ≡ none
    → add_pair (split_equals (pair cookie)) out ≡ out ++ (cookie ∷ [])
add-one (name, value) out h new = rw (
  split_equals-append name (encode_uri value) (name_chars name h.token),
  trim-bare name (name-bare name h.token),
  trim-bare (encode_uri value) (value-bare value h.scalars),
  not_empty name h.token,
  h.own,
  new,
  decode-encode_uri value h.scalars,
)

spaced-one :
    (cookie : List ℕ × List ℕ) (out : Cookies)
    → IsCookie cookie
    → add_pair (split_equals (b' ' ∷ pair cookie)) out ≡ add_pair (split_equals (pair cookie)) out
unfolding split_equals trim
spaced-one (name, value) out h =
    rw (split_equals-append name (encode_uri value) (name_chars name h.token))

-- The pieces of the header between its semicolons.
abbrev pub pieces : Cookies → List (List ℕ)
pieces [] = []
pieces (cookie ∷ cookies) = (b' ' ∷ pair cookie) ∷ pieces cookies

pub split-header :
    (cookie : List ℕ × List ℕ) (cookies : Cookies)
    → IsCookie cookie
    → All IsCookie cookies
    → split_semicolons (pair cookie ++ with_space cookies) ≡ (pair cookie, pieces cookies)
unfolding split_semicolons
split-header cookie [] h hs = split-bare (pair cookie) (pair-bare cookie h)
split-header cookie (next ∷ cookies) h (k, ks) = rw (
  split-append (pair cookie) (b' ' ∷ (pair next ++ with_space cookies)) (pair-bare cookie h),
  split-header next cookies k ks,
)

-- Each name is new: it stands neither in the list so far nor earlier among the cookies.
abbrev pub Unseen : Cookies → Cookies → Type 0
Unseen out [] = Unit
Unseen out (cookie ∷ cookies) = (lookup cookie.0 out ≡ none) × Unseen (out ++ (cookie ∷ [])) cookies

add-pair :
    (text : List ℕ) (texts : List (List ℕ)) (out after : Cookies)
    → add_pair (split_equals text) out ≡ after
    → add_pairs (text ∷ texts) out ≡ add_pairs texts after
unfolding add_pairs
add-pair text texts out after e = ap (add_pairs texts) e

add-pieces :
    (cookies out : Cookies)
    → All IsCookie cookies
    → Unseen out cookies
    → add_pairs (pieces cookies) out ≡ out ++ cookies
unfolding add_pairs
add-pieces [] out h new = sym (append-nil out)
add-pieces (cookie ∷ cookies) out (h, hs) (new, later) =
    add-pair (b' ' ∷ pair cookie) (pieces cookies) out (out ++ (cookie ∷ []))
      (spaced-one cookie out h ∙ add-one cookie out h new)
    ∙ (add-pieces cookies (out ++ (cookie ∷ [])) hs later ∙ append_assoc out (cookie ∷ []) cookies)

pub header-not_empty : (name rest : List ℕ) → is_token name ≡ true → is_empty (name ++ rest) ≡ false
header-not_empty [] rest h = ground arith
header-not_empty (c ∷ name) rest h = refl

-- Where the names are tokens, pairwise different, and none that every object inherits from
-- `Object.prototype`, and the values are of Unicode scalars, the header that a browser builds of the
-- cookies is parsed to those cookies, in their order and with their values.
pub parse-cookie_header :
    (cookies : Cookies)
    → All IsCookie cookies
    → Unseen [] cookies
    → parse_cookies (some (cookie_header cookies)) ≡ cookies
unfolding parse_cookies
parse-cookie_header [] h new = refl
parse-cookie_header ((name, value) ∷ cookies) (h, hs) (new, later) =
    let cookie : List ℕ × List ℕ = (name, value) in
    let full : is_empty (pair cookie ++ with_space cookies) ≡ false =
      ap is_empty (append_assoc name (b'=' ∷ encode_uri value) (with_space cookies))
      ∙ header-not_empty name ((b'=' ∷ encode_uri value) ++ with_space cookies) h.token in
    rw (full, split-header cookie cookies h hs)
      (add-pair (pair cookie) (pieces cookies) [] (cookie ∷ []) (add-one cookie [] h new)
        ∙ add-pieces cookies (cookie ∷ []) hs later)
