-- ===== src/Cookies/Attributes.antt =====
-- What a serialised cookie says to a browser, which reads it as attributes between semicolons.
use mathlib.Core.Path.{subst, sym}
use workers_auth.Prelude.{
  ℕ, zero, suc, ◌+◌, ◌/◌, ◌%◌, ◌≡◌, ◌∙◌, refl, ap, Bool, true, false, not, Option, none, some, List,
  [], ◌∷◌, ◌++◌, arith, eqb, ltb, All, All-append, inl, inr, Bool-cases, Option-cases, codes,
  decimal, decimal_from,
}
use workers_auth.Pin.{contains, same_list}
use workers_auth.Request.{all_of}
use workers_auth.Cookies.Uri.{encode_uri}
use workers_auth.Cookies.Uri.RoundTrip.{IsScalar, is_encoded, encode_uri-encoded}
use workers_auth.Cookies.Parsed.{all_of_mono, all_of-append, name_chars}
use workers_auth.Cookies.{
  is_token, is_token_char, is_safe_char, CookieAttributes, DateText, parts, join, serialize_cookie,
  path_of, domain_of, host_prefix, secure_prefix, starts_with, base_name, after_prefix, or_default,
  is_empty, same_site_text, SameSite, lax, strict, none_, age_parts, if_part,
}
use workers_auth.Cookies.Parse.{split_semicolons}
use workers_auth.Cookies.Carried.{Carries, carries, read_back, spaced}

abbrev pub is_free : ℕ → Bool
is_free c = not (eqb c b';')

abbrev IsFree : List ℕ → Type 0
IsFree text = all_of is_free text ≡ true

split-IsFree :
    (text rest : List ℕ)
    → IsFree text
    → split_semicolons (text ++ (b';' ∷ rest))
      ≡ (text, (split_semicolons rest).0 ∷ (split_semicolons rest).1)
unfolding all_of split_semicolons
split-IsFree [] rest h = refl
split-IsFree (c ∷ text) rest h = ground (arith, split-IsFree text rest)

split_last : (text : List ℕ) → IsFree text → split_semicolons text ≡ (text, [])
unfolding all_of split_semicolons
split_last [] h = refl
split_last (c ∷ text) h = ground (arith, split_last text)

split-join :
    (part : List ℕ) (rest : List (List ℕ))
    → IsFree part
    → All IsFree rest
    → split_semicolons (join (part ∷ rest)) ≡ (part, spaced rest)
unfolding split_semicolons join
split-join part [] h hs = split_last part h
split-join part (next ∷ rest) h (k, ks) =
    rw (split-IsFree part (b' ' ∷ join (next ∷ rest)) h, split-join next rest k ks)

decimal-IsFree : (fuel n : ℕ) → IsFree (decimal_from fuel n)
unfolding decimal_from all_of
decimal-IsFree zero n = refl
decimal-IsFree (suc fuel) n = elim (Bool-cases (ltb n 10)) [
  | inl e ↦ rw e (ground arith)
  | inr e ↦ rw e (
      all_of-append is_free (decimal_from fuel (n / 10)) ((n % 10 + 48) ∷ [])
        (decimal-IsFree fuel (n / 10)) (ground arith))
]

after_prefix-IsFree :
    (prefix text rest : List ℕ)
    → after_prefix prefix text ≡ some rest
    → IsFree prefix
    → IsFree rest
    → IsFree text
unfolding after_prefix all_of
after_prefix-IsFree [] text rest e h k = ground arith
after_prefix-IsFree (p ∷ prefix) [] rest e h k = ground arith
after_prefix-IsFree (p ∷ prefix) (c ∷ text) rest e h k = elim (Bool-cases (eqb p c)) [
  | inl f ↦ ground (arith, after_prefix-IsFree prefix text rest)
  | inr f ↦ ground arith
]

token-IsFree : (name : List ℕ) → is_token name ≡ true → IsFree name
unfolding contains
token-IsFree name h =
    all_of_mono is_token_char is_free name (λ c k. ground arith) (name_chars name h)

name-IsFree : (name : List ℕ) → is_token (base_name name) ≡ true → IsFree name
unfolding all_of
name-IsFree name h = elim (Option-cases (after_prefix host_prefix name)) [
  | inr (rest, e) ↦
      after_prefix-IsFree host_prefix name rest e refl (token-IsFree rest (ground arith))
  | inl e ↦ elim (Option-cases (after_prefix secure_prefix name)) [
    | inr (rest, f) ↦
        after_prefix-IsFree secure_prefix name rest f refl (token-IsFree rest (ground arith))
    | inl f ↦ token-IsFree name (ground arith)
  ]
]

safe-IsFree : (text : List ℕ) → all_of is_safe_char text ≡ true → IsFree text
safe-IsFree text h = all_of_mono is_safe_char is_free text (λ c k. ground arith) h

value-IsFree : (value : List ℕ) → All IsScalar value → IsFree (encode_uri value)
value-IsFree value h =
    all_of_mono is_encoded is_free (encode_uri value) (λ c k. ground arith)
      (encode_uri-encoded value h)

age_parts-IsFree :
    (expires : DateText) (age : Option ℕ)
    → ((n : ℕ) → IsFree (expires n))
    → All IsFree (age_parts expires age)
unfolding decimal all_of
age_parts-IsFree expires none h = tt
age_parts-IsFree expires (some age) h = (decimal-IsFree (age + 1) age, (h age, tt))

if_part-IsFree : (b : Bool) (part : List ℕ) → IsFree part → All IsFree (if_part b part)
if_part-IsFree true part h = (h, tt)
if_part-IsFree false part h = tt

same_site-IsFree : (s : SameSite) → IsFree (codes "SameSite=" ++ same_site_text s)
unfolding all_of
same_site-IsFree lax = refl
same_site-IsFree strict = refl
same_site-IsFree none_ = refl

-- The rules of the `__Host-` prefix.
pub record IsHost (attrs : CookieAttributes) : Type 0 where
  pub path : same_list (path_of attrs) (codes "/") ≡ true
  pub domain : is_empty (domain_of attrs) ≡ true
  pub secure : or_default attrs.secure true ≡ true

-- What the checks of `serializeCookie` let pass.
pub record IsSerialized (expires : DateText) (name value : List ℕ) (attrs : CookieAttributes)
    (text : List ℕ) : Type 0 where
  pub token : is_token (base_name name) ≡ true
  pub path : all_of is_safe_char (path_of attrs) ≡ true
  pub domain : all_of is_safe_char (domain_of attrs) ≡ true
  pub host : starts_with host_prefix name ≡ true → IsHost attrs
  pub secure : starts_with secure_prefix name ≡ true → or_default attrs.secure true ≡ true
  pub written : text ≡ join (parts expires name value attrs)

passed :
    (expires : DateText) (name value : List ℕ) (attrs : CookieAttributes) (text : List ℕ)
    → serialize_cookie expires name value attrs ≡ some text
    → IsSerialized expires name value attrs text
unfolding serialize_cookie
passed expires name value attrs text e = record {
  token = ground arith;
  path = ground arith;
  domain = ground arith;
  host = λ h. ground arith;
  secure = λ h. ground arith;
  written = ground arith;
}

parts-IsFree :
    (expires : DateText) (name value : List ℕ) (attrs : CookieAttributes)
    → is_token (base_name name) ≡ true
    → all_of is_safe_char (path_of attrs) ≡ true
    → all_of is_safe_char (domain_of attrs) ≡ true
    → All IsScalar value
    → ((n : ℕ) → IsFree (expires n))
    → All IsFree (parts expires name value attrs)
unfolding all_of
parts-IsFree expires name value attrs token path domain scalars dates = (
  all_of-append is_free name (b'=' ∷ encode_uri value) (name-IsFree name token)
      (value-IsFree value scalars),
  (
    all_of-append is_free (codes "Path=") (path_of attrs) refl (safe-IsFree (path_of attrs) path),
    All-append IsFree (age_parts expires attrs.max_age) _
        (age_parts-IsFree expires attrs.max_age dates)
        (All-append IsFree
          (if_part (not (is_empty (domain_of attrs))) (codes "Domain=" ++ domain_of attrs)) _
          (if_part-IsFree (not (is_empty (domain_of attrs))) (codes "Domain=" ++ domain_of attrs) (
            all_of-append is_free (codes "Domain=") (domain_of attrs) refl
              (safe-IsFree (domain_of attrs) domain)))
          (All-append IsFree (if_part (or_default attrs.http_only true) (codes "HttpOnly")) _
            (if_part-IsFree (or_default attrs.http_only true) (codes "HttpOnly") refl)
            (All-append IsFree (if_part (or_default attrs.secure true) (codes "Secure")) _
              (if_part-IsFree (or_default attrs.secure true) (codes "Secure") refl)
              (same_site-IsFree (or_default attrs.same_site lax), tt)))),
  ),
)

-- Split at the semicolons, a serialised cookie is the name with the encoded value, and then the
-- attributes that were asked for, each with its value, and no others, whatever the value (of Unicode
-- scalars), path and domain are: the path, else `/`; the age and its date, and the domain, where they
-- were given; HttpOnly and Secure unless they were declined; and SameSite, else `Lax`. A cookie whose
-- name has the `__Host-` prefix was asked to be Secure, for the path `/` and no domain. (The date
-- text that the platform prints has no semicolon.)
pub split-serialize_cookie :
    (expires : DateText) (name value : List ℕ) (attrs : CookieAttributes) (text : List ℕ)
    → All IsScalar value
    → ((n : ℕ) → all_of is_free (expires n) ≡ true)
    → serialize_cookie expires name value attrs ≡ some text
    → (split_semicolons text ≡ read_back (parts expires name value attrs))
      × ((split_semicolons text).0 ≡ name ++ (b'=' ∷ encode_uri value))
      × Carries expires attrs (split_semicolons text).1
      × (starts_with host_prefix name ≡ true → IsHost attrs)
split-serialize_cookie expires name value attrs text scalars dates e =
    let p = passed expires name value attrs text e in
    let free = parts-IsFree expires name value attrs p.token p.path p.domain scalars dates in
    let read : split_semicolons text ≡ read_back (parts expires name value attrs) =
      ap split_semicolons p.written ∙ split-join _ _ free.0 free.1 in
    (
      read,
      ap (λ r. r.0) read,
      subst (λ r. Carries expires attrs r.1) (sym read) (carries expires name value attrs),
      p.host,
    )
