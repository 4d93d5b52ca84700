-- ===== src/Client/Echoed.antt =====
-- The client's CSRF header against the cookie that the server reads.
use mathlib.Core.List.{append_assoc}
use workers_auth.Prelude.{
  ℕ, ◌≡◌, ◌∙◌, refl, ap, String, Bool, true, false, not, Option, none, some, List, [], ◌∷◌, ◌++◌,
  arith, if◌then◌else◌, All, All-select_where, Bool-cases, inl, inr, select_where, find, put, codes,
  ◌==◌, eq_refl,
}
use workers_auth.Pin.{same_list}
use workers_auth.EmailCode.Uniform.{same_list_eq}
use workers_auth.Cookies.{is_empty}
use workers_auth.Cookies.Uri.{encode_uri}
use workers_auth.Cookies.Uri.RoundTrip.{decode-encode_uri}
use workers_auth.Cookies.Parse.{Cookies, lookup, split_equals, trim, get_cookie}
use workers_auth.Cookies.Parsed.{
  pair, with_space, cookie_header, pieces, IsCookie, Unseen, name_chars, name-bare, value-bare,
  split_equals-append, trim-bare, split-header, header-not_empty, parse-cookie_header,
}
use workers_auth.Client.Jar.{named, first_named, read_cookie}
use workers_auth.Client.{
  csrf_name, header_name, csrf_headers, csrf_header, csrf_token, fetch_init, logout_init, spread,
}
use workers_auth.Client.State.{AuthClientOptions}

-- One part, as it stands or behind a space, is named after its cookie.
named-one :
    (cookie : List ℕ × List ℕ) (name : List ℕ)
    → IsCookie cookie
    → (named name (split_equals (pair cookie))
        ≡ (if same_list cookie.0 name then some cookie.1 else none))
      × (named name (split_equals (b' ' ∷ pair cookie))
          ≡ (if same_list cookie.0 name then some cookie.1 else none))
unfolding split_equals trim
named-one (key, value) name h =
    rw
      (
        split_equals-append key (encode_uri value) (name_chars key h.token),
        trim-bare key (name-bare key h.token),
        trim-bare (encode_uri value) (value-bare value h.scalars),
        decode-encode_uri value h.scalars,
      )
      (refl, refl)

first_named-cons :
    (name part value : List ℕ) (parts : List (List ℕ)) (b : Bool) (rest : Option (List ℕ))
    → named name (split_equals part) ≡ (if b then some value else none)
    → first_named name parts ≡ rest
    → first_named name (part ∷ parts) ≡ (if b then some value else rest)
unfolding first_named
first_named-cons name part value parts true rest e f = rw (e, first_named) refl
first_named-cons name part value parts false rest e f = rw (e, first_named) f

first_named-pieces :
    (cookies : Cookies) (name : List ℕ)
    → All IsCookie cookies
    → first_named name (pieces cookies) ≡ lookup name cookies
unfolding first_named lookup
first_named-pieces [] name h = refl
first_named-pieces (cookie ∷ cookies) name (h, hs) =
    first_named-cons name (b' ' ∷ pair cookie) cookie.1 (pieces cookies) (same_list cookie.0 name)
      (lookup name cookies) (named-one cookie name h).1 (first_named-pieces cookies name hs)

-- `readCookie` finds the first cookie of a name.
read_cookie-lookup :
    (cookies : Cookies) (name : List ℕ)
    → All IsCookie cookies
    → read_cookie (some (cookie_header cookies)) name ≡ lookup name cookies
unfolding read_cookie first_named lookup
read_cookie-lookup [] name h = refl
read_cookie-lookup ((key, value) ∷ cookies) name (h, hs) =
    let cookie : List ℕ × List ℕ = (key, value) in
    let full : is_empty (pair cookie ++ with_space cookies) ≡ false =
      ap is_empty (append_assoc key (b'=' ∷ encode_uri value) (with_space cookies))
      ∙ header-not_empty key ((b'=' ∷ encode_uri value) ++ with_space cookies) h.token in
    rw (full, split-header cookie cookies h hs)
      (first_named-cons name (pair cookie) value (pieces cookies) (same_list key name)
        (lookup name cookies) (named-one cookie name h).0 (first_named-pieces cookies name hs))

-- What `document.cookie` shows: the cookies that are not HttpOnly.
abbrev pub shown : (List ℕ → Bool) → Cookies → Cookies
shown is_hidden cookies = select_where (λ c. not (is_hidden c.0)) cookies

lookup-shown :
    (is_hidden : List ℕ → Bool) (name : List ℕ) (cookies : Cookies)
    → ((key : List ℕ) → same_list key name ≡ true → is_hidden key ≡ false)
    → lookup name (shown is_hidden cookies) ≡ lookup name cookies
unfolding lookup
lookup-shown is_hidden name [] h = refl
lookup-shown is_hidden name ((key, value) ∷ cookies) h =
    ground (arith, h key, lookup-shown is_hidden name cookies h, Bool-cases (is_hidden key))

-- The empty token is sent in no header.
abbrev pub not_empty : Option (List ℕ) → Option (List ℕ)
not_empty none = none
not_empty (some token) = if is_empty token then none else some token

module _ {V : Type 0} (o : AuthClientOptions) (error_of : V → Option String) where
  header-token :
      (token : Option (List ℕ))
      → ("accept" == (header_name o error_of)) ≡ false
      → find
          (header_name o error_of)
          (spread (("accept", codes "application/json") ∷ []) (csrf_header o error_of token))
        ≡ not_empty token
  unfolding spread find put
  header-token none h = rw h refl
  header-token (some token) h = elim (Bool-cases (is_empty token)) [
    | inl e ↦ rw (e, h) refl
    | inr e ↦ rw (e, h, h, eq_refl (header_name o error_of)) refl
  ]

  -- A logout echoes, in the CSRF header, the token that the server reads from the cookies of the
  -- same request, and has no such header where the server reads none or an empty one: given cookies
  -- that were set under different names, a CSRF cookie that is not HttpOnly, and a header other
  -- than `accept`.
  pub logout-echoes :
      (is_hidden : List ℕ → Bool) (cookies : Cookies)
      → All IsCookie cookies
      → Unseen [] cookies
      → is_hidden (csrf_name o error_of) ≡ false
      → ("accept" == (header_name o error_of)) ≡ false
      → find
          (header_name o error_of)
          (fetch_init o error_of
            (logout_init o error_of (some (cookie_header (shown is_hidden cookies))))).headers
        ≡ not_empty (get_cookie (some (cookie_header cookies)) (csrf_name o error_of))
  unfolding logout_init csrf_headers csrf_token get_cookie
  logout-echoes is_hidden cookies hs new visible other =
      let seen : Cookies = shown is_hidden cookies in
      let jar_token : read_cookie (some (cookie_header seen)) (csrf_name o error_of)
          ≡ lookup (csrf_name o error_of) cookies =
        read_cookie-lookup seen (csrf_name o error_of)
          (All-select_where IsCookie (λ c. not (is_hidden c.0)) cookies hs)
        ∙ lookup-shown is_hidden (csrf_name o error_of) cookies
            (λ key e. ap is_hidden (same_list_eq key (csrf_name o error_of) e) ∙ visible) in
      rw (parse-cookie_header cookies hs new) (
        ap
          (λ t.
            find (header_name o error_of)
              (spread (("accept", codes "application/json") ∷ []) (csrf_header o error_of t)))
          jar_token
        ∙ header-token (lookup (csrf_name o error_of) cookies) other)
