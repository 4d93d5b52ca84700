-- ===== src/Cookies/Parse.antt =====
-- cookie.ts: `parseCookies` and `getCookie`.
use workers_auth.Prelude.{
  ℕ, String, Bool, false, ◌&&◌, ◌||◌, Option, none, some, List, [], ◌∷◌, ◌++◌, eqb, if◌then◌else◌,
  codes, is_some,
}
use workers_auth.Pin.{same_list}
use workers_auth.Request.{is_space}
use workers_auth.Cookies.Uri.{decode_uri}
use workers_auth.Cookies.{is_empty}

-- `split(';')`: the first piece and the others.
unfoldable pub split_semicolons : List ℕ → List ℕ × List (List ℕ)
split_semicolons [] = ([], [])
split_semicolons (c ∷ text) =
    let (piece, pieces) = split_semicolons text in
    if eqb c b';' then ([], piece ∷ pieces) else (c ∷ piece, pieces)

-- The texts before and after the first `=`.
unfoldable pub split_equals : List ℕ → Option (List ℕ × List ℕ)
split_equals [] = none
split_equals (c ∷ text) =
    let rest = split_equals text in
    if eqb c b'='
    then some ([], text)
    else elim rest [ none ↦ none | some (key, raw) ↦ some (c ∷ key, raw) ]

unfoldable pub trim_end : List ℕ → List ℕ
trim_end [] = []
trim_end (c ∷ text) =
    let rest = trim_end text in if is_space c && is_empty rest then [] else c ∷ rest

unfoldable pub trim : List ℕ → List ℕ
unfolding trim_end
trim [] = []
trim (c ∷ text) = let rest = trim text in if is_space c then rest else trim_end (c ∷ text)

abbrev pub Cookies : Type 0
Cookies = List (List ℕ × List ℕ)

-- What a plain object inherits: `key in out` holds of these names from the start.
abbrev inherited_names : List String
inherited_names =
    "constructor" ∷ "toString" ∷ "toLocaleString" ∷ "valueOf" ∷ "hasOwnProperty" ∷ "isPrototypeOf"
    ∷ "propertyIsEnumerable" ∷ "__proto__" ∷ "__defineGetter__" ∷ "__defineSetter__"
    ∷ "__lookupGetter__" ∷ "__lookupSetter__" ∷ []

unfoldable is_named : List ℕ → List String → Bool
is_named key [] = false
is_named key (name ∷ names) = same_list key (codes name) || is_named key names

unfoldable pub is_inherited : List ℕ → Bool
unfolding is_named
is_inherited key = is_named key inherited_names

unfoldable pub lookup : List ℕ → Cookies → Option (List ℕ)
lookup key [] = none
lookup key ((k, v) ∷ out) = if same_list k key then some v else lookup key out

-- `decodeURIComponent`, and the raw text where it throws
abbrev pub decoded : List ℕ → Option (List ℕ) → List ℕ
decoded raw none = raw
decoded raw (some value) = value

abbrev pub add_pair : Option (List ℕ × List ℕ) → Cookies → Cookies
add_pair none out = out
add_pair (some (key, raw)) out =
    if is_empty (trim key)
    then out
    else if is_inherited (trim key) || is_some (lookup (trim key) out)
    then out
    else out ++ ((trim key, decoded (trim raw) (decode_uri (trim raw))) ∷ [])

-- The loop over the pairs.
unfoldable pub add_pairs : List (List ℕ) → Cookies → Cookies
unfolding split_equals trim is_inherited lookup
add_pairs [] out = out
add_pairs (pair ∷ pairs) out = add_pairs pairs (add_pair (split_equals pair) out)

-- `parseCookies`; a header that is absent or empty gives no cookies.
unfoldable pub parse_cookies : Option (List ℕ) → Cookies
unfolding split_semicolons add_pairs
parse_cookies none = []
parse_cookies (some header) =
    if is_empty header
    then []
    else add_pairs ((split_semicolons header).0 ∷ (split_semicolons header).1) []

-- `getCookie`, of the header `cookie`, for a name that no object inherits
unfoldable pub get_cookie : Option (List ℕ) → List ℕ → Option (List ℕ)
unfolding parse_cookies lookup
get_cookie header name = lookup name (parse_cookies header)
