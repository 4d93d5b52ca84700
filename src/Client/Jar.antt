-- ===== src/Client/Jar.antt =====
-- client.ts: `readCookie`, and the text of the options' base URL.
use workers_auth.Prelude.{ℕ, ◌&&◌, Option, none, some, List, [], ◌∷◌, eqb, if◌then◌else◌}
use workers_auth.Pin.{same_list}
use workers_auth.Cookies.{is_empty}
use workers_auth.Cookies.Uri.{decode_uri}
use workers_auth.Cookies.Parse.{split_semicolons, split_equals, trim, decoded}

abbrev pub or_else {ℓ} : {A : Type ℓ} → Option A → A → A
or_else none d = d
or_else (some a) d = a

-- `replace(/\/+$/, '')`
unfoldable pub trim_slashes : List ℕ → List ℕ
trim_slashes [] = []
trim_slashes (c ∷ text) =
    let rest = trim_slashes text in if eqb c b'/' && is_empty rest then [] else c ∷ rest

abbrev pub named : List ℕ → Option (List ℕ × List ℕ) → Option (List ℕ)
named name none = none
named name (some (key, raw)) =
    if same_list (trim key) name then some (decoded (trim raw) (decode_uri (trim raw))) else none

-- The loop over the parts of `document.cookie`.
unfoldable pub first_named : List ℕ → List (List ℕ) → Option (List ℕ)
unfolding split_equals trim
first_named name [] = none
first_named name (part ∷ parts) = elim (named name (split_equals part)) [
  | some value ↦ some value
  | none ↦ first_named name parts
]

-- `readCookie`, of `document.cookie`
unfoldable pub read_cookie : Option (List ℕ) → List ℕ → Option (List ℕ)
unfolding split_semicolons first_named
read_cookie none name = none
read_cookie (some jar) name =
    if is_empty jar
    then none
    else first_named name ((split_semicolons jar).0 ∷ (split_semicolons jar).1)
