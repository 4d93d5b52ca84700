-- ===== src/Base64.antt =====
-- base64url of crypto.ts: `btoa` and `atob` with the alphabet's last two characters replaced and
-- the padding dropped. Bytes and texts are lists of codes.
pub mod Encoded
pub mod RoundTrip
use workers_auth.Prelude.{
  ℕ, zero, suc, ◌+◌, ◌-◌, ◌*◌, ◌/◌, ◌%◌, Bool, true, false, ◌&&◌, ◌||◌, Option, none, some, List,
  [], ◌∷◌, ◌++◌, map, eqb, ltb, leb, if◌then◌else◌, length,
}

-- The standard alphabet.
unfoldable pub base64_char : ℕ → ℕ
base64_char n =
    if ltb n 26
    then n + 65
    else if ltb n 52
    then n + 71
    else if ltb n 62
    then n - 4
    else if eqb n 62
    then b'+'
    else b'/'

unfoldable pub btoa : List ℕ → List ℕ
unfolding base64_char
btoa [] = []
btoa (a ∷ []) = base64_char (a / 4) ∷ base64_char (a % 4 * 16) ∷ b'=' ∷ b'=' ∷ []
btoa (a ∷ b ∷ []) =
    base64_char (a / 4) ∷ base64_char (a % 4 * 16 + b / 16) ∷ base64_char (b % 16 * 4) ∷ b'=' ∷ []
btoa (a ∷ b ∷ c ∷ bytes) =
    base64_char (a / 4)
    ∷ base64_char (a % 4 * 16 + b / 16)
    ∷ base64_char (b % 16 * 4 + c / 64)
    ∷ base64_char (c % 64)
    ∷ btoa bytes

-- `.replace(/\+/g, '-').replace(/\//g, '_')`
unfoldable pub to_url : ℕ → ℕ
to_url c = if eqb c b'+' then b'-' else if eqb c b'/' then b'_' else c

unfoldable pub from_url : ℕ → ℕ
from_url c = if eqb c b'-' then b'+' else if eqb c b'_' then b'/' else c

abbrev is_nil : List ℕ → Bool
is_nil [] = true
is_nil (_ ∷ _) = false

-- `.replace(/=+$/, '')`
unfoldable pub strip_padding : List ℕ → List ℕ
strip_padding [] = []
strip_padding (c ∷ text) =
    let rest = strip_padding text in if eqb c b'=' && is_nil rest then [] else c ∷ rest

unfoldable pub base64url_encode : List ℕ → List ℕ
unfolding btoa to_url strip_padding
base64url_encode bytes = strip_padding (map to_url (btoa bytes))

-- The value of a character of the standard alphabet.
unfoldable pub char_value : ℕ → Option ℕ
char_value c =
    if leb 65 c && leb c 90
    then some (c - 65)
    else if leb 97 c && leb c 122
    then some (c - 71)
    else if leb 48 c && leb c 57
    then some (c + 4)
    else if eqb c b'+'
    then some 62
    else if eqb c b'/'
    then some 63
    else none

abbrev is_blank : ℕ → Bool
is_blank c = eqb c 9 || (eqb c 10 || (eqb c 12 || (eqb c 13 || eqb c 32)))

unfoldable pub drop_blanks : List ℕ → List ℕ
drop_blanks [] = []
drop_blanks (c ∷ text) = let rest = drop_blanks text in if is_blank c then rest else c ∷ rest

-- One or two `=` at the end.
unfoldable pub drop_padding : List ℕ → List ℕ
drop_padding [] = []
drop_padding (c ∷ []) = if eqb c b'=' then [] else c ∷ []
drop_padding (c ∷ d ∷ []) = if eqb d b'=' then (if eqb c b'=' then [] else c ∷ []) else c ∷ d ∷ []
drop_padding (c ∷ d ∷ e ∷ text) = c ∷ drop_padding (d ∷ e ∷ text)

abbrev values : List ℕ → Option (List ℕ) → Option (List ℕ)
values bytes none = none
values bytes (some more) = some (bytes ++ more)

abbrev bytes_2 : Option ℕ → Option ℕ → Option (List ℕ)
bytes_2 (some p) (some q) = some ((p * 4 + q / 16) ∷ [])
bytes_2 _ _ = none

abbrev bytes_3 : Option ℕ → Option ℕ → Option ℕ → Option (List ℕ)
bytes_3 (some p) (some q) (some r) = some ((p * 4 + q / 16) ∷ (q % 16 * 16 + r / 4) ∷ [])
bytes_3 _ _ _ = none

abbrev bytes_4 : Option ℕ → Option ℕ → Option ℕ → Option ℕ → Option (List ℕ) → Option (List ℕ)
bytes_4 (some p) (some q) (some r) (some s) more =
    values ((p * 4 + q / 16) ∷ (q % 16 * 16 + r / 4) ∷ (r % 4 * 64 + s) ∷ []) more
bytes_4 _ _ _ _ more = none

-- Groups of four characters; the spare bits of a short last group are dropped.
unfoldable pub decode_groups : List ℕ → Option (List ℕ)
unfolding char_value
decode_groups [] = some []
decode_groups (a ∷ []) = none
decode_groups (a ∷ b ∷ []) = bytes_2 (char_value a) (char_value b)
decode_groups (a ∷ b ∷ c ∷ []) = bytes_3 (char_value a) (char_value b) (char_value c)
decode_groups (a ∷ b ∷ c ∷ d ∷ text) =
    bytes_4 (char_value a) (char_value b) (char_value c) (char_value d) (decode_groups text)

-- `atob`, of which none is a throw.
unfoldable pub atob : List ℕ → Option (List ℕ)
unfolding drop_blanks drop_padding decode_groups
atob text =
    let dark = drop_blanks text in
    decode_groups (if eqb (length dark % 4) 0 then drop_padding dark else dark)

-- `'='.repeat(n)`
unfoldable pub equals_signs : ℕ → List ℕ
equals_signs zero = []
equals_signs (suc n) = b'=' ∷ equals_signs n

unfoldable pub pad : List ℕ → List ℕ
unfolding equals_signs
pad text = text ++ equals_signs ((4 - length text % 4) % 4)

unfoldable pub base64url_decode : List ℕ → Option (List ℕ)
unfolding from_url pad atob
base64url_decode value = atob (pad (map from_url value))
