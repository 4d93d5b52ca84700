-- ===== src/ApiKeys/Text.antt =====
-- providers/api-key.ts: the text of a key, and the headers that carry it.
use Prim.Native.Char.{code}
use workers_auth.Prelude.{
  ℕ, ◌+◌, String, Bool, ◌&&◌, ◌||◌, not, Option, none, some, List, [], ◌∷◌, eqb, leb, if◌then◌else◌,
  length, codes, ◌==◌,
}
use workers_auth.Pin.{is_digit}
use workers_auth.Request.{is_hex, is_url_char, is_space}
use workers_auth.Ip.Text.{trim}

pub record ParsedApiKey : Type 0 where
  pub env : String
  pub key_id : String
  pub secret : String

infixl 5 ◌>>=◌
abbrev pub ◌>>=◌ : {A B : Type 0} → Option A → (A → Option B) → Option B
none >>= k = none
some a >>= k = k a

-- The characters of a class that begin the text, and the rest.
unfoldable pub span : (ℕ → Bool) → String → String × String
span p String.[] = ("", "")
span p (String.◌∷◌ c s) =
    let (run, rest) = span p s in
    if p (code c) then (String.◌∷◌ c run, rest) else ("", String.◌∷◌ c s)

-- The rest of a text that begins with this character.
unfoldable pub after : ℕ → String → Option String
after sep String.[] = none
after sep (String.◌∷◌ c s) = if eqb (code c) sep then some s else none

abbrev pub is_env_char : ℕ → Bool
is_env_char c = is_digit c || (leb b'a' c && leb c b'z')

abbrev pub between : ℕ → ℕ → String → Bool
between lo hi s = leb lo (length (codes s)) && leb (length (codes s)) hi

-- `KEY_RE`. No class holds the separator that follows it, so each run is the longest one.
unfoldable pub parse_api_key : String → Option ParsedApiKey
unfolding span after
parse_api_key value = do
  a ← after b't' value
  b ← after b'k' a
  c ← after b'_' b
  d ← after b'_' (span is_env_char c).1
  e ← after b'.' (span is_hex d).1
  if between 1 16 (span is_env_char c).0
        && (between 16 64 (span is_hex d).0
            && (between 20 256 (span is_url_char e).0 && (span is_url_char e).1 == ""))
      then some (record {
        env = (span is_env_char c).0;
        key_id = (span is_hex d).0;
        secret = (span is_url_char e).0;
      })
      else none

-- A letter of either case, given in lower case.
abbrev pub is_letter : ℕ → ℕ → Bool
is_letter letter c = eqb c letter || eqb (c + 32) letter

unfoldable pub after_letters : List ℕ → String → Option String
after_letters [] s = some s
after_letters (letter ∷ letters) String.[] = none
after_letters (letter ∷ letters) (String.◌∷◌ c s) =
    let rest = after_letters letters s in if is_letter letter (code c) then rest else none

abbrev pub is_dark : ℕ → Bool
is_dark c = not (is_space c)

-- `/^Bearer\s+(\S+)$/i`
unfoldable pub bearer_key : String → Option String
unfolding after_letters span
bearer_key auth = do
  rest ← after_letters (b'b' ∷ b'e' ∷ b'a' ∷ b'r' ∷ b'e' ∷ b'r' ∷ []) auth
  if not ((span is_space rest).0 == "")
        && (not ((span is_space rest).1 == "") && (span is_dark (span is_space rest).1).1 == "")
      then some (span is_space rest).1
      else none

abbrev pub bearer_of : Option String → Option String
bearer_of none = none
bearer_of (some auth) = bearer_key (trim auth)

abbrev pub first_of : Option String → Option String → Option String
first_of none other = other
first_of (some key) other = some key

-- `defaultGetKey`, of the headers `authorization` and `x-api-key`
unfoldable pub default_get_key : Option String → Option String → Option String
unfolding bearer_key
default_get_key authorization x_api_key = first_of (bearer_of authorization) x_api_key
