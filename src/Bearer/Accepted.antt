-- ===== src/Bearer/Accepted.antt =====
-- A bearer session is read back from the header that its token makes.
use Prim.Native.String
use Prim.Native.Char.{Char, code}
use text.Mathlib.TextLemmas.{nil-append, cons-append}
use workers_auth.Prelude.{
  ℕ, ◌≤◌, ◌≡◌, refl, String, true, false, some, List, [], ◌∷◌, arith, length, codes, eq_iff,
  Bool-cases, inl, inr, ◌==◌,
}
use workers_auth.Ip.Text.{trim, trim_end}
use workers_auth.Request.{all_of, is_url_char, utf16_length}
use workers_auth.Cookies.Parsed.{all_of_mono}
use workers_auth.ApiKeys.Text.{span, after, bearer_key, after_letters, is_dark}
use workers_auth.ApiKeys.Format.{span_all}
use workers_auth.Bearer.{sid_of, bearer_session_token, read_bearer_session_id}

-- The session ids that the store issues: base64url texts of a length that the header may have.
pub record IsSid (sid : String) : Type 0 where
  pub chars : all_of is_url_char (codes sid) ≡ true
  pub longer : 20 ≤ length (codes sid)
  pub shorter : length (codes sid) ≤ 124

url-dark : (c : ℕ) → is_url_char c ≡ true → is_dark c ≡ true
url-dark c h = ground arith

url-units : (cs : List ℕ) → all_of is_url_char cs ≡ true → utf16_length cs ≡ length cs
unfolding all_of utf16_length
url-units [] h = refl
url-units (c ∷ cs) h = ground (arith, url-units cs)

-- A text of a class without spaces stays as it is, and so does one before it.
trim_end-url : (s : String) → all_of is_url_char (codes s) ≡ true → trim_end s ≡ s
unfolding all_of trim_end
trim_end-url String.[] h = refl
trim_end-url (String.◌∷◌ c s) h = ground (arith, url-dark (code c), trim_end-url s)

trim_end-cons :
    (c : Char) (s : String)
    → trim_end s ≡ s
    → (s == "") ≡ false
    → trim_end (String.◌∷◌ c s) ≡ String.◌∷◌ c s
unfolding trim_end
trim_end-cons c s e full = ground (arith, e)

-- The header `Bearer` with the token.
abbrev pub bearer_header : String → String
bearer_header token = String.◌++◌ "Bearer " token

-- The token, and a header with it, character by character.
abbrev token_of : String → String
token_of sid = String.◌∷◌ "w" (String.◌∷◌ "s" (String.◌∷◌ "b" (String.◌∷◌ "_" sid)))

abbrev spaced : String → String
spaced token = String.◌∷◌ " " token

abbrev header_of : String → String
header_of token = String.◌∷◌ "B" (
    String.◌∷◌ "e"
      (String.◌∷◌ "a" (String.◌∷◌ "r" (String.◌∷◌ "e" (String.◌∷◌ "r" (spaced token))))))

token-cons : (sid : String) → bearer_session_token sid ≡ token_of sid
token-cons sid =
    rw
      (
        cons-append "w" "sb_" sid,
        cons-append "s" "b_" sid,
        cons-append "b" "_" sid,
        cons-append "_" "" sid,
        nil-append sid,
      )
      refl

header-cons : (token : String) → bearer_header token ≡ header_of token
header-cons token =
    rw
      (
        cons-append "B" "earer " token,
        cons-append "e" "arer " token,
        cons-append "a" "rer " token,
        cons-append "r" "er " token,
        cons-append "e" "r " token,
        cons-append "r" " " token,
        cons-append " " "" token,
        nil-append token,
      )
      refl

cons_full : (c : Char) (s : String) → (String.◌∷◌ c s == "") ≡ false
cons_full c s = elim (Bool-cases (String.◌∷◌ c s == "")) [
  | inr e ↦ e
  | inl e ↦ let clash : String.◌∷◌ c s ≡ "" = (eq_iff (String.◌∷◌ c s) "").0 e in absurd (cc)
]

token-url :
    (sid : String)
    → all_of is_url_char (codes sid) ≡ true
    → all_of is_url_char (codes (token_of sid)) ≡ true
unfolding all_of
token-url sid h = h

trim_end-more :
    (b c : Char) (s : String)
    → trim_end (String.◌∷◌ c s) ≡ String.◌∷◌ c s
    → trim_end (String.◌∷◌ b (String.◌∷◌ c s)) ≡ String.◌∷◌ b (String.◌∷◌ c s)
trim_end-more b c s e = trim_end-cons b (String.◌∷◌ c s) e (cons_full c s)

trim-header :
    (sid : String)
    → all_of is_url_char (codes sid) ≡ true
    → trim (header_of (token_of sid)) ≡ header_of (token_of sid)
unfolding trim
trim-header sid h = trim_end-more "B" "e" _ (
    trim_end-more "e" "a" _ (
      trim_end-more "a" "r" _ (
        trim_end-more "r" "e" _ (
          trim_end-more "e" "r" _ (
            trim_end-more "r" " " _
              (trim_end-more " " "w" _ (trim_end-url (token_of sid) (token-url sid h))))))))

bearer_key-header :
    (sid : String)
    → all_of is_url_char (codes sid) ≡ true
    → bearer_key (header_of (token_of sid)) ≡ some (token_of sid)
unfolding bearer_key after_letters span
bearer_key-header sid h =
    rw
      (
        cons_full "w" (String.◌∷◌ "s" (String.◌∷◌ "b" (String.◌∷◌ "_" sid))),
        span_all is_dark sid (all_of_mono is_url_char is_dark (codes sid) url-dark h),
      )
      refl

sid_of-token : (sid : String) → IsSid sid → sid_of (some (token_of sid)) ≡ some sid
unfolding after utf16_length
sid_of-token sid h = ground (arith, url-units (codes sid) h.chars, h.chars, h.longer, h.shorter)

-- `readBearerSessionId` reads back the id whose token stands in the header.
pub read-bearer_header :
    (sid : String)
    → IsSid sid
    → read_bearer_session_id (some (bearer_header (bearer_session_token sid))) ≡ some sid
unfolding read_bearer_session_id
read-bearer_header sid h =
    rw
      (
        token-cons sid,
        header-cons (token_of sid),
        cons_full,
        trim-header sid h.chars,
        bearer_key-header sid h.chars,
      )
      (sid_of-token sid h)
