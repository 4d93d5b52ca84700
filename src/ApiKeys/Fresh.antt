-- ===== src/ApiKeys/Fresh.antt =====
-- The texts that `issueApiKey` draws: the id in hexadecimal digits and the secret in base64url.
use Prim.Native.String
use Prim.Native.Char.{code}
use text.Mathlib.TextLemmas.{nil-append, cons-append}
use workers_auth.Prelude.{
  ℕ, zero, suc, ◌+◌, ◌*◌, ◌/◌, ◌%◌, ◌<◌, ◌≡◌, refl, String, Bool, true, false, ◌&&◌, List, [], ◌∷◌,
  arith, length, codes, All, get_or,
}
use workers_auth.Crypto.{to_hex, hex_digits}
use workers_auth.Base64.{base64url_encode}
use workers_auth.Base64.Encoded.{IsByte, encode-all_of, length-encode}
use workers_auth.Request.{all_of, is_hex, is_url_char}

-- A text of one hexadecimal digit.
abbrev single_hex : String → Bool
single_hex String.[] = false
single_hex (String.◌∷◌ c String.[]) = is_hex (code c)
single_hex (String.◌∷◌ c s) = false

all_single : List String → Bool
all_single [] = true
all_single (s ∷ texts) = single_hex s && all_single texts

single_at :
    (texts : List String) (n : ℕ)
    → all_single texts ≡ true
    → n < length texts
    → single_hex (get_or texts n "") ≡ true
unfolding all_single
single_at [] n h lt = absurd (omega arith)
single_at (s ∷ texts) zero h lt = ground arith
single_at (s ∷ texts) (suc n) h lt = single_at texts n (ground arith) (omega arith)

digit_hex : (n : ℕ) → n < 16 → single_hex (get_or hex_digits n "") ≡ true
unfolding all_single
digit_hex n h = single_at hex_digits n refl h

-- A text that begins with a digit.
hex-append :
    (s rest : String)
    → single_hex s ≡ true
    → all_of is_hex (codes rest) ≡ true
    → (all_of is_hex (codes (String.◌++◌ s rest)) ≡ true)
      × (length (codes (String.◌++◌ s rest)) ≡ length (codes rest) + 1)
unfolding all_of
hex-append String.[] rest h hs = ground arith
hex-append (String.◌∷◌ c String.[]) rest h hs =
    rw (cons-append c "" rest, nil-append rest) (ground arith)
hex-append (String.◌∷◌ c (String.◌∷◌ d s)) rest h hs = ground arith

-- `toHex` writes two hexadecimal digits to a byte.
pub hex_chars :
    (bytes : List ℕ)
    → All IsByte bytes
    → (all_of is_hex (codes (to_hex bytes)) ≡ true)
      × (length (codes (to_hex bytes)) ≡ 2 * length bytes)
unfolding to_hex all_of
hex_chars [] h = (refl, refl)
hex_chars (b ∷ bytes) (h, hs) =
    let (chars, len) = hex_chars bytes hs in
    let low =
      hex-append (get_or hex_digits (b % 16) "") (to_hex bytes) (digit_hex (b % 16) (omega arith))
        chars in
    let high =
      hex-append (get_or hex_digits (b / 16) "")
        (String.◌++◌ (get_or hex_digits (b % 16) "") (to_hex bytes))
        (digit_hex (b / 16) (omega arith)) low.0 in
    (high.0, omega (arith, high.1, low.1, len))

-- `randomToken()`: a text whose characters are those of 32 bytes in base64url.
pub record IsToken (secret : String) : Type 0 where
  pub bytes : List ℕ
  pub size : length bytes ≡ 32
  pub in_range : All IsByte bytes
  pub encoded : codes secret ≡ base64url_encode bytes

pub token_chars :
    (secret : String)
    → IsToken secret
    → (all_of is_url_char (codes secret) ≡ true) × (length (codes secret) ≡ 43)
token_chars secret t =
    rw t.encoded
      (encode-all_of t.bytes t.in_range, omega (arith, length-encode t.bytes t.in_range, t.size))

-- A random key id of `issueApiKey`.
abbrev pub IsKeyId : List ℕ → Type 0
IsKeyId bytes = (length bytes ≡ 12) × All IsByte bytes
