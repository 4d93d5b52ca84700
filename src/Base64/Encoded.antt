-- ===== src/Base64/Encoded.antt =====
-- What base64url encodes to: its characters and its length.
use workers_auth.Prelude.{
  ℕ, ◌+◌, ◌*◌, ◌/◌, ◌%◌, ◌<◌, ◌≡◌, refl, true, some, List, [], ◌∷◌, map, arith, length, All,
}
use workers_auth.Request.{all_of, is_url_char}
use workers_auth.Base64.{
  base64_char, btoa, to_url, from_url, strip_padding, base64url_encode, char_value,
}

abbrev pub IsByte : ℕ → Type 0
IsByte b = b < 256

-- A digit of the URL alphabet.
abbrev pub digit : ℕ → ℕ
digit n = to_url (base64_char n)

pub digit_url : (n : ℕ) → n < 64 → is_url_char (digit n) ≡ true
unfolding to_url base64_char
digit_url n h = ground arith

pub strip-digit :
    (n : ℕ) (text : List ℕ) → n < 64 → strip_padding (digit n ∷ text) ≡ digit n ∷ strip_padding text
unfolding to_url base64_char strip_padding
strip-digit n text h = ground arith

pub from-digit : (n : ℕ) → n < 64 → from_url (digit n) ≡ base64_char n
unfolding to_url base64_char from_url
from-digit n h = ground arith

pub value-char : (n : ℕ) → n < 64 → char_value (base64_char n) ≡ some n
unfolding base64_char char_value
value-char n h = ground arith

-- The encoded text, group by group.
pub encode_1 :
    (a : ℕ) → a < 256 → base64url_encode (a ∷ []) ≡ digit (a / 4) ∷ digit (a % 4 * 16) ∷ []
unfolding base64url_encode btoa
encode_1 a h = rw (
  strip-digit (a / 4) (digit (a % 4 * 16) ∷ to_url b'=' ∷ to_url b'=' ∷ []) (omega arith),
  strip-digit (a % 4 * 16) (to_url b'=' ∷ to_url b'=' ∷ []) (omega arith),
)

pub encode_2 :
    (a b : ℕ)
    → a < 256
    → b < 256
    → base64url_encode (a ∷ b ∷ [])
      ≡ digit (a / 4) ∷ digit (a % 4 * 16 + b / 16) ∷ digit (b % 16 * 4) ∷ []
unfolding base64url_encode btoa
encode_2 a b h k = rw (
  strip-digit (a / 4) (digit (a % 4 * 16 + b / 16) ∷ digit (b % 16 * 4) ∷ to_url b'=' ∷ [])
      (omega arith),
  strip-digit (a % 4 * 16 + b / 16) (digit (b % 16 * 4) ∷ to_url b'=' ∷ []) (omega arith),
  strip-digit (b % 16 * 4) (to_url b'=' ∷ []) (omega arith),
)

pub encode_3 :
    (a b c : ℕ) (bytes : List ℕ)
    → a < 256
    → b < 256
    → c < 256
    → base64url_encode (a ∷ b ∷ c ∷ bytes)
      ≡ digit (a / 4)
        ∷ digit (a % 4 * 16 + b / 16)
        ∷ digit (b % 16 * 4 + c / 64)
        ∷ digit (c % 64)
        ∷ base64url_encode bytes
unfolding base64url_encode btoa
encode_3 a b c bytes h k l =
    let rest = map to_url (btoa bytes) in
    rw (
      strip-digit (a / 4)
          (digit (a % 4 * 16 + b / 16) ∷ digit (b % 16 * 4 + c / 64) ∷ digit (c % 64) ∷ rest)
          (omega arith),
      strip-digit (a % 4 * 16 + b / 16) (digit (b % 16 * 4 + c / 64) ∷ digit (c % 64) ∷ rest)
          (omega arith),
      strip-digit (b % 16 * 4 + c / 64) (digit (c % 64) ∷ rest) (omega arith),
      strip-digit (c % 64) rest (omega arith),
    )

-- Every character of the encoded text is one of the URL alphabet.
pub encode-all_of :
    (bytes : List ℕ) → All IsByte bytes → all_of is_url_char (base64url_encode bytes) ≡ true
unfolding all_of base64url_encode
encode-all_of [] h = refl
encode-all_of (a ∷ []) (h, _) =
    rw (encode_1 a h)
      (ground (arith, digit_url (a / 4) (omega arith), digit_url (a % 4 * 16) (omega arith)))
encode-all_of (a ∷ b ∷ []) (h, (k, _)) = rw (encode_2 a b h k) (
    ground (
      arith,
      digit_url (a / 4) (omega arith),
      digit_url (a % 4 * 16 + b / 16) (omega arith),
      digit_url (b % 16 * 4) (omega arith),
    ))
encode-all_of (a ∷ b ∷ c ∷ bytes) (h, (k, (l, hs))) = rw (encode_3 a b c bytes h k l) (
    ground (
      arith,
      digit_url (a / 4) (omega arith),
      digit_url (a % 4 * 16 + b / 16) (omega arith),
      digit_url (b % 16 * 4 + c / 64) (omega arith),
      digit_url (c % 64) (omega arith),
      encode-all_of bytes hs,
    ))

-- Four characters to three bytes, and no padding.
pub length-encode :
    (bytes : List ℕ)
    → All IsByte bytes
    → length (base64url_encode bytes) ≡ (4 * length bytes + 2) / 3
unfolding base64url_encode
length-encode [] h = refl
length-encode (a ∷ []) (h, _) = rw (encode_1 a h)
length-encode (a ∷ b ∷ []) (h, (k, _)) = rw (encode_2 a b h k)
length-encode (a ∷ b ∷ c ∷ bytes) (h, (k, (l, hs))) =
    rw (encode_3 a b c bytes h k l) (omega (arith, length-encode bytes hs))
