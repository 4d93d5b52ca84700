-- ===== src/Base64/RoundTrip.antt =====
-- What base64url encodes to, and that decoding reads it back.
use workers_auth.Prelude.{
  ℕ, ◌+◌, ◌*◌, ◌/◌, ◌%◌, ◌<◌, ◌≡◌, refl, ap, true, false, some, List, [], ◌∷◌, ◌++◌, map, arith,
  eqb, length, All,
}
use workers_auth.Request.{all_of, is_url_char}
use workers_auth.Base64.{
  base64_char, btoa, from_url, base64url_encode, drop_blanks, drop_padding, decode_groups, atob,
  pad, base64url_decode, equals_signs,
}
use workers_auth.Base64.Encoded.{
  IsByte, encode-all_of, encode_1, encode_2, encode_3, from-digit, length-encode, value-char,
}

pad_4 : (w x y z : ℕ) (text : List ℕ) → pad (w ∷ x ∷ y ∷ z ∷ text) ≡ w ∷ x ∷ y ∷ z ∷ pad text
unfolding pad
pad_4 w x y z text = ap (λ (n : ℕ). w ∷ x ∷ y ∷ z ∷ (text ++ equals_signs n)) (omega arith)

pad_0 : pad [] ≡ []
unfolding pad
pad_0 = refl

pad_2 : (x y : ℕ) → pad (x ∷ y ∷ []) ≡ x ∷ y ∷ b'=' ∷ b'=' ∷ []
unfolding pad
pad_2 x y = refl

pad_3 : (x y z : ℕ) → pad (x ∷ y ∷ z ∷ []) ≡ x ∷ y ∷ z ∷ b'=' ∷ []
unfolding pad
pad_3 x y z = refl

-- Decoding restores the standard alphabet and the padding.
restored :
    (bytes : List ℕ) → All IsByte bytes → pad (map from_url (base64url_encode bytes)) ≡ btoa bytes
unfolding btoa base64url_encode
restored [] h = pad_0
restored (a ∷ []) (h, _) =
    rw (encode_1 a h, from-digit (a / 4) (omega arith), from-digit (a % 4 * 16) (omega arith))
      (pad_2 (base64_char (a / 4)) (base64_char (a % 4 * 16)))
restored (a ∷ b ∷ []) (h, (k, _)) =
    rw
      (
        encode_2 a b h k,
        from-digit (a / 4) (omega arith),
        from-digit (a % 4 * 16 + b / 16) (omega arith),
        from-digit (b % 16 * 4) (omega arith),
      )
      (pad_3 (base64_char (a / 4)) (base64_char (a % 4 * 16 + b / 16)) (base64_char (b % 16 * 4)))
restored (a ∷ b ∷ c ∷ bytes) (h, (k, (l, hs))) = rw (
  encode_3 a b c bytes h k l,
  from-digit (a / 4) (omega arith),
  from-digit (a % 4 * 16 + b / 16) (omega arith),
  from-digit (b % 16 * 4 + c / 64) (omega arith),
  from-digit (c % 64) (omega arith),
  pad_4 (base64_char (a / 4)) (base64_char (a % 4 * 16 + b / 16))
      (base64_char (b % 16 * 4 + c / 64)) (base64_char (c % 64))
      (map from_url (base64url_encode bytes)),
  restored bytes hs,
)

keep-char :
    (n : ℕ) (text : List ℕ)
    → n < 64
    → drop_blanks (base64_char n ∷ text) ≡ base64_char n ∷ drop_blanks text
unfolding base64_char drop_blanks
keep-char n text h = ground arith

no_blanks : (bytes : List ℕ) → All IsByte bytes → drop_blanks (btoa bytes) ≡ btoa bytes
unfolding btoa drop_blanks
no_blanks [] h = refl
no_blanks (a ∷ []) (h, _) = rw (
  keep-char (a / 4) (base64_char (a % 4 * 16) ∷ b'=' ∷ b'=' ∷ []) (omega arith),
  keep-char (a % 4 * 16) (b'=' ∷ b'=' ∷ []) (omega arith),
)
no_blanks (a ∷ b ∷ []) (h, (k, _)) = rw (
  keep-char (a / 4) (base64_char (a % 4 * 16 + b / 16) ∷ base64_char (b % 16 * 4) ∷ b'=' ∷ [])
      (omega arith),
  keep-char (a % 4 * 16 + b / 16) (base64_char (b % 16 * 4) ∷ b'=' ∷ []) (omega arith),
  keep-char (b % 16 * 4) (b'=' ∷ []) (omega arith),
)
no_blanks (a ∷ b ∷ c ∷ bytes) (h, (k, (l, hs))) =
    let y = base64_char (b % 16 * 4 + c / 64) in
    let z = base64_char (c % 64) in
    rw (
      keep-char (a / 4) (base64_char (a % 4 * 16 + b / 16) ∷ y ∷ z ∷ btoa bytes) (omega arith),
      keep-char (a % 4 * 16 + b / 16) (y ∷ z ∷ btoa bytes) (omega arith),
      keep-char (b % 16 * 4 + c / 64) (z ∷ btoa bytes) (omega arith),
      keep-char (c % 64) (btoa bytes) (omega arith),
      no_blanks bytes hs,
    )

length-btoa : (bytes : List ℕ) → length (btoa bytes) % 4 ≡ 0
unfolding btoa
length-btoa [] = refl
length-btoa (a ∷ []) = refl
length-btoa (a ∷ b ∷ []) = refl
length-btoa (a ∷ b ∷ c ∷ bytes) = omega (arith, length-btoa bytes)

char_ne : (n : ℕ) → n < 64 → eqb (base64_char n) b'=' ≡ false
unfolding base64_char
char_ne n h = ground arith

drop_4 :
    (w x y n : ℕ) (bytes : List ℕ)
    → n < 64
    → drop_padding (w ∷ x ∷ y ∷ base64_char n ∷ btoa bytes)
      ≡ w ∷ x ∷ y ∷ base64_char n ∷ drop_padding (btoa bytes)
unfolding drop_padding btoa
drop_4 w x y n [] h = rw (char_ne n h)
drop_4 w x y n (a ∷ []) h = refl
drop_4 w x y n (a ∷ b ∷ []) h = refl
drop_4 w x y n (a ∷ b ∷ c ∷ bytes) h = refl

byte_1 : (a n : ℕ) → a < 256 → n < 16 → a / 4 * 4 + (a % 4 * 16 + n) / 16 ≡ a
byte_1 a n h k = omega arith

byte_2 : (a b n : ℕ) → b < 256 → n < 4 → (a % 4 * 16 + b / 16) % 16 * 16 + (b % 16 * 4 + n) / 4 ≡ b
byte_2 a b n h k = omega arith

byte_3 : (b c : ℕ) → c < 256 → (b % 16 * 4 + c / 64) % 4 * 64 + c % 64 ≡ c
byte_3 b c h = omega arith

decode_step :
    (a b c : ℕ) (bytes : List ℕ)
    → IsByte a
    → IsByte b
    → IsByte c
    → decode_groups (drop_padding (btoa bytes)) ≡ some bytes
    → decode_groups (drop_padding (btoa (a ∷ b ∷ c ∷ bytes))) ≡ some (a ∷ b ∷ c ∷ bytes)
unfolding btoa decode_groups
decode_step a b c bytes h k l ih = rw (
  drop_4 (base64_char (a / 4)) (base64_char (a % 4 * 16 + b / 16))
      (base64_char (b % 16 * 4 + c / 64)) (c % 64) bytes (omega arith),
  value-char (a / 4) (omega arith),
  value-char (a % 4 * 16 + b / 16) (omega arith),
  value-char (b % 16 * 4 + c / 64) (omega arith),
  value-char (c % 64) (omega arith),
  ih,
  byte_1 a (b / 16) h (omega arith),
  byte_2 a b (c / 64) k (omega arith),
  byte_3 b c l,
)

decode_btoa :
    (bytes : List ℕ) → All IsByte bytes → decode_groups (drop_padding (btoa bytes)) ≡ some bytes
unfolding btoa drop_padding decode_groups
decode_btoa [] h = refl
decode_btoa (a ∷ []) (h, _) =
    rw (value-char (a / 4) (omega arith), value-char (a % 4 * 16) (omega arith))
      (ap (λ (n : ℕ). some (n ∷ [])) (omega arith))
decode_btoa (a ∷ b ∷ []) (h, (k, _)) =
    rw
      (
        char_ne (b % 16 * 4) (omega arith),
        value-char (a / 4) (omega arith),
        value-char (a % 4 * 16 + b / 16) (omega arith),
        value-char (b % 16 * 4) (omega arith),
      )
      (rw (byte_1 a (b / 16) h (omega arith)) (ap (λ (n : ℕ). some (a ∷ n ∷ [])) (omega arith)))
decode_btoa (a ∷ b ∷ c ∷ bytes) (h, (k, (l, hs))) =
    decode_step a b c bytes h k l (decode_btoa bytes hs)

-- `base64urlDecode` reads back what `base64urlEncode` writes, for every sequence of bytes; the text
-- has four characters of the URL alphabet to three bytes, and no padding.
pub decode-encode :
    (bytes : List ℕ)
    → All IsByte bytes
    → (base64url_decode (base64url_encode bytes) ≡ some bytes)
      × (all_of is_url_char (base64url_encode bytes) ≡ true)
      × (length (base64url_encode bytes) ≡ (4 * length bytes + 2) / 3)
unfolding base64url_decode atob
decode-encode bytes h = (
  rw (restored bytes h, no_blanks bytes h, length-btoa bytes) (decode_btoa bytes h),
  encode-all_of bytes h,
  length-encode bytes h,
)
