-- ===== src/Cookies/Uri.antt =====
-- `encodeURIComponent` and `decodeURIComponent`, which cookie.ts applies to values: the bytes of
-- UTF-8, percent-encoded. A text is a list of Unicode scalar values.
pub mod RoundTrip
use workers_auth.Prelude.{
  ℕ, zero, suc, ◌+◌, ◌-◌, ◌*◌, ◌/◌, ◌%◌, Bool, true, false, ◌&&◌, ◌||◌, Option, none, some, List,
  [], ◌∷◌, ◌++◌, eqb, leb, ltb, if◌then◌else◌,
}
use workers_auth.Pin.{is_digit}

-- Letters, digits and `- _ . ! ~ * ' ( )`.
abbrev pub is_unreserved : ℕ → Bool
is_unreserved c =
    is_digit c
    || ((leb b'A' c && leb c b'Z')
        || ((leb b'a' c && leb c b'z')
            || (eqb c 45
                || (eqb c 95
                    || (eqb c 46 || (eqb c 33 || (eqb c 126 || (leb 39 c && leb c 42))))))))

abbrev hex_digit : ℕ → ℕ
hex_digit n = if ltb n 10 then n + 48 else n + 55

abbrev percent : ℕ → List ℕ → List ℕ
percent b rest = b'%' ∷ hex_digit (b / 16) ∷ hex_digit (b % 16) ∷ rest

-- One character: itself, or its bytes.
unfoldable pub encode_char : ℕ → List ℕ → List ℕ
encode_char c rest =
    if is_unreserved c
    then c ∷ rest
    else if ltb c 128
    then percent c rest
    else if ltb c 2048
    then percent (c / 64 + 192) (percent (c % 64 + 128) rest)
    else if ltb c 65536
    then percent (c / 4096 + 224) (percent (c / 64 % 64 + 128) (percent (c % 64 + 128) rest))
    else percent (c / 262144 + 240)
        (percent (c / 4096 % 64 + 128) (percent (c / 64 % 64 + 128) (percent (c % 64 + 128) rest)))

unfoldable pub encode_uri : List ℕ → List ℕ
unfolding encode_char
encode_uri [] = []
encode_uri (c ∷ text) = encode_char c (encode_uri text)

abbrev hex_value : ℕ → Option ℕ
hex_value c =
    if is_digit c
    then some (c - 48)
    else if leb b'A' c && leb c b'F'
    then some (c - 55)
    else if leb b'a' c && leb c b'f'
    then some (c - 87)
    else none

abbrev byte_of : Option ℕ → Option ℕ → Option ℕ
byte_of (some hi) (some lo) = some (hi * 16 + lo)
byte_of _ _ = none

-- A sequence under way: the bytes still to come, the bits so far, and the least value that may be
-- encoded at this length.
pub record Pending : Type 0 where
  pub need : ℕ
  pub bits : ℕ
  pub least : ℕ

abbrev pub idle : Pending
idle = record { need = 0; bits = 0; least = 0 }

-- What a byte does: it fails, it goes on, or it ends a character.
pub data Decoded : Type 0 where
  bad : Decoded
  more : Pending → Decoded
  char : ℕ → Decoded

-- `c` is no surrogate, in range, and not encoded longer than it must be.
abbrev finish : ℕ → ℕ → Decoded
finish least c =
    if ltb c least || (ltb 1114111 c || (leb 55296 c && leb c 57343)) then bad else char c

abbrev lead : ℕ → Decoded
lead b =
    if ltb b 128
    then char b
    else if leb 192 b && ltb b 224
    then more (record { need = 1; bits = b - 192; least = 128 })
    else if leb 224 b && ltb b 240
    then more (record { need = 2; bits = b - 224; least = 2048 })
    else if leb 240 b && ltb b 248
    then more (record { need = 3; bits = b - 240; least = 65536 })
    else bad

abbrev follow : Pending → ℕ → Decoded
follow p b =
    if leb 128 b && ltb b 192
    then (if eqb p.need 1
        then finish p.least (p.bits * 64 + (b - 128))
        else more (record p { need = p.need - 1; bits = p.bits * 64 + (b - 128) }))
    else bad

unfoldable pub decode_byte : Pending → ℕ → Decoded
decode_byte p b = if eqb p.need 0 then lead b else follow p b

abbrev cons_char : ℕ → Option (List ℕ) → Option (List ℕ)
cons_char c none = none
cons_char c (some text) = some (c ∷ text)

abbrev after_byte : (Pending → Option (List ℕ)) → Option Decoded → Option (List ℕ)
after_byte rest none = none
after_byte rest (some bad) = none
after_byte rest (some (more p)) = rest p
after_byte rest (some (char c)) = cons_char c (rest idle)

abbrev with_byte : Pending → Option ℕ → Option Decoded
with_byte p none = none
with_byte p (some b) = some (decode_byte p b)

-- None is a throw. What is not percent-encoded stands for itself, between characters.
unfoldable pub decode_from : Pending → List ℕ → Option (List ℕ)
unfolding decode_byte
decode_from p [] = if eqb p.need 0 then some [] else none
decode_from p (c ∷ []) = if eqb c b'%' then none else if eqb p.need 0 then some (c ∷ []) else none
decode_from p (c ∷ d ∷ []) =
    let rest = decode_from idle (d ∷ []) in
    if eqb c b'%' then none else if eqb p.need 0 then cons_char c rest else none
decode_from p (c ∷ d ∷ e ∷ text) =
    let one = decode_from idle (d ∷ e ∷ text) in
    if eqb c b'%'
    then after_byte (λ q. decode_from q text) (with_byte p (byte_of (hex_value d) (hex_value e)))
    else if eqb p.need 0
    then cons_char c one
    else none

unfoldable pub decode_uri : List ℕ → Option (List ℕ)
unfolding decode_from
decode_uri text = decode_from idle text
