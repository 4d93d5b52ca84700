-- ===== src/Cookies/Uri/RoundTrip.antt =====
-- Decoding reads back what encoding writes.
use workers_auth.Prelude.{
  ℕ, ◌+◌, ◌-◌, ◌*◌, ◌/◌, ◌%◌, ◌≤◌, ◌<◌, ◌≡◌, ◌∙◌, ◌⊎◌, refl, ap, Bool, true, false, ◌||◌, some,
  List, [], ◌∷◌, arith, eqb, ltb, All, inl, inr, Bool-cases,
}
use workers_auth.Request.{all_of}
use workers_auth.Cookies.Uri.{
  is_unreserved, hex_digit, percent, encode_char, encode_uri, hex_value, Pending, idle, decode_byte,
  decode_from, decode_uri, cons_char, after_byte, more, char,
}

-- A Unicode scalar value: in range, and no surrogate.
abbrev pub IsScalar : ℕ → Type 0
IsScalar c = (c < 1114112) × ((c < 55296) ⊎ (57343 < c))

hex-value_digit : (n : ℕ) → n < 16 → hex_value (hex_digit n) ≡ some n
hex-value_digit n h = ground arith

-- A percent-encoded byte is one step of the decoder.
decode-percent :
    (p : Pending) (b : ℕ) (rest : List ℕ)
    → b < 256
    → decode_from p (percent b rest) ≡ after_byte (λ q. decode_from q rest) (some (decode_byte p b))
unfolding decode_from
decode-percent p b rest h =
    let whole : b / 16 * 16 + b % 16 ≡ b = omega arith in
    rw (hex-value_digit (b / 16) (omega arith), hex-value_digit (b % 16) (omega arith), whole)

decode-plain :
    (c : ℕ) (rest : List ℕ)
    → eqb c b'%' ≡ false
    → decode_from idle (c ∷ rest) ≡ cons_char c (decode_from idle rest)
unfolding decode_from
decode-plain c [] h = rw h
decode-plain c (d ∷ []) h = rw h
decode-plain c (d ∷ e ∷ rest) h = rw h

-- What the bytes of one character do to the decoder.
lead-2 :
    (n : ℕ)
    → n < 32
    → decode_byte idle (n + 192) ≡ more (record { need = 1; bits = n; least = 128 })
unfolding decode_byte
lead-2 n h = ground arith

lead-3 :
    (n : ℕ)
    → n < 16
    → decode_byte idle (n + 224) ≡ more (record { need = 2; bits = n; least = 2048 })
unfolding decode_byte
lead-3 n h = ground arith

lead-4 :
    (n : ℕ)
    → n < 8
    → decode_byte idle (n + 240) ≡ more (record { need = 3; bits = n; least = 65536 })
unfolding decode_byte
lead-4 n h = ground arith

follow-more :
    (need bits least n : ℕ)
    → n < 64
    → 1 < need
    → decode_byte (record { need = need; bits = bits; least = least }) (n + 128)
      ≡ more (record { need = need - 1; bits = bits * 64 + n; least = least })
unfolding decode_byte
follow-more need bits least n h k = ground arith

follow-end :
    (bits least n c : ℕ)
    → n < 64
    → bits * 64 + n ≡ c
    → least ≤ c
    → IsScalar c
    → decode_byte (record { need = 1; bits = bits; least = least }) (n + 128) ≡ char c
unfolding decode_byte
follow-end bits least n c h e le s = ground arith

decode-1 :
    (c : ℕ) (rest : List ℕ)
    → c < 128
    → decode_from idle (percent c rest) ≡ cons_char c (decode_from idle rest)
unfolding decode_byte
decode-1 c rest h = decode-percent idle c rest (omega arith) ∙ ground arith

decode-2 :
    (c : ℕ) (rest : List ℕ)
    → IsScalar c
    → 128 ≤ c
    → c < 2048
    → decode_from idle (percent (c / 64 + 192) (percent (c % 64 + 128) rest))
      ≡ cons_char c (decode_from idle rest)
decode-2 c rest s h k =
    let next = percent (c % 64 + 128) rest in
    rw (
      decode-percent idle (c / 64 + 192) next (omega arith),
      lead-2 (c / 64) (omega arith),
      decode-percent (record { need = 1; bits = c / 64; least = 128 }) (c % 64 + 128) rest
          (omega arith),
      follow-end (c / 64) 128 (c % 64) c (omega arith) (omega arith) h s,
    )

decode-3 :
    (c : ℕ) (rest : List ℕ)
    → IsScalar c
    → 2048 ≤ c
    → c < 65536
    → decode_from idle
        (percent (c / 4096 + 224) (percent (c / 64 % 64 + 128) (percent (c % 64 + 128) rest)))
      ≡ cons_char c (decode_from idle rest)
decode-3 c rest s h k =
    let last = percent (c % 64 + 128) rest in
    let next = percent (c / 64 % 64 + 128) last in
    rw (
      decode-percent idle (c / 4096 + 224) next (omega arith),
      lead-3 (c / 4096) (omega arith),
      decode-percent (record { need = 2; bits = c / 4096; least = 2048 }) (c / 64 % 64 + 128) last
          (omega arith),
      follow-more 2 (c / 4096) 2048 (c / 64 % 64) (omega arith) (omega arith),
      decode-percent (record { need = 1; bits = c / 4096 * 64 + c / 64 % 64; least = 2048 })
          (c % 64 + 128) rest (omega arith),
      follow-end (c / 4096 * 64 + c / 64 % 64) 2048 (c % 64) c (omega arith) (omega arith) h s,
    )

decode-4 :
    (c : ℕ) (rest : List ℕ)
    → IsScalar c
    → 65536 ≤ c
    → decode_from idle (
        percent (c / 262144 + 240) (
          percent
            (c / 4096 % 64 + 128)
            (percent (c / 64 % 64 + 128) (percent (c % 64 + 128) rest))))
      ≡ cons_char c (decode_from idle rest)
decode-4 c rest s h =
    let last = percent (c % 64 + 128) rest in
    let third = percent (c / 64 % 64 + 128) last in
    let second = percent (c / 4096 % 64 + 128) third in
    let bits = c / 262144 * 64 + c / 4096 % 64 in
    rw (
      decode-percent idle (c / 262144 + 240) second (omega arith),
      lead-4 (c / 262144) (omega arith),
      decode-percent (record { need = 3; bits = c / 262144; least = 65536 }) (c / 4096 % 64 + 128)
          third (omega arith),
      follow-more 3 (c / 262144) 65536 (c / 4096 % 64) (omega arith) (omega arith),
      decode-percent (record { need = 2; bits = bits; least = 65536 }) (c / 64 % 64 + 128) last
          (omega arith),
      follow-more 2 bits 65536 (c / 64 % 64) (omega arith) (omega arith),
      decode-percent (record { need = 1; bits = bits * 64 + c / 64 % 64; least = 65536 })
          (c % 64 + 128) rest (omega arith),
      follow-end (bits * 64 + c / 64 % 64) 65536 (c % 64) c (omega arith) (omega arith) h s,
    )

decode-char :
    (c : ℕ) (rest : List ℕ)
    → IsScalar c
    → decode_from idle (encode_char c rest) ≡ cons_char c (decode_from idle rest)
unfolding encode_char
decode-char c rest s = elim (Bool-cases (is_unreserved c)) [
  | inl e ↦ rw e (decode-plain c rest (ground arith))
  | inr e ↦ elim (Bool-cases (ltb c 128)) [
    | inl f ↦ rw (e, f) (decode-1 c rest (ground arith))
    | inr f ↦ elim (Bool-cases (ltb c 2048)) [
      | inl g ↦ rw (e, f, g) (decode-2 c rest s (ground arith) (ground arith))
      | inr g ↦ elim (Bool-cases (ltb c 65536)) [
        | inl h ↦ rw (e, f, g, h) (decode-3 c rest s (ground arith) (ground arith))
        | inr h ↦ rw (e, f, g, h) (decode-4 c rest s (ground arith))
      ]
    ]
  ]
]

-- `decodeURIComponent` reads back what `encodeURIComponent` writes, for every text.
pub decode-encode_uri :
    (text : List ℕ) → All IsScalar text → decode_uri (encode_uri text) ≡ some text
unfolding decode_uri encode_uri decode_from
decode-encode_uri [] h = refl
decode-encode_uri (c ∷ text) (s, h) =
    decode-char c (encode_uri text) s ∙ ap (cons_char c) (decode-encode_uri text h)

-- The characters of an encoded text.
abbrev pub is_encoded : ℕ → Bool
is_encoded c = is_unreserved c || eqb c b'%'

percent-encoded :
    (b : ℕ) (rest : List ℕ)
    → b < 256
    → all_of is_encoded rest ≡ true
    → all_of is_encoded (percent b rest) ≡ true
unfolding all_of
percent-encoded b rest h hs = ground arith

unreserved-encoded :
    (c : ℕ) (rest : List ℕ)
    → is_unreserved c ≡ true
    → all_of is_encoded rest ≡ true
    → all_of is_encoded (c ∷ rest) ≡ true
unfolding all_of
unreserved-encoded c rest h hs = ground arith

char-encoded :
    (c : ℕ) (rest : List ℕ)
    → c < 1114112
    → all_of is_encoded rest ≡ true
    → all_of is_encoded (encode_char c rest) ≡ true
unfolding encode_char
char-encoded c rest h hs =
    let last = percent-encoded (c % 64 + 128) rest (omega arith) hs in
    elim (Bool-cases (is_unreserved c)) [
      | inl e ↦ rw e (unreserved-encoded c rest e hs)
      | inr e ↦ elim (Bool-cases (ltb c 128)) [
        | inl f ↦ rw (e, f) (percent-encoded c rest (ground arith) hs)
        | inr f ↦ elim (Bool-cases (ltb c 2048)) [
          | inl g ↦ rw (e, f, g) (percent-encoded (c / 64 + 192) _ (ground arith) last)
          | inr g ↦
              let third = percent-encoded (c / 64 % 64 + 128) _ (omega arith) last in
              elim (Bool-cases (ltb c 65536)) [
                | inl k ↦ rw (e, f, g, k) (percent-encoded (c / 4096 + 224) _ (ground arith) third)
                | inr k ↦
                    rw (e, f, g, k)
                      (percent-encoded (c / 262144 + 240) _ (omega arith)
                        (percent-encoded (c / 4096 % 64 + 128) _ (omega arith) third))
              ]
        ]
      ]
    ]

pub encode_uri-encoded :
    (text : List ℕ) → All IsScalar text → all_of is_encoded (encode_uri text) ≡ true
unfolding encode_uri all_of
encode_uri-encoded [] h = refl
encode_uri-encoded (c ∷ text) ((s, _), h) =
    char-encoded c (encode_uri text) s (encode_uri-encoded text h)
