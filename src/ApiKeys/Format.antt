-- ===== src/ApiKeys/Format.antt =====
-- What a printed key parses to.
use Prim.Native.String
use Prim.Native.Char.{Char, code}
use text.Mathlib.TextLemmas.{nil-append, cons-append}
use workers_auth.Prelude.{
  ℕ, ◌≡◌, refl, String, Bool, true, false, some, arith, codes, eq_iff, Bool-cases, inl, inr,
}
use workers_auth.Request.{all_of, is_hex, is_url_char}
use workers_auth.ApiKeys.{all_chars, print_api_key}
use workers_auth.ApiKeys.Text.{ParsedApiKey, span, after, is_env_char, between, parse_api_key}

-- The text goes on with a character outside the class, or ends.
abbrev pub Stops : (ℕ → Bool) → String → Type 0
Stops p String.[] = Unit
Stops p (String.◌∷◌ c s) = p (code c) ≡ false

pub span-append :
    (p : ℕ → Bool) (s rest : String)
    → all_of p (codes s) ≡ true
    → Stops p rest
    → span p (String.◌++◌ s rest) ≡ (s, rest)
unfolding span all_of
span-append p String.[] String.[] h stop = rw (nil-append "") refl
span-append p String.[] (String.◌∷◌ c rest) h stop =
    rw (nil-append (String.◌∷◌ c rest)) (rw stop refl)
span-append p (String.◌∷◌ c s) rest h stop =
    rw (cons-append c s rest) (ground (arith, span-append p s rest))

-- A whole text of the class.
pub span_all : (p : ℕ → Bool) (s : String) → all_of p (codes s) ≡ true → span p s ≡ (s, "")
unfolding span all_of
span_all p String.[] h = refl
span_all p (String.◌∷◌ c s) h = ground (arith, span_all p s)

-- Where nothing is left, the whole text is of the class.
pub all_chars-all_of :
    (p : ℕ → Bool) (s : String) → all_chars p s ≡ true → all_of p (codes s) ≡ true
unfolding span all_of
all_chars-all_of p String.[] h = refl
all_chars-all_of p (String.◌∷◌ c s) h = elim (Bool-cases (p (code c))) [
  | inl e ↦ ground (arith, all_chars-all_of p s)
  | inr e ↦
      let clash : String.◌∷◌ c s ≡ "" = (eq_iff (String.◌∷◌ c s) "").0 (rw e at h) in absurd (cc)
]

pub after-cons :
    (c : Char) (s rest : String)
    → after (code c) (String.◌++◌ (String.◌∷◌ c s) rest) ≡ some (String.◌++◌ s rest)
unfolding after
after-cons c s rest = rw (cons-append c s rest) (ground arith)

-- The fields of a key of the format.
pub record IsWellFormed (k : ParsedApiKey) : Type 0 where
  pub env_chars : all_of is_env_char (codes k.env) ≡ true
  pub env_length : between 1 16 k.env ≡ true
  pub key_id_chars : all_of is_hex (codes k.key_id) ≡ true
  pub key_id_length : between 16 64 k.key_id ≡ true
  pub secret_chars : all_of is_url_char (codes k.secret) ≡ true
  pub secret_length : between 20 256 k.secret ≡ true

Stops-cons :
    (p : ℕ → Bool) (c : Char) (s rest : String)
    → p (code c) ≡ false
    → Stops p (String.◌++◌ (String.◌∷◌ c s) rest)
Stops-cons p c s rest h = rw (cons-append c s rest) h

-- `parseApiKey` reads back what `issueApiKey` prints.
pub parse-print : (k : ParsedApiKey) → IsWellFormed k → parse_api_key (print_api_key k) ≡ some k
unfolding parse_api_key
parse-print k h =
    let r3 = String.◌++◌ k.key_id (String.◌++◌ "." k.secret) in
    let r1 = String.◌++◌ k.env (String.◌++◌ "_" r3) in
    rw
      (
        after-cons "t" "k_" r1,
        after-cons "k" "_" r1,
        after-cons "_" "" r1,
        nil-append r1,
        span-append is_env_char k.env (String.◌++◌ "_" r3) h.env_chars
            (Stops-cons is_env_char "_" "" r3 refl),
        after-cons "_" "" r3,
        nil-append r3,
        span-append is_hex k.key_id (String.◌++◌ "." k.secret) h.key_id_chars
            (Stops-cons is_hex "." "" k.secret refl),
        after-cons "." "" k.secret,
        nil-append k.secret,
        span_all is_url_char k.secret h.secret_chars,
      )
      (ground (arith, h.env_length, h.key_id_length, h.secret_length))
