-- ===== src/Crypto.antt =====
-- crypto.ts and keys.ts: what is built on WebCrypto, whose digests and key derivations are
-- parameters. Bytes are numbers below 256.
pub mod Compare
use Prim.Native.String
use Prim.Native.Nat.{bit_or, bit_xor}
use workers_auth.Prelude.{
  ℕ, zero, suc, ◌+◌, ◌*◌, ◌/◌, ◌%◌, String, Bool, true, false, Option, none, some, List, [], ◌∷◌,
  ◌++◌, eqb, ltb, if◌then◌else◌, length, Table, find, put, is_some, ◌==◌, take, get_or,
}

-- The platform: `TextEncoder.encode` and `crypto.subtle`. An HMAC key is its raw bytes.
pub record WebCrypto : Type 0 where
  pub encode : String → List ℕ
  pub sha256 : List ℕ → List ℕ
  pub hmac_sha256 : (key message : List ℕ) → List ℕ
  -- HKDF-SHA256 of a secret with a salt, an `info` text and a length in bytes
  pub hkdf : (secret salt info : List ℕ) (bytes : ℕ) → List ℕ
  pub pbkdf2 : (password salt : List ℕ) (iterations : ℕ) → List ℕ

abbrev pub hex_digits : List String
hex_digits =
    "0" ∷ "1" ∷ "2" ∷ "3" ∷ "4" ∷ "5" ∷ "6" ∷ "7" ∷ "8" ∷ "9" ∷ "a" ∷ "b" ∷ "c" ∷ "d" ∷ "e" ∷ "f"
    ∷ []

-- Two digits to a byte, lower case.
unfoldable pub to_hex : List ℕ → String
to_hex [] = ""
to_hex (b ∷ bytes) =
    String.◌++◌ (get_or hex_digits (b / 16) "")
      (String.◌++◌ (get_or hex_digits (b % 16) "") (to_hex bytes))

-- The loop `diff |= a[i] ^ b[i]`, over arrays of one length.
unfoldable pub diff_bytes : ℕ → List ℕ → List ℕ → ℕ
diff_bytes diff (a ∷ as_) (b ∷ bs) = diff_bytes (bit_or diff (bit_xor a b)) as_ bs
diff_bytes diff _ _ = diff

unfoldable pub timing_safe_equal_bytes : List ℕ → List ℕ → Bool
unfolding diff_bytes
timing_safe_equal_bytes a b = if eqb (length a) (length b) then eqb (diff_bytes 0 a b) 0 else false

module _ (w : WebCrypto) where
  unfoldable pub sha256_hex : String → String
  unfolding to_hex
  sha256_hex input = to_hex (w.sha256 (w.encode input))

  unfoldable pub timing_safe_equal : String → String → Bool
  timing_safe_equal a b = timing_safe_equal_bytes (w.encode a) (w.encode b)

  unfoldable pub secret_equals : String → String → Bool
  secret_equals a b = timing_safe_equal_bytes (w.sha256 (w.encode a)) (w.sha256 (w.encode b))

  unfoldable pub verify_secret_hash : String → String → Bool
  unfolding timing_safe_equal sha256_hex
  verify_secret_hash raw stored = timing_safe_equal (sha256_hex raw) stored

  -- `slice(0, 12)` of the digest's digits: those of its first six bytes
  unfoldable pub fingerprint : String → String
  unfolding to_hex
  fingerprint secret = to_hex (take 6 (w.sha256 (w.encode secret)))

  unfoldable pub hmac_hex : List ℕ → String → String
  unfolding to_hex
  hmac_hex key message = to_hex (w.hmac_sha256 key (w.encode message))
