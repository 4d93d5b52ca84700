-- ===== src/EmailCode.antt =====
-- device-auth/index.ts, `generateEmailCode`: the rejection sampling of a code. Texts are lists of code
-- points.
pub mod Returned
pub mod Uniform
use workers_auth.Prelude.{
  ℕ, zero, suc, ◌+◌, ◌-◌, ◌*◌, ◌/◌, ◌%◌, Bool, Option, none, some, List, [], ◌∷◌, ◌++◌, ltb,
  if◌then◌else◌, length, decimal,
}

pub data Digits : Type 0 where
  six eight : Digits

abbrev pub size : Digits → ℕ
size six = 6
size eight = 8

-- `10 ** digits`
abbrev pub space : Digits → ℕ
space six = 1000000
space eight = 100000000

-- The largest multiple of the space that a 32-bit draw can reach.
abbrev pub limit : Digits → ℕ
limit d = 4294967296 / space d * space d

unfoldable pub zeros : ℕ → List ℕ
zeros zero = []
zeros (suc n) = b'0' ∷ zeros n

-- `padStart(n, '0')`
abbrev pub pad_start : ℕ → List ℕ → List ℕ
pad_start n text = zeros (n - length text) ++ text

-- `String(value % space).padStart(digits, '0')`
abbrev pub code_text : Digits → ℕ → List ℕ
code_text d value = pad_start (size d) (decimal (value % space d))

-- The loop, of what the platform draws: none where it would draw once more.
unfoldable pub generate_email_code : Digits → List ℕ → Option (List ℕ)
unfolding zeros decimal
generate_email_code d [] = none
generate_email_code d (value ∷ draws) =
    let later = generate_email_code d draws in
    if ltb value (limit d) then some (code_text d value) else later
