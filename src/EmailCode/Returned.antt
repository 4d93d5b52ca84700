-- ===== src/EmailCode/Returned.antt =====
-- The loop ends at the first draw below the limit, and what it returns is a code.
use workers_auth.Prelude.{
  ℕ, zero, suc, ◌+◌, ◌-◌, ◌*◌, ◌/◌, ◌%◌, ◌≤◌, ◌<◌, ◌≡◌, ◌∙◌, refl, true, false, some, List, [], ◌∷◌,
  ◌++◌, arith, ltb, All, inl, inr, Bool-cases, length, decimal, decimal_from,
}
use workers_auth.Pin.{is_digit, all_digits}
use workers_auth.EmailCode.{
  Digits, six, eight, size, space, limit, zeros, pad_start, code_text, generate_email_code,
}

-- The number that digits write, after what was read before.
unfoldable pub read_digits : List ℕ → ℕ → ℕ
read_digits [] n = n
read_digits (c ∷ cs) n = read_digits cs (n * 10 + (c - 48))

abbrev power : ℕ → ℕ
power zero = 1
power (suc k) = 10 * power k

read-append :
    (a : List ℕ) (c n : ℕ) → read_digits (a ++ (c ∷ [])) n ≡ read_digits a n * 10 + (c - 48)
unfolding read_digits
read-append [] c n = refl
read-append (x ∷ a) c n = read-append a c (n * 10 + (x - 48))

length-append : (a : List ℕ) (c : ℕ) → length (a ++ (c ∷ [])) ≡ length a + 1
length-append [] c = refl
length-append (x ∷ a) c = omega (arith, length-append a c)

digits-append :
    (a : List ℕ) (c : ℕ)
    → all_digits a ≡ true
    → is_digit c ≡ true
    → all_digits (a ++ (c ∷ [])) ≡ true
unfolding all_digits
digits-append [] c h k = ground arith
digits-append (x ∷ a) c h k = ground (arith, digits-append a c)

ltb_no : (n : ℕ) → ltb n 10 ≡ false → 10 ≤ n
ltb_no n e = ground arith

-- The digits that `String` writes: they read back, and there are no more than the bound has.
decimal_from_lem :
    (fuel n k : ℕ)
    → n < fuel
    → n < power (suc k)
    → (read_digits (decimal_from fuel n) 0 ≡ n)
      × (all_digits (decimal_from fuel n) ≡ true)
      × (length (decimal_from fuel n) ≤ suc k)
unfolding decimal_from read_digits all_digits
decimal_from_lem zero n k lt less = absurd (omega arith)
decimal_from_lem (suc fuel) n zero lt less = ground arith
decimal_from_lem (suc fuel) n (suc k) lt less = elim (Bool-cases (ltb n 10)) [
  | inl e ↦ rw e (ground arith)
  | inr e ↦
      let (value, digits, size) =
        decimal_from_lem fuel (n / 10) k (omega (arith, ltb_no n e)) (omega arith) in
      let a = decimal_from fuel (n / 10) in
      let c = n % 10 + 48 in
      rw e (
        read-append a c 0 ∙ rw value (omega arith),
        digits-append a c digits (ground arith),
        omega (arith, length-append a c, size),
      )
]

zeros_lem :
    (m : ℕ) (text : List ℕ)
    → all_digits text ≡ true
    → (read_digits (zeros m ++ text) 0 ≡ read_digits text 0)
      × (all_digits (zeros m ++ text) ≡ true)
      × (length (zeros m ++ text) ≡ m + length text)
unfolding zeros read_digits all_digits
zeros_lem zero text h = (refl, h, omega arith)
zeros_lem (suc m) text h = ground (arith, zeros_lem m text h)

-- A text that is a code: so many digits, which write this number.
pub record IsCode (d : Digits) (n : ℕ) (text : List ℕ) : Type 0 where
  pub digits : all_digits text ≡ true
  pub sized : length text ≡ size d
  pub value : read_digits text 0 ≡ n

small_code :
    (k n : ℕ)
    → n < power (suc k)
    → let text = pad_start (suc k) (decimal n) in
      (read_digits text 0 ≡ n) × (all_digits text ≡ true) × (length text ≡ suc k)
unfolding decimal
small_code k n lt =
    let (value, digits, size) = decimal_from_lem (n + 1) n k (omega arith) lt in
    let (value', digits', size') = zeros_lem (suc k - length (decimal n)) (decimal n) digits in
    (value' ∙ value, digits', omega (arith, size', size))

pub code_text-IsCode : (d : Digits) (value : ℕ) → IsCode d (value % space d) (code_text d value)
code_text-IsCode six v =
    let (value, digits, sized) = small_code 5 (v % 1000000) (omega arith) in
    record { digits = digits; sized = sized; value = value }
code_text-IsCode eight v =
    let (value, digits, sized) = small_code 7 (v % 100000000) (omega arith) in
    record { digits = digits; sized = sized; value = value }

-- Whatever the platform draws, once a draw is below the limit the loop returns: a text of six or
-- eight digits, the last ones of the first such draw.
pub generate_email_code-IsCode :
    (d : Digits) (refused : List ℕ) (value : ℕ) (later : List ℕ)
    → All (λ v. limit d ≤ v) refused
    → value < limit d
    → (text : List ℕ) × (generate_email_code d (refused ++ (value ∷ later)) ≡ some text)
      × IsCode d (value % space d) text
unfolding generate_email_code
generate_email_code-IsCode d [] value later h lt =
    (code_text d value, ground arith, code_text-IsCode d value)
generate_email_code-IsCode d (v ∷ refused) value later (h, hs) lt =
    let (text, e, code) = generate_email_code-IsCode d refused value later hs lt in
    (text, ground (arith, e), code)
