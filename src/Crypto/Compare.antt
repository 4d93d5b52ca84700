-- ===== src/Crypto/Compare.antt =====
-- The constant-time comparisons decide equality.
use Prim.Native.Nat.{bit_or, bit_xor, digits, differ, max, bit_or-bitwise, bit_xor-bitwise}
use native.Mathlib.Nat.{le_refl}
use workers_auth.Prelude.{
  ℕ, zero, suc, ◌/◌, ◌%◌, ◌≤◌, ◌≡◌, ◌↔◌, refl, true, false, List, [], ◌∷◌, arith, eqb,
  if◌then◌else◌, length, ap, ap₂,
}
use workers_auth.Crypto.{diff_bytes, timing_safe_equal_bytes}

differ-zero : (x y : ℕ) → differ x y ≡ 0 → x ≡ y
differ-zero zero y h = omega arith
differ-zero (suc x) zero h = omega arith
differ-zero (suc x) (suc y) h = ap suc (differ-zero x y h)

differ_self : (x : ℕ) → differ x x ≡ 0
differ_self zero = refl
differ_self (suc x) = differ_self x

xor_digits-zero : (n a b : ℕ) → a ≤ n → digits (λ y. y) differ n a b ≡ 0 → a ≡ b
xor_digits-zero zero zero b le h = omega arith
xor_digits-zero zero (suc a) b le h = absurd (omega arith)
xor_digits-zero (suc n) zero b le h = omega arith
xor_digits-zero (suc n) (suc a) b le h =
    let halves : suc a / 2 ≡ b / 2 =
      xor_digits-zero n (suc a / 2) (b / 2) (omega arith) (omega arith) in
    omega (arith, differ-zero (suc a % 2) (b % 2) (omega arith))

xor_digits_self : (n a : ℕ) → a ≤ n → digits (λ y. y) differ n a a ≡ 0
xor_digits_self zero zero le = refl
xor_digits_self zero (suc a) le = absurd (omega arith)
xor_digits_self (suc n) zero le = refl
xor_digits_self (suc n) (suc a) le =
    omega (arith, xor_digits_self n (suc a / 2) (omega arith), differ_self (suc a % 2))

or_digits-zero : (n a b : ℕ) → a ≤ n → digits (λ y. y) max n a b ≡ 0 → (a ≡ 0) × (b ≡ 0)
or_digits-zero zero zero b le h = omega arith
or_digits-zero zero (suc a) b le h = absurd (omega arith)
or_digits-zero (suc n) zero b le h = omega arith
or_digits-zero (suc n) (suc a) b le h =
    let (low, high) = or_digits-zero n (suc a / 2) (b / 2) (omega arith) (omega arith) in
    omega arith

bit_xor-zero : (a b : ℕ) → bit_xor a b ≡ 0 → a ≡ b
bit_xor-zero a b h = xor_digits-zero a a b (le_refl a) (rw bit_xor-bitwise at h)

bit_xor_self : (a : ℕ) → bit_xor a a ≡ 0
bit_xor_self a = rw bit_xor-bitwise (xor_digits_self a a (le_refl a))

bit_or-zero : (a b : ℕ) → bit_or a b ≡ 0 → (a ≡ 0) × (b ≡ 0)
bit_or-zero a b h = or_digits-zero a a b (le_refl a) (rw bit_or-bitwise at h)

diff_bytes-zero :
    (diff : ℕ) (a b : List ℕ) → length a ≡ length b → diff_bytes diff a b ≡ 0 → (diff ≡ 0) × (a ≡ b)
unfolding diff_bytes
diff_bytes-zero diff [] [] l h = (h, refl)
diff_bytes-zero diff [] (b ∷ bs) l h = absurd (omega arith)
diff_bytes-zero diff (a ∷ xs) [] l h = absurd (omega arith)
diff_bytes-zero diff (a ∷ xs) (b ∷ bs) l h =
    let (front, rest) = diff_bytes-zero (bit_or diff (bit_xor a b)) xs bs (omega arith) h in
    let (before, here) = bit_or-zero diff (bit_xor a b) front in
    (before, ap₂ ◌∷◌ (bit_xor-zero a b here) rest)

diff_bytes_self : (a : List ℕ) → diff_bytes 0 a a ≡ 0
unfolding diff_bytes
diff_bytes_self [] = refl
diff_bytes_self (x ∷ xs) = rw (bit_xor_self x) (diff_bytes_self xs)

-- The loop that folds the differences of all bytes accepts exactly equal arrays.
pub timing_safe_equal_bytes_iff : (a b : List ℕ) → (timing_safe_equal_bytes a b ≡ true) ↔ (a ≡ b)
unfolding timing_safe_equal_bytes
timing_safe_equal_bytes_iff a b = (to, from)
  where
    to : (if eqb (length a) (length b) then eqb (diff_bytes 0 a b) 0 else false) ≡ true → a ≡ b
    to h = (diff_bytes-zero 0 a b (ground arith) (ground arith)).1

    from : a ≡ b → (if eqb (length a) (length b) then eqb (diff_bytes 0 a b) 0 else false) ≡ true
    from e = rw (← e) (ground (arith, diff_bytes_self a))
