-- ===== src/Pin/Weak.antt =====
-- The classes of PINs that are refused, whatever their digits.
use mathlib.Core.List.{reverse}
use workers_auth.Prelude.{
  ℕ, ◌+◌, ◌%◌, String, ◌≡◌, refl, Bool, true, ◌||◌, List, [], ◌∷◌, arith, take,
}
use workers_auth.Pin.{is_shape, is_weak_pin, is_run, same_list, repeat, digits_of}

-- The shapes that an attacker tries first.
pub data Shape : List ℕ → Type 0 where
  run_up :
      (n : ℕ)
      → Shape (
          n
          ∷ (n + 1) % 10
          ∷ ((n + 1) % 10 + 1) % 10
          ∷ (((n + 1) % 10 + 1) % 10 + 1) % 10
          ∷ ((((n + 1) % 10 + 1) % 10 + 1) % 10 + 1) % 10
          ∷ (((((n + 1) % 10 + 1) % 10 + 1) % 10 + 1) % 10 + 1) % 10
          ∷ [])
  palindrome : (a b c : ℕ) → Shape (a ∷ b ∷ c ∷ c ∷ b ∷ a ∷ [])
  pair_thrice : (a b : ℕ) → Shape (a ∷ b ∷ a ∷ b ∷ a ∷ b ∷ [])
  triple_twice : (a b c : ℕ) → Shape (a ∷ b ∷ c ∷ a ∷ b ∷ c ∷ [])
  doubled : (a b c : ℕ) → Shape (a ∷ a ∷ b ∷ b ∷ c ∷ c ∷ [])
  tripled : (a b : ℕ) → Shape (a ∷ a ∷ a ∷ b ∷ b ∷ b ∷ [])

pub same_list_refl : (ds : List ℕ) → same_list ds ds ≡ true
unfolding same_list
same_list_refl [] = refl
same_list_refl (d ∷ ds) = ground (arith, same_list_refl ds)

-- One rule that holds is enough.
weak_of :
    (d : List ℕ)
    → (is_run 1 d
        || (same_list (reverse d) d
            || (same_list (repeat 3 (take 2 d)) d || same_list (repeat 2 (take 3 d)) d)))
      ≡ true
    → is_shape d ≡ true
unfolding is_shape
weak_of d h = ground arith

doubled-weak : (a b c : ℕ) → is_shape (a ∷ a ∷ b ∷ b ∷ c ∷ c ∷ []) ≡ true
unfolding is_shape
doubled-weak a b c = ground arith

tripled-weak : (a b : ℕ) → is_shape (a ∷ a ∷ a ∷ b ∷ b ∷ b ∷ []) ≡ true
unfolding is_shape
tripled-weak a b = ground arith

Shape-weak : {d : List ℕ} → Shape d → is_shape d ≡ true
unfolding is_run repeat
Shape-weak (run_up n) = weak_of _ (ground arith)
Shape-weak (palindrome a b c) =
    weak_of _ (ground (arith, same_list_refl (a ∷ b ∷ c ∷ c ∷ b ∷ a ∷ [])))
Shape-weak (pair_thrice a b) =
    weak_of _ (ground (arith, same_list_refl (a ∷ b ∷ a ∷ b ∷ a ∷ b ∷ [])))
Shape-weak (triple_twice a b c) =
    weak_of _ (ground (arith, same_list_refl (a ∷ b ∷ c ∷ a ∷ b ∷ c ∷ [])))
Shape-weak (doubled a b c) = doubled-weak a b c
Shape-weak (tripled a b) = tripled-weak a b

-- A PIN of one of these shapes is refused whatever its digits are and whatever the options say:
-- a run upwards that wraps from 9 to 0, a palindrome, a repeated block of two or three digits,
-- three doubled digits or two tripled ones.
pub is_weak_pin-Shape :
    (reject_date_like : Bool) (pin : String)
    → Shape (digits_of pin)
    → is_weak_pin reject_date_like pin ≡ true
unfolding is_weak_pin
is_weak_pin-Shape reject_date_like pin s = ground (arith, Shape-weak s)
