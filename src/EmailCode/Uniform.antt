-- ===== src/EmailCode/Uniform.antt =====
-- No code is more likely than another.
use workers_auth.Prelude.{
  ℕ, zero, suc, ◌+◌, ◌/◌, ◌%◌, ◌<◌, ◌≡◌, ◌∙◌, refl, sym, ap, Bool, true, false, ◌&&◌, Option, none,
  some, List, [], ◌∷◌, arith, decimal, eqb, ltb, leb, if◌then◌else◌, inl, inr, Bool-cases,
}
use workers_auth.Pin.Weak.{same_list_refl}
use workers_auth.Pin.{same_list}
use workers_auth.EmailCode.{
  Digits, six, eight, size, space, limit, pad_start, code_text, generate_email_code,
}
use workers_auth.EmailCode.Returned.{read_digits, code_text-IsCode}

abbrev pub is_text : List ℕ → Option (List ℕ) → Bool
is_text text none = false
is_text text (some drawn) = same_list drawn text

-- How many numbers below the bound satisfy the test.
unfoldable pub count_below : (ℕ → Bool) → ℕ → ℕ
count_below holds zero = 0
count_below holds (suc n) = count_below holds n + (if holds n then 1 else 0)

pub same_list_eq : (a b : List ℕ) → same_list a b ≡ true → a ≡ b
unfolding same_list
same_list_eq [] [] h = refl
same_list_eq [] (y ∷ b) h = ground arith
same_list_eq (x ∷ a) [] h = ground arith
same_list_eq (x ∷ a) (y ∷ b) h = ground (arith, same_list_eq a b)

eqb_yes : (a b : ℕ) → eqb a b ≡ true → a ≡ b
eqb_yes a b h = ground arith

abbrev hits : Digits → ℕ → ℕ → Bool
hits d c v = ltb v (limit d) && eqb (v % space d) c

in_space : (d : Digits) (c : ℕ) → c < space d → c % space d ≡ c
in_space six c lt = omega arith
in_space eight c lt = omega arith

same_text_value :
    (d : Digits) (c v : ℕ)
    → c < space d
    → same_list (code_text d v) (code_text d c) ≡ true
    → v % space d ≡ c
same_text_value d c v lt h =
    let same = same_list_eq (code_text d v) (code_text d c) h in
    let e = ap (λ (text : List ℕ). read_digits text 0) same in
    sym (code_text-IsCode d v).value ∙ (e ∙ ((code_text-IsCode d c).value ∙ in_space d c lt))

same_value_text :
    (d : Digits) (c v : ℕ)
    → c < space d
    → v % space d ≡ c
    → same_list (code_text d v) (code_text d c) ≡ true
same_value_text d c v lt e =
    rw (e, in_space d c lt) (same_list_refl (pad_start (size d) (decimal c)))

same_code :
    (d : Digits) (c v : ℕ)
    → c < space d
    → same_list (code_text d v) (code_text d c) ≡ eqb (v % space d) c
same_code d c v lt = elim (Bool-cases (eqb (v % space d) c)) [
  | inl e ↦ same_value_text d c v lt (eqb_yes (v % space d) c e) ∙ sym e
  | inr e ↦ elim (Bool-cases (same_list (code_text d v) (code_text d c))) [
    | inl h ↦ absurd (ground (arith, e, same_text_value d c v lt h))
    | inr h ↦ h ∙ sym e
  ]
]

abbrev pub draws : Digits → ℕ → ℕ → Bool
draws d c v = is_text (code_text d c) (generate_email_code d (v ∷ []))

draws-hits : (d : Digits) (c v : ℕ) → c < space d → draws d c v ≡ hits d c v
unfolding generate_email_code
draws-hits d c v lt = elim (Bool-cases (ltb v (limit d))) [
  | inl e ↦ rw e (same_code d c v lt)
  | inr e ↦ rw e refl
]

count_below_cong :
    (p q : ℕ → Bool) (n : ℕ) → ((v : ℕ) → p v ≡ q v) → count_below p n ≡ count_below q n
unfolding count_below
count_below_cong p q zero h = refl
count_below_cong p q (suc n) h = rw (count_below_cong p q n h, h n)

count_six :
    (c n : ℕ)
    → c < 1000000
    → count_below (hits six c) n
      ≡ (if leb n 4294000000 then n / 1000000 + (if ltb c (n % 1000000) then 1 else 0) else 4294)
unfolding count_below
count_six c zero lt = ground arith
count_six c (suc n) lt = ground (arith, count_six c n lt)

count_eight :
    (c n : ℕ)
    → c < 100000000
    → count_below (hits eight c) n
      ≡ (if leb n 4200000000 then n / 100000000 + (if ltb c (n % 100000000) then 1 else 0) else 42)
unfolding count_below
count_eight c zero lt = ground arith
count_eight c (suc n) lt = ground (arith, count_eight c n lt)

count_all :
    (d : Digits) (c : ℕ) → c < space d → count_below (hits d c) 4294967296 ≡ 4294967296 / space d
count_all six c lt = count_six c 4294967296 lt
count_all eight c lt = count_eight c 4294967296 lt

-- Of the 32-bit values that one draw may have, each code of six or eight digits comes from equally
-- many: the whole part of 2 ^ 32 divided by the number of codes.
pub count_below-generate :
    (d : Digits) (c : ℕ)
    → c < space d
    → count_below (λ v. is_text (code_text d c) (generate_email_code d (v ∷ []))) 4294967296
      ≡ 4294967296 / space d
count_below-generate d c lt =
    count_below_cong (draws d c) (hits d c) 4294967296 (λ v. draws-hits d c v lt) ∙ count_all d c lt
