-- ===== src/Prelude/Rows.antt =====
-- SQL statements over a table whose rows are listed: `UPDATE … WHERE`, `DELETE … WHERE`,
-- `SELECT … WHERE`, the number of changed rows, and the first row of a result.
use Prim.Native.Nat.{ℕ, zero, suc, ◌+◌}
use mathlib.Core.Path.{◌≡◌, refl}
use mathlib.Core.Bool.{Bool, true, false, not}
use mathlib.Core.Option.{Option, none, some}
use mathlib.Core.List.{List, [], ◌∷◌, ◌++◌}
use workers_auth.Prelude.Tests.{if◌then◌else◌}

module _ {ℓ} {A : Type ℓ} where
  abbrev pub update_where : (A → Bool) → (A → A) → List A → List A
  update_where p f [] = []
  update_where p f (r ∷ rs) = (if p r then f r else r) ∷ update_where p f rs

  abbrev pub select_where : (A → Bool) → List A → List A
  select_where p [] = []
  select_where p (r ∷ rs) = let rest = select_where p rs in if p r then r ∷ rest else rest

  abbrev pub delete_where : (A → Bool) → List A → List A
  delete_where p rs = select_where (λ r. not (p r)) rs

  abbrev pub count_where : (A → Bool) → List A → ℕ
  count_where p [] = 0
  count_where p (r ∷ rs) = (if p r then 1 else 0) + count_where p rs

  abbrev pub first_where : (A → Bool) → List A → Option A
  first_where p [] = none
  first_where p (r ∷ rs) = let rest = first_where p rs in if p r then some r else rest

  abbrev pub length : List A → ℕ
  length [] = 0
  length (r ∷ rs) = suc (length rs)

  abbrev pub take : ℕ → List A → List A
  take zero rs = []
  take (suc n) [] = []
  take (suc n) (r ∷ rs) = r ∷ take n rs

  abbrev pub drop : ℕ → List A → List A
  drop zero rs = rs
  drop (suc n) [] = []
  drop (suc n) (r ∷ rs) = drop n rs

  abbrev pub All {κ} : (A → Type κ) → List A → Type κ
  All P [] = Unit
  All P (r ∷ rs) = P r × All P rs

  pub All-append {κ} : (P : A → Type κ) (rs ts : List A) → All P rs → All P ts → All P (rs ++ ts)
  All-append P [] ts h k = k
  All-append P (r ∷ rs) ts (h, hs) k = (h, All-append P rs ts hs k)

  pub All-mono {κ} : (P Q : A → Type κ) (rs : List A) → ((r : A) → P r → Q r) → All P rs → All Q rs
  All-mono P Q [] f h = tt
  All-mono P Q (r ∷ rs) f (h, hs) = (f r h, All-mono P Q rs f hs)

  pub All-update_where {κ} :
      (P : A → Type κ) (p : A → Bool) (f : A → A)
      → ((r : A) → P r → p r ≡ true → P (f r))
      → (rs : List A) → All P rs
      → All P (update_where p f rs)
  All-update_where P p f keep [] h = tt
  All-update_where P p f keep (r ∷ rs) (h, hs) =
      (head (p r) refl, All-update_where P p f keep rs hs)
    where
      head : (b : Bool) → p r ≡ b → P (if b then f r else r)
      head true e = keep r h e
      head false e = h

  pub All-select_where {κ} :
      (P : A → Type κ) (p : A → Bool) (rs : List A) → All P rs → All P (select_where p rs)
  All-select_where P p [] h = tt
  All-select_where P p (r ∷ rs) (h, hs) = pick (p r) (All-select_where P p rs hs)
    where
      pick :
          (b : Bool)
          → All P (select_where p rs)
          → All P (if b then r ∷ select_where p rs else select_where p rs)
      pick true ih = (h, ih)
      pick false ih = ih
