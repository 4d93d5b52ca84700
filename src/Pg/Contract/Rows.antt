-- ===== src/Pg/Contract/Rows.antt =====
-- The SQL statements of Postgres as lookups and writes of a table, and as passes over rows.
use workers_auth.Prelude.{
  ℕ, ◌≡◌, refl, ap, String, Bool, true, false, ◌&&◌, not, none, some, List, [], ◌∷◌, arith, inl,
  inr, Bool-cases, if◌then◌else◌, ltb, is_some, Table, find, put, erase, eq_iff, length,
  update_where, select_where, count_where, first_where,
}
use mathlib.Core.Option
use workers_auth.Pg.{update_rows}
use workers_auth.Pg.DeviceAuth.{head}
use workers_auth.Pg.DeviceAuth.Replace.{delete_rows}

-- Writing back what is there changes nothing.
pub put_found : {V : Type 0} (k : String) (v : V) (t : Table V) → find k t ≡ some v → put k v t ≡ t
unfolding find put
put_found k v [] h = ground arith
put_found k v ((j, w) ∷ t) h = ground (arith, eq_iff j k, put_found k v t)

pub erase_absent : {V : Type 0} (k : String) (t : Table V) → find k t ≡ none → erase k t ≡ t
unfolding find erase
erase_absent k [] h = refl
erase_absent k ((j, w) ∷ t) h = ground (arith, erase_absent k t)

module _ {A : Type 0} (p : A → Bool) (f : A → A) where
  -- The rows that an update leaves behind.
  pub update_rows-after : (rs : List A) → (update_rows p f rs).1 ≡ update_where p f rs
  unfolding update_rows
  update_rows-after [] = refl
  update_rows-after (r ∷ rs) = elim (Bool-cases (p r)) [
    | inl e ↦ rw (e, update_rows-after rs)
    | inr e ↦ rw (e, update_rows-after rs)
  ]

  -- It returns as many rows as qualify.
  pub length-update_rows : (rs : List A) → length (update_rows p f rs).0 ≡ count_where p rs
  unfolding update_rows
  length-update_rows [] = refl
  length-update_rows (r ∷ rs) = elim (Bool-cases (p r)) [
    | inl e ↦ rw e (omega (arith, length-update_rows rs))
    | inr e ↦ rw e (omega (arith, length-update_rows rs))
  ]

  -- The first row returned is the first that qualifies, as it was written.
  pub head-update_rows :
      (rs : List A) → head (update_rows p f rs).0 ≡ Option.map f (first_where p rs)
  unfolding update_rows
  head-update_rows [] = refl
  head-update_rows (r ∷ rs) = elim (Bool-cases (p r)) [
    | inl e ↦ rw e refl
    | inr e ↦ rw e (head-update_rows rs)
  ]

-- A condition that does not depend on the row holds for all rows or for none.
pub update_rows-and :
    {A : Type 0} (p : A → Bool) (b : Bool) (f : A → A) (rs : List A)
    → update_rows (λ r. p r && b) f rs ≡ (if b then update_rows p f rs else ([], rs))
unfolding update_rows
update_rows-and p true f [] = refl
update_rows-and p false f [] = refl
update_rows-and p true f (r ∷ rs) = elim (Bool-cases (p r)) [
  | inl e ↦ rw (e, update_rows-and p true f rs)
  | inr e ↦ rw (e, update_rows-and p true f rs)
]
update_rows-and p false f (r ∷ rs) = elim (Bool-cases (p r)) [
  | inl e ↦ rw (e, update_rows-and p false f rs)
  | inr e ↦ rw (e, update_rows-and p false f rs)
]

module _ {A : Type 0} (p : A → Bool) where
  -- A delete is a count and a selection.
  pub delete_rows_lem :
      (rs : List A) → delete_rows p rs ≡ (count_where p rs, select_where (λ r. not (p r)) rs)
  unfolding delete_rows
  delete_rows_lem [] = refl
  delete_rows_lem (r ∷ rs) = elim (Bool-cases (p r)) [
    | inl e ↦
        rw (e, delete_rows_lem rs)
          (ap (λ (n : ℕ). (n, select_where (λ q. not (p q)) rs)) (omega arith))
    | inr e ↦
        rw (e, delete_rows_lem rs)
          (ap (λ (n : ℕ). (n, r ∷ select_where (λ q. not (p q)) rs)) (omega arith))
  ]

-- Some row qualifies exactly where the count is not 0.
pub first-count :
    {A : Type 0} (p : A → Bool) (rs : List A)
    → is_some (first_where p rs) ≡ ltb 0 (count_where p rs)
first-count p [] = refl
first-count p (r ∷ rs) = elim (Bool-cases (p r)) [
  | inl e ↦ rw e (ground arith)
  | inr e ↦ rw e (ground (arith, first-count p rs))
]
