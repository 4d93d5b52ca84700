-- ===== src/Creds/OnePin.antt =====
-- An account has at most one live PIN, and replacing it never meets the unique index.
use workers_auth.Prelude.{
  ℕ, ◌+◌, ◌≤◌, String, ◌≡◌, refl, Bool, true, none, some, List, [], ◌∷◌, arith, ltb, is_none,
  is_some, if◌then◌else◌, ◌==◌, ◌&&◌, eq_iff, first_where, select_where, update_where, count_where,
}
use workers_auth.Creds.{
  CredentialType, pin, passkey, CredentialRow, is_active, same_type, get_active_credential,
  revoke_active, retired, insert_credential, clashes,
}

-- No row has the new credential's id.
abbrev pub is_fresh : String → List CredentialRow → Bool
is_fresh id creds = is_none (first_where (λ c. c.credential_id == id) creds)

clashes-retired :
    (r : CredentialRow) (creds : List CredentialRow)
    → is_fresh r.credential_id creds ≡ true
    → first_where
        (clashes r)
        (update_where (is_active r.account_id r.kind) (retired r.updated_at) creds)
      ≡ none
clashes-retired r [] h = refl
clashes-retired r (c ∷ creds) h = ground (arith, clashes-retired r creds)

select-retired :
    (account : String) (kind : CredentialType) (now : ℕ) (creds : List CredentialRow)
    → select_where
        (is_active account kind)
        (update_where (is_active account kind) (retired now) creds)
      ≡ []
select-retired account kind now [] = refl
select-retired account kind now (c ∷ creds) = ground (arith, select-retired account kind now creds)

pub insert-retired :
    (r : CredentialRow) (creds : List CredentialRow)
    → is_fresh r.credential_id creds ≡ true
    → insert_credential r (revoke_active r.account_id r.kind r.updated_at creds).1
      ≡ some (
          record r { last_used_at = none; revoked_at = none }
          ∷ (revoke_active r.account_id r.kind r.updated_at creds).1)
unfolding insert_credential revoke_active
insert-retired r creds h = rw (clashes-retired r creds h)

-- The new row is the only active one, so it is the newest.
pub get_active-insert :
    (r : CredentialRow) (creds : List CredentialRow)
    → get_active_credential r.account_id r.kind (
        record r { last_used_at = none; revoked_at = none }
        ∷ (revoke_active r.account_id r.kind r.updated_at creds).1)
      ≡ some (record r { last_used_at = none; revoked_at = none })
unfolding get_active_credential revoke_active
get_active-insert r creds =
    ground (
      arith,
      eq_iff r.account_id r.account_id,
      select-retired r.account_id r.kind r.updated_at creds,
    )

pub revoke_active-found :
    (account : String) (kind : CredentialType) (now : ℕ) (creds : List CredentialRow)
    → ltb 0 (revoke_active account kind now creds).0
      ≡ is_some (get_active_credential account kind creds)
unfolding get_active_credential revoke_active
revoke_active-found account kind now [] = refl
revoke_active-found account kind now (c ∷ creds) =
    ground (arith, revoke_active-found account kind now creds)

-- The index: no account has two live PINs.
abbrev pub IsOnePin : List CredentialRow → Type 0
IsOnePin creds = (account : String) → count_where (is_active account pin) creds ≤ 1

count-retired :
    (account other : String) (kind : CredentialType) (now : ℕ) (creds : List CredentialRow)
    → count_where (is_active other pin) (update_where (is_active account kind) (retired now) creds)
      ≤ count_where (is_active other pin) creds
count-retired account other kind now [] = omega arith
count-retired account other kind now (c ∷ creds) =
    ground (arith, count-retired account other kind now creds)

count-retired_self :
    (account : String) (now : ℕ) (creds : List CredentialRow)
    → count_where (is_active account pin) (update_where (is_active account pin) (retired now) creds)
      ≡ 0
count-retired_self account now [] = refl
count-retired_self account now (c ∷ creds) = ground (arith, count-retired_self account now creds)

count-insert :
    (owner account : String) (kind : CredentialType) (now : ℕ) (creds : List CredentialRow)
    → count_where (is_active account pin) creds ≤ 1
    → (if owner == account && (same_type kind pin && true) then 1 else 0)
        + count_where
            (is_active account pin)
            (update_where (is_active owner kind) (retired now) creds)
      ≤ 1
count-insert owner account pin now creds h = ground (
  arith,
  eq_iff owner account,
  count-retired owner account pin now creds,
  count-retired_self owner now creds,
)
count-insert owner account passkey now creds h =
    ground (arith, count-retired owner account passkey now creds)

pub insert-IsOnePin :
    (r : CredentialRow) (creds : List CredentialRow)
    → IsOnePin creds
    → IsOnePin (
        record r { last_used_at = none; revoked_at = none }
        ∷ (revoke_active r.account_id r.kind r.updated_at creds).1)
unfolding revoke_active
insert-IsOnePin r creds h account =
    count-insert r.account_id account r.kind r.updated_at creds (h account)
