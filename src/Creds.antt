-- ===== src/Creds.antt =====
-- The credentials of src/device-auth/store.ts (`auth_credentials`) as a list of rows.
pub mod OnePin
use workers_auth.Prelude.{
  ℕ, ◌+◌, String, Bool, true, false, ◌&&◌, Option, none, some, List, [], ◌∷◌, leb, ltb, is_none,
  is_some, if◌then◌else◌, ◌==◌, update_where, select_where, count_where, first_where, delete_where,
}

pub data CredentialType : Type 0 where
  pin passkey : CredentialType

abbrev pub same_type : CredentialType → CredentialType → Bool
same_type pin pin = true
same_type passkey passkey = true
same_type _ _ = false

-- `PinMaterial`; its `alg` is fixed, and its texts in base64url are lists of codes.
pub record PinMaterial : Type 0 where
  pub iterations : ℕ
  pub salt : List ℕ
  pub hash : List ℕ
  pub pepper_ver : String

-- A JSON value read from `material`, by whether it is of the shape that `isPinMaterial` accepts.
pub data CredentialMaterial : Type 0 where
  pin_material : PinMaterial → CredentialMaterial
  other_material : CredentialMaterial

-- A row of the table; a `CredentialRecord` is a row that is not revoked.
pub record CredentialRow : Type 0 where
  pub credential_id : String
  pub account_id : String
  pub kind : CredentialType
  pub device_id : Option String
  pub material : CredentialMaterial
  pub created_at : ℕ
  pub updated_at : ℕ
  pub last_used_at : Option ℕ
  pub revoked_at : Option ℕ

-- `account_id = ?1 AND type = ?2 AND revoked_at IS NULL`
abbrev pub is_active : String → CredentialType → CredentialRow → Bool
is_active account kind c =
    c.account_id == account && (same_type c.kind kind && is_none c.revoked_at)

-- `ORDER BY created_at DESC LIMIT 1`; SQL leaves open which of two rows of one time comes first.
abbrev newer : CredentialRow → Option CredentialRow → CredentialRow
newer c none = c
newer c (some d) = if ltb c.created_at d.created_at then d else c

unfoldable pub newest : List CredentialRow → Option CredentialRow
newest [] = none
newest (c ∷ creds) = some (newer c (newest creds))

unfoldable pub get_active_credential :
    String → CredentialType → List CredentialRow → Option CredentialRow
unfolding newest
get_active_credential account kind creds = newest (select_where (is_active account kind) creds)

abbrev retired : ℕ → CredentialRow → CredentialRow
retired now c = record c { revoked_at = some now; updated_at = now }

-- The `UPDATE … SET revoked_at` of `replaceCredential`, with the number of changed rows.
unfoldable pub revoke_active :
    String → CredentialType → ℕ → List CredentialRow → ℕ × List CredentialRow
revoke_active account kind now creds = (
  count_where (is_active account kind) creds,
  update_where (is_active account kind) (retired now) creds,
)

-- The primary key, and the partial unique index: one live PIN to an account.
abbrev pub clashes : CredentialRow → CredentialRow → Bool
clashes r c =
    if c.credential_id == r.credential_id
    then true
    else same_type r.kind pin && is_active r.account_id pin c

-- The `INSERT` of `replaceCredential`; one that breaks a constraint throws.
unfoldable pub insert_credential : CredentialRow → List CredentialRow → Option (List CredentialRow)
insert_credential r creds =
    if is_some (first_where (clashes r) creds)
    then none
    else some (record r { last_used_at = none; revoked_at = none } ∷ creds)

abbrev may_mark : String → CredentialRow → Bool
may_mark id c = c.credential_id == id && is_none c.revoked_at

abbrev marked : ℕ → Option CredentialMaterial → CredentialRow → CredentialRow
marked now none c = record c { last_used_at = some now }
marked now (some m) c = record c { last_used_at = some now; updated_at = now; material = m }

unfoldable pub mark_credential_used :
    String → ℕ → Option CredentialMaterial → List CredentialRow → List CredentialRow
mark_credential_used id now material creds = update_where (may_mark id) (marked now material) creds

-- the cleanup's `DELETE … WHERE revoked_at IS NOT NULL`
unfoldable pub cleanup_creds : List CredentialRow → ℕ × List CredentialRow
cleanup_creds creds =
    let is_revoked = λ (c : CredentialRow). is_some c.revoked_at in
    (count_where is_revoked creds, delete_where is_revoked creds)
