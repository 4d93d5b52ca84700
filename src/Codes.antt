-- ===== src/Codes.antt =====
-- The email codes of src/device-auth/store.ts (`auth_email_codes`), one row to an address.
pub mod Attempts
use workers_auth.Prelude.{
  ℕ, ◌+◌, String, Bool, true, false, ◌&&◌, not, Option, none, some, leb, ltb, if◌then◌else◌, Table,
  find, put, erase, ◌==◌, select_where, count_where,
}

-- The argument of `putEmailCode`.
pub record EmailCodeRecord : Type 0 where
  pub email : String
  pub code_hash : String
  pub key_id : String
  pub expires_at : ℕ
  pub created_at : ℕ
  pub attempts_reset_at : ℕ

-- A row; the key column `email` is the table's key.
pub record CodeRow : Type 0 where
  pub code_hash : String
  pub key_id : String
  pub attempts : ℕ
  pub attempts_reset_at : ℕ
  pub expires_at : ℕ
  pub created_at : ℕ

pub record ReservedEmailCode : Type 0 where
  pub code_hash : String
  pub key_id : String
  pub attempts : ℕ

abbrev new_code : EmailCodeRecord → CodeRow
new_code r = record {
  code_hash = r.code_hash;
  key_id = r.key_id;
  attempts = 0;
  attempts_reset_at = r.attempts_reset_at;
  expires_at = r.expires_at;
  created_at = r.created_at;
}

-- `ON CONFLICT(email) DO UPDATE`: the attempts and their deadline stay while the deadline is
-- later than the new record's `created_at`.
abbrev put_row : EmailCodeRecord → Option CodeRow → CodeRow
put_row r none = new_code r
put_row r (some old) = record (new_code r) {
  attempts = if ltb r.created_at old.attempts_reset_at then old.attempts else 0;
  attempts_reset_at =
      if ltb r.created_at old.attempts_reset_at then old.attempts_reset_at else r.attempts_reset_at;
}

unfoldable pub put_email_code : EmailCodeRecord → Table CodeRow → Table CodeRow
put_email_code r codes = put r.email (put_row r (find r.email codes)) codes

-- `attempts < ?3 AND expires_at > ?2`
abbrev may_try : ℕ → ℕ → CodeRow → Bool
may_try now max_attempts r = ltb r.attempts max_attempts && ltb now r.expires_at

abbrev tried : CodeRow → CodeRow
tried r = record r { attempts = r.attempts + 1 }

abbrev pub reserved_of : CodeRow → ReservedEmailCode
reserved_of r = record { code_hash = r.code_hash; key_id = r.key_id; attempts = r.attempts }

abbrev reserve_found :
    String → ℕ → ℕ → Table CodeRow → Option CodeRow → Option ReservedEmailCode × Table CodeRow
reserve_found email now max_attempts codes none = (none, codes)
reserve_found email now max_attempts codes (some r) =
    if may_try now max_attempts r
    then (some (reserved_of (tried r)), put email (tried r) codes)
    else (none, codes)

unfoldable pub reserve_email_code_attempt :
    String → ℕ → ℕ → Table CodeRow → Option ReservedEmailCode × Table CodeRow
reserve_email_code_attempt email now max_attempts codes =
    reserve_found email now max_attempts codes (find email codes)

abbrev consume_found : String → String → Table CodeRow → Option CodeRow → Bool × Table CodeRow
consume_found email code_hash codes none = (false, codes)
consume_found email code_hash codes (some r) =
    if r.code_hash == code_hash then (true, erase email codes) else (false, codes)

unfoldable pub consume_email_code : String → String → Table CodeRow → Bool × Table CodeRow
consume_email_code email code_hash codes = consume_found email code_hash codes (find email codes)

-- the cleanup's `DELETE … WHERE expires_at <= now`
abbrev is_expired : ℕ → String × CodeRow → Bool
is_expired now (_, r) = leb r.expires_at now

unfoldable pub cleanup_codes : ℕ → Table CodeRow → ℕ × Table CodeRow
cleanup_codes now codes =
    (count_where (is_expired now) codes, select_where (λ r. not (is_expired now r)) codes)
