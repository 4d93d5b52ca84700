-- ===== src/Pg/DeviceAuth/Replace.antt =====
-- `replaceCredential` and `cleanup` of store/pg/device-auth.ts: lists of statements over the whole
-- store. Of a statement's result the code reads how many rows it returned.
use workers_auth.Prelude.{
  ℕ, ◌+◌, String, Bool, true, ◌&&◌, Option, none, some, List, [], ◌∷◌, ◌++◌, leb, ltb, is_none,
  is_some, if◌then◌else◌, ◌==◌, length, get_or, first_where,
}
use workers_auth.Limits.{Window}
use workers_auth.Codes.{CodeRow}
use workers_auth.Devices.{DeviceRecord}
use workers_auth.Creds.{CredentialRow, pin, same_type}
use workers_auth.Store.{Store, ReplaceCredentialOptions, ReplaceCredentialResult}
use workers_auth.Pg.{update, update_rows}
use workers_auth.Pg.DeviceAuth.{is_current, is_distinct, revoked_at_, always}

-- `none` is an error. A statement that fails ends the transaction with no effect.
abbrev pub Statement : Type 0
Statement = Store → Option (ℕ × Store)

abbrev pub counted_first : ℕ → Option (List ℕ × Store) → Option (List ℕ × Store)
counted_first n none = none
counted_first n (some (ns, s)) = some (n ∷ ns, s)

-- `db.transaction(statements)`
unfoldable pub transaction : List Statement → Store → Option (List ℕ × Store)
transaction [] s = some ([], s)
transaction (statement ∷ statements) s = elim (statement s) [
  | none ↦ none
  | some (n, s') ↦ counted_first n (transaction statements s')
]

-- The three statements of `replaceCredentialStatements`. The first takes the account's advisory
-- lock, a `SELECT` of one row: the transactions of one account are serial.
abbrev pub lock : CredentialRow → Statement
lock r s = some (1, s)

abbrev pub revoke_current : CredentialRow → Statement
revoke_current r s =
    let (rows, creds) =
      update_rows (is_current r.account_id r.kind)
        (λ c. record c { revoked_at = some r.updated_at; updated_at = r.updated_at }) s.creds in
    some (length rows, record s { creds = creds })

-- The primary key, and the partial unique index on live PINs.
abbrev pub conflicts : CredentialRow → CredentialRow → Bool
conflicts r c =
    if c.credential_id == r.credential_id
    then true
    else same_type r.kind pin && is_current r.account_id pin c

abbrev pub insert_new : CredentialRow → Statement
insert_new r s = elim (first_where (conflicts r) s.creds) [
  | none ↦
      some (0, record s { creds = record r { last_used_at = none; revoked_at = none } ∷ s.creds })
  | some _ ↦ none
]

abbrev pub is_other : String → Option String → DeviceRecord → Bool
is_other account except d =
    d.account_id == account && (is_none d.revoked_at && is_distinct except d.device_id)

-- It revokes only where a live credential of the type exists.
abbrev pub revoke_other_devices : CredentialRow → Option String → Statement
revoke_other_devices r except s =
    let exists = is_some (first_where (is_current r.account_id r.kind) s.creds) in
    let (rows, devices) =
      update_rows (λ d. is_other r.account_id except d && exists) (revoked_at_ r.updated_at)
        s.devices in
    some (length rows, record s { devices = devices })

abbrev pub clear_guard : CredentialRow → Statement
clear_guard r s = some (
  0,
  record s {
    guards =
        (update r.account_id always
          (λ g. record { failed_count = 0; locked_at = none; updated_at = r.updated_at })
          s.guards).1;
  },
)

abbrev others : Option (Option String) → CredentialRow → List Statement
others none r = []
others (some except) r = revoke_other_devices r except ∷ []

abbrev pub guard_reset : Bool → CredentialRow → List Statement
guard_reset reset r = if reset then clear_guard r ∷ [] else []

abbrev pub statements : CredentialRow → ReplaceCredentialOptions → List Statement
statements r options =
    lock r
    ∷ (others options.revoke_other_devices r
        ++ (revoke_current r ∷ insert_new r ∷ guard_reset options.reset_guard r))

-- `statements.length` before the revocation of the credential is added
abbrev revoke_at : ReplaceCredentialOptions → ℕ
revoke_at options = 1 + (if is_some options.revoke_other_devices then 1 else 0)

abbrev pub read_results :
    ReplaceCredentialOptions → Option (List ℕ × Store) → Option (ReplaceCredentialResult × Store)
read_results options none = none
read_results options (some (results, s)) = some (
  record {
    replaced = ltb 0 (get_or results (revoke_at options) 0);
    devices_revoked = if is_some options.revoke_other_devices then get_or results 1 0 else 0;
  },
  s,
)

unfoldable pub replace_credential_pg :
    CredentialRow → ReplaceCredentialOptions → Store → Option (ReplaceCredentialResult × Store)
unfolding transaction
replace_credential_pg r options s = read_results options (transaction (statements r options) s)

-- `DELETE … WHERE …`: the number of rows removed and the rest.
unfoldable pub delete_rows : {A : Type 0} → (A → Bool) → List A → ℕ × List A
delete_rows holds [] = (0, [])
delete_rows holds (r ∷ rs) =
    let (n, rest) = delete_rows holds rs in if holds r then (n + 1, rest) else (n, r ∷ rest)

-- The six deletes, in order.
unfoldable pub cleanup_pg : ℕ → ℕ → Store → ℕ × Store
unfolding delete_rows
cleanup_pg now horizon s =
    let (n1, codes) = delete_rows (λ (c : String × CodeRow). leb c.1.expires_at now) s.codes in
    let (n2, devices) =
      delete_rows (λ (d : DeviceRecord). leb d.absolute_expires_at now) s.devices in
    let (n3, devices') = delete_rows (λ (d : DeviceRecord). leb d.idle_expires_at now) devices in
    let (n4, devices'') = delete_rows (λ (d : DeviceRecord). is_some d.revoked_at) devices' in
    let (n5, creds) = delete_rows (λ (c : CredentialRow). is_some c.revoked_at) s.creds in
    let (n6, limits) =
      delete_rows (λ (l : String × Window). leb (l.1.window_start + horizon) now) s.limits in
    (
      0 + n1 + n2 + n3 + n4 + n5 + n6,
      record s { codes = codes; devices = devices''; creds = creds; limits = limits },
    )
