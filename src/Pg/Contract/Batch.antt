-- ===== src/Pg/Contract/Batch.antt =====
-- The operations of several statements: `replaceCredential` and the cleanup.
use workers_auth.Prelude.{
  ℕ, ◌≡◌, ◌∙◌, refl, ap, String, Bool, true, false, Option, none, some, List, [], ◌∷◌, arith, inl,
  inr, Bool-cases, Option-cases, if◌then◌else◌, ltb, find, count_where, first_where, is_some,
}
use workers_auth.Limits.{cleanup_limits}
use workers_auth.Codes.{cleanup_codes}
use workers_auth.Guards.{reset_login_guard}
use workers_auth.Devices.{DeviceRecord, cleanup_devices}
use workers_auth.Creds.{CredentialRow, revoke_active, insert_credential, clashes, cleanup_creds}
use workers_auth.Store.{
  Store, ReplaceCredentialOptions, replace_credential, revoke_others, reset_if, cleanup,
}
use workers_auth.Pg.{update}
use workers_auth.Pg.DeviceAuth.{is_current, revoke_all_devices_pg, revoked_at_}
use workers_auth.Pg.DeviceAuth.Replace.{
  Statement, counted_first, read_results, transaction, replace_credential_pg, revoke_current,
  insert_new, is_other, revoke_other_devices, clear_guard, guard_reset, lock, statements,
  cleanup_pg,
}
use workers_auth.Pg.Contract.Rows.{
  update_rows-after, length-update_rows, update_rows-and, first-count, delete_rows_lem,
}
use workers_auth.Pg.Contract.Single.{revoke_all-same}

-- The first statement, where it is present.
others-same :
    (r : CredentialRow) (except : Option String) (s : Store)
    → revoke_other_devices r except s
      ≡ some (
        (revoke_others (some except) r s).0,
        record s { devices = (revoke_others (some except) r s).1 },
      )
unfolding revoke_active revoke_all_devices_pg
others-same r except s =
    let exists = is_some (first_where (is_current r.account_id r.kind) s.creds) in
    let split =
      update_rows-and (is_other r.account_id except) exists (revoked_at_ r.updated_at) s.devices in
    elim (Bool-cases (ltb 0 (count_where (is_current r.account_id r.kind) s.creds))) [
      | inl e ↦
          rw (split, first-count (is_current r.account_id r.kind) s.creds, e)
            (ap (λ (x : ℕ × List DeviceRecord). some (x.0, record s { devices = x.1 }))
              (revoke_all-same r.account_id r.updated_at except s.devices))
      | inr e ↦ rw (split, first-count (is_current r.account_id r.kind) s.creds, e)
    ]

-- The revocation of the live credential.
current-same :
    (r : CredentialRow) (s : Store)
    → revoke_current r s
      ≡ some (
        (revoke_active r.account_id r.kind r.updated_at s.creds).0,
        record s { creds = (revoke_active r.account_id r.kind r.updated_at s.creds).1 },
      )
unfolding revoke_active
current-same r s = rw (length-update_rows, update_rows-after)

abbrev inserted : Option (List CredentialRow) → Store → Option (ℕ × Store)
inserted none s = none
inserted (some creds) s = some (0, record s { creds = creds })

insert-same :
    (r : CredentialRow) (s : Store) → insert_new r s ≡ inserted (insert_credential r s.creds) s
unfolding insert_credential
insert-same r s = elim (Option-cases (first_where (clashes r) s.creds)) [
  | inl e ↦ rw (e, insert_new)
  | inr (c, e) ↦ rw (e, insert_new)
]

clear-same :
    (r : CredentialRow) (s : Store)
    → clear_guard r s ≡ some (0, record s { guards = reset_if true r s.guards })
unfolding reset_login_guard update
clear-same r s = elim (Option-cases (find r.account_id s.guards)) [
  | inl e ↦ rw e
  | inr (g, e) ↦ rw e
]

-- A transaction goes on where a statement succeeds, and ends where it fails.
step_on :
    (statement : Statement) (rest : List Statement) (n : ℕ) (s s' : Store)
    → statement s ≡ some (n, s')
    → transaction (statement ∷ rest) s ≡ counted_first n (transaction rest s')
unfolding transaction
step_on statement rest n s s' e = rw e

abbrev tail_counts : Bool → List ℕ
tail_counts reset = 0 ∷ (if reset then 0 ∷ [] else [])

abbrev finished :
    Bool → CredentialRow → Store → Option (List CredentialRow) → Option (List ℕ × Store)
finished reset r s none = none
finished reset r s (some creds) =
    some (tail_counts reset, record s { creds = creds; guards = reset_if reset r s.guards })

step_off :
    (statement : Statement) (rest : List Statement) (s : Store)
    → statement s ≡ none
    → transaction (statement ∷ rest) s ≡ none
unfolding transaction
step_off statement rest s e = rw e

-- The insert and, where it is wanted, the reset of the guard.
tail-same :
    (r : CredentialRow) (reset : Bool) (s : Store)
    → transaction (insert_new r ∷ guard_reset reset r) s
      ≡ finished reset r s (insert_credential r s.creds)
unfolding transaction
tail-same r reset s = elim (Option-cases (insert_credential r s.creds)) [
  | inl e ↦
      let failed = insert-same r s ∙ ap (λ o. inserted o s) e in
      rw e (step_off (insert_new r) (guard_reset reset r) s failed)
  | inr (creds, e) ↦ rw e (stored reset creds (insert-same r s ∙ ap (λ o. inserted o s) e))
]
  where
    stored :
        (b : Bool) (creds : List CredentialRow)
        → insert_new r s ≡ some (0, record s { creds = creds })
        → transaction (insert_new r ∷ guard_reset b r) s ≡ finished b r s (some creds)
    stored false creds done = step_on (insert_new r) [] 0 s (record s { creds = creds }) done
    stored true creds done =
        let after = record s { creds = creds } in
        step_on (insert_new r) (clear_guard r ∷ []) 0 s after done
        ∙ ap (counted_first 0) (
            step_on (clear_guard r) [] 0 after (record after { guards = reset_if true r s.guards })
              (clear-same r after))

module _ (r : CredentialRow) (reset : Bool) where
  abbrev body : List Statement
  body = revoke_current r ∷ insert_new r ∷ guard_reset reset r

  abbrev revoked_creds : Store → Store
  revoked_creds s = record s { creds = (revoke_active r.account_id r.kind r.updated_at s.creds).1 }

  abbrev body_result : Store → Option (List ℕ × Store)
  body_result s =
      counted_first (revoke_active r.account_id r.kind r.updated_at s.creds).0
        (finished reset r (revoked_creds s) (insert_credential r (revoked_creds s).creds))

  body-same : (s : Store) → transaction body s ≡ body_result s
  body-same s =
      let n = (revoke_active r.account_id r.kind r.updated_at s.creds).0 in
      step_on (revoke_current r) (insert_new r ∷ guard_reset reset r) n s (revoked_creds s)
        (current-same r s)
      ∙ ap (counted_first n) (tail-same r reset (revoked_creds s))

  read-same :
      (others : Option (Option String)) (s : Store)
      → read_results
          (record { reset_guard = reset; revoke_other_devices = others })
          (transaction
            (statements r (record { reset_guard = reset; revoke_other_devices = others }))
            s)
        ≡ replace_credential r (record { reset_guard = reset; revoke_other_devices = others }) s
  unfolding replace_credential
  read-same none s =
      let ran = step_on (lock r) body 1 s s refl ∙ ap (counted_first 1) (body-same s) in
      elim (Option-cases (insert_credential r (revoked_creds s).creds)) [
        | inl e ↦ rw (ran, e, replace_credential)
        | inr (creds, e) ↦ rw (ran, e, replace_credential)
      ]
  read-same (some except) s =
      let n = (revoke_others (some except) r s).0 in
      let after = record s { devices = (revoke_others (some except) r s).1 } in
      let ran =
        step_on (lock r) (revoke_other_devices r except ∷ body) 1 s s refl
        ∙ ap (counted_first 1) (
            step_on (revoke_other_devices r except) body n s after (others-same r except s)
            ∙ ap (counted_first n) (body-same after)) in
      elim (Option-cases (insert_credential r (revoked_creds s).creds)) [
        | inl e ↦ rw (ran, e, replace_credential)
        | inr (creds, e) ↦ rw (ran, e, replace_credential)
      ]

-- All of it or none, as in D1.
pub replace-same :
    (r : CredentialRow) (options : ReplaceCredentialOptions) (s : Store)
    → replace_credential_pg r options s ≡ replace_credential r options s
unfolding replace_credential_pg
replace-same r options s = read-same r options.reset_guard options.revoke_other_devices s

pub cleanup-same : (now horizon : ℕ) (s : Store) → cleanup_pg now horizon s ≡ cleanup now horizon s
unfolding cleanup_pg cleanup cleanup_codes cleanup_devices cleanup_creds cleanup_limits
cleanup-same now horizon s = simp delete_rows_lem (ground arith)
