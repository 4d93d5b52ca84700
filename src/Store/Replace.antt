-- ===== src/Store/Replace.antt =====
-- What `replaceCredential` promises: the new credential, the old one's end, the cleared guard and
-- the other devices' revocation, all in one step.
use workers_auth.Prelude.{
  ℕ, String, ◌≡◌, refl, true, Option, none, some, List, ◌∷◌, ltb, is_some, if◌then◌else◌,
}
use workers_auth.Creds.{CredentialRow, get_active_credential, revoke_active}
use workers_auth.Creds.OnePin.{
  is_fresh, insert-retired, get_active-insert, revoke_active-found, IsOnePin, insert-IsOnePin,
}
use workers_auth.Devices.{DeviceRecord, revoke_all_devices}
use workers_auth.Guards.{reset_login_guard}
use workers_auth.Store.{
  Store, ReplaceCredentialOptions, ReplaceCredentialResult, replace_credential, revoke_others,
  reset_if,
}

-- What is expected of the other devices: they are revoked exactly if that was asked and a live
-- credential was replaced.
abbrev others_after : Option (Option String) → CredentialRow → Store → ℕ × List DeviceRecord
others_after none r s = (0, s.devices)
others_after (some except) r s =
    if is_some (get_active_credential r.account_id r.kind s.creds)
    then revoke_all_devices r.account_id r.updated_at except s.devices
    else (0, s.devices)

-- The result of a `replaceCredential` that commits, part by part.
pub record IsReplaced (r : CredentialRow) (options : ReplaceCredentialOptions) (s : Store)
    (result : ReplaceCredentialResult) (after : Store) : Type 0 where
  -- the account's active credential of the type is the new one
  pub active :
      get_active_credential r.account_id r.kind after.creds
      ≡ some (record r { last_used_at = none; revoked_at = none })
  -- `replaced` says whether there was one before
  pub reported : result.replaced ≡ is_some (get_active_credential r.account_id r.kind s.creds)
  pub others :
      (result.devices_revoked, after.devices) ≡ others_after options.revoke_other_devices r s
  -- the guard is cleared exactly if asked
  pub guard : after.guards ≡ (
      if options.reset_guard
      then (reset_login_guard r.account_id r.updated_at s.guards).1
      else s.guards)
  pub kept : (after.limits ≡ s.limits) × (after.codes ≡ s.codes)
  pub one_pin : IsOnePin after.creds

others_lem :
    (o : Option (Option String)) (r : CredentialRow) (s : Store)
    → revoke_others o r s ≡ others_after o r s
others_lem none r s = refl
others_lem (some except) r s = rw (revoke_active-found r.account_id r.kind r.updated_at s.creds)

-- With a fresh credential id, where no account has two live PINs, the transaction always commits:
-- the one-PIN index never refuses it, since the old PIN is revoked first. Its effects are those
-- that `IsReplaced` lists, and again no account has two live PINs.
pub replace_credential_lem :
    (r : CredentialRow) (options : ReplaceCredentialOptions) (s : Store)
    → is_fresh r.credential_id s.creds ≡ true
    → IsOnePin s.creds
    → (result : ReplaceCredentialResult) × (after : Store) × (replace_credential r options s
        ≡ some (result, after))
      × IsReplaced r options s result after
unfolding replace_credential
replace_credential_lem r options s h one =
    let others = revoke_others options.revoke_other_devices r s in
    (
      record {
        replaced = ltb 0 (revoke_active r.account_id r.kind r.updated_at s.creds).0;
        devices_revoked = others.0;
      },
      record s {
        devices = others.1;
        creds =
            record r { last_used_at = none; revoked_at = none }
            ∷ (revoke_active r.account_id r.kind r.updated_at s.creds).1;
        guards = reset_if options.reset_guard r s.guards;
      },
      rw (insert-retired r s.creds h, replace_credential),
      record {
        active = get_active-insert r s.creds;
        reported = revoke_active-found r.account_id r.kind r.updated_at s.creds;
        others = others_lem options.revoke_other_devices r s;
        guard = refl;
        kept = (refl, refl);
        one_pin = insert-IsOnePin r s.creds one;
      },
    )
