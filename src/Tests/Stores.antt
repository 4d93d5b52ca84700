-- ===== src/Tests/Stores.antt =====
-- The theorems about the device-auth store at concrete rows.
use workers_auth.Prelude.{
  Bool, ℕ, ◌+◌, ◌≤◌, ◌≡◌, refl, true, false, none, some, List, [], ◌∷◌, arith, Table, find,
}
use workers_auth.Limits.{Window}
use workers_auth.Limits.Budget.{BudgetCall, run_budget, refunds, run_budget_bound}
use workers_auth.Codes.{CodeRow, EmailCodeRecord}
use workers_auth.Codes.Attempts.{CodeCall, run_guesses, run_guesses_bound}
use workers_auth.Guards.{GuardRow}
use workers_auth.Guards.Lockout.{GuardCall, run_attempts, failures, run_attempts_bound}
use workers_auth.Devices.{DeviceRecord}
use workers_auth.Creds.{CredentialRow, pin, other_material}
use workers_auth.Store.{
  Store, ReplaceCredentialOptions, ReplaceCredentialResult, replace_credential,
}
use workers_auth.Store.Replace.{IsReplaced, replace_credential_lem}

abbrev open_window : Window
open_window = record { window_start = 100; count = 2; failures = 1 }

abbrev limits : Table Window
limits = ("a", open_window) ∷ []

abbrev budget_calls : List BudgetCall
budget_calls =
    BudgetCall.reserve 110
    ∷ BudgetCall.reserve 120
    ∷ BudgetCall.refund 100
    ∷ BudgetCall.reserve 130
    ∷ []

run_budget_bound_example :
    (run_budget "a" 50 3 budget_calls limits).0 + open_window.count ≤ 3 + refunds 100 budget_calls
unfolding find
run_budget_bound_example =
    run_budget_bound "a" 50 3 140 budget_calls limits open_window refl (omega arith) (omega arith)
      (omega arith)

abbrev times : List ℕ
times = 200 ∷ 210 ∷ 220 ∷ []

abbrev checks : List (ℕ × Bool)
checks = (10, true) ∷ (20, false) ∷ []

abbrev code : CodeRow
code = record {
  code_hash = "h";
  key_id = "k";
  attempts = 1;
  attempts_reset_at = 700;
  expires_at = 700;
  created_at = 100;
}

abbrev codes : Table CodeRow
codes = ("ann@x.io", code) ∷ []

abbrev resend : EmailCodeRecord
resend = record {
  email = "ann@x.io";
  code_hash = "h2";
  key_id = "k";
  expires_at = 900;
  created_at = 300;
  attempts_reset_at = 900;
}

abbrev guesses : List CodeCall
guesses = CodeCall.guess 200 ∷ CodeCall.send resend ∷ CodeCall.guess 310 ∷ CodeCall.guess 320 ∷ []

run_guesses_bound_example : run_guesses "ann@x.io" 5 guesses codes + code.attempts ≤ 5
unfolding find
run_guesses_bound_example =
    run_guesses_bound "ann@x.io" 5 guesses codes code refl (omega arith) (omega arith)

abbrev guards : Table GuardRow
guards = ("ann", record { failed_count = 3; locked_at = some 50; updated_at = 50 }) ∷ []

abbrev logins : List GuardCall
logins = GuardCall.attempt 60 ∷ GuardCall.lock 60 ∷ GuardCall.attempt 70 ∷ []

run_attempts_bound_example :
    (run_attempts "ann" 3 logins guards).0 + failures (find "ann" guards) ≤ 3
unfolding find
run_attempts_bound_example = run_attempts_bound "ann" 3 logins guards (omega arith) (omega arith)

abbrev pub device : DeviceRecord
device = record {
  device_id = "d1";
  account_id = "ann";
  email = "ann@x.io";
  secret_hash = "s";
  label = none;
  created_at = 10;
  last_used_at = 10;
  idle_expires_at = 100;
  absolute_expires_at = 150;
  revoked_at = none;
}

abbrev devices : List DeviceRecord
devices = device ∷ []

abbrev old_pin : CredentialRow
old_pin = record {
  credential_id = "c1";
  account_id = "ann";
  kind = pin;
  device_id = none;
  material = other_material;
  created_at = 20;
  updated_at = 20;
  last_used_at = some 40;
  revoked_at = none;
}

abbrev pub new_pin : CredentialRow
new_pin = record old_pin {
  credential_id = "c2";
  created_at = 60;
  updated_at = 60;
  last_used_at = none;
}

abbrev pub store : Store
store = record {
  limits = limits;
  codes = codes;
  devices = devices;
  creds = old_pin ∷ [];
  guards = guards;
}

abbrev pub change : ReplaceCredentialOptions
change = record { reset_guard = true; revoke_other_devices = some none }

replace_credential_lem_example :
    (result : ReplaceCredentialResult) × (after : Store) × (replace_credential new_pin change store
      ≡ some (result, after))
    × IsReplaced new_pin change store result after
replace_credential_lem_example =
    replace_credential_lem new_pin change store refl (λ account. ground arith)
