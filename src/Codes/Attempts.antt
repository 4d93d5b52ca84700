-- ===== src/Codes/Attempts.antt =====
-- The attempt budget of an email code: neither concurrent guesses nor resends exceed it.
use workers_auth.Prelude.{
  ℕ, suc, ◌+◌, ◌≤◌, ◌<◌, String, ◌≡◌, refl, ◌||◌, Bool, true, false, none, some, List, [], ◌∷◌,
  arith, is_some, if◌then◌else◌, Table, find, put, find-put_self, find-erase_self, ◌==◌, erase,
}
use workers_auth.Codes.{
  CodeRow, EmailCodeRecord, put_email_code, put_row, may_try, tried, reserved_of,
  reserve_email_code_attempt, consume_email_code,
}

-- What requests do to the code of one address.
pub data CodeCall : Type 0 where
  send : EmailCodeRecord → CodeCall
  guess : (now : ℕ) → CodeCall

-- The attempts granted by a sequence of calls on `email`.
pub run_guesses : String → ℕ → List CodeCall → Table CodeRow → ℕ
run_guesses email most [] codes = 0
run_guesses email most (send r ∷ calls) codes =
    run_guesses email most calls (put_email_code (record r { email = email }) codes)
run_guesses email most (guess now ∷ calls) codes =
    let (slot, codes') = reserve_email_code_attempt email now most codes in
    let granted = run_guesses email most calls codes' in
    if is_some slot then suc granted else granted

-- Every code is sent before `deadline`.
abbrev SentBefore : ℕ → List CodeCall → Type 0
SentBefore deadline [] = Unit
SentBefore deadline (send r ∷ calls) = (r.created_at < deadline) × SentBefore deadline calls
SentBefore deadline (guess _ ∷ calls) = SentBefore deadline calls

guess_live :
    (email : String) (now most : ℕ) (codes : Table CodeRow) (r : CodeRow)
    → find email codes ≡ some r
    → reserve_email_code_attempt email now most codes ≡ (
        if may_try now most r
        then (some (reserved_of (tried r)), put email (tried r) codes)
        else (none, codes))
unfolding reserve_email_code_attempt
guess_live email now most codes r e = rw e

send_live :
    (email : String) (new : EmailCodeRecord) (codes : Table CodeRow) (r : CodeRow)
    → find email codes ≡ some r
    → put_email_code (record new { email = email }) codes
      ≡ put email (put_row (record new { email = email }) (some r)) codes
unfolding put_email_code
send_live email new codes r e = rw e

-- Until the deadline of a code's attempts, all guesses together are granted no more than what
-- is left of its attempts, however often the code is sent anew.
pub run_guesses_bound :
    (email : String) (most : ℕ) (calls : List CodeCall) (codes : Table CodeRow) (r : CodeRow)
    → find email codes ≡ some r
    → r.attempts ≤ most
    → SentBefore r.attempts_reset_at calls
    → run_guesses email most calls codes + r.attempts ≤ most
unfolding run_guesses
run_guesses_bound email most [] codes r e le h = omega arith
run_guesses_bound email most (send new ∷ calls) codes r e le (h, hs) = ground (
  arith,
  send_live email new codes r e,
  find-put_self email (put_row (record new { email = email }) (some r)) codes,
  run_guesses_bound email most calls
      (put email (put_row (record new { email = email }) (some r)) codes)
      (put_row (record new { email = email }) (some r)),
)
run_guesses_bound email most (guess now ∷ calls) codes r e le h = ground (
  arith,
  guess_live email now most codes r e,
  find-put_self email (tried r) codes,
  run_guesses_bound email most calls (put email (tried r) codes) (tried r),
  run_guesses_bound email most calls codes r,
)

-- The submissions of one code, each with the hash that it matched, and those that won.
pub run_consumes : String → List String → Table CodeRow → ℕ
run_consumes email [] codes = 0
run_consumes email (hash ∷ hashes) codes =
    let (won, codes') = consume_email_code email hash codes in
    let rest = run_consumes email hashes codes' in if won then suc rest else rest

run_consumes-none :
    (email : String) (hashes : List String) (codes : Table CodeRow)
    → find email codes ≡ none
    → run_consumes email hashes codes ≡ 0
unfolding run_consumes consume_email_code
run_consumes-none email [] codes e = refl
run_consumes-none email (hash ∷ hashes) codes e = rw e (run_consumes-none email hashes codes e)

-- Some submission carries the stored hash.
abbrev pub holds : String → List String → Bool
holds stored [] = false
holds stored (hash ∷ hashes) = stored == hash || holds stored hashes

consume_live :
    (email hash : String) (codes : Table CodeRow) (r : CodeRow)
    → find email codes ≡ some r
    → consume_email_code email hash codes
      ≡ (if r.code_hash == hash then (true, erase email codes) else (false, codes))
unfolding consume_email_code
consume_live email hash codes r e = rw e

-- Of the submissions that race for a code, one wins if any carries the stored hash, and none else.
pub run_consumes_once :
    (email : String) (hashes : List String) (codes : Table CodeRow) (r : CodeRow)
    → find email codes ≡ some r
    → run_consumes email hashes codes ≡ (if holds r.code_hash hashes then 1 else 0)
unfolding run_consumes
run_consumes_once email [] codes r e = refl
run_consumes_once email (hash ∷ hashes) codes r e = ground (
  arith,
  consume_live email hash codes r e,
  find-erase_self email codes,
  run_consumes-none email hashes (erase email codes),
  run_consumes_once email hashes codes r e,
)
