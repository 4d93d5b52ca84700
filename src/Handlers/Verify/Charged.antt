-- ===== src/Handlers/Verify/Charged.antt =====
-- What a verification costs that compares nothing.
use workers_auth.Prelude.{ℕ, ◌*◌, ◌≡◌, none, inl, inr, arith, Option-cases}
use workers_auth.Limits.{Hit, reserve_rate_limit, read_rate_limit}
use workers_auth.Limits.Hits.{refund-reserve}
use workers_auth.Codes.{reserve_email_code_attempt}
use workers_auth.Web.{World, value, stop, Reply}
use workers_auth.Request.{Request}
use workers_auth.Handlers.{Settings}
use workers_auth.Handlers.Plumbing.{Budget}
use workers_auth.Handlers.Verify.{VerifyInput, reserve_slot, check_code, reserve_attempt, refund}

module _ (s : Settings) (req : Request) (now : ℕ) where
  -- A verification for an address that has no live code with attempts left is answered like a
  -- mismatch, and costs nothing: the budget's count is as before, and so are the codes.
  pub check_code-free :
      (input : VerifyInput) (budget : Budget) (slot : Hit) (world : World)
      → (reserve_slot s req now budget world).0 ≡ value slot
      → (reserve_email_code_attempt input.email now s.code_max_attempts world.store.codes).0 ≡ none
      → let out = check_code s req now input budget slot (reserve_slot s req now budget world).1 in
        let window = s.failure_window_sec * 1000 in
        (out.0 ≡ stop Reply.invalid_code)
        × ((read_rate_limit budget.failures window now out.1.store.limits).count
            ≡ (read_rate_limit budget.failures window now world.store.limits).count)
        × (out.1.store.codes ≡ world.store.codes)
  unfolding reserve_slot check_code reserve_attempt refund reserve_email_code_attempt
  check_code-free input budget slot world h e =
      elim (Option-cases
        (reserve_rate_limit budget.failures (s.failure_window_sec * 1000) now budget.max_failures
          world.store.limits).0) [
            | inl f ↦ ground arith
            | inr (hit, f) ↦ ground (
              arith,
              refund-reserve budget.failures (s.failure_window_sec * 1000) budget.max_failures now
                  world.store.limits hit f,
            )
          ]
