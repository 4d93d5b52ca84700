-- ===== src/Limits/Budget.antt =====
-- What `reserveRateLimit` and `refundRateLimit` promise: in one window a budget of `most` slots is
-- never overdrawn, however the requests interleave.
use workers_auth.Prelude.{
  ℕ, suc, ◌+◌, ◌≤◌, ◌<◌, String, ◌≡◌, none, some, List, [], ◌∷◌, arith, is_some, if◌then◌else◌,
  Table, find, put, find-put_self, ltb, eqb,
}
use workers_auth.Limits.{Window, hit_of, reserve_rate_limit, refund_rate_limit, refund_row}

-- A request's steps on one bucket, each at its own time.
pub data BudgetCall : Type 0 where
  reserve : (now : ℕ) → BudgetCall
  refund : (start : ℕ) → BudgetCall

module _ (bucket : String) (window most : ℕ) where
  -- The slots granted by a sequence of calls, and the table after it.
  pub run_budget : List BudgetCall → Table Window → ℕ × Table Window
  run_budget [] limits = (0, limits)
  run_budget (reserve now ∷ calls) limits =
      let (slot, limits') = reserve_rate_limit bucket window now most limits in
      let (granted, after) = run_budget calls limits' in
      ((if is_some slot then suc granted else granted), after)
  run_budget (refund start ∷ calls) limits =
      run_budget calls (refund_rate_limit bucket start limits)

-- Every reservation comes before `deadline`.
abbrev Before : ℕ → List BudgetCall → Type 0
Before deadline [] = Unit
Before deadline (reserve now ∷ calls) = (now < deadline) × Before deadline calls
Before deadline (refund _ ∷ calls) = Before deadline calls

-- The refunds of slots of the window that began at `start`.
abbrev pub refunds : (start : ℕ) → List BudgetCall → ℕ
refunds start [] = 0
refunds start (reserve _ ∷ calls) = refunds start calls
refunds start (refund began ∷ calls) = (if eqb start began then 1 else 0) + refunds start calls

abbrev taken : Window → Window
taken r = record r { count = r.count + 1 }

-- A live row is counted up below the most, and left alone at it.
reserve_live :
    (bucket : String) (window now most : ℕ) (limits : Table Window) (r : Window)
    → find bucket limits ≡ some r
    → now < r.window_start + window
    → reserve_rate_limit bucket window now most limits ≡ (
        if ltb r.count most
        then (some (hit_of (taken r)), put bucket (taken r) limits)
        else (none, limits))
unfolding reserve_rate_limit
reserve_live bucket window now most limits r e h = ground arith

refund_live :
    (bucket : String) (start : ℕ) (limits : Table Window) (r : Window)
    → find bucket limits ≡ some r
    → refund_rate_limit bucket start limits ≡ put bucket (refund_row start r) limits
unfolding refund_rate_limit
refund_live bucket start limits r e = rw e

-- From a live row within its budget, while its window lasts, the slots granted and those used
-- before exceed the budget by no more than the refunds of slots of this window, whatever the order
-- of the calls: a refund of an earlier window's slot gives nothing back.
pub run_budget_bound :
    (bucket : String) (window most deadline : ℕ) (calls : List BudgetCall) (limits : Table Window)
    (r : Window)
    → find bucket limits ≡ some r
    → r.count ≤ most
    → deadline ≤ r.window_start + window
    → Before deadline calls
    → (run_budget bucket window most calls limits).0 + r.count ≤ most + refunds r.window_start calls
unfolding run_budget
run_budget_bound bucket window most deadline [] limits r e le d h = omega arith
run_budget_bound bucket window most deadline (reserve now ∷ calls) limits r e le d (h, hs) =
    ground (
      arith,
      reserve_live bucket window now most limits r e,
      find-put_self bucket (taken r) limits,
      run_budget_bound bucket window most deadline calls (put bucket (taken r) limits) (taken r),
      run_budget_bound bucket window most deadline calls limits r,
    )
run_budget_bound bucket window most deadline (refund start ∷ calls) limits r e le d h = ground (
  arith,
  refund_live bucket start limits r e,
  find-put_self bucket (refund_row start r) limits,
  run_budget_bound bucket window most deadline calls (put bucket (refund_row start r) limits)
      (refund_row start r),
)
